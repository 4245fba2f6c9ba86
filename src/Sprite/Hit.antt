-- ===== src/Sprite/Hit.antt =====
-- Which points a sprite covers, and when two sprites touch.
use networking_game.Base.{ℤ, ◌+ℤ◌, ◌≤ℤ◌, pos, +ℤ_parts, arith, ◌≡◌, ◌↔◌, true, if◌then◌else◌, leb_ℤ}
use networking_game.Sprite.{Sprite, sprite_on_sprite}

-- The point lies in the closed rectangle of the sprite.
pub record Covers (s : Sprite) (x y : ℤ) : Type 0 where
  pub left : s.x_pos ≤ℤ x
  pub right : x ≤ℤ s.x_pos +ℤ s.width
  pub top : s.y_pos ≤ℤ y
  pub bottom : y ≤ℤ s.y_pos +ℤ s.height

abbrev max_ℤ : ℤ → ℤ → ℤ
max_ℤ a b = if leb_ℤ a b then b else a

-- The later left end of two overlapping intervals lies in both.
interval_meet :
    (a w b v : ℤ)
    → pos 0 ≤ℤ w
    → pos 0 ≤ℤ v
    → a ≤ℤ b +ℤ v
    → b ≤ℤ a +ℤ w
    → let m = max_ℤ a b in (a ≤ℤ m) × (b ≤ℤ m) × (m ≤ℤ a +ℤ w) × (m ≤ℤ b +ℤ v)
interval_meet a w b v hw hv h k = ground (arith, +ℤ_parts a w, +ℤ_parts b v)

-- What the collision test found, interval by interval.
sprite_on_sprite_parts :
    (a b : Sprite)
    → sprite_on_sprite a b ≡ true
    → (a.x_pos ≤ℤ b.x_pos +ℤ b.width)
      × (b.x_pos ≤ℤ a.x_pos +ℤ a.width)
      × (a.y_pos ≤ℤ b.y_pos +ℤ b.height)
      × (b.y_pos ≤ℤ a.y_pos +ℤ a.height)
unfolding sprite_on_sprite
sprite_on_sprite_parts a b h = ground arith

-- Two sprites whose sides are not negative collide exactly when some point lies in both.
pub sprite_on_sprite_iff :
    (a b : Sprite)
    → pos 0 ≤ℤ a.width
    → pos 0 ≤ℤ a.height
    → pos 0 ≤ℤ b.width
    → pos 0 ≤ℤ b.height
    → (sprite_on_sprite a b ≡ true) ↔ ((x : ℤ) × (y : ℤ) × Covers a x y × Covers b x y)
unfolding sprite_on_sprite
sprite_on_sprite_iff a b wa ha wb hb = (
  λ h.
      let (p, q, r, t) = sprite_on_sprite_parts a b h in
      let (x1, x2, x3, x4) = interval_meet a.x_pos a.width b.x_pos b.width wa wb p q in
      let (y1, y2, y3, y4) = interval_meet a.y_pos a.height b.y_pos b.height ha hb r t in
      (
        max_ℤ a.x_pos b.x_pos,
        max_ℤ a.y_pos b.y_pos,
        record { left = x1; right = x3; top = y1; bottom = y3 },
        record { left = x2; right = x4; top = y2; bottom = y4 },
      ),
  λ (x, y, ca, cb). ground arith,
)
