-- ===== src/Squad/Update.antt =====
-- What `Unit::update` does to a squad: when it dies, what it leaves alone, where its areas go.
use networking_game.Base.{
  ◌≡◌, refl, ap, ◌∙◌, arith, Bool, true, false, not, ◌&&◌, ◌||◌, ℤ, pos, negsuc, ◌+ℤ◌, ◌-ℤ◌, leb_ℤ,
  if◌then◌else◌,
}
use networking_game.Sprite.{Sprite, move_to}
use networking_game.Squad.{SquadUnit, update, follow, follow_side, redraw, labels, areas, die, when}

-- A sprite of this size and kind at the place of another.
abbrev pub placed_as : Sprite → Sprite → Sprite
placed_as p s = move_to p.x_pos p.y_pos s

-- The squad `u` with its sprites at the places of those of `v`.
abbrev pub moved_as : SquadUnit → SquadUnit → SquadUnit
moved_as v u = record u {
  object_sprite = placed_as v.object_sprite u.object_sprite;
  attack_sprite = placed_as v.attack_sprite u.attack_sprite;
  move_sprite = placed_as v.move_sprite u.move_sprite;
  hp_diamond = placed_as v.hp_diamond u.hp_diamond;
  unit_count_box = placed_as v.unit_count_box u.unit_count_box;
}

-- `v` is `u` but for the places of its sprites.
abbrev pub Redrawn : SquadUnit → SquadUnit → Type 0
Redrawn u v = v ≡ moved_as v u

follow-Redrawn : (p q r : ℤ) (u : SquadUnit) → Redrawn u (follow p q r u)
unfolding follow
follow-Redrawn p q r u = ground arith

follow_side-Redrawn : (u : SquadUnit) → Redrawn u (follow_side u)
unfolding follow_side
follow_side-Redrawn u = ground (
  arith,
  follow-Redrawn u.x_pos (u.x_pos +ℤ pos 600) u.x_pos u,
  follow-Redrawn (u.x_pos -ℤ pos 720) (u.x_pos -ℤ pos 840) (u.x_pos -ℤ pos 120) u,
)

Redrawn-trans : (u v w : SquadUnit) → Redrawn u v → Redrawn v w → Redrawn u w
Redrawn-trans u v w p q = q ∙ ap (moved_as w) p

redraw-Redrawn : (u : SquadUnit) → Redrawn u (redraw u)
unfolding redraw labels
redraw-Redrawn u = both (not u.is_dead)
  where
    both : (b : Bool) → Redrawn u (when b follow_side (when b labels u))
    both true =
        Redrawn-trans u (labels u) (follow_side (labels u)) refl (follow_side-Redrawn (labels u))
    both false = refl

abbrev arrived : SquadUnit → SquadUnit
arrived u = record u { x_pos = u.object_sprite.x_pos; y_pos = u.object_sprite.y_pos }

abbrev marked : SquadUnit → SquadUnit
unfolding die
marked u = when (leb_ℤ u.squad_size (pos 0) && not u.is_dead) die (arrived u)

redraw-marked : (u : SquadUnit) → update u ≡ redraw (marked u)
unfolding update die
redraw-marked u = refl

-- An update takes the position from the sprite, marks the squad dead if no member is left, and
-- changes nothing else but the places of its five sprites, each of which keeps its size.
pub update_frame :
    (u : SquadUnit)
    → update u ≡ record u {
      x_pos = u.object_sprite.x_pos;
      y_pos = u.object_sprite.y_pos;
      is_dead = u.is_dead || leb_ℤ u.squad_size (pos 0);
      object_sprite = placed_as (update u).object_sprite u.object_sprite;
      attack_sprite = placed_as (update u).attack_sprite u.attack_sprite;
      move_sprite = placed_as (update u).move_sprite u.move_sprite;
      hp_diamond = placed_as (update u).hp_diamond u.hp_diamond;
      unit_count_box = placed_as (update u).unit_count_box u.unit_count_box;
    }
unfolding update die
update_frame u =
    redraw-Redrawn (marked u)
    ∙ spread (leb_ℤ u.squad_size (pos 0) && not u.is_dead)
    ∙ ap (with_dead (update u)) (joined (leb_ℤ u.squad_size (pos 0)) u.is_dead)
  where
    with_dead : SquadUnit → Bool → SquadUnit
    with_dead v b = moved_as v (record (arrived u) { is_dead = b })

    spread :
        (b : Bool)
        → moved_as (update u) (when b die (arrived u))
          ≡ with_dead (update u) (if b then true else u.is_dead)
    spread true = refl
    spread false = refl

    joined : (b d : Bool) → (if b && not d then true else d) ≡ (d || b)
    joined b d = ground arith

pub update-is_dead :
    (u : SquadUnit) → (update u).is_dead ≡ (u.is_dead || leb_ℤ u.squad_size (pos 0))
update-is_dead u = ap (λ v. v.is_dead) (update_frame u)

-- A squad that has just died is taken off the board; a squad that was dead is left where it is.
pub update_dead :
    (u : SquadUnit)
    → (u.is_dead || leb_ℤ u.squad_size (pos 0)) ≡ true
    → (update u).object_sprite
      ≡ (if u.is_dead then u.object_sprite else move_to (negsuc 199) (negsuc 199) u.object_sprite)
unfolding update labels die
update_dead u h = ground arith

-- The sprite of a unit in its place, which the labels and the areas leave there.
record InPlace (u v : SquadUnit) : Type 0 where
  x : v.object_sprite.x_pos ≡ u.object_sprite.x_pos
  y : v.object_sprite.y_pos ≡ u.object_sprite.y_pos

follow-InPlace :
    (p q r : ℤ) (u : SquadUnit)
    → u.x_pos ≡ u.object_sprite.x_pos
    → u.y_pos ≡ u.object_sprite.y_pos
    → InPlace u (follow p q r u)
unfolding follow areas
follow-InPlace p q r u e f = record { x = ground arith; y = ground arith }

follow_side-InPlace :
    (u : SquadUnit)
    → u.x_pos ≡ u.object_sprite.x_pos
    → u.y_pos ≡ u.object_sprite.y_pos
    → InPlace u (follow_side u)
unfolding follow_side
follow_side-InPlace u e f = choose u.is_enemy
  where
    choose :
        (b : Bool)
        → InPlace u (
            if b
            then follow u.x_pos (u.x_pos +ℤ pos 600) u.x_pos u
            else follow (u.x_pos -ℤ pos 720) (u.x_pos -ℤ pos 840) (u.x_pos -ℤ pos 120) u)
    choose true = follow-InPlace u.x_pos (u.x_pos +ℤ pos 600) u.x_pos u e f
    choose false =
        follow-InPlace (u.x_pos -ℤ pos 720) (u.x_pos -ℤ pos 840) (u.x_pos -ℤ pos 120) u e f

redraw-InPlace :
    (u : SquadUnit)
    → u.x_pos ≡ u.object_sprite.x_pos
    → u.y_pos ≡ u.object_sprite.y_pos
    → InPlace u (redraw u)
unfolding redraw labels
redraw-InPlace u e f = both (not u.is_dead)
  where
    both : (b : Bool) → InPlace u (when b follow_side (when b labels u))
    both true = let i = follow_side-InPlace (labels u) e f in record { x = i.x; y = i.y }
    both false = record { x = refl; y = refl }

-- A squad of which anyone is left stays where it is.
pub update_place :
    (u : SquadUnit)
    → leb_ℤ u.squad_size (pos 0) ≡ false
    → ((update u).object_sprite.x_pos ≡ u.object_sprite.x_pos)
      × ((update u).object_sprite.y_pos ≡ u.object_sprite.y_pos)
unfolding update
update_place u h = let i = redraw-InPlace (arrived u) refl refl in rw h (i.x, i.y)
