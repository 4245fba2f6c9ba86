-- ===== src/Squad/Settle.antt =====
-- What `Unit::update` does when nothing happens between two frames.
use networking_game.Base.{
  ◌≡◌, refl, sym, ap, ap₂, ◌∙◌, arith, Bool, true, false, not, ◌&&◌, ◌||◌, pos, negsuc, leb_ℤ,
  if◌then◌else◌, Bool-cases, inl, inr,
}
use networking_game.Squad.Update.{update_frame, update-is_dead}
use networking_game.Squad.{SquadUnit, update, follow, follow_side, redraw, labels, areas, die}

abbrev arrived : SquadUnit → SquadUnit
arrived u = record u { x_pos = u.object_sprite.x_pos; y_pos = u.object_sprite.y_pos }

-- Whoever is drawn in place and is not dead.
abbrev drawn : SquadUnit → SquadUnit
drawn u = follow_side (labels (arrived u))

follow_side-twice : (u : SquadUnit) → follow_side (follow_side u) ≡ follow_side u
unfolding follow_side follow areas
follow_side-twice u = ground arith

labels-follow_side : (u : SquadUnit) → labels (follow_side (labels u)) ≡ follow_side (labels u)
unfolding labels follow_side follow areas
labels-follow_side u = ground arith

arrived-drawn : (u : SquadUnit) → arrived (drawn u) ≡ drawn u
unfolding labels follow_side follow areas
arrived-drawn u = ground arith

drawn-is_dead :
    (u : SquadUnit) → ((drawn u).is_dead ≡ u.is_dead) × ((drawn u).squad_size ≡ u.squad_size)
unfolding labels follow_side follow areas
drawn-is_dead u = ground arith

-- A squad that dies in this update.
abbrev pub dies : SquadUnit → Bool
dies u = leb_ℤ u.squad_size (pos 0) && not u.is_dead

-- A squad that is off the board.
abbrev pub off_board : SquadUnit → SquadUnit
off_board u = record u { x_pos = negsuc 199; y_pos = negsuc 199 }

alive_lem :
    (u : SquadUnit) → u.is_dead ≡ false → leb_ℤ u.squad_size (pos 0) ≡ false → update u ≡ drawn u
unfolding update redraw
alive_lem u d h = rw (h, d) refl

drawn-twice : (u : SquadUnit) → drawn (drawn u) ≡ drawn u
drawn-twice u =
    ap (λ v. follow_side (labels v)) (arrived-drawn u)
    ∙ ap follow_side (labels-follow_side (arrived u))
    ∙ follow_side-twice (labels (arrived u))

alive_twice :
    (u : SquadUnit)
    → u.is_dead ≡ false
    → leb_ℤ u.squad_size (pos 0) ≡ false
    → update (update u) ≡ update u
alive_twice u d h =
    let same = drawn-is_dead u in
    ap update (alive_lem u d h)
    ∙ alive_lem (drawn u) (same.0 ∙ d) (ap (λ n. leb_ℤ n (pos 0)) same.1 ∙ h)
    ∙ drawn-twice u
    ∙ sym (alive_lem u d h)

dead_lem : (u : SquadUnit) → u.is_dead ≡ true → update u ≡ arrived u
unfolding update redraw
dead_lem u d = ground arith

dying_lem :
    (u : SquadUnit)
    → u.is_dead ≡ false
    → leb_ℤ u.squad_size (pos 0) ≡ true
    → update u ≡ die (arrived u)
unfolding update redraw die
dying_lem u d h = ground arith

second : (u : SquadUnit) → update (update u) ≡ (if dies u then off_board (update u) else update u)
unfolding die
second u = elim (Bool-cases u.is_dead) [
  | inl d ↦
      let one = dead_lem u d in
      let two : update (update u) ≡ update u = ap update one ∙ dead_lem (arrived u) d ∙ sym one in
      ground (arith, two)
  | inr d ↦ elim (Bool-cases (leb_ℤ u.squad_size (pos 0))) [
    | inl h ↦
        let one = dying_lem u d h in
        let two : update (update u) ≡ off_board (update u) =
          ap update one ∙ dead_lem (die (arrived u)) refl ∙ ap off_board (sym one) in
        ground (arith, two)
    | inr h ↦ let two = alive_twice u d h in ground (arith, two)
  ]
]

-- When nothing happens to a squad between its updates, the second one changes nothing, except that
-- it gives a squad that died in the first one its position off the board, and from then on no
-- update changes anything.
pub update-settles :
    (u : SquadUnit)
    → (update (update u) ≡ (if dies u then off_board (update u) else update u))
      × (update (update (update u)) ≡ update (update u))
update-settles u = (
  second u,
  second (update u) ∙ ap (λ b. if b then off_board (update (update u)) else update (update u)) done,
)
  where
    done : dies (update u) ≡ false
    done =
        let size = ap (λ v. leb_ℤ v.squad_size (pos 0)) (update_frame u) in
        let dead = update-is_dead u in
        let now : dies (update u)
            ≡ (leb_ℤ u.squad_size (pos 0) && not (u.is_dead || leb_ℤ u.squad_size (pos 0))) =
          ap₂ (λ a b. a && not b) size dead in
        now ∙ never (leb_ℤ u.squad_size (pos 0)) u.is_dead
      where
        never : (b d : Bool) → (b && not (d || b)) ≡ false
        never b d = ground arith
