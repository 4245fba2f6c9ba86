-- ===== src/Game/Attack/Hits.antt =====
-- What an attack does to the units of both sides.
use networking_game.Base.{
  Bool, true, false, xor, List, [], ◌∷◌, ℤ, pos, ◌≡◌, refl, sym, ◌∙◌, ap, subst, arith, Bool-cases,
  inl, inr, ok, err, Result-cases,
}
use networking_game.Sprite.{mouse_on_sprite}
use networking_game.Squad.{SquadUnit, take_damage, reduce_action_points}
use networking_game.Squad.Damage.{take_damage-is_enemy}
use networking_game.Game.State.{GameScene, Slot, slot_eq, write, Floats}
use networking_game.Game.State.Slots.{write-ne, slot_eq_iff}
use networking_game.Game.Attack.{attack_one, attacking_other_unit, after_hit}

same_side : (a b : Bool) → b ≡ a → xor a b ≡ true → false ≡ true
unfolding xor
same_side true true h e = e
same_side true false h e = h
same_side false true h e = sym h
same_side false false h e = e

module _ {F : Type 0} ⦃fl : Floats F⦄ (attacker : Slot) (xpos ypos : ℤ) where
  -- No unit changes sides, and of the attacker's side no other unit changes at all.
  pub record Spared (g g' : GameScene F) : Type 0 where
    pub sides : (t : Slot) → (g'.units t).is_enemy ≡ (g.units t).is_enemy
    pub friends :
        (t : Slot)
        → (g.units t).is_enemy ≡ (g.units attacker).is_enemy
        → slot_eq attacker t ≡ false
        → g'.units t ≡ g.units t

  Spared-refl : (g : GameScene F) → Spared g g
  Spared-refl g = record { sides = λ t. refl; friends = λ t e n. refl }

  Spared-trans : (g h k : GameScene F) → Spared g h → Spared h k → Spared g k
  Spared-trans g h k r s = record {
    sides = λ t. s.sides t ∙ r.sides t;
    friends = λ t e n. s.friends t (r.sides t ∙ e ∙ sym (r.sides attacker)) n ∙ r.friends t e n;
  }

  hit-Spared :
      (s : Slot) (g : GameScene F) (u : SquadUnit)
      → take_damage (g.units s) (g.units attacker) ≡ ok u
      → xor (g.units attacker).is_enemy (g.units s).is_enemy ≡ true
      → Spared g (after_hit attacker xpos ypos (record g { units = write s u g.units }))
  unfolding after_hit
  hit-Spared s g u h e =
      let kept = take_damage-is_enemy (g.units s) (g.units attacker) u h in
      record {
        sides = λ t.
            ground (arith, kept, slot_eq_iff attacker t, slot_eq_iff s t, slot_eq_iff s attacker);
        friends = λ t same n. elim (Bool-cases (slot_eq s t)) [
          | inl m ↦
              let here : s ≡ t = (slot_eq_iff s t).0 m in
              let own : (g.units s).is_enemy ≡ (g.units attacker).is_enemy =
                ap (λ v. (g.units v).is_enemy) here ∙ same in
              let absurd = same_side (g.units attacker).is_enemy (g.units s).is_enemy own e in cc
          | inr m ↦
              write-ne attacker t (reduce_action_points (pos 2) (write s u g.units attacker))
                (write s u g.units) n
              ∙ write-ne s t u g.units m
        ];
      }

  attack_one-Spared :
      (s : Slot) (g g' : GameScene F) → attack_one attacker xpos ypos s g ≡ ok g' → Spared g g'
  unfolding attack_one
  attack_one-Spared s g g' h =
      elim (Bool-cases (mouse_on_sprite xpos ypos (g.units s).object_sprite)) [
        | inl on ↦ elim (Bool-cases (xor (g.units attacker).is_enemy (g.units s).is_enemy)) [
          | inl foe ↦ elim (Result-cases (take_damage (g.units s) (g.units attacker))) [
            | inl (u, e) ↦
                let out : ok (after_hit attacker xpos ypos (record g { units = write s u g.units }))
                    ≡ ok g' =
                  rw (on, foe, e) at h in
                let same : after_hit attacker xpos ypos (record g { units = write s u g.units })
                    ≡ g' =
                  cc in
                subst (λ k. Spared g k) same (hit-Spared s g u e foe)
            | inr (f, e) ↦ let out : err f ≡ ok g' = rw (on, foe, e) at h in cc
          ]
          | inr foe ↦
              let out : ok g ≡ ok g' = rw (on, foe) at h in
              let same : g ≡ g' = cc in subst (λ k. Spared g k) same (Spared-refl g)
        ]
        | inr off ↦
            let out : ok g ≡ ok g' = rw off at h in
            let same : g ≡ g' = cc in subst (λ k. Spared g k) same (Spared-refl g)
      ]

  -- An attack that is carried out leaves all other units of the attacker's side as they were, and
  -- no unit changes sides, wherever the mouse is and whatever units it is on.
  pub attacking_other_unit-Spared :
      (ss : List Slot) (g g' : GameScene F)
      → attacking_other_unit attacker xpos ypos ss g ≡ ok g'
      → Spared g g'
  unfolding attacking_other_unit
  attacking_other_unit-Spared [] g g' h =
      let same : g ≡ g' = cc in subst (λ k. Spared g k) same (Spared-refl g)
  attacking_other_unit-Spared (s ∷ ss) g g' h =
      elim (Result-cases (attack_one attacker xpos ypos s g)) [
        | inl (k, e) ↦
            Spared-trans g k g' (attack_one-Spared s g k e)
              (attacking_other_unit-Spared ss k g' (rw e at h))
        | inr (f, e) ↦ cc
      ]
