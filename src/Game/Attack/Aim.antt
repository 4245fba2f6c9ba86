-- ===== src/Game/Attack/Aim.antt =====
-- An attack changes neither the selection nor the turn, and marks the units that it hits.
use networking_game.Base.{
  ◌≡◌, refl, sym, ◌∙◌, true, false, xor, ◌&&◌, pos, List, [], ◌∷◌, if◌then◌else◌, ℤ, Result, ok,
  Bool-cases, Result-cases, inl, inr, Ensures,
}
use networking_game.Sprite.{mouse_on_sprite}
use networking_game.Squad.{SquadUnit, take_damage, reduce_action_points}
use networking_game.Game.State.{GameScene, Slot, units_vec, Floats, write, change}
use networking_game.Squad.Damage.{take_damage-has_changed}
use networking_game.Game.Network.Work.{
  Work, Work-refl, Work-trans, Work-bind, write-Work, reduce-Work,
}
use networking_game.Game.Movement.{sprite_on_target, enemy_order, ally_order}
use networking_game.Game.Attack.{
  any_of, attack_clicked_unit, attack_first, attacking_other_unit, attack_one, after_hit,
  may_attack,
}

module _ {F : Type 0} ⦃fl : Floats F⦄ (xpos ypos : ℤ) where
  hit-Work :
      (a s : Slot) (g : GameScene F) (u : SquadUnit)
      → take_damage (g.units s) (g.units a) ≡ ok u
      → Work g (after_hit a xpos ypos (record g { units = write s u g.units }))
  unfolding after_hit
  hit-Work a s g u e =
      let (marked, name) = take_damage-has_changed (g.units s) (g.units a) u e in
      let g1 = record g { units = write s u g.units } in
      let w =
        Work-trans g g1 (change a (reduce_action_points (pos 2)) g1)
          (write-Work g s u (λ h. absurd (different (sym marked ∙ h))) name)
          (reduce-Work g1 a (pos 2)) in
      record {
        units = w.units;
        names = w.names;
        turn = refl;
        finished = refl;
        winner = refl;
        team = refl;
        selected = refl;
        client = refl;
      }
    where
      different : true ≡ false → ⊥
      different e = cc

  attack_one-Work : (a s : Slot) (g : GameScene F) → Ensures (Work g) (attack_one a xpos ypos s g)
  unfolding attack_one
  attack_one-Work a s g =
      elim (Bool-cases (
        mouse_on_sprite xpos ypos (g.units s).object_sprite
        && xor (g.units a).is_enemy (g.units s).is_enemy)) [
          | inl hit ↦ elim (Result-cases (take_damage (g.units s) (g.units a))) [
            | inl (u, e) ↦ rw (hit, e) (hit-Work a s g u e)
            | inr (f, e) ↦ rw (hit, e) tt
          ]
          | inr off ↦ rw off (Work-refl g)
        ]

  attacking_other_unit-Work :
      (a : Slot) (ss : List Slot) (g : GameScene F)
      → Ensures (Work g) (attacking_other_unit a xpos ypos ss g)
  unfolding attacking_other_unit
  attacking_other_unit-Work a [] g = Work-refl g
  attacking_other_unit-Work a (s ∷ ss) g =
      Work-bind g (attack_one a xpos ypos s g) (attacking_other_unit a xpos ypos ss)
        (attack_one-Work a s g) (attacking_other_unit-Work a ss)

  attack_first-Work :
      (ss : List Slot) (g : GameScene F) → Ensures (Work g) (attack_first xpos ypos ss g)
  unfolding attack_first
  attack_first-Work [] g = Work-refl g
  attack_first-Work (s ∷ ss) g = elim (Bool-cases (may_attack xpos ypos g s)) [
    | inl e ↦ rw e (attacking_other_unit-Work s units_vec g)
    | inr e ↦ rw e (attack_first-Work ss g)
  ]

  -- One of the two passes of `attackClickedUnit`.
  pass : List Slot → GameScene F → Result (GameScene F)
  pass ss g = if any_of ss g.selected then attack_first xpos ypos ss g else ok g

  pass-Work : (ss : List Slot) (g : GameScene F) → Ensures (Work g) (pass ss g)
  unfolding pass
  pass-Work ss g = elim (Bool-cases (any_of ss g.selected)) [
    | inl e ↦ rw e (attack_first-Work ss g)
    | inr e ↦ rw e (Work-refl g)
  ]

  pub attack_clicked_unit-Work :
      (g : GameScene F) → Ensures (Work g) (attack_clicked_unit xpos ypos g)
  unfolding attack_clicked_unit pass
  attack_clicked_unit-Work g = elim (Bool-cases (sprite_on_target xpos ypos units_vec g.units)) [
    | inl e ↦ rw e (
        Work-bind g (pass enemy_order g) (pass ally_order) (pass-Work enemy_order g)
          (pass-Work ally_order))
    | inr e ↦ rw e (Work-refl g)
  ]
