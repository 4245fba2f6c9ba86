-- ===== src/Game/Attack.antt =====
-- `GameScene::attackClickedUnit` and `GameScene::attackingOtherUnit`: a selected unit attacks what
-- stands where the mouse was clicked.
pub mod Hits
pub mod Aim
pub mod Once
use networking_game.Base.{
  Bool, true, false, xor, ◌&&◌, ◌||◌, List, [], ◌∷◌, ◌++◌, if◌then◌else◌, ℤ, pos, leb_ℤ, some,
  Result, ok, ◌>>=◌,
}
use networking_game.Sprite.{mouse_on_sprite}
use networking_game.Squad.{take_damage, reduce_action_points}
use networking_game.Game.State.{GameScene, Slot, units_vec, change, call, play2d, write, Floats}
use networking_game.Game.Movement.{
  sprite_on_target, between_columns, enemy_order, ally_order, sounds,
}

-- One of these flags is set.
abbrev pub any_of : List Slot → (Slot → Bool) → Bool
any_of [] f = false
any_of (s ∷ ss) f = f s || any_of ss f

module _ {F : Type 0} ⦃fl : Floats F⦄ where
  -- What follows `takeDamage` for a unit that was hit.
  unfoldable pub after_hit : Slot → ℤ → ℤ → GameScene F → GameScene F
  after_hit attacker xpos ypos g =
      let g1 = call (play2d (sounds ++ (g.units attacker).attack_sound)) g in
      let g2 = change attacker (reduce_action_points (pos 2)) g1 in
      record g2 {
        bullet_x = fl.of_int (g2.units attacker).x_pos;
        bullet_y = fl.of_int (g2.units attacker).y_pos;
        clicked_x = xpos;
        clicked_y = ypos;
        attacking_unit_bullet = some attacker;
        bullet_active = true;
      }

  -- The body of the loop of `attackingOtherUnit`: the unit `s` is hit if the click is on its sprite
  -- and it belongs to the other side.
  unfoldable pub attack_one : Slot → ℤ → ℤ → Slot → GameScene F → Result (GameScene F)
  unfolding after_hit
  attack_one attacker xpos ypos s g =
      if mouse_on_sprite xpos ypos (g.units s).object_sprite
        && xor (g.units attacker).is_enemy (g.units s).is_enemy
      then (take_damage (g.units s) (g.units attacker) >>= λ u.
          ok (after_hit attacker xpos ypos (record g { units = write s u g.units })))
      else ok g

  -- `attackingOtherUnit`, from a place in `units_vec` on
  unfoldable pub attacking_other_unit :
      Slot → ℤ → ℤ → List Slot → GameScene F → Result (GameScene F)
  unfolding attack_one
  attacking_other_unit attacker xpos ypos [] g = ok g
  attacking_other_unit attacker xpos ypos (s ∷ ss) g =
      attack_one attacker xpos ypos s g >>= attacking_other_unit attacker xpos ypos ss

  -- The test of one unit: the click lies in its attack area, it is selected, it has two action
  -- points left, and the click lies between the outer columns.
  unfoldable pub may_attack : ℤ → ℤ → GameScene F → Slot → Bool
  may_attack xpos ypos g s =
      mouse_on_sprite xpos ypos (g.units s).attack_sprite
      && g.selected s
      && leb_ℤ (pos 2) (g.units s).action_points
      && between_columns xpos

  -- The chain of `else if`: the first unit that passes its test attacks.
  attack_first : ℤ → ℤ → List Slot → GameScene F → Result (GameScene F)
  unfolding may_attack attacking_other_unit
  attack_first xpos ypos [] g = ok g
  attack_first xpos ypos (s ∷ ss) g =
      let rest = attack_first xpos ypos ss g in
      if may_attack xpos ypos g s then attacking_other_unit s xpos ypos units_vec g else rest

  -- `attackClickedUnit`
  unfoldable pub attack_clicked_unit : ℤ → ℤ → GameScene F → Result (GameScene F)
  unfolding attack_first sprite_on_target
  attack_clicked_unit xpos ypos g =
      if sprite_on_target xpos ypos units_vec g.units
      then ((if any_of enemy_order g.selected then attack_first xpos ypos enemy_order g else ok g)
          >>= λ g1.
              if any_of ally_order g1.selected then attack_first xpos ypos ally_order g1 else ok g1)
      else ok g
