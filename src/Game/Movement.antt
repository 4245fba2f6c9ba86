-- ===== src/Game/Movement.antt =====
-- `GameScene::placeUnitAtClick` and `GameScene::movingUnit`: a selected unit is placed where the
-- mouse was clicked.
pub mod Places
use networking_game.Base.{
  Bool, true, false, ◌&&◌, ◌||◌, List, [], ◌∷◌, ◌++◌, if◌then◌else◌, ℤ, pos, ltb_ℤ,
}
use networking_game.Text.{Text, codes}
use networking_game.Sprite.{mouse_on_sprite}
use networking_game.Squad.{SquadUnit, reduce_action_points, set_has_changed}
use networking_game.Game.State.{
  GameScene, Slot, infantry_enemy, sniper_enemy, artillery_enemy, tank_enemy, infantry_ally,
  sniper_ally, artillery_ally, tank_ally, units_vec, change, call, play2d,
}
use networking_game.Game.Grid.{grid_snapping}

-- The folder of the sounds of the units.
abbrev pub sounds : Text
sounds = codes "..\\..\\Resources\\SoundGS\\UnitSounds\\"

-- The order in which the tests of `placeUnitAtClick` and `attackClickedUnit` name the units.
abbrev pub enemy_order : List Slot
enemy_order = infantry_enemy ∷ artillery_enemy ∷ tank_enemy ∷ sniper_enemy ∷ []

abbrev pub ally_order : List Slot
ally_order = infantry_ally ∷ artillery_ally ∷ tank_ally ∷ sniper_ally ∷ []

-- The loop over `units_vec` that sets `sprite_on_target`.
unfoldable pub sprite_on_target : ℤ → ℤ → List Slot → (Slot → SquadUnit) → Bool
sprite_on_target xpos ypos [] units = false
sprite_on_target xpos ypos (s ∷ ss) units =
    let rest = sprite_on_target xpos ypos ss units in
    if mouse_on_sprite xpos ypos (units s).object_sprite then true else rest

-- `xpos > 40 && xpos < 1200`
abbrev pub between_columns : ℤ → Bool
between_columns xpos = ltb_ℤ (pos 40) xpos && ltb_ℤ xpos (pos 1200)

abbrev pub any_selected : (Slot → Bool) → Bool
any_selected f =
    f infantry_enemy
    || f tank_enemy
    || f sniper_enemy
    || f artillery_enemy
    || f infantry_ally
    || f tank_ally
    || f sniper_ally
    || f artillery_ally

module _ {F : Type 0} where
  -- `movingUnit`
  unfoldable pub moving_unit : Slot → ℤ → ℤ → GameScene F → GameScene F
  moving_unit s xpos ypos g =
      let placed : SquadUnit → SquadUnit =
        λ u. record u { object_sprite = grid_snapping g.selected xpos ypos u.object_sprite } in
      let g1 = change s placed g in
      let g2 = call (play2d (sounds ++ (g1.units s).move_sound)) g1 in
      change s (λ u. set_has_changed true (reduce_action_points (pos 1) u)) g2

  -- The test of one unit: the click lies in its move area, it is selected, it has an action point
  -- left, and the click lies between the outer columns.
  unfoldable pub may_move : ℤ → ℤ → GameScene F → Slot → Bool
  may_move xpos ypos g s =
      mouse_on_sprite xpos ypos (g.units s).move_sprite
      && g.selected s
      && ltb_ℤ (pos 0) (g.units s).action_points
      && between_columns xpos

  -- The chain of `else if`: the first unit that passes its test moves.
  unfoldable pub move_first : ℤ → ℤ → List Slot → GameScene F → GameScene F
  unfolding may_move moving_unit
  move_first xpos ypos [] g = g
  move_first xpos ypos (s ∷ ss) g =
      let rest = move_first xpos ypos ss g in
      if may_move xpos ypos g s then moving_unit s xpos ypos g else rest

  -- `placeUnitAtClick`
  unfoldable pub place_unit_at_click : ℤ → ℤ → GameScene F → GameScene F
  unfolding move_first sprite_on_target
  place_unit_at_click xpos ypos g =
      if sprite_on_target xpos ypos units_vec g.units
      then g
      else if any_selected g.selected
      then move_first xpos ypos ally_order (move_first xpos ypos enemy_order g)
      else g
