-- ===== src/Game/Grid.antt =====
-- `GameScene::gridSnapping` and `GameScene::isAUnitSelected`. The mouse position is whole, so the
-- comparisons of the quotient by 120 are those of the position, and its `floor` is that of a
-- division of whole numbers.
pub mod Cells
use networking_game.Base.{
  Bool, true, false, not, ◌&&◌, ◌||◌, if◌then◌else◌, ℤ, pos, ◌+ℤ◌, ◌-ℤ◌, ◌*ℤ◌, floor_div, ltb_ℤ,
}
use networking_game.Sprite.{Sprite, move_to}
use networking_game.Game.State.{
  Slot, infantry_enemy, sniper_enemy, artillery_enemy, tank_enemy, infantry_ally, sniper_ally,
  artillery_ally, tank_ally,
}

-- `isAUnitSelected`: one flag that is false makes the answer false.
unfoldable pub is_a_unit_selected : (Slot → Bool) → Bool
is_a_unit_selected selected =
    if not (selected infantry_ally)
      || not (selected tank_ally)
      || not (selected artillery_ally)
      || not (selected sniper_ally)
      || not (selected infantry_enemy)
      || not (selected tank_enemy)
      || not (selected artillery_enemy)
      || not (selected sniper_enemy)
    then false
    else true

snap_x : Bool → ℤ → ℤ
snap_x chosen xpos =
    let over_x_max = ltb_ℤ (pos 1200) (xpos -ℤ pos 40) in
    let current_xpos = floor_div (xpos -ℤ pos 40) 120 *ℤ pos 120 in
    if ltb_ℤ current_xpos (pos 0) && chosen
    then pos 40
    else if over_x_max && chosen
    then pos 1120
    else current_xpos +ℤ pos 40

snap_y : Bool → ℤ → ℤ
snap_y chosen ypos =
    let over_y_max = ltb_ℤ (pos 600) (ypos -ℤ pos 3) in
    let current_ypos = floor_div (ypos -ℤ pos 3) 120 *ℤ pos 120 in
    if ltb_ℤ current_ypos (pos 0) && chosen
    then pos 3
    else if over_y_max
    then pos 483
    else current_ypos +ℤ pos 3

-- `gridSnapping`
unfoldable pub grid_snapping : (Slot → Bool) → ℤ → ℤ → Sprite → Sprite
unfolding is_a_unit_selected snap_x snap_y
grid_snapping selected xpos ypos unit =
    let chosen = is_a_unit_selected selected in
    move_to (snap_x chosen xpos) (snap_y chosen ypos) unit
