-- ===== src/Game/Selection.antt =====
-- `GameScene::setSelected` and `GameScene::deselectAllUnits`.
pub mod Exclusive
pub mod Fair
use networking_game.Base.{Bool, true, false, not, ◌&&◌, List, [], ◌∷◌, if◌then◌else◌, ℤ}
use networking_game.Sprite.{mouse_on_sprite}
use networking_game.Game.State.{
  GameScene, Slot, infantry_enemy, sniper_enemy, artillery_enemy, tank_enemy, infantry_ally,
  sniper_ally, artillery_ally, tank_ally, slot_eq, write, PlayerTurn, player1, player2, turn_eq,
}

-- The units of each team, in the order in which `setSelected` asks for them.
abbrev pub team_units : PlayerTurn → List Slot
team_units player1 = infantry_enemy ∷ tank_enemy ∷ sniper_enemy ∷ artillery_enemy ∷ []
team_units player2 = infantry_ally ∷ tank_ally ∷ sniper_ally ∷ artillery_ally ∷ []
team_units _ = []

-- The four flags of a team: one is set, the other three are cleared.
select_only : Slot → List Slot → (Slot → Bool) → Slot → Bool
select_only s [] selected = selected
select_only s (t ∷ ts) selected = select_only s ts (write t (slot_eq s t) selected)

-- The block for one unit: a click on its sprite selects it alone of its team, or deselects it.
click_unit : List Slot → (Slot → Bool) → Bool → Slot → Slot → Bool
unfolding select_only
click_unit team selected hit s =
    if hit
    then (if not (selected s) then select_only s team selected else write s false selected)
    else selected

module _ {F : Type 0} where
  -- The four blocks of a team, one after the other.
  click_units : List Slot → ℤ → ℤ → List Slot → GameScene F → GameScene F
  unfolding click_unit
  click_units team xpos ypos [] g = g
  click_units team xpos ypos (s ∷ ss) g = click_units team xpos ypos ss (record g {
    selected = click_unit team g.selected (mouse_on_sprite xpos ypos (g.units s).object_sprite) s;
  })

  -- One of the two outer tests of `setSelected`.
  select_for : PlayerTurn → ℤ → ℤ → GameScene F → GameScene F
  unfolding click_units
  select_for p xpos ypos g =
      if turn_eq g.assigned_team p && turn_eq g.player_turn p
      then click_units (team_units p) xpos ypos (team_units p) g
      else g

  -- `setSelected`
  unfoldable pub set_selected : ℤ → ℤ → GameScene F → GameScene F
  unfolding select_for
  set_selected xpos ypos g = select_for player2 xpos ypos (select_for player1 xpos ypos g)

  -- `deselectAllUnits`
  unfoldable pub deselect_all_units : GameScene F → GameScene F
  deselect_all_units g = record g { selected = λ s. false }
