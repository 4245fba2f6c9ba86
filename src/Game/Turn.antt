-- ===== src/Game/Turn.antt =====
-- `GameScene::nextTurnPressed`, `endgame_check`, `whichTurn`, `whichPlayer` and
-- `updateReconnectee`: what a player sends to the other one.
pub mod Handover
pub mod Cleared
use networking_game.Base.{
  Bool, true, false, ◌&&◌, List, [], ◌∷◌, ◌++◌, if◌then◌else◌, ℤ, pos, negsuc, Option, none, some,
}
use networking_game.Text.{Text, codes}
use networking_game.Text.Decimal.{to_string}
use networking_game.Packet.{CustomPacket, packet}
use networking_game.Packet.UnitData.{unit_text}
use networking_game.Sprite.{mouse_on_sprite}
use networking_game.Squad.{SquadUnit, reset_action_points, set_has_changed}
use networking_game.Game.State.{
  GameScene, Slot, infantry_enemy, sniper_enemy, artillery_enemy, tank_enemy, infantry_ally,
  sniper_ally, artillery_ally, tank_ally, units_vec, change, send_packet, PlayerTurn, no_player,
  player1, player2, turn_eq,
}
use networking_game.Game.Selection.{deselect_all_units}

-- The packet with the data of a unit: its name, the position of its sprite, its squad and health.
unfoldable pub unit_packet : SquadUnit → CustomPacket
unit_packet u =
    packet (codes "unit") []
      (unit_text u.ref_name u.object_sprite.x_pos u.object_sprite.y_pos u.squad_size u.health)

abbrev pub end_turn_packet : CustomPacket
end_turn_packet = packet (codes "unit") [] (codes "endturn&0&0&0&0&")

abbrev pub end_game_packet : ℤ → CustomPacket
end_game_packet victor =
    packet (codes "unit") [] (codes "endgame&" ++ to_string victor ++ codes "&0&0&0&")

-- The switch of `player_turn` at the end of a turn.
unfoldable pub other_player : PlayerTurn → PlayerTurn
other_player no_player = no_player
other_player player1 = player2
other_player player2 = player1

-- The units that `endgame_check` asks for, by the player's team: those of the other one.
abbrev pub others_of : PlayerTurn → List Slot
others_of player1 = infantry_ally ∷ artillery_ally ∷ sniper_ally ∷ tank_ally ∷ []
others_of player2 = infantry_enemy ∷ artillery_enemy ∷ sniper_enemy ∷ tank_enemy ∷ []
others_of no_player = []

module _ {F : Type 0} where
  -- The first loop of `nextTurnPressed`.
  reset_all : List Slot → GameScene F → GameScene F
  reset_all [] g = g
  reset_all (s ∷ ss) g = reset_all ss (change s reset_action_points g)

  -- The second loop: each changed unit is sent, and is unchanged from then on.
  unfoldable pub send_changed : List Slot → GameScene F → GameScene F
  unfolding unit_packet
  send_changed [] g = g
  send_changed (s ∷ ss) g = send_changed ss (
      if (g.units s).has_changed
      then change s (set_has_changed false) (send_packet (unit_packet (g.units s)) g)
      else g)

  -- The other side is dead.
  pub all_dead : List Slot → GameScene F → Bool
  all_dead [] g = true
  all_dead (s ∷ ss) g = (g.units s).is_dead && all_dead ss g

  wins : PlayerTurn → List Slot → GameScene F → GameScene F × Option Bool
  unfolding all_dead
  wins winner others g =
      if all_dead others g
      then (record g { game_finished = true; winning_player = winner }, some true)
      else (g, none)

  check : PlayerTurn → GameScene F → GameScene F × Option Bool
  unfolding wins
  check player1 g = wins player1 (others_of player1) g
  check player2 g = wins player2 (others_of player2) g
  check no_player g = (g, some false)

  -- `endgame_check`. `none`: the function ends without a `return`, so what its caller gets is not
  -- determined. That is so whenever a player has a team and the other side is not all dead.
  unfoldable pub endgame_check : GameScene F → GameScene F × Option Bool
  unfolding check
  endgame_check g = check g.assigned_team g

  -- The packet "endgame", if the check says that the game has ended.
  announce : Bool → GameScene F → GameScene F
  announce ended g =
      if ended
      then send_packet (end_game_packet (if turn_eq g.winning_player player1 then pos 1 else pos 2))
          g
      else g

  -- The rest of `nextTurnPressed`, from the result of `endgame_check` on.
  finish : Bool → GameScene F × Option Bool → GameScene F
  unfolding announce other_player
  finish junk (g1, ended) =
      let g2 = announce (elim ended [ none ↦ junk | some b ↦ b ]) g1 in
      let g3 = send_packet end_turn_packet g2 in
      record g3 { player_turn = other_player g3.player_turn }

  -- `nextTurnPressed`. `junk` is what the caller gets of an `endgame_check` that does not return
  -- a value.
  unfoldable pub next_turn_pressed : Bool → ℤ → ℤ → GameScene F → GameScene F
  unfolding reset_all send_changed endgame_check finish deselect_all_units
  next_turn_pressed junk xpos ypos g =
      if turn_eq g.player_turn g.assigned_team && mouse_on_sprite xpos ypos g.next_turn_button
      then finish junk
          (endgame_check (send_changed units_vec (reset_all units_vec (deselect_all_units g))))
      else g

  -- `whichTurn`. `none`: no `return` is reached.
  unfoldable pub which_turn : GameScene F → Option ℤ
  which_turn g = elim g.player_turn [
    | player1 ↦ some (pos 1)
    | player2 ↦ some (pos 2)
    | no_player ↦ none
  ]

  -- `whichPlayer`
  unfoldable pub which_player : GameScene F → ℤ
  which_player g = elim g.assigned_team [ player1 ↦ pos 1 | player2 ↦ pos 2 | no_player ↦ negsuc 0 ]

  unfoldable pub send_all_units : List Slot → GameScene F → GameScene F
  unfolding unit_packet
  send_all_units [] g = g
  send_all_units (s ∷ ss) g = send_all_units ss (send_packet (unit_packet (g.units s)) g)

  -- `updateReconnectee`: the team of the opponent, whose turn it is, all units, and the end.
  -- `junk_turn` is the value of a `whichTurn` that does not return one.
  unfoldable pub update_reconnectee : ℤ → GameScene F → GameScene F
  unfolding which_turn send_all_units
  update_reconnectee junk_turn g =
      let opponent_team = if turn_eq g.assigned_team player1 then pos 2 else pos 1 in
      let game_turn : ℤ = elim (which_turn g) [ none ↦ junk_turn | some n ↦ n ] in
      let g1 = send_packet (packet (codes "player") [] (to_string opponent_team)) g in
      let g2 = send_packet (packet (codes "turn") [] (to_string game_turn)) g1 in
      let g3 = send_all_units units_vec g2 in
      send_packet (packet (codes "update_complete") [] []) g3
