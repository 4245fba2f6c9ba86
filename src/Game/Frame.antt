-- ===== src/Game/Frame.antt =====
-- `GameScene::update`, `unitsUpdate`, `bulletMovement`, `gameSceneReset` and `clickHandler`: a
-- frame of the game, and a click.
pub mod Leaving
pub mod Fair
pub mod Steps
pub mod Steady
use networking_game.Base.{
  Bool, true, false, not, ◌&&◌, ◌||◌, List, [], ◌∷◌, if◌then◌else◌, ℤ, pos, negsuc, eqb_ℤ, rem,
  Result, ok, ◌>>=◌,
}
use networking_game.Text.{codes}
use networking_game.Packet.{packet}
use networking_game.Squad.{update}
use networking_game.Client.{kill_thread, set_user_id, reset_ready_to_send, reset_update_complete}
use networking_game.Game.State.{
  GameScene, Slot, units_vec, change, send_packet, call, stop_all_sounds, unregister_click,
  unregister_key, disconnect, remove_two_scenes, PlayerTurn, no_player, player1, player2, turn_eq,
  stay, to_menu, Floats,
}
use networking_game.Game.Selection.{set_selected}
use networking_game.Game.Movement.{place_unit_at_click}
use networking_game.Game.Attack.{attack_clicked_unit}
use networking_game.Game.Turn.{next_turn_pressed, update_reconnectee}
use networking_game.Game.Network.{unit_network_update}
use networking_game.Game.Chat.{chat_update}

module _ {F : Type 0} where
  -- The two tests at the head of `update` that give the player a team.
  unfoldable pub assign_team : GameScene F → GameScene F
  assign_team g =
      let user_id = g.client_component.user_id in
      let even = eqb_ℤ (rem user_id (pos 2)) (pos 0) in
      let open_team = turn_eq g.assigned_team no_player && not (eqb_ℤ user_id (negsuc 0)) in
      if even && open_team
      then record g { assigned_team = player1 }
      else if not even && open_team
      then record g { assigned_team = player2 }
      else g

  -- `gameSceneReset`
  game_scene_reset : GameScene F → GameScene F
  game_scene_reset g =
      let g1 = record g { client_component = kill_thread g.client_component } in
      call disconnect (call stop_all_sounds (call unregister_key (call unregister_click g1)))

  -- The transition to the menu.
  unfoldable pub leave : GameScene F → GameScene F
  unfolding game_scene_reset
  leave g = elim g.next_scene [
    | stay ↦ g
    | to_menu ↦
        let g1 = call remove_two_scenes (game_scene_reset (record g { last_scene = false })) in
        record g1 { next_scene = stay }
  ]

  -- The player's turn and team as the other client has sent them.
  unfoldable pub restore : GameScene F → GameScene F
  restore g =
      let c = g.client_component in
      let g1 =
        if eqb_ℤ c.player_turn (pos 1)
        then record g { player_turn = player1 }
        else if eqb_ℤ c.player_turn (pos 2)
        then record g { player_turn = player2 }
        else g in
      if eqb_ℤ c.assigned_player (pos 1)
      then record g1 { assigned_team = player1; client_component = set_user_id (pos 0) c }
      else if eqb_ℤ c.assigned_player (pos 2)
      then record g1 { assigned_team = player2; client_component = set_user_id (pos 1) c }
      else g1

  -- The loop of `unitsUpdate`.
  unfoldable pub update_units : List Slot → GameScene F → GameScene F
  update_units [] g = g
  update_units (s ∷ ss) g = update_units ss (change s update g)

module _ {F : Type 0} ⦃fl : Floats F⦄ where
  -- `bulletMovement`; the unit that it is given is not used.
  unfoldable pub bullet_movement : ℤ → ℤ → GameScene F → GameScene F
  bullet_movement xpos ypos g =
      if g.bullet_active
      then (let dx = fl.sub (fl.of_int xpos) g.bullet_x in
          let dy = fl.sub (fl.of_int ypos) g.bullet_y in
          let magnitude = fl.sqrt (fl.add (fl.mul dx dx) (fl.mul dy dy)) in
          if fl.lt magnitude (fl.of_int (pos 1))
          then record g { bullet_active = false }
          else record g {
            bullet_x = fl.add g.bullet_x (fl.div dx magnitude);
            bullet_y = fl.add g.bullet_y (fl.div dy magnitude);
          })
      else g

  -- `unitsUpdate`
  unfoldable pub units_update : GameScene F → GameScene F
  unfolding update_units bullet_movement
  units_update g = let g1 = update_units units_vec g in bullet_movement g1.clicked_x g1.clicked_y g1

  -- The branch of `update` for a scene in the lobby or in a reconnection.
  unfoldable pub reconnecting : ℤ → GameScene F → Result (GameScene F)
  unfolding restore units_update update_reconnectee
  reconnecting junk_turn g =
      let c = g.client_component in
      if c.is_reconnecting && c.data_sender && c.ready_to_send
      then (let g1 = update_reconnectee junk_turn g in
          ok (record g1 { client_component = reset_ready_to_send g1.client_component }))
      else if c.is_reconnecting && c.update_complete
      then (unit_network_update (restore g) >>= λ g1.
          let g2 = send_packet (packet (codes "resume") [] []) (units_update g1) in
          ok (record g2 { client_component = reset_update_complete g2.client_component }))
      else ok g

  -- The two tests whether it is the other player's turn.
  abbrev pub others_turn : GameScene F → Bool
  others_turn g =
      turn_eq g.player_turn player1 && turn_eq g.assigned_team player2
      || turn_eq g.player_turn player2 && turn_eq g.assigned_team player1

  unfoldable pub listen : PlayerTurn → PlayerTurn → GameScene F → Result (GameScene F)
  listen turn team g =
      if turn_eq g.player_turn turn && turn_eq g.assigned_team team
      then unit_network_update g
      else ok g

  -- The branch of `update` for a scene in which the game is on.
  unfoldable pub playing : F → GameScene F → Result (GameScene F)
  unfolding units_update listen
  playing ms g =
      if not g.game_finished
      then (listen player1 player2 (units_update (chat_update ms g)) >>= listen player2 player1)
      else ok g

  -- `update`
  unfoldable pub update_scene : ℤ → F → GameScene F → Result (GameScene F)
  unfolding assign_team leave reconnecting playing
  update_scene junk_turn ms g =
      let g1 = leave (assign_team (record g { scene_full_init = true })) in
      if g1.client_component.is_lobby || g1.client_component.is_reconnecting
      then reconnecting junk_turn g1
      else playing ms g1

  -- `clickHandler`. `pressed`: the action is BUTTON_PRESSED; the position is cut off to an `int`.
  unfoldable pub click_handler : Bool → Bool → ℤ → ℤ → GameScene F → Result (GameScene F)
  click_handler junk pressed xpos ypos g =
      if g.last_scene
        && not g.client_component.is_lobby
        && not g.client_component.is_reconnecting
        && pressed
      then (let g1 = place_unit_at_click xpos ypos (next_turn_pressed junk xpos ypos g) in
          attack_clicked_unit xpos ypos g1 >>= λ g2. ok (set_selected xpos ypos g2))
      else ok g
