-- ===== src/Game/Frame/Leaving.antt =====
-- The way back to the menu: what a frame asks of the scene manager.
use networking_game.Base.{
  Bool, true, false, List, [], ◌∷◌, ◌++◌, ◌≡◌, refl, subst, ap, ◌∙◌, arith, append_assoc,
  if◌then◌else◌, ℤ, Result, ok, err, ◌>>=◌, Result-cases, inl, inr, Bool-cases, Ensures, Ensures-ok,
  ◌&&◌, ◌||◌, not,
}
use networking_game.Text.{codes}
use networking_game.Packet.{packet}
use networking_game.Game.State.{
  GameScene, Slot, units_vec, Floats, send_packet, Call, PlayerTurn, turn_eq, player1, player2,
  SceneTransitions, stay, to_menu, remove_two_scenes, stop_all_sounds, unregister_key,
  unregister_click, disconnect,
}
use networking_game.Game.Network.{unit_network_update}
use networking_game.Game.Network.Updates.{unit_network_update_frame}
use networking_game.Game.Chat.{chat_update}
use networking_game.Game.Turn.{update_reconnectee, send_all_units}
use networking_game.Game.Frame.{
  update_units, bullet_movement, units_update, listen, playing, reconnecting, assign_team, leave,
  restore, update_scene,
}

-- What `gameSceneReset` and the way back call.
abbrev pub farewell : List Call
farewell = unregister_click ∷ unregister_key ∷ stop_all_sounds ∷ disconnect ∷ remove_two_scenes ∷ []

-- What a scene has called and set when it has been left.
abbrev left_with : List Call → List Call × Bool × Bool × SceneTransitions
left_with calls = (calls ++ farewell, true, false, stay)

module _ {F : Type 0} where
  -- What the way back changes: the calls, the end of the network thread and the two scene flags.
  abbrev exit_of : GameScene F → List Call × Bool × Bool × SceneTransitions
  exit_of g = (g.calls, g.client_component.kill_thread, g.last_scene, g.next_scene)

  -- They are those of the scene before.
  abbrev Silent : GameScene F → GameScene F → Type 0
  Silent g k = exit_of k ≡ exit_of g

  unit_network_update-Silent : (g : GameScene F) → Ensures (Silent g) (unit_network_update g)
  unit_network_update-Silent g = elim (Result-cases (unit_network_update g)) [
    | inl (k, e) ↦ rw e (ap exit_of (unit_network_update_frame g k e))
    | inr (f, e) ↦ rw e tt
  ]

  update_units-Silent : (ss : List Slot) (g : GameScene F) → Silent g (update_units ss g)
  unfolding update_units
  update_units-Silent [] g = refl
  update_units-Silent (s ∷ ss) g = update_units-Silent ss _

  send_all_units-Silent : (ss : List Slot) (g : GameScene F) → Silent g (send_all_units ss g)
  unfolding send_all_units
  send_all_units-Silent [] g = refl
  send_all_units-Silent (s ∷ ss) g = send_all_units-Silent ss _

module _ {F : Type 0} ⦃fl : Floats F⦄ where
  listen-Silent :
      (turn team : PlayerTurn) (g : GameScene F) → Ensures (Silent g) (listen turn team g)
  unfolding listen
  listen-Silent turn team g =
      elim (Bool-cases (turn_eq g.player_turn turn && turn_eq g.assigned_team team)) [
        | inl e ↦ rw e (unit_network_update-Silent g)
        | inr e ↦ rw e refl
      ]

  chat_update-Silent : (ms : F) (g : GameScene F) → Silent g (chat_update ms g)
  unfolding chat_update
  chat_update-Silent ms g = ground arith

  units_update-Silent : (g : GameScene F) → Silent g (units_update g)
  unfolding units_update
  units_update-Silent g = bullet (update_units units_vec g) ∙ update_units-Silent units_vec g
    where
      bullet : (k : GameScene F) → Silent k (bullet_movement k.clicked_x k.clicked_y k)
      bullet k = ground arith

  -- A result that is processed further without a call.
  then-Silent :
      (g : GameScene F) (r : Result (GameScene F)) (f : GameScene F → Result (GameScene F))
      → Ensures (Silent g) r
      → ((k : GameScene F) → Ensures (Silent k) (f k))
      → Ensures (Silent g) (r >>= f)
  then-Silent g (ok k) f h rest = elim (Result-cases (f k)) [
    | inl (j, e) ↦ rw e (Ensures-ok (Silent k) (f k) j e (rest k) ∙ h)
    | inr (x, e) ↦ rw e tt
  ]
  then-Silent g (err x) f h rest = tt

  playing-Silent : (ms : F) (g : GameScene F) → Ensures (Silent g) (playing ms g)
  unfolding playing
  playing-Silent ms g =
      let g1 = units_update (chat_update ms g) in
      let both =
        then-Silent g1 (listen player1 player2 g1) (listen player2 player1)
          (listen-Silent player1 player2 g1) (listen-Silent player2 player1) in
      elim (Bool-cases (not g.game_finished)) [
        | inl e ↦ rw e (
            subst
              (λ cs.
                Ensures (λ k. exit_of k ≡ cs)
                  (listen player1 player2 g1 >>= listen player2 player1))
              (units_update-Silent (chat_update ms g) ∙ chat_update-Silent ms g) both)
        | inr e ↦ rw e refl
      ]

  update_reconnectee-Silent : (junk : ℤ) (g : GameScene F) → Silent g (update_reconnectee junk g)
  unfolding update_reconnectee
  update_reconnectee-Silent junk g = simp (send_all_units-Silent)

  restore-Silent : (g : GameScene F) → Silent g (restore g)
  unfolding restore
  restore-Silent g = ground arith

  -- The scene when the data of the other client have been taken over.
  abbrev pub resumed : GameScene F → GameScene F
  resumed g1 =
      let g2 = send_packet (packet (codes "resume") [] []) (units_update g1) in
      record g2 { client_component = record (g2.client_component) { update_complete = false } }

  reconnecting-Silent : (junk : ℤ) (g : GameScene F) → Ensures (Silent g) (reconnecting junk g)
  unfolding reconnecting
  reconnecting-Silent junk g =
      let c = g.client_component in
      elim (Bool-cases (c.is_reconnecting && c.data_sender && c.ready_to_send)) [
        | inl e ↦ rw e (update_reconnectee-Silent junk g)
        | inr n ↦ elim (Bool-cases (c.is_reconnecting && c.update_complete)) [
          | inl e ↦
              rw (n, e)
                (subst
                  (λ cs.
                    Ensures (λ k. exit_of k ≡ cs)
                      (unit_network_update (restore g) >>= λ g1. ok (resumed g1)))
                  (restore-Silent g)
                  (then-Silent (restore g) (unit_network_update (restore g)) (λ g1. ok (resumed g1))
                    (unit_network_update-Silent (restore g)) (λ k. units_update-Silent k)))
          | inr m ↦ rw (n, m) refl
        ]
      ]

  assigned-Silent : (g : GameScene F) → Silent g (assign_team g)
  unfolding assign_team
  assigned-Silent g = ground arith

  -- What a frame does behind the two tests at its head.
  rest : ℤ → F → GameScene F → Result (GameScene F)
  rest junk ms g =
      if g.client_component.is_lobby || g.client_component.is_reconnecting
      then reconnecting junk g
      else playing ms g

  rest-Silent : (junk : ℤ) (ms : F) (g : GameScene F) → Ensures (Silent g) (rest junk ms g)
  unfolding rest
  rest-Silent junk ms g =
      elim (Bool-cases (g.client_component.is_lobby || g.client_component.is_reconnecting)) [
        | inl e ↦ rw e (reconnecting-Silent junk g)
        | inr e ↦ rw e (playing-Silent ms g)
      ]

  leave-exit : (g : GameScene F) → g.next_scene ≡ to_menu → exit_of (leave g) ≡ left_with g.calls
  unfolding leave
  leave-exit g e = rw e (ap (λ cs. (cs, true, false, stay)) (simp append_assoc))

  -- A frame that succeeds, of a scene that is to go to the menu, makes these five calls and no other:
  -- the click handler and the key handler are unregistered, the sounds are stopped, the client
  -- disconnects, and the manager is asked to remove two scenes. The frame leaves the client's thread
  -- told to end, the scene marked as not the last one any more, and nothing further requested.
  pub update_scene-to_menu :
      (junk : ℤ) (ms : F) (g g' : GameScene F)
      → g.next_scene ≡ to_menu
      → update_scene junk ms g ≡ ok g'
      → (g'.calls ≡ g.calls ++ farewell)
        × (g'.client_component.kill_thread ≡ true)
        × (g'.last_scene ≡ false)
        × (g'.next_scene ≡ stay)
  unfolding update_scene rest
  update_scene-to_menu junk ms g g' e h =
      let g0 = record g { scene_full_init = true } in
      let same = assigned-Silent g0 in
      let g1 = leave (assign_team g0) in
      let parts =
        Ensures-ok (Silent g1) (rest junk ms g1) g' h (rest-Silent junk ms g1)
        ∙ leave-exit (assign_team g0) (ap (λ x. x.3) same ∙ e)
        ∙ ap (λ x. left_with x.0) same in
      (ap (λ x. x.0) parts, ap (λ x. x.1) parts, ap (λ x. x.2) parts, ap (λ x. x.3) parts)
