-- ===== src/Game/Frame/Steady.antt =====
-- A frame keeps the selection fair: `GameScene::update` as a whole.
use networking_game.Base.{
  ◌≡◌, refl, sym, ap, ◌∙◌, arith, true, false, ◌&&◌, ◌||◌, not, ℤ, ok, Bool-cases, Result-cases,
  inl, inr, Ensures-ok, Ensures-bind,
}
use networking_game.Game.State.{
  GameScene, Slot, units_vec, Floats, PlayerTurn, turn_eq, player1, player2,
}
use networking_game.Game.Selection.Exclusive.{IsFairlySelected}
use networking_game.Game.Selection.Fair.{
  Kept, Kept-trans, Kept-IsFairlySelected, none-IsFairlySelected,
}
use networking_game.Game.Network.{unit_network_update}
use networking_game.Game.Chat.{chat_update}
use networking_game.Game.Frame.{
  update_units, bullet_movement, units_update, listen, playing, reconnecting, assign_team, leave,
  restore, update_scene,
}
use networking_game.Game.Frame.Leaving.{resumed}
use networking_game.Game.Frame.Steps.{
  Fair, none_of_others, unit_network_update-none, assign_team-selected,
  assign_team-IsFairlySelected, leave-Kept, leave-taking_over, assign_team-taking_over, taking_over,
  update_units-Kept, sending-Kept, sent_over, restore-selected,
}

module _ {F : Type 0} ⦃fl : Floats F⦄ where
  bullet_movement-Kept : (x y : ℤ) (g : GameScene F) → Kept g (bullet_movement x y g)
  unfolding bullet_movement
  bullet_movement-Kept x y g = record {
    selected = ground arith;
    team = ground arith;
    turn = ground arith;
  }

  units_update-Kept : (g : GameScene F) → Kept g (units_update g)
  unfolding units_update
  units_update-Kept g =
      let g1 = update_units units_vec g in
      Kept-trans g g1 _ (update_units-Kept units_vec g)
        (bullet_movement-Kept g1.clicked_x g1.clicked_y g1)

  chat_update-Kept : (ms : F) (g : GameScene F) → Kept g (chat_update ms g)
  unfolding chat_update
  chat_update-Kept ms g = record {
    selected = ground arith;
    team = ground arith;
    turn = ground arith;
  }

  listen-Fair :
      (turn team : PlayerTurn) (g : GameScene F)
      → turn_eq turn team ≡ false
      → IsFairlySelected g
      → Fair (listen turn team g)
  unfolding listen
  listen-Fair turn team g apart v =
      elim (Bool-cases (turn_eq g.player_turn turn && turn_eq g.assigned_team team)) [
        | inl e ↦
            let none = unit_network_update-none g (none_of_others turn team g apart e v) in
            rw e (elim (Result-cases (unit_network_update g)) [
              | inl (k, made) ↦ rw made (
                  none-IsFairlySelected k (
                    Ensures-ok (λ j. (s : Slot) → j.selected s ≡ false) (unit_network_update g) k
                      made none))
              | inr (f, made) ↦ rw made tt
            ])
        | inr e ↦ rw e v
      ]

  playing-Fair : (ms : F) (g : GameScene F) → IsFairlySelected g → Fair (playing ms g)
  unfolding playing
  playing-Fair ms g v =
      let g1 = chat_update ms g in
      let g2 = units_update g1 in
      let fair =
        Kept-IsFairlySelected g1 g2 (units_update-Kept g1)
          (Kept-IsFairlySelected g g1 (chat_update-Kept ms g) v) in
      let heard = listen-Fair player1 player2 g2 refl fair in
      elim (Bool-cases (not g.game_finished)) [
        | inl e ↦ rw e (
            Ensures-bind IsFairlySelected (listen player1 player2 g2) (listen player2 player1)
              (λ k made.
                listen-Fair player2 player1 k refl
                  (Ensures-ok IsFairlySelected (listen player1 player2 g2) k made heard)))
        | inr e ↦ rw e v
      ]

  reconnecting-Fair :
      (junk : ℤ) (g : GameScene F)
      → (taking_over g ≡ true → (s : Slot) → g.selected s ≡ false)
      → IsFairlySelected g
      → Fair (reconnecting junk g)
  unfolding reconnecting
  reconnecting-Fair junk g n v =
      let c = g.client_component in
      elim (Bool-cases (c.is_reconnecting && c.data_sender && c.ready_to_send)) [
        | inl e ↦ rw e (Kept-IsFairlySelected g (sent_over junk g) (sending-Kept junk g) v)
        | inr m ↦ elim (Bool-cases (c.is_reconnecting && c.update_complete)) [
          | inl e ↦
              let g1 = restore g in
              let empty : (s : Slot) → g1.selected s ≡ false =
                λ s. ap (λ f. f s) (restore-selected g) ∙ n e s in
              rw (m, e)
                (Ensures-bind IsFairlySelected (unit_network_update g1) (λ k. ok (resumed k))
                  (λ k made. none-IsFairlySelected (resumed k) (λ s.
                    ap (λ f. f s) (units_update-Kept k).selected
                    ∙ Ensures-ok (λ j. (s : Slot) → j.selected s ≡ false) (unit_network_update g1) k
                        made (unit_network_update-none g1 empty) s)))
          | inr o ↦ rw (m, o) v
        ]
      ]

  -- A frame, whatever it does, keeps the selection fair: it gives the player a team, leaves for the
  -- menu, sends the game to a player who is reconnecting, or plays on and takes the other player's
  -- news in. The one frame that needs more is that in which a player who is reconnecting takes the
  -- game over: no unit is selected then.
  pub update_scene-IsFairlySelected :
      (junk : ℤ) (ms : F) (g g' : GameScene F)
      → (taking_over g ≡ true → (s : Slot) → g.selected s ≡ false)
      → IsFairlySelected g
      → update_scene junk ms g ≡ ok g'
      → IsFairlySelected g'
  unfolding update_scene
  update_scene-IsFairlySelected junk ms g g' n v h =
      let g0 = record g { scene_full_init = true } in
      let g1 = assign_team g0 in
      let g2 = leave g1 in
      let fair0 : IsFairlySelected g0 =
        Kept-IsFairlySelected g g0 (record { selected = refl; team = refl; turn = refl }) v in
      let fair =
        Kept-IsFairlySelected g1 g2 (leave-Kept g1) (assign_team-IsFairlySelected g0 fair0) in
      let same_flags = leave-taking_over g1 ∙ assign_team-taking_over g0 in
      let empty : taking_over g2 ≡ true → (s : Slot) → g2.selected s ≡ false = λ e s.
        ap (λ f. f s) ((leave-Kept g1).selected ∙ assign_team-selected g0)
        ∙ n (sym same_flags ∙ e) s in
      elim (Bool-cases (g2.client_component.is_lobby || g2.client_component.is_reconnecting)) [
        | inl e ↦
            Ensures-ok IsFairlySelected (reconnecting junk g2) g' (rw e at h)
              (reconnecting-Fair junk g2 empty fair)
        | inr e ↦
            Ensures-ok IsFairlySelected (playing ms g2) g' (rw e at h) (playing-Fair ms g2 fair)
      ]
