-- ===== src/Game/Network/Updates.antt =====
-- The loop of `unitNetworkUpdate`: each packet is read once, in order, until the queue is empty.
use networking_game.Base.{
  List, [], ◌∷◌, ◌≡◌, refl, sym, ap, ◌∙◌, Result, ok, err, ◌>>=◌, length, if◌then◌else◌, true, pos,
  eqb_ℤ, Bool-cases, inl, inr, subst, Result-cases,
}
use networking_game.Text.{text_eq, codes}
use networking_game.Packet.{CustomPacket, Deciphered, unit_data_deciper}
use networking_game.Game.State.{GameScene, Slot, units_vec, player1, player2}
use networking_game.Game.Turn.{other_player}
use networking_game.Game.Network.{
  take_over_by_name, apply_update, update_all, unit_network_update, with_updates,
}

module _ {F : Type 0} where
  -- Packet by packet, from the front.
  abbrev pub apply_each : List CustomPacket → GameScene F → Result (GameScene F)
  apply_each [] g = ok g
  apply_each (p ∷ ps) g = unit_data_deciper p >>= λ d. apply_each ps (apply_update d g)

  -- All that the packets of the other player can change.
  abbrev pub with_news : GameScene F → GameScene F → GameScene F
  with_news g g' = record g {
    units = g'.units;
    player_turn = g'.player_turn;
    winning_player = g'.winning_player;
    game_finished = g'.game_finished;
  }

  pub take_over_by_name_frame :
      (d : Deciphered) (ss : List Slot) (g : GameScene F)
      → take_over_by_name d ss g ≡ record g { units = (take_over_by_name d ss g).units }
  unfolding take_over_by_name
  take_over_by_name_frame d [] g = refl
  take_over_by_name_frame d (s ∷ ss) g =
      elim (Bool-cases (text_eq d.unit_name (g.units s).ref_name)) [
        | inl e ↦ rw e
        | inr e ↦ rw e (take_over_by_name_frame d ss g)
      ]

  taken_over_frame :
      (d : Deciphered) (g g1 : GameScene F)
      → g1 ≡ with_news g g1
      → take_over_by_name d units_vec g1 ≡ with_news g (take_over_by_name d units_vec g1)
  taken_over_frame d g g1 e =
      let out = take_over_by_name d units_vec g1 in
      let here : out ≡ with_news g1 out =
        subst (λ k. k ≡ with_news g1 k) (sym (take_over_by_name_frame d units_vec g1)) refl in
      here ∙ ap (λ k. with_news k out) e

  -- The packet that ends the turn passes the turn on.
  abbrev pub passed : Deciphered → GameScene F → GameScene F
  passed d g =
      if text_eq d.unit_name (codes "endturn")
      then record g { player_turn = other_player g.player_turn }
      else g

  passed_frame : (d : Deciphered) (g : GameScene F) → passed d g ≡ with_news g (passed d g)
  passed_frame d g = elim (Bool-cases (text_eq d.unit_name (codes "endturn"))) [
    | inl e ↦ rw e
    | inr e ↦ rw e
  ]

  pub apply_update_frame :
      (d : Deciphered) (g : GameScene F) → apply_update d g ≡ with_news g (apply_update d g)
  unfolding apply_update
  apply_update_frame d g = elim (Bool-cases (text_eq d.unit_name (codes "endgame"))) [
    | inl e ↦ rw e (
        ap {A = GameScene F}
          (λ k. record k {
            winning_player = if eqb_ℤ d.x_pos (pos 1) then player1 else player2;
            game_finished = true;
          })
          (passed_frame d g))
    | inr e ↦ rw e (taken_over_frame d g (passed d g) (passed_frame d g))
  ]

  take_over_by_name-with_updates :
      (q : List CustomPacket) (d : Deciphered) (ss : List Slot) (g : GameScene F)
      → take_over_by_name d ss (with_updates q g) ≡ with_updates q (take_over_by_name d ss g)
  unfolding take_over_by_name
  take_over_by_name-with_updates q d [] g = refl
  take_over_by_name-with_updates q d (s ∷ ss) g =
      elim (Bool-cases (text_eq d.unit_name (g.units s).ref_name)) [
        | inl e ↦ rw e
        | inr e ↦ rw e (take_over_by_name-with_updates q d ss g)
      ]

  -- What is read does not depend on the queue, which stays as it is.
  apply_update-with_updates :
      (q : List CustomPacket) (d : Deciphered) (g : GameScene F)
      → apply_update d (with_updates q g) ≡ with_updates q (apply_update d g)
  unfolding apply_update
  apply_update-with_updates q d g = elim (Bool-cases (text_eq d.unit_name (codes "endgame"))) [
    | inl e ↦ elim (Bool-cases (text_eq d.unit_name (codes "endturn"))) [
      | inl t ↦ rw (e, t)
      | inr t ↦ rw (e, t)
    ]
    | inr e ↦ elim (Bool-cases (text_eq d.unit_name (codes "endturn"))) [
      | inl t ↦
          rw (e, t)
            (take_over_by_name-with_updates q d units_vec
              (record g { player_turn = other_player g.player_turn }))
      | inr t ↦ rw (e, t) (take_over_by_name-with_updates q d units_vec g)
    ]
  ]

  update_all_lem :
      (q : List CustomPacket) (g : GameScene F)
      → update_all (length q) (with_updates q g)
        ≡ (apply_each q g >>= λ g'. ok (with_updates [] g'))
  unfolding update_all
  update_all_lem [] g = refl
  update_all_lem (p ∷ q) g = elim (Result-cases (unit_data_deciper p)) [
    | inl (d, e) ↦
        rw (e, apply_update-with_updates (p ∷ q) d g) (update_all_lem q (apply_update d g))
    | inr (f, e) ↦ rw e
  ]

  -- `unitNetworkUpdate` ends, whatever the queue holds: it reads the packets one after the other,
  -- from the front, and stops at the first that cannot be read; if all can be, the queue is empty.
  pub unit_network_update_lem :
      (g : GameScene F)
      → unit_network_update g
        ≡ (apply_each g.client_component.unit_update_queue g >>= λ g'. ok (with_updates [] g'))
  unfolding unit_network_update
  unit_network_update_lem g = update_all_lem g.client_component.unit_update_queue g

  pub apply_each_frame :
      (q : List CustomPacket) (g g' : GameScene F) → apply_each q g ≡ ok g' → g' ≡ with_news g g'
  apply_each_frame [] g g' e = let same : g ≡ g' = cc in subst (λ k. k ≡ with_news g k) same refl
  apply_each_frame (p ∷ q) g g' e = elim (Result-cases (unit_data_deciper p)) [
    | inl (d, r) ↦
        let rest : apply_each q (apply_update d g) ≡ ok g' = rw r at e in
        apply_each_frame q (apply_update d g) g' rest
        ∙ ap (λ k. with_news k g') (apply_update_frame d g)
    | inr (f, r) ↦ let fault : err f ≡ ok g' = rw r at e in cc
  ]

  -- Nothing but the units, the turn and the end of the game changes, and the queue.
  pub unit_network_update_frame :
      (g g' : GameScene F) → unit_network_update g ≡ ok g' → g' ≡ with_updates [] (with_news g g')
  unit_network_update_frame g g' e =
      let q = g.client_component.unit_update_queue in
      elim (Result-cases (apply_each q g)) [
        | inl (k, r) ↦
            let out : ok (with_updates [] k) ≡ ok g' =
              sym (unit_network_update_lem g ∙ ap (λ m. m >>= λ j. ok (with_updates [] j)) r) ∙ e in
            let same : with_updates [] k ≡ g' = cc in
            subst (λ j. j ≡ with_updates [] (with_news g j)) same
              (ap (with_updates []) (apply_each_frame q g k r))
        | inr (f, r) ↦
            let out : err f ≡ ok g' =
              sym (unit_network_update_lem g ∙ ap (λ m. m >>= λ j. ok (with_updates [] j)) r) ∙ e in
            cc
      ]
