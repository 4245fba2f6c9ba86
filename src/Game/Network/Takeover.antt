-- ===== src/Game/Network/Takeover.antt =====
-- A player who reconnects gets the game from the other one: `updateReconnectee`, and what the
-- network thread and the next frame make of its packets.
use networking_game.Base.{
  ◌≡◌, ◌≢◌, refl, sym, subst, ap, ◌∙◌, true, List, [], ◌∷◌, ◌++◌, append_assoc, none, some,
  if◌then◌else◌, ℤ, pos, ok, err, ◌>>=◌, Result-cases, inl, inr,
}
use networking_game.Text.{codes, text_eq}
use networking_game.Text.Decimal.{stoi, to_string}
use networking_game.Packet.{CustomPacket, packet}
use networking_game.Squad.{SquadUnit, set_has_changed}
use networking_game.Client.{ClientComponent, process_recieved_packets}
use networking_game.Client.Round.{process_each}
use networking_game.Game.State.{
  GameScene, Slot, units_vec, PlayerTurn, no_player, player1, player2, turn_eq,
}
use networking_game.Game.Turn.{update_reconnectee, unit_packet, other_player, which_turn}
use networking_game.Game.Turn.Handover.{changed_packets}
use networking_game.Game.Frame.{restore}
use networking_game.Game.Network.{unit_network_update, with_updates}
use networking_game.Game.Network.Updates.{apply_each, unit_network_update_lem}
use networking_game.Game.Network.Names.{Named, Fits}
use networking_game.Game.Network.Overlay.{
  SameUnit, overlay, overlay_all, apply_each-changed_packets,
}
use networking_game.Delivery.Packets.{changed_packets-IsUnitPacket, process_each-units}

abbrev marked : (Slot → SquadUnit) → Slot → SquadUnit
marked us s = set_has_changed true (us s)

abbrev opponent : PlayerTurn → ℤ
opponent p = if turn_eq p player1 then pos 2 else pos 1

abbrev number_of : PlayerTurn → ℤ
number_of player2 = pos 2
number_of _ = pos 1

abbrev complete : CustomPacket
complete = packet (codes "update_complete") [] []

-- What the other player gets: the team, the turn, all units, and the end.
abbrev pub whole_game : {F : Type 0} → GameScene F → List CustomPacket
whole_game g =
    packet (codes "player") [] (to_string (opponent g.assigned_team))
    ∷ packet (codes "turn") [] (to_string (number_of g.player_turn))
    ∷ (changed_packets units_vec (marked g.units) ++ complete ∷ [])

process_player :
    (p : PlayerTurn) (c : ClientComponent)
    → process_recieved_packets (packet (codes "player") [] (to_string (opponent p))) c
      ≡ ok (record c { assigned_player = opponent p })
unfolding process_recieved_packets stoi to_string text_eq
process_player player1 c = refl
process_player _ c = refl

process_turn :
    (p : PlayerTurn) (c : ClientComponent)
    → process_recieved_packets (packet (codes "turn") [] (to_string (number_of p))) c
      ≡ ok (record c { player_turn = number_of p })
unfolding process_recieved_packets stoi to_string text_eq
process_turn player2 c = refl
process_turn _ c = refl

process_complete :
    (c : ClientComponent)
    → process_recieved_packets complete c ≡ ok (record c { update_complete = true })
unfolding process_recieved_packets text_eq
process_complete c = refl

process_each-append :
    (ps qs : List CustomPacket) (c d : ClientComponent)
    → process_each ps c ≡ ok d
    → process_each (ps ++ qs) c ≡ process_each qs d
process_each-append [] qs c d h = let same : c ≡ d = cc in ap (process_each qs) same
process_each-append (p ∷ ps) qs c d h = elim (Result-cases (process_recieved_packets p c)) [
  | inl (e, made) ↦ rw made (process_each-append ps qs e d (rw made at h))
  | inr (f, made) ↦ let out : err f ≡ ok d = rw made at h in cc
]

abbrev pub received : {F : Type 0} → GameScene F → ClientComponent → ClientComponent
received g c = record c {
  assigned_player = opponent g.assigned_team;
  player_turn = number_of g.player_turn;
  unit_update_queue = c.unit_update_queue ++ changed_packets units_vec (marked g.units);
  update_complete = true;
}

module _ {F : Type 0} where
  pub process_whole_game :
      (g : GameScene F) (c : ClientComponent)
      → Named g.units
      → process_each (whole_game g) c ≡ ok (received g c)
  process_whole_game g c named =
      let ps = changed_packets units_vec (marked g.units) in
      let c1 = record c { assigned_player = opponent g.assigned_team } in
      let c2 = record c1 { player_turn = number_of g.player_turn } in
      rw (process_player g.assigned_team c, process_turn g.player_turn c1)
        (process_each-append ps (complete ∷ []) c2 _ (
            process_each-units ps c2
              (changed_packets-IsUnitPacket units_vec (marked g.units) named))
          ∙ ap (λ r. r >>= process_each []) (process_complete _))

  restore_lem :
      (p q : PlayerTurn) (c : ClientComponent) (h : GameScene F)
      → p ≢ no_player
      → q ≢ no_player
      → let k = restore (record h {
        client_component = record c { assigned_player = opponent p; player_turn = number_of q };
      }) in
        (k.player_turn ≡ q)
        × (k.assigned_team ≡ other_player p)
        × (k.units ≡ h.units)
        × (k.client_component.unit_update_queue ≡ c.unit_update_queue)
  unfolding restore other_player
  restore_lem no_player q c h a b = absurd (a refl)
  restore_lem p no_player c h a b = absurd (b refl)
  restore_lem player1 player1 c h a b = (refl, refl, refl, refl)
  restore_lem player1 player2 c h a b = (refl, refl, refl, refl)
  restore_lem player2 player1 c h a b = (refl, refl, refl, refl)
  restore_lem player2 player2 c h a b = (refl, refl, refl, refl)

  turn_lem :
      (junk : ℤ) (g : GameScene F)
      → g.player_turn ≢ no_player
      → (elim (which_turn g) [ none ↦ junk | some n ↦ n ]) ≡ number_of g.player_turn
  unfolding which_turn
  turn_lem junk g a = by_turn g.player_turn a
    where
      by_turn :
          (q : PlayerTurn)
          → q ≢ no_player
          → (elim (which_turn (record g { player_turn = q })) [ none ↦ junk | some n ↦ n ])
            ≡ number_of q
      by_turn no_player a = absurd (a refl)
      by_turn player1 a = refl
      by_turn player2 a = refl

  -- The sender queues the whole game behind what waits to be sent.
  pub update_reconnectee_lem :
      (junk : ℤ) (g : GameScene F)
      → g.player_turn ≢ no_player
      → (update_reconnectee junk g).client_component.sending_queue
        ≡ g.client_component.sending_queue ++ whole_game g
  unfolding update_reconnectee unit_packet
  update_reconnectee_lem junk g a = simp (append_assoc, turn_lem junk g a)

  -- The other player's units after the packets.
  units_taken_over :
      (g k : GameScene F)
      → Named g.units
      → ((s : Slot) → Fits (g.units s))
      → Named k.units
      → k.client_component.unit_update_queue ≡ changed_packets units_vec (marked g.units)
      → unit_network_update k
        ≡ ok (with_updates [] (record k { units = overlay units_vec (marked g.units) k.units }))
  units_taken_over g k named fits own e =
      unit_network_update_lem k
      ∙ ap (λ q. apply_each q k >>= λ j. ok (with_updates [] j)) e
      ∙ ap (λ r. r >>= λ j. ok (with_updates [] j))
          (apply_each-changed_packets units_vec (marked g.units) k named
            (λ s. record {
              x_pos = (fits s).x_pos;
              y_pos = (fits s).y_pos;
              squad_size = (fits s).squad_size;
              health = (fits s).health;
            })
            own)

  -- A player with a team sends the game, in the turn of one of the two, to a player who is
  -- reconnecting and has no news of units waiting; in both games the units have the names of the
  -- start, and the figures of the sender's fit into an `int`. What the sender queues behind what
  -- waits there, processed in its order, marks the game as complete, and the frame that takes it
  -- over then succeeds in reading it: the turn is the same, the team is the other one, and every
  -- unit has the place, the squad and the health that it has in the sender's game.
  pub game_is_taken_over :
      (junk : ℤ) (g h : GameScene F)
      → g.assigned_team ≢ no_player
      → g.player_turn ≢ no_player
      → Named g.units
      → Named h.units
      → ((s : Slot) → Fits (g.units s))
      → h.client_component.unit_update_queue ≡ []
      → ((update_reconnectee junk g).client_component.sending_queue
          ≡ g.client_component.sending_queue ++ whole_game g)
        × (c : ClientComponent) × (h' : GameScene F) × (process_each
              (whole_game g)
              h.client_component
            ≡ ok c)
        × (c.update_complete ≡ true)
        × (unit_network_update (restore (record h { client_component = c })) ≡ ok h')
        × (h'.player_turn ≡ g.player_turn)
        × (h'.assigned_team ≡ other_player g.assigned_team)
        × ((s : Slot) → SameUnit (g.units s) (h'.units s))
  game_is_taken_over junk g h team turn named own fits empty =
      let c = received g h.client_component in
      let k = restore (record h { client_component = c }) in
      let us = marked g.units in
      let (at_turn, at_team, units, queue) =
        restore_lem g.assigned_team g.player_turn c h team turn in
      let waiting : k.client_component.unit_update_queue ≡ changed_packets units_vec us =
        queue ∙ ap (λ q. q ++ changed_packets units_vec us) empty in
      let named_k : Named k.units = subst Named (sym units) own in
      let h' = with_updates [] (record k { units = overlay units_vec us k.units }) in
      (
        update_reconnectee_lem junk g turn,
        c,
        h',
        process_whole_game g h.client_component named,
        refl,
        units_taken_over g k named fits named_k waiting,
        at_turn,
        at_team,
        overlay_all SameUnit (λ u v s. s) us k.units (λ t e. cc),
      )
