-- ===== src/Delivery/Turns.antt =====
-- A turn, from the click that ends it to the other player's scene.
use networking_game.Base.{
  ℕ, ◌≡◌, ◌≢◌, refl, sym, subst, ap, ◌∙◌, Bool, true, false, List, [], ◌∷◌, ◌++◌, if◌then◌else◌, ok,
  ◌>>=◌, ℤ, All,
}
use networking_game.Text.{Text}
use networking_game.Packet.{CustomPacket}
use networking_game.Sprite.{mouse_on_sprite}
use networking_game.Client.{ClientComponent, consume_round}
use networking_game.Client.Round.{wire, wire_bytes, with_recieved, with_sending, consume_round_lem}
use networking_game.Server.{Send, to_all_if, others}
use networking_game.Game.State.{GameScene, units_vec, no_player, turn_eq}
use networking_game.Game.Turn.{other_player, next_turn_pressed}
use networking_game.Game.Turn.Handover.{
  changed_packets, last_packets, queue, settled, won, next_turn_pressed_lem,
}
use networking_game.Game.Network.{unit_network_update, with_updates}
use networking_game.Game.Network.Updates.{unit_network_update_lem}
use networking_game.Game.Network.Sync.{Agree, InTurn, handed_over, packets_read}
use networking_game.Delivery.{relay, reaching}
use networking_game.Delivery.Packets.{
  IsUnitPacket, turn-IsUnitPacket, All-IsPrintable, relayed_all, relay_lem, reaching-relayed_all,
  process_each-units, All-IsPlayPacket,
}

-- The connection is at rest: nothing is left to be processed or sent.
pub record AtRest (c : ClientComponent) : Type 0 where
  pub recieved : c.recieved_queue ≡ []
  pub unsent : c.sending_queue ≡ []
  pub unread : c.unit_update_queue ≡ []

no_rest : (c : ClientComponent) → c.recieved_queue ≡ [] → c ≡ with_recieved [] c
no_rest c e = ap (λ q. record c { recieved_queue = q }) e

abbrev rested : ClientComponent → ClientComponent
rested c = record c { recieved_queue = []; sending_queue = []; unit_update_queue = [] }

rested_lem : (c : ClientComponent) → AtRest c → c ≡ rested c
rested_lem c r =
    ap (λ q. record c { recieved_queue = q }) r.recieved
    ∙ ap (λ q. record c { recieved_queue = []; sending_queue = q }) r.unsent
    ∙ ap (λ q. record c { recieved_queue = []; sending_queue = []; unit_update_queue = q }) r.unread

-- The round of the sender, in which nothing arrives.
sending_round :
    (c : ClientComponent)
    → c.recieved_queue ≡ []
    → consume_round [] c ≡ ok (with_sending [] (with_recieved [] c), wire c.sending_queue)
sending_round c e = ap (consume_round []) (no_rest c e) ∙ consume_round_lem [] c tt

-- The round of the other client, in which the packets arrive.
recieving_round :
    (ps : List CustomPacket) (c : ClientComponent)
    → AtRest c
    → All IsUnitPacket ps
    → consume_round (wire_bytes ps) c ≡ ok (record c { unit_update_queue = ps }, [])
recieving_round ps c r h =
    let cr = rested c in
    ap (consume_round (wire_bytes ps)) (rested_lem c r)
    ∙ consume_round_lem ps cr (All-IsPrintable ps h)
    ∙ ap (λ q. q >>= λ c'. ok (with_sending [] (with_recieved [] c'), wire c'.sending_queue))
        (process_each-units ps cr h)
    ∙ ap (λ k. ok (record k { unit_update_queue = ps }, [])) (sym (rested_lem c r))

module _ {F : Type 0} where
  abbrev turn_packets : GameScene F → List CustomPacket
  turn_packets g = changed_packets units_vec g.units ++ last_packets false g

  handed_over-queues :
      (g : GameScene F)
      → AtRest g.client_component
      → ((handed_over g).client_component.sending_queue ≡ turn_packets g)
        × ((handed_over g).client_component.recieved_queue ≡ [])
  handed_over-queues g r =
      let (sending, recieved) = either (won g) (turn_packets g) in
      (sending ∙ ap (λ q. q ++ turn_packets g) r.unsent, recieved ∙ r.recieved)
    where
      either :
          (b : Bool) (ps : List CustomPacket)
          → let g' =
              if b
              then queue ps (record (settled g) {
                player_turn = other_player g.player_turn;
                game_finished = true;
                winning_player = g.assigned_team;
              })
              else queue ps (record (settled g) { player_turn = other_player g.player_turn }) in
            (g'.client_component.sending_queue ≡ g.client_component.sending_queue ++ ps)
            × (g'.client_component.recieved_queue ≡ g.client_component.recieved_queue)
      either true ps = (refl, refl)
      either false ps = (refl, refl)

  -- The other player's scene with the packets in its queue.
  abbrev informed : GameScene F → GameScene F → GameScene F
  informed g h = with_updates (turn_packets g) h

  read_turn :
      (g h : GameScene F)
      → g.assigned_team ≢ no_player
      → InTurn g h
      → (h' : GameScene F) × (unit_network_update (informed g h) ≡ ok h')
        × (h'.client_component.unit_update_queue ≡ [])
        × Agree (handed_over g) h'
  read_turn g h team i =
      let own : InTurn g (informed g h) = record {
        turn = i.turn;
        finished = i.finished;
        winner = i.winner;
        units = i.units;
        names = i.names;
        other_names = i.other_names;
        fits = i.fits;
      } in
      let (h', e, a) = packets_read g (informed g h) team own in
      (
        with_updates [] h',
        unit_network_update_lem (informed g h) ∙ ap (λ r. r >>= λ k. ok (with_updates [] k)) e,
        refl,
        record { turn = a.turn; finished = a.finished; winner = a.winner; units = a.units },
      )

  -- A player ends the turn, at rest and with a team, and the two players agree but for the units
  -- that the first one has changed; the library brings the other client what the server sends to
  -- all but the first; and a check for the end that returns nothing counts as false. Then the first
  -- client sends in its next round, the server relays every packet, the other client takes them in
  -- in a round, and the next look at them fails nowhere and leaves none: the two players agree on
  -- the turn, on the end of the game and its winner, and on every unit.
  pub turn_reaches_other_player :
      (inbox : ℕ → Send → List Text) (clients : List ℕ) (sender other : ℕ) (x y : ℤ)
      (g h : GameScene F)
      → ((p : Text × ℕ) → inbox other (to_all_if p (others sender)) ≡ p.0 ∷ [])
      → AtRest g.client_component
      → AtRest h.client_component
      → InTurn g h
      → g.assigned_team ≢ no_player
      → turn_eq g.player_turn g.assigned_team ≡ true
      → mouse_on_sprite x y g.next_turn_button ≡ true
      → let g' = next_turn_pressed false x y g in
        (sent : List (Text × ℕ)) × (sends : List Send) × (c : ClientComponent)
        × (d : ClientComponent) × (h' : GameScene F) × (consume_round [] g'.client_component
            ≡ ok (c, sent))
        × (relay clients sender sent ≡ ok sends)
        × (consume_round (reaching inbox other sends) h.client_component ≡ ok (d, []))
        × (unit_network_update (record h { client_component = d }) ≡ ok h')
        × (h'.client_component.unit_update_queue ≡ [])
        × Agree g' h'
  turn_reaches_other_player inbox clients sender other x y g h arrives rg rh i team mine on =
      let g' = next_turn_pressed false x y g in
      let e : g' ≡ handed_over g = next_turn_pressed_lem false x y g team mine on in
      let ps = turn_packets g in
      let units = turn-IsUnitPacket g i.names in
      let (queued, nothing) = handed_over-queues g rg in
      let (h', read, empty, agree) = read_turn g h team i in
      (
        wire ps,
        relayed_all sender ps,
        with_sending [] (with_recieved [] g'.client_component),
        record (h.client_component) { unit_update_queue = ps },
        h',
        sending_round g'.client_component (ap (λ k. k.client_component.recieved_queue) e ∙ nothing)
            ∙ ap (λ q. ok (with_sending [] (with_recieved [] g'.client_component), wire q))
                (ap (λ k. k.client_component.sending_queue) e ∙ queued),
        relay_lem clients sender ps (All-IsPlayPacket ps units),
        ap (λ ds. consume_round ds h.client_component)
              (reaching-relayed_all inbox sender other arrives ps)
            ∙ recieving_round ps h.client_component rh units,
        read,
        empty,
        subst (λ k. Agree k h') (sym e) agree,
      )
