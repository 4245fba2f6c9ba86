-- ===== src/Delivery/Rejoin/Resumed.antt =====
-- A player who comes back, from the lost connection to the game taken over: Source/Server/Server.cpp,
-- Source/Client/ClientNetworking.cpp and the frames of Source/Client/GameScene.cpp together.
use networking_game.Base.{
  ℕ, ◌≡◌, ◌≢◌, refl, sym, subst, ap, ◌∙◌, arith, true, false, List, [], ◌∷◌, ◌++◌, if◌then◌else◌,
  ok, ◌>>=◌, ℤ, All, All-map, All-append,
}
use networking_game.Text.{Text, codes, text_eq}
use networking_game.Text.Decimal.{to_string}
use networking_game.Text.Decimal.RoundTrip.{to_string-Lacks}
use networking_game.Packet.{CustomPacket, packet, encode}
use networking_game.Packet.Wire.{IsPrintable}
use networking_game.Client.{ClientComponent, consume_round}
use networking_game.Client.Round.{
  wire, wire_bytes, with_recieved, with_sending, process_each, consume_round_lem,
}
use networking_game.Server.{
  Server, Send, to, to_all_if, others, on_client_connect, on_client_disconnect,
}
use networking_game.Server.Relay.{relayed, on_client_data_lem}
use networking_game.Squad.{set_has_changed}
use networking_game.Game.State.{GameScene, Slot, Floats, units_vec, no_player, stay}
use networking_game.Game.Turn.{other_player}
use networking_game.Game.Turn.Handover.{changed_packets}
use networking_game.Game.Frame.{update_scene, restore}
use networking_game.Game.Network.{unit_network_update}
use networking_game.Game.Network.Names.{Named, Fits}
use networking_game.Game.Network.Overlay.{SameUnit}
use networking_game.Game.Network.Takeover.{
  whole_game, received, process_whole_game, game_is_taken_over,
}
use networking_game.Delivery.{relay, reaching}
use networking_game.Delivery.Packets.{
  IsUnitPacket, changed_packets-IsUnitPacket, relayed_all, reaching-relayed_all,
}
use networking_game.Delivery.Turns.{AtRest}
use networking_game.Delivery.Rejoin.{
  Brings, sender_packet, ready_packet, reconnect_packet, server_part, asked, rejoined,
  stays_process, chosen, comes_process, reaching_stays, reaching_comes, frame_sends,
}

-- A packet that the server passes on.
record IsPassedOn (p : CustomPacket) : Type 0 where
  printable : IsPrintable p
  kind : relayed p.type ≡ true

relay_passed :
    (clients : List ℕ) (sender : ℕ) (ps : List CustomPacket)
    → All IsPassedOn ps
    → relay clients sender (wire ps) ≡ ok (relayed_all sender ps)
unfolding relay
relay_passed clients sender [] h = refl
relay_passed clients sender (p ∷ ps) h =
    let passed = h.0.kind in
    rw (
      on_client_data_lem clients sender p h.0.printable,
      passed,
      relay_passed clients sender ps h.1,
    )

number-IsPassedOn :
    (t : Text) (n : ℤ)
    → IsPrintable (packet t [] [])
    → relayed t ≡ true
    → IsPassedOn (packet t [] (to_string n))
number-IsPassedOn t n l r = record {
  printable = record {
    type_lacks = l.type_lacks;
    username_lacks = tt;
    msg_text_lacks = to_string-Lacks 0 refl (omega arith) n;
  };
  kind = r;
}

player-IsPassedOn : IsPassedOn (packet (codes "player") [] [])
unfolding text_eq
player-IsPassedOn = record {
  printable = record { type_lacks = omega arith; username_lacks = tt; msg_text_lacks = tt };
  kind = refl;
}

turn-IsPassedOn : IsPassedOn (packet (codes "turn") [] [])
unfolding text_eq
turn-IsPassedOn = record {
  printable = record { type_lacks = omega arith; username_lacks = tt; msg_text_lacks = tt };
  kind = refl;
}

complete-IsPassedOn : IsPassedOn (packet (codes "update_complete") [] [])
unfolding text_eq
complete-IsPassedOn = record {
  printable = record { type_lacks = omega arith; username_lacks = tt; msg_text_lacks = tt };
  kind = refl;
}

unit-IsPassedOn : (p : CustomPacket) → IsUnitPacket p → IsPassedOn p
unfolding text_eq
unit-IsPassedOn p u = record { printable = u.printable; kind = ap relayed u.kind }

whole_game-IsPassedOn :
    {F : Type 0} (g : GameScene F) → Named g.units → All IsPassedOn (whole_game g)
whole_game-IsPassedOn g named = (
  number-IsPassedOn (codes "player") _ player-IsPassedOn.printable player-IsPassedOn.kind,
  (
    number-IsPassedOn (codes "turn") _ turn-IsPassedOn.printable turn-IsPassedOn.kind,
    All-append IsPassedOn (changed_packets units_vec (λ s. set_has_changed true (g.units s)))
        (packet (codes "update_complete") [] [] ∷ [])
        (All-map unit-IsPassedOn (changed_packets units_vec (λ s. set_has_changed true (g.units s)))
          (changed_packets-IsUnitPacket units_vec (λ s. set_has_changed true (g.units s)) named))
        (complete-IsPassedOn, tt),
  ),
)

-- A client whose queues are empty.
abbrev rested : ClientComponent → ClientComponent
rested c = with_sending [] (with_recieved [] c)

-- A round of a client at rest.
quiet_round :
    (ps : List CustomPacket) (c d : ClientComponent)
    → c.recieved_queue ≡ []
    → All IsPrintable ps
    → process_each ps c ≡ ok d
    → consume_round (wire_bytes ps) c ≡ ok (rested d, wire d.sending_queue)
quiet_round ps c d e h made =
    let same : c ≡ with_recieved [] c = ap (λ q. record c { recieved_queue = q }) e in
    ap (consume_round (wire_bytes ps)) same
    ∙ consume_round_lem ps c h
    ∙ ap (λ k. process_each ps k >>= λ c'. ok (rested c', wire c'.sending_queue)) (sym same)
    ∙ ap (λ r. r >>= λ c'. ok (rested c', wire c'.sending_queue)) made

sender-IsPrintable : IsPrintable sender_packet
sender-IsPrintable = record { type_lacks = omega arith; username_lacks = tt; msg_text_lacks = tt }

ready-IsPrintable : IsPrintable ready_packet
ready-IsPrintable = record { type_lacks = omega arith; username_lacks = tt; msg_text_lacks = tt }

reconnect-IsPrintable : IsPrintable reconnect_packet
reconnect-IsPrintable = record {
  type_lacks = omega arith;
  username_lacks = tt;
  msg_text_lacks = omega arith;
}

whole_game-IsPrintable :
    {F : Type 0} (g : GameScene F) → Named g.units → All IsPrintable (whole_game g)
whole_game-IsPrintable g named =
    All-map (λ p (h : IsPassedOn p). h.printable) (whole_game g) (whole_game-IsPassedOn g named)

-- The last round of the player who comes back.
taking_round :
    {F : Type 0} (g : GameScene F) (c : ClientComponent)
    → Named g.units
    → consume_round (wire_bytes (whole_game g)) (rested c) ≡ ok (received g (rested c), [])
taking_round g c named =
    quiet_round (whole_game g) (rested c) (received g (rested c)) refl
      (whole_game-IsPrintable g named) (process_whole_game g (rested c) named)

-- What the frame after it reads.
read_back :
    {F : Type 0} (junk : ℤ) (g h : GameScene F) (d : ClientComponent)
    → g.assigned_team ≢ no_player
    → g.player_turn ≢ no_player
    → Named g.units
    → Named h.units
    → ((s : Slot) → Fits (g.units s))
    → d.unit_update_queue ≡ []
    → (h' : GameScene F) × (unit_network_update
          (restore (record h { client_component = received g d }))
        ≡ ok h')
      × (h'.player_turn ≡ g.player_turn)
      × (h'.assigned_team ≡ other_player g.assigned_team)
      × ((s : Slot) → SameUnit (g.units s) (h'.units s))
read_back junk g h d team turn named own fits empty =
    let h0 = record h { client_component = d } in
    let (queued, c, h', made, complete, read, at_turn, at_team, units) =
      game_is_taken_over junk g h0 team turn named own fits empty in
    let same : c ≡ received g d = let a = process_whole_game g d named in cc in
    (
      h',
      subst (λ k. unit_network_update (restore (record h { client_component = k })) ≡ ok h') same
          read,
      at_turn,
      at_team,
      units,
    )

module _ {F : Type 0} ⦃fl : Floats F⦄ where
  -- In an active game the client of one player is lost and the other one's stays; then the player
  -- comes back with a new client, which the library lists behind the one that stays. Both clients are
  -- at rest; the staying player has a team, is in the turn of one of the two and is not about to
  -- leave for the menu; in both games the units have the names of the start, and the figures of the
  -- staying player's fit into an `int`; the library brings each client what the server sends to it.
  -- Then both handlers of the server succeed and leave its state alone; both clients take in what it
  -- sends, and the next frame of the staying player succeeds. The next round of that player's client
  -- sends the packets, the server relays them, and the new client takes them in and is told that
  -- they are complete, while it is still reconnecting and out of the lobby. What its next frame
  -- restores and reads from them has the turn of the staying player, the other team, and every unit
  -- with the place, the squad and the health that it has in the staying player's game.
  pub game_is_resumed :
      (inbox : ℕ → Send → List Text) (s : Server) (stays comes : ℕ) (junk : ℤ) (ms : F)
      (g h : GameScene F)
      → Brings inbox
      → stays ≢ comes
      → s.game_active ≡ true
      → AtRest g.client_component
      → AtRest h.client_component
      → g.assigned_team ≢ no_player
      → g.player_turn ≢ no_player
      → g.next_scene ≡ stay
      → Named g.units
      → Named h.units
      → ((t : Slot) → Fits (g.units t))
      → (lost : List Send) × (back : List Send) × (c : ClientComponent) × (d : ClientComponent)
        × (g' : GameScene F) × (c' : ClientComponent) × (sent : List (Text × ℕ)) × (passed : List
            Send)
        × (d' : ClientComponent) × (h' : GameScene F) × (on_client_disconnect (stays ∷ []) s
            ≡ ok (s, lost))
        × (on_client_connect (stays ∷ comes ∷ []) comes s ≡ ok (s, back))
        × (consume_round (reaching inbox stays (lost ++ back)) g.client_component ≡ ok (c, []))
        × (consume_round (reaching inbox comes (lost ++ back)) h.client_component ≡ ok (d, []))
        × (update_scene junk ms (record g { client_component = c }) ≡ ok g')
        × (consume_round [] g'.client_component ≡ ok (c', sent))
        × (relay (stays ∷ comes ∷ []) stays sent ≡ ok passed)
        × (consume_round (reaching inbox comes passed) d ≡ ok (d', []))
        × (d'.update_complete ≡ true)
        × (d'.is_reconnecting ≡ true)
        × (d'.is_lobby ≡ false)
        × (unit_network_update (restore (record h { client_component = d' })) ≡ ok h')
        × (h'.player_turn ≡ g.player_turn)
        × (h'.assigned_team ≡ other_player g.assigned_team)
        × ((t : Slot) → SameUnit (g.units t) (h'.units t))
  game_is_resumed inbox s stays comes junk ms g h brings apart active rg rh team turn next named own
        fits =
      let (lost_lem, back_lem) = server_part s stays comes active in
      let c = rested (asked g.client_component) in
      let d = rested (rejoined h.client_component) in
      let (g', framed, queued, recieved, _, _) =
        frame_sends junk ms (record g { client_component = c }) team turn next refl refl refl in
      let ps = whole_game g in
      let (h', read, at_turn, at_team, units) =
        read_back junk g h d team turn named own fits rh.unread in
      (
        to stays (encode sender_packet) ∷ [],
        to comes (encode reconnect_packet) ∷ to_all_if (encode ready_packet) (others comes) ∷ [],
        c,
        d,
        g',
        rested g'.client_component,
        wire ps,
        relayed_all stays ps,
        received g d,
        h',
        lost_lem,
        back_lem,
        ap (λ ds. consume_round ds g.client_component)
              (reaching_stays inbox stays comes brings apart)
            ∙ quiet_round (sender_packet ∷ ready_packet ∷ []) g.client_component
                (asked g.client_component) rg.recieved (sender-IsPrintable, (ready-IsPrintable, tt))
                (stays_process g.client_component)
            ∙ ap (λ q. ok (c, wire q)) rg.unsent,
        ap (λ ds. consume_round ds h.client_component)
              (reaching_comes inbox stays comes brings apart)
            ∙ quiet_round (reconnect_packet ∷ []) h.client_component (rejoined h.client_component)
                rh.recieved (reconnect-IsPrintable, tt) (comes_process h.client_component)
            ∙ ap (λ q. ok (d, wire q)) rh.unsent,
        framed,
        quiet_round [] g'.client_component g'.client_component recieved tt refl
            ∙ ap (λ q. ok (rested g'.client_component, wire q)) queued,
        relay_passed (stays ∷ comes ∷ []) stays ps (whole_game-IsPassedOn g named),
        ap (λ ds. consume_round ds d) (reaching-relayed_all inbox stays comes (λ p. to_others p) ps)
            ∙ taking_round g (rejoined h.client_component) named,
        refl,
        refl,
        refl,
        read,
        at_turn,
        at_team,
        units,
      )
    where
      to_others : (p : Text × ℕ) → inbox comes (to_all_if p (others stays)) ≡ p.0 ∷ []
      to_others p =
          brings.all comes p (others stays)
          ∙ ap (λ b. if b then p.0 ∷ [] else []) (chosen stays comes apart)
