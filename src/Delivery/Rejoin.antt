-- ===== src/Delivery/Rejoin.antt =====
-- A player who has lost the connection comes back: from the server's handlers to the other player's
-- frame, which queues the whole game for the one who is back.
pub mod Resumed
use networking_game.Base.{
  ℕ, ◌≡◌, ◌≢◌, refl, sym, subst, ap, ap₂, ◌∙◌, arith, Bool, true, false, List, [], ◌∷◌, ◌++◌,
  if◌then◌else◌, ok, ◌>>=◌, ℤ, pos, All, ◌==◌, ◌&&◌, ◌||◌, Result,
}
use networking_game.Text.{Text, codes, text_eq}
use networking_game.Packet.{CustomPacket, packet, encode}
use networking_game.Packet.Wire.{IsPrintable}
use networking_game.Client.{
  ClientComponent, consume_round, process_recieved_packets, reset_ready_to_send,
}
use networking_game.Client.Round.{
  wire, wire_bytes, with_recieved, with_sending, process_each, consume_round_lem,
}
use networking_game.Server.{
  Server, Send, to, to_all_if, others, on_client_connect, on_client_disconnect,
}
use networking_game.Game.State.{GameScene, Floats, PlayerTurn, no_player, player1, player2, stay}
use networking_game.Game.Turn.{update_reconnectee}
use networking_game.Game.Network.Takeover.{whole_game, update_reconnectee_lem}
use networking_game.Game.Frame.{update_scene, playing, reconnecting, leave, assign_team}
use networking_game.Delivery.{reaching}

-- What the library brings to a client of what the server sends: what is for that client, and what is
-- for all clients that a test chooses, when the test chooses that client.
pub record Brings (inbox : ℕ → Send → List Text) : Type 0 where
  pub one :
      (client i : ℕ) (p : Text × ℕ) → inbox client (to i p) ≡ (if i == client then p.0 ∷ [] else [])
  pub all :
      (client : ℕ) (p : Text × ℕ) (f : ℕ → Bool)
      → inbox client (to_all_if p f) ≡ (if f client then p.0 ∷ [] else [])

abbrev pub sender_packet : CustomPacket
sender_packet = packet (codes "data_sender") [] []

abbrev pub ready_packet : CustomPacket
ready_packet = packet (codes "ready") [] []

abbrev pub reconnect_packet : CustomPacket
reconnect_packet = packet (codes "reconnect") [] (codes "true")

-- What the server sends in both handlers.
abbrev pub sends_of : ℕ → ℕ → List Send
sends_of stays comes =
    to stays (encode sender_packet)
    ∷ to comes (encode reconnect_packet)
    ∷ to_all_if (encode ready_packet) (others comes)
    ∷ []

pub server_part :
    (s : Server) (stays comes : ℕ)
    → s.game_active ≡ true
    → (on_client_disconnect (stays ∷ []) s ≡ ok (s, to stays (encode sender_packet) ∷ []))
      × (on_client_connect (stays ∷ comes ∷ []) comes s
          ≡ ok (
            s,
            to comes (encode reconnect_packet)
                ∷ to_all_if (encode ready_packet) (others comes)
                ∷ [],
          ))
unfolding on_client_connect on_client_disconnect
server_part s stays comes e = (ground arith, ground arith)

same_id : (a : ℕ) → (a == a) ≡ true
same_id a = ground arith

other_id : (a b : ℕ) → a ≢ b → (a == b) ≡ false
other_id a b h = ground arith

abbrev pub asked : ClientComponent → ClientComponent
asked c = record c { data_sender = true; is_reconnecting = true; ready_to_send = true }

abbrev pub rejoined : ClientComponent → ClientComponent
rejoined c = record c { is_reconnecting = true; is_lobby = false }

pub stays_process :
    (c : ClientComponent) → process_each (sender_packet ∷ ready_packet ∷ []) c ≡ ok (asked c)
unfolding process_recieved_packets text_eq
stays_process c = refl

pub comes_process : (c : ClientComponent) → process_each (reconnect_packet ∷ []) c ≡ ok (rejoined c)
unfolding process_recieved_packets text_eq
comes_process c = refl

pub chosen : (stays comes : ℕ) → stays ≢ comes → others stays comes ≡ true
chosen stays comes h = rw (other_id comes stays (λ e. h (sym e))) refl

pub reaching_stays :
    (inbox : ℕ → Send → List Text) (stays comes : ℕ)
    → Brings inbox
    → stays ≢ comes
    → reaching inbox stays (sends_of stays comes) ≡ wire_bytes (sender_packet ∷ ready_packet ∷ [])
reaching_stays inbox stays comes b h =
    rw
      (
        b.one stays stays (encode sender_packet),
        b.one stays comes (encode reconnect_packet),
        b.all stays (encode ready_packet) (others comes),
        same_id stays,
        other_id comes stays (λ e. h (sym e)),
        other_id stays comes h,
      )
      refl

pub reaching_comes :
    (inbox : ℕ → Send → List Text) (stays comes : ℕ)
    → Brings inbox
    → stays ≢ comes
    → reaching inbox comes (sends_of stays comes) ≡ wire_bytes (reconnect_packet ∷ [])
reaching_comes inbox stays comes b h =
    rw
      (
        b.one comes stays (encode sender_packet),
        b.one comes comes (encode reconnect_packet),
        b.all comes (encode ready_packet) (others comes),
        same_id comes,
        other_id stays comes h,
      )
      refl

module _ {F : Type 0} ⦃fl : Floats F⦄ where
  assigned : (g : GameScene F) → g.assigned_team ≢ no_player → assign_team g ≡ g
  unfolding assign_team
  assigned g h = by_team g.assigned_team h
    where
      by_team :
          (t : PlayerTurn)
          → t ≢ no_player
          → assign_team (record g { assigned_team = t }) ≡ record g { assigned_team = t }
      by_team no_player h = absurd (h refl)
      by_team player1 h = ground arith
      by_team player2 h = ground arith

  staying : (g : GameScene F) → g.next_scene ≡ stay → leave g ≡ g
  unfolding leave
  staying g h = rw h refl

  -- The scene after the branch that sends the game.
  abbrev sent_game : ℤ → GameScene F → GameScene F
  sent_game junk g =
      let g1 = update_reconnectee junk g in
      record g1 { client_component = reset_ready_to_send g1.client_component }

  sends :
      (junk : ℤ) (g : GameScene F)
      → g.client_component.is_reconnecting ≡ true
      → g.client_component.data_sender ≡ true
      → g.client_component.ready_to_send ≡ true
      → reconnecting junk g ≡ ok (sent_game junk g)
  unfolding reconnecting
  sends junk g r d t = rw (r, d, t) refl

  still_reconnecting :
      (junk : ℤ) (g : GameScene F)
      → (update_reconnectee junk g).client_component.is_reconnecting
        ≡ g.client_component.is_reconnecting
  unfolding update_reconnectee
  still_reconnecting junk g = refl

  still_recieved :
      (junk : ℤ) (g : GameScene F)
      → (update_reconnectee junk g).client_component.recieved_queue
        ≡ g.client_component.recieved_queue
  unfolding update_reconnectee
  still_recieved junk g = refl

  frame : ℤ → F → GameScene F → Result (GameScene F)
  frame junk ms g =
      if g.client_component.is_lobby || g.client_component.is_reconnecting
      then reconnecting junk g
      else playing ms g

  in_lobby :
      (junk : ℤ) (ms : F) (g : GameScene F)
      → g.client_component.is_reconnecting ≡ true
      → frame junk ms g ≡ reconnecting junk g
  unfolding frame
  in_lobby junk ms g r = rw (ap (λ b. g.client_component.is_lobby || b) r) (ground arith)

  -- The frame of a player who has been asked to send the game.
  pub frame_sends :
      (junk : ℤ) (ms : F) (g : GameScene F)
      → g.assigned_team ≢ no_player
      → g.player_turn ≢ no_player
      → g.next_scene ≡ stay
      → g.client_component.is_reconnecting ≡ true
      → g.client_component.data_sender ≡ true
      → g.client_component.ready_to_send ≡ true
      → (g' : GameScene F) × (update_scene junk ms g ≡ ok g')
        × (g'.client_component.sending_queue ≡ g.client_component.sending_queue ++ whole_game g)
        × (g'.client_component.recieved_queue ≡ g.client_component.recieved_queue)
        × (g'.client_component.ready_to_send ≡ false)
        × (g'.client_component.is_reconnecting ≡ true)
  unfolding update_scene frame
  frame_sends junk ms g team turn next r d t =
      let g0 = record g { scene_full_init = true } in
      let head : leave (assign_team g0) ≡ g0 = ap leave (assigned g0 team) ∙ staying g0 next in
      (
        sent_game junk g0,
        ap (frame junk ms) head ∙ in_lobby junk ms g0 r ∙ sends junk g0 r d t,
        update_reconnectee_lem junk g0 turn,
        still_recieved junk g0,
        refl,
        still_reconnecting junk g0 ∙ r,
      )
