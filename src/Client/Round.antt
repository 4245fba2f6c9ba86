-- ===== src/Client/Round.antt =====
-- One round of the client's thread: everything received is processed, everything queued is sent.
use networking_game.Base.{
  ℕ, List, [], ◌∷◌, ◌++◌, ◌≡◌, refl, sym, ap, ◌∙◌, arith, append_assoc, append-nil, Result, ok, err,
  ◌>>=◌, length, All,
}
use networking_game.Text.{Text}
use networking_game.Packet.{CustomPacket, encode}
use networking_game.Packet.Wire.{IsPrintable, decode-encode}
use networking_game.Client.{
  ClientComponent, on_data, process_recieved_packets, send_front_of_queue, consume, process_all,
  send_all, consume_round,
}

abbrev pub wire : List CustomPacket → List (Text × ℕ)
wire [] = []
wire (p ∷ ps) = encode p ∷ wire ps

abbrev pub wire_bytes : List CustomPacket → List Text
wire_bytes [] = []
wire_bytes (p ∷ ps) = (encode p).0 ∷ wire_bytes ps

abbrev pub with_sending : List CustomPacket → ClientComponent → ClientComponent
with_sending q c = record c { sending_queue = q }

-- The sending loop hands every queued packet over, in the order in which they were queued, and
-- leaves the queue empty.
send_all_lem :
    (q : List CustomPacket) (c : ClientComponent)
    → send_all (length q) (with_sending q c) ≡ ok (with_sending [] c, wire q)
unfolding send_all send_front_of_queue
send_all_lem [] c = refl
send_all_lem (m ∷ q) c = rw (send_all_lem q c)

-- Data that holds well-formed packets is queued as those packets, in order.
pub consume_lem :
    (ps : List CustomPacket) (c : ClientComponent)
    → All IsPrintable ps
    → consume (wire_bytes ps) c ≡ ok (record c { recieved_queue = c.recieved_queue ++ ps })
unfolding consume on_data
consume_lem [] c h =
    ap (λ q. ok (record c { recieved_queue = q })) (sym (append-nil c.recieved_queue))
consume_lem (p ∷ ps) c h = rw (decode-encode p h.0).0 (
    consume_lem ps (record c { recieved_queue = c.recieved_queue ++ p ∷ [] }) h.1
    ∙ ap (λ q. ok (record c { recieved_queue = q })) (append_assoc c.recieved_queue (p ∷ []) ps))

abbrev pub with_recieved : List CustomPacket → ClientComponent → ClientComponent
with_recieved q c = record c { recieved_queue = q }

-- Packet by packet, from the front.
abbrev pub process_each : List CustomPacket → ClientComponent → Result ClientComponent
process_each [] c = ok c
process_each (p ∷ ps) c = process_recieved_packets p c >>= process_each ps

pub process-with_recieved :
    (p : CustomPacket) (q : List CustomPacket) (c : ClientComponent)
    → process_recieved_packets p (with_recieved q c)
      ≡ (process_recieved_packets p c >>= λ c'. ok (with_recieved q c'))
unfolding process_recieved_packets
process-with_recieved p q c = ground arith

process_all_lem :
    (q : List CustomPacket) (c : ClientComponent)
    → process_all (length q) (with_recieved q c)
      ≡ (process_each q c >>= λ c'. ok (with_recieved [] c'))
unfolding process_all
process_all_lem [] c = refl
process_all_lem (p ∷ q) c =
    rw (process-with_recieved p (p ∷ q) c)
      (rest (process_recieved_packets p c) (λ c'. process_all_lem q c'))
  where
    rest :
        (r : Result ClientComponent)
        → ((c' : ClientComponent)
            → process_all (length q) (with_recieved q c')
              ≡ (process_each q c' >>= λ c2. ok (with_recieved [] c2)))
        → (r >>= (λ c'. ok (with_recieved (p ∷ q) c')) >>= λ c'.
            process_all (length q) (with_recieved q c'))
          ≡ (r >>= process_each q >>= λ c'. ok (with_recieved [] c'))
    rest (ok c') ih = ih c'
    rest (err e) ih = refl

-- A round of the thread that begins with no packet left over and is delivered the wire forms of
-- printable packets: the packets are processed one after the other in the order in which they came,
-- an exception among them ends the round, and otherwise all packets that are then queued for
-- sending go out in order, and both queues are left empty.
pub consume_round_lem :
    (ps : List CustomPacket) (c : ClientComponent)
    → All IsPrintable ps
    → consume_round (wire_bytes ps) (with_recieved [] c) ≡ (
        process_each ps (with_recieved [] c) >>= λ c'.
        ok (with_sending [] (with_recieved [] c'), wire c'.sending_queue))
unfolding consume_round
consume_round_lem ps c h =
    rw (consume_lem ps (with_recieved [] c) h, process_all_lem ps (with_recieved [] c))
      (finish (process_each ps (with_recieved [] c)))
  where
    finish :
        (r : Result ClientComponent)
        → (r >>= (λ c'. ok (with_recieved [] c')) >>= λ c2. send_all (length c2.sending_queue) c2)
          ≡ (r >>= λ c'. ok (with_sending [] (with_recieved [] c'), wire c'.sending_queue))
    finish (ok c') = send_all_lem c'.sending_queue (with_recieved [] c')
    finish (err e) = refl
