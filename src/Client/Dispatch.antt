-- ===== src/Client/Dispatch.antt =====
-- Where `processRecievedPackets` puts what comes in.
use networking_game.Base.{
  List, [], ◌∷◌, ◌++◌, ◌≡◌, refl, ap, ◌∙◌, arith, append_assoc, append-nil, Bool, true, false,
  if◌then◌else◌, ok, Result-cases, inl, inr,
}
use networking_game.Text.{Text, codes, text_eq, text_eq_iff}
use networking_game.Text.Decimal.{stoi}
use networking_game.Packet.{CustomPacket}
use networking_game.Client.{ClientComponent, process_recieved_packets}
use networking_game.Client.Round.{process_each}

-- The packets of one type, in order.
abbrev pub of_type : Text → List CustomPacket → List CustomPacket
of_type t [] = []
of_type t (p ∷ ps) = if text_eq p.type t then p ∷ of_type t ps else of_type t ps

-- What no packet changes, and what grows at the end only.
pub record Sorted (ps : List CustomPacket) (c c' : ClientComponent) : Type 0 where
  pub chats : c'.chat_recieved_queue ≡ c.chat_recieved_queue ++ of_type (codes "chat") ps
  pub units : c'.unit_update_queue ≡ c.unit_update_queue ++ of_type (codes "unit") ps
  pub unsent : c'.sending_queue ≡ c.sending_queue
  pub name : c'.username ≡ c.username
  pub ip : c'.connecting_ip ≡ c.connecting_ip
  pub alive : c'.kill_thread ≡ c.kill_thread

other_types :
    (t : Text)
    → text_eq t (codes "unit") ≡ true
    → (text_eq t (codes "chat") ≡ false) × (text_eq t (codes "init") ≡ false)
unfolding text_eq
other_types t h = rw ((text_eq_iff t (codes "unit")).0 h) (refl, refl)

process-Sorted :
    (p : CustomPacket) (c c' : ClientComponent)
    → process_recieved_packets p c ≡ ok c'
    → Sorted (p ∷ []) c c'
unfolding process_recieved_packets
process-Sorted p c c' h = elim (Result-cases (stoi p.msg_text)) [
  | inl (n, e) ↦
      ground (
        arith,
        append-nil c.chat_recieved_queue,
        append-nil c.unit_update_queue,
        other_types p.type,
      )
  | inr (f, e) ↦
      ground (
        arith,
        append-nil c.chat_recieved_queue,
        append-nil c.unit_update_queue,
        other_types p.type,
      )
]

pub of_type-cons :
    (t : Text) (p : CustomPacket) (ps q : List CustomPacket)
    → q ++ of_type t (p ∷ []) ++ of_type t ps ≡ q ++ of_type t (p ∷ ps)
of_type-cons t p ps q = choose (text_eq p.type t)
  where
    choose :
        (b : Bool)
        → q ++ (if b then p ∷ [] else []) ++ of_type t ps
          ≡ q ++ (if b then p ∷ of_type t ps else of_type t ps)
    choose true = append_assoc q (p ∷ []) (of_type t ps)
    choose false = ap (λ z. z ++ of_type t ps) (append-nil q)

Sorted-trans :
    (p : CustomPacket) (ps : List CustomPacket) (c d e : ClientComponent)
    → Sorted (p ∷ []) c d
    → Sorted ps d e
    → Sorted (p ∷ ps) c e
Sorted-trans p ps c d e s r = record {
  chats =
      r.chats
      ∙ ap (λ q. q ++ of_type (codes "chat") ps) s.chats
      ∙ of_type-cons (codes "chat") p ps c.chat_recieved_queue;
  units =
      r.units
      ∙ ap (λ q. q ++ of_type (codes "unit") ps) s.units
      ∙ of_type-cons (codes "unit") p ps c.unit_update_queue;
  unsent = r.unsent ∙ s.unsent;
  name = r.name ∙ s.name;
  ip = r.ip ∙ s.ip;
  alive = r.alive ∙ s.alive;
}

-- A run of packets that is processed with no exception puts its chat packets at the end of the
-- chat queue and its unit packets at the end of the unit queue, both in the order in which they
-- came, and leaves the packets to send, the user's name, the address and the thread's flag alone.
pub process_each-Sorted :
    (ps : List CustomPacket) (c c' : ClientComponent) → process_each ps c ≡ ok c' → Sorted ps c c'
process_each-Sorted [] c c' h =
    ground (arith, append-nil c.chat_recieved_queue, append-nil c.unit_update_queue)
process_each-Sorted (p ∷ ps) c c' h = elim (Result-cases (process_recieved_packets p c)) [
  | inl (d, e) ↦
      Sorted-trans p ps c d c' (process-Sorted p c d e) (process_each-Sorted ps d c' (rw e at h))
  | inr (f, e) ↦ cc
]
