-- ===== src/Match/Links.antt =====
-- What is on its way from one player to the other, and what a round of a network thread does to it.
use networking_game.Base.{
  ◌≡◌, refl, sym, ap, ap₂, ◌∙◌, true, false, List, [], ◌∷◌, ◌++◌, ok, ◌>>=◌, All, All-map,
  append-nil, inl, inr, Bool-cases,
}
use networking_game.Text.{Text, codes, text_eq}
use networking_game.Packet.{CustomPacket, encode}
use networking_game.Client.{ClientComponent, consume_round, process_recieved_packets}
use networking_game.Client.Round.{
  wire, wire_bytes, with_recieved, with_sending, consume_round_lem, process_each,
}
use networking_game.Client.Dispatch.{of_type, of_type-cons}
use networking_game.Delivery.Packets.{IsPlayPacket, IsUnitPacket}

-- The packets that are news of the game.
abbrev pub units_of : List CustomPacket → List CustomPacket
units_of ps = of_type (codes "unit") ps

abbrev chats_of : List CustomPacket → List CustomPacket
chats_of ps = of_type (codes "chat") ps

pub of_type-append :
    (t : Text) (ps qs : List CustomPacket) → of_type t (ps ++ qs) ≡ of_type t ps ++ of_type t qs
of_type-append t [] qs = refl
of_type-append t (p ∷ ps) qs = elim (Bool-cases (text_eq p.type t)) [
  | inl e ↦ rw (e, of_type-append t ps qs)
  | inr e ↦ rw (e, of_type-append t ps qs)
]

pub units_of-units : (ps : List CustomPacket) → All IsUnitPacket ps → units_of ps ≡ ps
unfolding text_eq
units_of-units [] h = refl
units_of-units (p ∷ ps) h =
    let unit : text_eq p.type (codes "unit") ≡ true = ap (λ t. text_eq t (codes "unit")) h.0.kind in
    rw (unit, units_of-units ps h.1)

pub All-split :
    (P : CustomPacket → Type 0) (ps qs : List CustomPacket) → All P (ps ++ qs) → All P ps × All P qs
All-split P [] qs h = (tt, h)
All-split P (p ∷ ps) qs h = let (a, b) = All-split P ps qs h.1 in ((h.0, a), b)

pub wire_bytes-append :
    (ps qs : List CustomPacket) → wire_bytes (ps ++ qs) ≡ wire_bytes ps ++ wire_bytes qs
wire_bytes-append [] qs = refl
wire_bytes-append (p ∷ ps) qs = rw (wire_bytes-append ps qs)

-- What is delivered of the blocks of some packets are the blocks of the first of them.
pub split :
    (ps : List CustomPacket) (d rest : List Text)
    → wire_bytes ps ≡ d ++ rest
    → (qs : List CustomPacket) × (rs : List CustomPacket) × (ps ≡ qs ++ rs)
      × (d ≡ wire_bytes qs)
      × (rest ≡ wire_bytes rs)
split ps [] rest e = ([], ps, refl, refl, sym e)
split [] (t ∷ d) rest e = cc
split (p ∷ ps) (t ∷ d) rest e =
    let one : (encode p).0 ≡ t = cc in
    let more : wire_bytes ps ≡ d ++ rest = cc in
    let (qs, rs, parts, delivered, left) = split ps d rest more in
    (p ∷ qs, rs, ap (λ z. p ∷ z) parts, ap₂ (λ z zs. z ∷ zs) (sym one) delivered, left)

-- The client after a round in which some packets arrive.
abbrev pub after : List CustomPacket → ClientComponent → ClientComponent
after ps c = record c {
  recieved_queue = [];
  sending_queue = [];
  chat_recieved_queue = c.chat_recieved_queue ++ chats_of ps;
  unit_update_queue = c.unit_update_queue ++ units_of ps;
}

abbrev sorted : List CustomPacket → ClientComponent → ClientComponent
sorted ps c = record c {
  chat_recieved_queue = c.chat_recieved_queue ++ chats_of ps;
  unit_update_queue = c.unit_update_queue ++ units_of ps;
}

abbrev sort : ClientComponent → List CustomPacket → List CustomPacket → ClientComponent
sort c chats units = record c { chat_recieved_queue = chats; unit_update_queue = units }

process-play :
    (p : CustomPacket) (c : ClientComponent)
    → IsPlayPacket p
    → process_recieved_packets p c ≡ ok (sorted (p ∷ []) c)
unfolding process_recieved_packets text_eq
process-play p c h = elim h.kind [
  | inl e ↦
      let chat : text_eq p.type (codes "chat") ≡ false = ap (λ t. text_eq t (codes "chat")) e in
      let init : text_eq p.type (codes "init") ≡ false = ap (λ t. text_eq t (codes "init")) e in
      let unit : text_eq p.type (codes "unit") ≡ true = ap (λ t. text_eq t (codes "unit")) e in
      rw (chat, init, unit)
        (ap (λ q. ok (sort c q (c.unit_update_queue ++ p ∷ [])))
          (sym (append-nil c.chat_recieved_queue)))
  | inr e ↦
      let chat : text_eq p.type (codes "chat") ≡ true = ap (λ t. text_eq t (codes "chat")) e in
      let unit : text_eq p.type (codes "unit") ≡ false = ap (λ t. text_eq t (codes "unit")) e in
      rw (chat, unit)
        (ap (λ q. ok (sort c (c.chat_recieved_queue ++ p ∷ []) q))
          (sym (append-nil c.unit_update_queue)))
]

process_each-play :
    (ps : List CustomPacket) (c : ClientComponent)
    → All IsPlayPacket ps
    → process_each ps c ≡ ok (sorted ps c)
process_each-play [] c h =
    ap (λ q. ok (sort c q c.unit_update_queue)) (sym (append-nil c.chat_recieved_queue))
    ∙ ap (λ q. ok (sort c (c.chat_recieved_queue ++ []) q)) (sym (append-nil c.unit_update_queue))
process_each-play (p ∷ ps) c h =
    ap (λ r. r >>= process_each ps) (process-play p c h.0)
    ∙ process_each-play ps (sorted (p ∷ []) c) h.1
    ∙ ap₂ (λ a b. ok (sort c a b)) (of_type-cons (codes "chat") p ps c.chat_recieved_queue)
        (of_type-cons (codes "unit") p ps c.unit_update_queue)

-- A round that begins with nothing left over: it takes in what is delivered and sends what is queued.
pub round_lem :
    (ps : List CustomPacket) (c : ClientComponent)
    → c.recieved_queue ≡ []
    → All IsPlayPacket ps
    → consume_round (wire_bytes ps) c ≡ ok (after ps c, wire c.sending_queue)
round_lem ps c e h =
    ap (λ q. consume_round (wire_bytes ps) (record c { recieved_queue = q })) e
    ∙ consume_round_lem ps c (All-map (λ p u. u.printable) ps h)
    ∙ ap (λ r. r >>= λ c'. ok (with_sending [] (with_recieved [] c'), wire c'.sending_queue))
        (process_each-play ps (with_recieved [] c) h)

pub no_packets : (ps : List CustomPacket) → wire_bytes ps ≡ [] → ps ≡ []
no_packets [] e = refl
no_packets (p ∷ ps) e = cc
