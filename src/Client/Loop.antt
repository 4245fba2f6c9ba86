-- ===== src/Client/Loop.antt =====
-- The loop of the client's thread: how the network splits what it delivers makes no difference.
use networking_game.Base.{
  ℕ, Bool, true, false, not, if◌then◌else◌, List, [], ◌∷◌, ◌++◌, ◌≡◌, refl, sym, ap, ap₂, ◌∙◌,
  arith, append-nil, Result, Result-cases, ok, err, ◌>>=◌, inl, inr, All,
}
use networking_game.Text.{Text}
use networking_game.Packet.{CustomPacket}
use networking_game.Packet.Wire.{IsPrintable}
use networking_game.Client.{
  ClientComponent, process_recieved_packets, consume_round, consume_events,
}
use networking_game.Client.Round.{
  wire, wire_bytes, with_sending, with_recieved, process_each, process-with_recieved,
  consume_round_lem,
}
use networking_game.Client.Dispatch.{process_each-Sorted}

abbrev idle : ClientComponent → ClientComponent
idle c = with_sending [] (with_recieved [] c)

process-with_sending :
    (p : CustomPacket) (q : List CustomPacket) (c : ClientComponent)
    → process_recieved_packets p (with_sending q c)
      ≡ (process_recieved_packets p c >>= λ c'. ok (with_sending q c'))
unfolding process_recieved_packets
process-with_sending p q c = ground arith

-- What is queued does not matter to what is processed.
process-idle :
    (p : CustomPacket) (c : ClientComponent)
    → process_recieved_packets p (idle c) ≡ (process_recieved_packets p c >>= λ c'. ok (idle c'))
process-idle p c =
    process-with_sending p [] (with_recieved [] c)
    ∙ ap (λ r. r >>= λ c'. ok (with_sending [] c')) (process-with_recieved p [] c)
    ∙ after (process_recieved_packets p c)
  where
    after :
        (r : Result ClientComponent)
        → (r >>= (λ c'. ok (with_recieved [] c')) >>= λ c'. ok (with_sending [] c'))
          ≡ (r >>= λ c'. ok (idle c'))
    after (ok c') = refl
    after (err e) = refl

process_each-idle :
    (ps : List CustomPacket) (c : ClientComponent)
    → process_each ps (idle c) ≡ (process_each ps c >>= λ c'. ok (idle c'))
process_each-idle [] c = refl
process_each-idle (p ∷ ps) c =
    ap (λ r. r >>= process_each ps) (process-idle p c)
    ∙ after (process_recieved_packets p c) (λ c'. process_each-idle ps c')
  where
    after :
        (r : Result ClientComponent)
        → ((c' : ClientComponent)
            → process_each ps (idle c') ≡ (process_each ps c' >>= λ d. ok (idle d)))
        → (r >>= (λ c'. ok (idle c')) >>= process_each ps)
          ≡ (r >>= process_each ps >>= λ d. ok (idle d))
    after (ok c') ih = ih c'
    after (err e) ih = refl

process_each-append :
    (ps qs : List CustomPacket) (c : ClientComponent)
    → process_each (ps ++ qs) c ≡ (process_each ps c >>= process_each qs)
process_each-append [] qs c = refl
process_each-append (p ∷ ps) qs c = elim (Result-cases (process_recieved_packets p c)) [
  | inl (d, e) ↦ rw e (process_each-append ps qs d)
  | inr (f, e) ↦ rw e
]

-- Rounds in which these packets arrive, and all that arrives.
abbrev rounds : List (List CustomPacket) → List (Bool × List Text)
rounds [] = []
rounds (ps ∷ pss) = (true, wire_bytes ps) ∷ rounds pss

abbrev all_of : List (List CustomPacket) → List CustomPacket
all_of [] = []
all_of (ps ∷ pss) = ps ++ all_of pss

-- A client that has neither sent nor received anything further.
abbrev pub settled : Result ClientComponent → Result ClientComponent
settled r = r >>= λ c. ok (idle c)

-- What a round sends that ends with this result.
abbrev flushed : Result ClientComponent → List (Text × ℕ)
flushed (ok c) = wire c.sending_queue
flushed (err e) = []

-- What follows a round.
abbrev later :
    List (List CustomPacket)
    → Result (ClientComponent × List (Text × ℕ))
    → List (Text × ℕ) × Result ClientComponent
later pss (ok (c, sent)) = let rest = consume_events (rounds pss) c in (sent ++ rest.0, rest.1)
later pss (err e) = ([], err e)

-- What the client sends whose first round ends with this result: what was queued, or nothing.
abbrev pub sent_first : ClientComponent → Result ClientComponent → List (Text × ℕ)
sent_first c (ok d) = wire c.sending_queue
sent_first c (err e) = []

-- The rounds after a first one.
abbrev More : List (List CustomPacket) → ClientComponent → Type 0
More pss d = consume_events (rounds pss) (idle d) ≡ ([], settled (process_each (all_of pss) d))

one_round :
    (ps : List CustomPacket) (c : ClientComponent)
    → All IsPrintable ps
    → c.recieved_queue ≡ []
    → consume_round (wire_bytes ps) c
      ≡ (process_each ps c >>= λ d. ok (idle d, wire d.sending_queue))
one_round ps c h none =
    let same : c ≡ with_recieved [] c = ap (λ q. record c { recieved_queue = q }) none in
    ap (consume_round (wire_bytes ps)) same
    ∙ consume_round_lem ps c h
    ∙ ap (λ k. process_each ps k >>= λ d. ok (idle d, wire d.sending_queue)) (sym same)

first_round :
    (ps : List CustomPacket) (pss : List (List CustomPacket)) (c : ClientComponent)
    → All IsPrintable ps
    → c.kill_thread ≡ false
    → c.recieved_queue ≡ []
    → ((d : ClientComponent) → d.kill_thread ≡ false → More pss d)
    → consume_events (rounds (ps ∷ pss)) c
      ≡ (flushed (process_each ps c), settled (process_each (ps ++ all_of pss) c))
unfolding consume_events
first_round ps pss c h alive none more =
    ap (λ b. if not b then later pss (consume_round (wire_bytes ps) c) else ([], ok c)) alive
    ∙ ap (later pss) (one_round ps c h none)
    ∙ elim (Result-cases (process_each ps c)) [
      | inl (d, e) ↦ rw e (
          ap (λ s. (wire d.sending_queue ++ s.0, s.1))
            (more d ((process_each-Sorted ps c d e).alive ∙ alive))
          ∙ ap (λ w. (w, settled (process_each (all_of pss) d)))
              (append-nil (wire d.sending_queue)))
      | inr (f, e) ↦ rw e
    ]
    ∙ ap (λ r. (flushed (process_each ps c), settled r))
        (sym (process_each-append ps (all_of pss) c))

-- What is left over of a round is empty.
idle_rest :
    (ps qs : List CustomPacket) (d : ClientComponent)
    → ◌≡◌ {A = List (Text × ℕ) × Result ClientComponent}
        (flushed (process_each ps (idle d)), settled (process_each qs (idle d)))
        ([], settled (process_each qs d))
idle_rest ps qs d =
    ap₂ (λ w r. (w, r))
      (nothing (process_each ps (idle d)) (process_each ps d) (process_each-idle ps d))
      (ap settled (process_each-idle qs d) ∙ once (process_each qs d))
  where
    nothing : (r s : Result ClientComponent) → r ≡ settled s → flushed r ≡ []
    nothing r (ok k) e = ap flushed e
    nothing r (err f) e = ap flushed e

    once : (r : Result ClientComponent) → settled (settled r) ≡ settled r
    once (ok k) = refl
    once (err f) = refl

each_later :
    (pss : List (List CustomPacket)) (d : ClientComponent)
    → All (All IsPrintable) pss
    → d.kill_thread ≡ false
    → More pss d
unfolding consume_events
each_later [] d h alive = refl
each_later (ps ∷ pss) d h alive =
    first_round ps pss (idle d) h.0 alive refl (λ k a. each_later pss k h.1 a)
    ∙ idle_rest ps (ps ++ all_of pss) d

-- The thread of a client, which lives and has nothing left over, is delivered the wire forms of
-- printable packets, in one round or in several. Then all of them are processed in order, as if they
-- had come at once, and both queues are left empty, or an exception among them ends the loop. What
-- was queued goes out in order, once, and does so after the packets of the first round: an exception
-- among those leaves it unsent, and a later one does not.
pub consume_events_lem :
    (ps : List CustomPacket) (pss : List (List CustomPacket)) (c : ClientComponent)
    → All IsPrintable ps
    → All (All IsPrintable) pss
    → c.kill_thread ≡ false
    → c.recieved_queue ≡ []
    → consume_events (rounds (ps ∷ pss)) c
      ≡ (sent_first c (process_each ps c), settled (process_each (all_of (ps ∷ pss)) c))
consume_events_lem ps pss c h hs alive none =
    first_round ps pss c h alive none (λ d a. each_later pss d hs a)
    ∙ ap (λ w. (w, settled (process_each (ps ++ all_of pss) c)))
        (elim (Result-cases (process_each ps c)) [
          | inl (d, e) ↦ rw e (ap wire (process_each-Sorted ps c d e).unsent)
          | inr (f, e) ↦ rw e
        ])
