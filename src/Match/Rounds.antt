-- ===== src/Match/Rounds.antt =====
-- A round of a player's network thread loses no packet and changes no order, on the way to the other
-- player or from there.
use networking_game.Base.{
  ℕ, ◌≡◌, refl, sym, ap, ◌∙◌, subst, List, [], ◌∷◌, ◌++◌, ok, ok-injective, ok-injective_pair, All,
  All-append, append_assoc, append-nil,
}
use networking_game.Text.{Text}
use networking_game.Packet.{CustomPacket}
use networking_game.Client.{ClientComponent, consume_round}
use networking_game.Client.Round.{wire, wire_bytes}
use networking_game.Server.{Send, to_all_if, others}
use networking_game.Delivery.{relay, reaching}
use networking_game.Delivery.Packets.{
  IsPlayPacket, relayed_all, relay_lem, reaching-none, reaching-relayed_all,
}
use networking_game.Match.Links.{
  units_of, of_type-append, All-split, split, wire_bytes-append, after, round_lem,
}

-- What the library brings of the sends that go to all but `me`.
pub record Delivers (post : ℕ → Send → List Text) (me other : ℕ) : Type 0 where
  pub to_other : (p : Text × ℕ) → post other (to_all_if p (others me)) ≡ p.0 ∷ []
  pub to_me : (p : Text × ℕ) → post me (to_all_if p (others me)) ≡ []

-- What is on its way from the client `c` to the client `d`: the packets that `d` has not read yet,
-- those in its inbox, and those that `c` has not sent yet. Those about units are `news`.
pub record Link (c d : ClientComponent) (inbox : List Text) (news : List CustomPacket)
    : Type 0 where
  pub under_way : List CustomPacket
  pub arriving : inbox ≡ wire_bytes under_way
  pub play : All IsPlayPacket under_way
  pub unsent : All IsPlayPacket c.sending_queue
  pub all_news : d.unit_update_queue ++ (units_of under_way ++ units_of c.sending_queue) ≡ news

-- The sender's side of a round.
sent-Link :
    (qs : List CustomPacket) (c d : ClientComponent) (inbox : List Text) (news : List CustomPacket)
    → Link c d inbox news
    → Link (after qs c) d (inbox ++ wire_bytes c.sending_queue) news
sent-Link qs c d inbox news l = record {
  under_way = l.under_way ++ c.sending_queue;
  arriving =
      ap (λ i. i ++ wire_bytes c.sending_queue) l.arriving
      ∙ sym (wire_bytes-append l.under_way c.sending_queue);
  play = All-append IsPlayPacket l.under_way c.sending_queue l.play l.unsent;
  unsent = tt;
  all_news =
      ap (λ q. d.unit_update_queue ++ q)
        (append-nil (units_of (l.under_way ++ c.sending_queue))
          ∙ of_type-append _ l.under_way c.sending_queue)
      ∙ l.all_news;
}

-- The receiver's side.
recieved-Link :
    (qs rs : List CustomPacket) (c d : ClientComponent) (inbox : List Text)
    (news : List CustomPacket) (l : Link c d inbox news)
    → l.under_way ≡ qs ++ rs
    → All IsPlayPacket rs
    → Link c (after qs d) (wire_bytes rs) news
recieved-Link qs rs c d inbox news l parts play = record {
  under_way = rs;
  arriving = refl;
  play = play;
  unsent = l.unsent;
  all_news =
      append_assoc d.unit_update_queue (units_of qs) (units_of rs ++ units_of c.sending_queue)
      ∙ ap (λ q. d.unit_update_queue ++ q)
          (sym (append_assoc (units_of qs) (units_of rs) (units_of c.sending_queue))
            ∙ ap (λ q. q ++ units_of c.sending_queue)
                (sym (of_type-append _ qs rs) ∙ ap units_of (sym parts)))
      ∙ l.all_news;
}

-- A whole round: the client is as `after` says, for the packets that have arrived, and the news on
-- their way are the same in both directions.
pub round-Link :
    (post : ℕ → Send → List Text) (clients : List ℕ) (me other : ℕ) (c c' d : ClientComponent)
    (delivered rest inbox : List Text) (sent : List (Text × ℕ)) (sends : List Send)
    (ns ms : List CustomPacket)
    → Delivers post me other
    → c.recieved_queue ≡ []
    → Link c d inbox ns
    → Link d c (delivered ++ rest) ms
    → consume_round delivered c ≡ ok (c', sent)
    → relay clients me sent ≡ ok sends
    → (qs : List CustomPacket) × (c' ≡ after qs c)
      × Link c' d (inbox ++ reaching post other sends) ns
      × Link d c' (rest ++ reaching post me sends) ms
round-Link post clients me other c c' d delivered rest inbox sent sends ns ms net e out inw made
      sending =
    let (qs, rs, parts, given, left) = split inw.under_way delivered rest (sym inw.arriving) in
    let (play, later) = All-split IsPlayPacket qs rs (subst (All IsPlayPacket) parts inw.play) in
    let done : ok (c', sent) ≡ ok (after qs c, wire c.sending_queue) =
      sym made ∙ ap (λ ds. consume_round ds c) given ∙ round_lem qs c e play in
    let (same, all) = ok-injective_pair c' (after qs c) sent (wire c.sending_queue) done in
    let passed : ok sends ≡ ok (relayed_all me c.sending_queue) =
      sym sending ∙ ap (relay clients me) all ∙ relay_lem clients me c.sending_queue out.unsent in
    let every = ok-injective sends (relayed_all me c.sending_queue) passed in
    let there : reaching post other sends ≡ wire_bytes c.sending_queue =
      ap (reaching post other) every
      ∙ reaching-relayed_all post me other net.to_other c.sending_queue in
    let here : rest ++ reaching post me sends ≡ wire_bytes rs =
      ap (λ i. rest ++ i)
        (ap (reaching post me) every ∙ reaching-none post me net.to_me c.sending_queue)
      ∙ append-nil rest
      ∙ left in
    (
      qs,
      same,
      subst (λ k. Link k d (inbox ++ reaching post other sends) ns) (sym same)
          (subst (λ i. Link (after qs c) d (inbox ++ i) ns) (sym there)
            (sent-Link qs c d inbox ns out)),
      subst (λ k. Link d k (rest ++ reaching post me sends) ms) (sym same)
          (subst (λ i. Link d (after qs c) i ms) (sym here)
            (recieved-Link qs rs d c (delivered ++ rest) ms inw parts later)),
    )
