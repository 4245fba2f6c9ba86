-- ===== src/Match/Arrival.antt =====
-- A turn that has been passed on can always arrive.
use networking_game.Base.{
  ◌≡◌, refl, sym, ap, ◌∙◌, subst, ℕ, ℤ, pos, false, List, [], ◌++◌, append-nil, ok, ◌>>=◌, All, inl,
  inr, ◌⊎◌,
}
use networking_game.Text.{Text}
use networking_game.Packet.{CustomPacket}
use networking_game.Client.{consume_round}
use networking_game.Client.Round.{wire, wire_bytes}
use networking_game.Delivery.{reaching}
use networking_game.Delivery.Packets.{IsPlayPacket, relayed_all, relay_lem, reaching-none}
use networking_game.Game.State.{GameScene, Floats}
use networking_game.Game.Frame.{update_scene}
use networking_game.Game.Network.{unit_network_update, with_updates}
use networking_game.Game.Network.Updates.{unit_network_update_lem}
use networking_game.Game.Turn.{other_player}
use networking_game.Match.{
  Player, Post, Match, Move, round, frame, first_moves, second_moves, Reach, here, next,
}
use networking_game.Match.Calm.{Calm}
use networking_game.Match.Frames.{Playing, update_scene-Heard}
use networking_game.Match.Links.{units_of, round_lem, after, no_packets}
use networking_game.Match.Rounds.{Delivers}
use networking_game.Match.Turns.{
  Holding, Passing, Passing-first, Passing-second, Passing-news, Calm-Still,
}
use networking_game.Match.Reading.{Passing-read, informed}
use networking_game.Match.Wires.{Wired, Quiet}
use networking_game.Match.Moves.{round-Quiet}
use networking_game.Match.Exclusion.{Begun, Connected, Reach-Safe}

module _ {F : Type 0} ⦃fl : Floats F⦄ where
  -- The queue holds all the news: the frame reads them, and the reader is at the turn.
  read_all :
      (g h c : GameScene F) (ns : List CustomPacket)
      → Passing g h ns
      → Calm h c
      → h.client_component.unit_update_queue ≡ ns
      → (k : GameScene F) × (unit_network_update c ≡ ok k) × Holding k g
  read_all g h c ns a calm e =
      let us = c.client_component.unit_update_queue in
      let parts : ns ≡ us ++ [] = sym e ∙ sym calm.waiting ∙ sym (append-nil us) in
      let ready =
        subst (Passing g c) parts
          (Passing-second g h c ns (Calm-Still h c a.other_playing calm) a) in
      let (j, made, either) = Passing-read g c us [] ready in
      (
        informed j,
        unit_network_update_lem c ∙ ap (λ r. r >>= λ k. ok (with_updates [] k)) made,
        elim either [
          | inl (_, holds) ↦ holds
          | inr passes ↦ absurd (Passing-news g (informed j) passes)
        ],
      )

  -- The frame of a player who has all the news in the queue, in a game that goes on.
  frame_reads :
      (junk : ℤ) (ms : F) (g h : GameScene F) (ns : List CustomPacket)
      → Passing g h ns
      → h.client_component.unit_update_queue ≡ ns
      → h.game_finished ≡ false
      → (k : GameScene F) × (update_scene junk ms h ≡ ok k) × Holding k g
  frame_reads junk ms g h ns a e on =
      let (c, calm, heard) = update_scene-Heard junk ms h a.other_playing in
      let (k, read, holds) = read_all g h c ns a calm e in
      let away = calm.turn ∙ a.away ∙ ap other_player (sym calm.team) in
      elim heard [
        | inl (_, deaf) ↦ elim deaf [
          | inl over ↦ let same = sym (calm.finished ∙ on) ∙ over in cc
          | inr own ↦ absurd (own away)
        ]
        | inr (_, reads) ↦ (k, reads ∙ read, holds)
      ]

  -- A player after a round in which `qs` arrive and `rest` is left, and the other one then.
  abbrev rounded : Post → ℕ → List CustomPacket → List Text → Player F → Player F
  rounded net me qs rest p = record {
    scene = record (p.scene) { client_component = after qs p.scene.client_component };
    inbox = rest ++ reaching net.post me (relayed_all me p.scene.client_component.sending_queue);
  }

  abbrev reached : Post → ℕ → ℕ → Player F → Player F → Player F
  reached net me other p q = record q {
    inbox =
        q.inbox ++ reaching net.post other (relayed_all me p.scene.client_component.sending_queue);
  }

  -- A player can always go a round, and it has nothing to do with the turn.
  can_round :
      (net : Post) (me other : ℕ) (p q : Player F) (qs : List CustomPacket) (d rest : List Text)
      → Delivers net.post me other
      → Playing p.scene
      → p.scene.client_component.kill_thread ≡ false
      → p.inbox ≡ d ++ rest
      → d ≡ wire_bytes qs
      → All IsPlayPacket qs
      → All IsPlayPacket p.scene.client_component.sending_queue
      → Move net me other p q (rounded net me qs rest p) (reached net me other p q)
        × Quiet p q (rounded net me qs rest p) (reached net me other p q)
  can_round net me other p q qs d rest there on alive parts given play unsent =
      let c = p.scene.client_component in
      let sends = relayed_all me c.sending_queue in
      let taken = ap (λ i. consume_round i c) given ∙ round_lem qs c on.recieved play in
      let passed = relay_lem net.clients me c.sending_queue unsent in
      (
        round d rest (after qs c) (wire c.sending_queue) sends alive parts taken passed refl refl,
        round-Quiet net.post net.clients me other p q d rest (after qs c) (wire c.sending_queue)
            sends there on parts taken passed,
      )

  -- What the three moves come to.
  abbrev Arrives : Post → ℕ → ℕ → Player F → Player F → Type 0
  Arrives net me other p q =
      (p1 : Player F) × (q1 : Player F) × (p2 : Player F) × (q2 : Player F) × (q3 : Player F) × Move
        net me other p q p1 q1
      × Move net other me q1 p1 q2 p2
      × Move net other me q2 p2 q3 p2
      × Holding q3.scene p2.scene

  -- A round of the sender, a round of the reader, in which all that has come in is delivered, and a
  -- frame of the reader.
  arrives :
      (net : Post) (me other : ℕ) (ms : F) (p q : Player F) (ns : List CustomPacket)
      → Delivers net.post me other
      → Delivers net.post other me
      → Passing p.scene q.scene ns
      → Wired p q ns []
      → p.scene.client_component.kill_thread ≡ false
      → q.scene.client_component.kill_thread ≡ false
      → q.scene.game_finished ≡ false
      → Arrives net me other p q
  arrives net me other ms p q ns there back a (out, ret) alive other_alive on =
      let p1 = rounded net me [] p.inbox p in
      let q1 = reached net me other p q in
      let (sent, quiet) =
        can_round net me other p q [] [] p.inbox there a.playing alive refl refl tt out.unsent in
      let first = quiet ns [] (out, ret) in
      let out1 = first.wires.0 in
      let ps = out1.under_way in
      let q2 = rounded net other ps [] q1 in
      let p2 = reached net other me q1 p1 in
      let (taken, quiet2) =
        can_round net other me q1 p1 ps q1.inbox [] back a.other_playing other_alive
          (sym (append-nil q1.inbox)) out1.arriving out1.play ret.unsent in
      let second = quiet2 [] ns (first.wires.1, out1) in
      let ready =
        Passing-second p1.scene q.scene q2.scene ns second.still
          (Passing-first p.scene p1.scene q.scene ns first.still a) in
      let out2 = second.wires.1 in
      let queue = q2.scene.client_component.unit_update_queue in
      let nothing = no_packets out2.under_way (
        sym out2.arriving
        ∙ reaching-none net.post other back.to_me q.scene.client_component.sending_queue) in
      let all : queue ≡ ns =
        sym (append-nil queue)
        ∙ ap (λ l. queue ++ (units_of l ++ [])) (sym nothing)
        ∙ out2.all_news in
      let (k, drawn, holds) = frame_reads (pos 0) ms p1.scene q2.scene ns ready all on in
      (
        p1,
        q1,
        p2,
        q2,
        record q2 { scene = k },
        sent,
        taken,
        frame (pos 0) ms k drawn refl refl,
        holds,
      )

  abbrev AtTurn : Player F → Type 0
  AtTurn p = p.scene.player_turn ≡ p.scene.assigned_team

  -- In a game that has begun, played over a network that brings each player what the server sends
  -- to all but the other, whatever the two click and type, whenever their threads draw frames and
  -- send and take in packets, and however the network splits what it delivers: as long as the
  -- threads of both players live and the game goes on for both, one of the two is at the turn, or
  -- some further moves lead to a state in which one is. An `int` holds the figures of the units at
  -- each click, nothing typed has a zero byte, nobody joins or reconnects, and a check for the end
  -- that returns nothing counts as false.
  pub turn_arrives :
      (net : Post) (a b : Match F) (ms : F)
      → Connected net
      → Begun a
      → Reach net a b
      → b.first.scene.client_component.kill_thread ≡ false
      → b.second.scene.client_component.kill_thread ≡ false
      → b.first.scene.game_finished ≡ false
      → b.second.scene.game_finished ≡ false
      → (c : Match F) × Reach net b c × (AtTurn c.first ⊎ AtTurn c.second)
  turn_arrives net a b ms net_ok g r k1 k2 on1 on2 = elim (Reach-Safe net a b net_ok g r) [
    | inl (inl (h, w)) ↦ (b, here, inl h.own)
    | inl (inr (ns, h, w)) ↦
        let (p1, q1, p2, q2, q3, m, n, o, holds) =
          arrives net 0 1 ms b.first b.second ns net_ok.there net_ok.back h w k1 k2 on2 in
        (
          record { first = p2; second = q3 },
          next (next (next here (first_moves m)) (second_moves n)) (second_moves o),
          inr holds.own,
        )
    | inr (inl (h, w)) ↦ (b, here, inr h.own)
    | inr (inr (ns, h, w)) ↦
        let (p1, q1, p2, q2, q3, m, n, o, holds) =
          arrives net 1 0 ms b.second b.first ns net_ok.back net_ok.there h w k2 k1 on1 in
        (
          record { first = q3; second = p2 },
          next (next (next here (second_moves m)) (first_moves n)) (first_moves o),
          inl holds.own,
        )
  ]
