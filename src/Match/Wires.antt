-- ===== src/Match/Wires.antt =====
-- A move that has nothing to do with the turn, and what is on its way between the two then.
use networking_game.Base.{
  ◌≡◌, refl, sym, ap, ◌∙◌, subst, List, [], ◌++◌, All, All-append, append-nil, inl, inr, ◌⊎◌,
}
use networking_game.Packet.{CustomPacket}
use networking_game.Delivery.Packets.{IsPlayPacket}
use networking_game.Game.State.{GameScene}
use networking_game.Game.Turn.Handover.{queue, queue-nil}
use networking_game.Match.{Player}
use networking_game.Match.Calm.{Calm}
use networking_game.Match.Frames.{Playing}
use networking_game.Match.Links.{units_of, of_type-append}
use networking_game.Match.Rounds.{Link}
use networking_game.Match.Turns.{
  Still, Calm-Still, Holding, Passing, Holding-first, Holding-second, Passing-first, Passing-second,
}

module _ {F : Type 0} where
  -- Both directions of the connection: `ns` are on their way from `p` to `q`, and `ms` back.
  abbrev pub Wired : Player F → Player F → List CustomPacket → List CustomPacket → Type 0
  Wired p q ns ms =
      Link p.scene.client_component q.scene.client_component q.inbox ns
      × Link q.scene.client_component p.scene.client_component p.inbox ms

  -- The turn is with `p`, or on its way from `p` to `q`.
  abbrev pub Turns : Player F → Player F → Type 0
  Turns p q =
      (Holding p.scene q.scene × Wired p q [] [])
      ⊎ ((ns : List CustomPacket) × Passing p.scene q.scene ns × Wired p q ns [])

  -- A move of `p` that has nothing to do with the turn, with what is on its way.
  pub record Stirred (p q p2 q2 : Player F) (ns ms : List CustomPacket) : Type 0 where
    pub still : Still p.scene p2.scene
    pub other : q2.scene ≡ q.scene
    pub wires : Wired p2 q2 ns ms

  abbrev pub Quiet : Player F → Player F → Player F → Player F → Type 0
  Quiet p q p2 q2 = (ns ms : List CustomPacket) → Wired p q ns ms → Stirred p q p2 q2 ns ms

  pub Quiet-first : (p q p2 q2 : Player F) → Quiet p q p2 q2 → Turns p q → Turns p2 q2
  Quiet-first p q p2 q2 quiet (inl (a, w)) =
      let s = quiet [] [] w in
      inl (
        subst (Holding p2.scene) (sym s.other) (Holding-first p.scene p2.scene q.scene s.still a),
        s.wires,
      )
  Quiet-first p q p2 q2 quiet (inr (ns, a, w)) =
      let s = quiet ns [] w in
      inr (
        ns,
        subst (λ h. Passing p2.scene h ns) (sym s.other)
            (Passing-first p.scene p2.scene q.scene ns s.still a),
        s.wires,
      )

  pub Quiet-second : (p q p2 q2 : Player F) → Quiet p q p2 q2 → Turns q p → Turns q2 p2
  Quiet-second p q p2 q2 quiet (inl (a, (w, v))) =
      let s = quiet [] [] (v, w) in
      inl (
        subst (λ h. Holding h p2.scene) (sym s.other)
            (Holding-second q.scene p.scene p2.scene s.still a),
        (s.wires.1, s.wires.0),
      )
  Quiet-second p q p2 q2 quiet (inr (ns, a, (w, v))) =
      let s = quiet [] ns (v, w) in
      inr (
        ns,
        subst (λ h. Passing h p2.scene ns) (sym s.other)
            (Passing-second q.scene p.scene p2.scene ns s.still a),
        (s.wires.1, s.wires.0),
      )

  -- The connection, when the client `k` of a scene has the same packets as the client `c`, and chat
  -- packets besides.
  said-Wired :
      (p q : Player F) (g : GameScene F) (said : List CustomPacket)
      → Calm p.scene g
      → units_of said ≡ []
      → All IsPlayPacket said
      → (ns ms : List CustomPacket) → Wired p q ns ms
      → Wired (record p { scene = queue said g }) q ns ms
  said-Wired p q g said c quiet play ns ms (out, back) = (
    record {
      under_way = out.under_way;
      arriving = out.arriving;
      play = out.play;
      unsent =
          All-append IsPlayPacket g.client_component.sending_queue said
            (subst (All IsPlayPacket) (sym c.sending) out.unsent) play;
      all_news =
          ap (λ l. q.scene.client_component.unit_update_queue ++ (units_of out.under_way ++ l))
            (of_type-append _ g.client_component.sending_queue said
              ∙ ap (λ l. units_of g.client_component.sending_queue ++ l) quiet
              ∙ append-nil (units_of g.client_component.sending_queue)
              ∙ ap units_of c.sending)
          ∙ out.all_news;
    },
    record {
      under_way = back.under_way;
      arriving = back.arriving;
      play = back.play;
      unsent = back.unsent;
      all_news =
          ap
            (λ l. l ++ (units_of back.under_way ++ units_of q.scene.client_component.sending_queue))
            c.waiting
          ∙ back.all_news;
    },
  )

  pub said-Quiet :
      (p q : Player F) (g : GameScene F) (said : List CustomPacket)
      → Playing p.scene
      → Calm p.scene g
      → units_of said ≡ []
      → All IsPlayPacket said
      → Quiet p q (record p { scene = queue said g }) q
  said-Quiet p q g said on c quiet play ns ms w =
      let s = Calm-Still p.scene g on c in
      record {
        still = record {
          units = s.units;
          marks = s.marks;
          names = s.names;
          turn = s.turn;
          finished = s.finished;
          winner = s.winner;
          team = s.team;
          selected = s.selected;
          in_game = record {
            team = s.in_game.team;
            lobby = s.in_game.lobby;
            reconnecting = s.in_game.reconnecting;
            recieved = s.in_game.recieved;
          };
        };
        other = refl;
        wires = said-Wired p q g said c quiet play ns ms w;
      }

  pub Calm-Quiet :
      (p q : Player F) (g : GameScene F)
      → Playing p.scene
      → Calm p.scene g
      → Quiet p q (record p { scene = g }) q
  Calm-Quiet p q g on c =
      subst (λ k. Quiet p q (record p { scene = k }) q) (sym (queue-nil g))
        (said-Quiet p q g [] on c refl tt)
