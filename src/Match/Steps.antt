-- ===== src/Match/Steps.antt =====
-- Whatever the two players do, the turn is with one of them, or on its way to the other.
use networking_game.Base.{
  ◌≡◌, refl, sym, ap, ◌∙◌, subst, ℕ, ℤ, Bool, true, false, [], ◌++◌, ok, ok-injective, All-append,
  append_assoc, inl, inr, ◌⊎◌,
}
use networking_game.Delivery.Packets.{IsPlayPacket, turn-IsUnitPacket, All-IsPlayPacket}
use networking_game.Game.State.{
  GameScene, Slot, Floats, turn_eq, PlayerTurn, no_player, player1, player2,
}
use networking_game.Game.Turn.Handover.{queue}
use networking_game.Game.Frame.{click_handler}
use networking_game.Game.Network.Names.{Fits}
use networking_game.Game.Network.Work.{Work}
use networking_game.Game.Network.Sync.{handed_over}
use networking_game.Match.{Player, Post, Move, click, key, frame, round}
use networking_game.Match.Clicks.{click_handler-Acted}
use networking_game.Match.Frames.{Playing}
use networking_game.Match.Links.{units_of, of_type-append, units_of-units}
use networking_game.Match.Rounds.{Delivers, Link}
use networking_game.Match.News.{turn_packets}
use networking_game.Match.Turns.{Holding}
use networking_game.Match.Ending.{Holding-Work, Holding-Passing, handed_over-frame}
use networking_game.Match.Wires.{Wired, Turns, Quiet-first, Quiet-second}
use networking_game.Match.Moves.{key-Quiet, round-Quiet, idle-Quiet}
use networking_game.Match.Hearing.{frame-first, frame-second}

same_team : (p q : PlayerTurn) → p ≡ q → turn_eq p q ≡ true
same_team no_player q e = subst (λ t. turn_eq no_player t ≡ true) e refl
same_team player1 q e = subst (λ t. turn_eq player1 t ≡ true) e refl
same_team player2 q e = subst (λ t. turn_eq player2 t ≡ true) e refl

module _ {F : Type 0} where
  -- The packets of a turn join what is on its way.
  ended-Wired :
      (p q : Player F)
      → Holding p.scene q.scene
      → Wired p q [] []
      → Wired (record p { scene = handed_over p.scene }) q (turn_packets p.scene) []
  ended-Wired p q a (out, back) =
      let g = p.scene in
      let ps = turn_packets g in
      let units = turn-IsUnitPacket g a.named in
      let (client, names) = handed_over-frame g in
      let waiting = q.scene.client_component.unit_update_queue in
      let ended : Link (queue ps g).client_component q.scene.client_component q.inbox ps = record {
        under_way = out.under_way;
        arriving = out.arriving;
        play = out.play;
        unsent =
            All-append IsPlayPacket g.client_component.sending_queue ps out.unsent
              (All-IsPlayPacket ps units);
        all_news =
            ap (λ l. waiting ++ (units_of out.under_way ++ l))
              (of_type-append _ g.client_component.sending_queue ps
                ∙ ap (λ l. units_of g.client_component.sending_queue ++ l)
                    (units_of-units ps units))
            ∙ ap (λ l. waiting ++ l)
                (sym (
                  append_assoc (units_of out.under_way) (units_of g.client_component.sending_queue)
                    ps))
            ∙ sym (
                append_assoc waiting
                  (units_of out.under_way ++ units_of g.client_component.sending_queue) ps)
            ∙ ap (λ l. l ++ ps) out.all_news;
      } in
      let back2 : Link q.scene.client_component (queue ps g).client_component p.inbox [] = record {
        under_way = back.under_way;
        arriving = back.arriving;
        play = back.play;
        unsent = back.unsent;
        all_news = back.all_news;
      } in
      (
        subst (λ c. Link c q.scene.client_component q.inbox ps) (sym client) ended,
        subst (λ c. Link q.scene.client_component c p.inbox []) (sym client) back2,
      )

  worked-Wired :
      (p q : Player F) (k : GameScene F) (selection : Slot → Bool)
      → Work p.scene k
      → Wired p q [] []
      → Wired (record p { scene = record k { selected = selection } }) q [] []
  worked-Wired p q k selection w wires =
      subst
        (λ c.
          Link c q.scene.client_component q.inbox [] × Link q.scene.client_component c p.inbox [])
        (sym w.client) wires

module _ {F : Type 0} ⦃fl : Floats F⦄ where
  -- A click of the player who is at the turn.
  active_click :
      (on : Bool) (x y : ℤ) (p q : Player F) (g : GameScene F)
      → ((s : Slot) → Fits (p.scene.units s))
      → click_handler false on x y p.scene ≡ ok g
      → Holding p.scene q.scene
      → Wired p q [] []
      → Turns (record p { scene = g }) q
  active_click on x y p q g fits made a w =
      let mine = same_team p.scene.player_turn p.scene.assigned_team a.own in
      elim (click_handler-Acted on x y p.scene g a.playing.team a.own mine made) [
        | inl ended ↦
            subst (λ k. Turns (record p { scene = k }) q) (sym ended)
              (inr
                (turn_packets p.scene, Holding-Passing p.scene q.scene fits a, ended-Wired p q a w))
        | inr (k, work, same) ↦
            subst (λ j. Turns (record p { scene = j }) q) (sym same)
              (inl (
                Holding-Work p.scene k q.scene g.selected work a,
                worked-Wired p q k g.selected work w,
              ))
      ]

  pub click-first :
      (on : Bool) (x y : ℤ) (p q : Player F) (g : GameScene F)
      → ((s : Slot) → Fits (p.scene.units s))
      → click_handler false on x y p.scene ≡ ok g
      → Turns p q
      → Turns (record p { scene = g }) q
  click-first on x y p q g fits made (inl (a, w)) = active_click on x y p q g fits made a w
  click-first on x y p q g fits made (inr (ns, a, w)) =
      Quiet-first p q (record p { scene = g }) q
        (idle-Quiet on x y p q g a.playing a.idle a.given made) (inr (ns, a, w))

  pub click-second :
      (on : Bool) (x y : ℤ) (p q : Player F) (g : GameScene F)
      → click_handler false on x y p.scene ≡ ok g
      → Turns q p
      → Turns q (record p { scene = g })
  click-second on x y p q g made (inl (a, w)) =
      Quiet-second p q (record p { scene = g }) q
        (idle-Quiet on x y p q g a.other_playing a.idle a.away made) (inl (a, w))
  click-second on x y p q g made (inr (ns, a, w)) =
      Quiet-second p q (record p { scene = g }) q
        (idle-Quiet on x y p q g a.other_playing a.other_idle a.away made) (inr (ns, a, w))

  first-Playing : (p q : Player F) → Turns p q → Playing p.scene
  first-Playing p q (inl (a, w)) = a.playing
  first-Playing p q (inr (ns, a, w)) = a.playing

  second-Playing : (p q : Player F) → Turns q p → Playing p.scene
  second-Playing p q (inl (a, w)) = a.other_playing
  second-Playing p q (inr (ns, a, w)) = a.other_playing

  at : (P : Player F → Player F → Type 0) (a b c d : Player F) → a ≡ c → b ≡ d → P c d → P a b
  at P a b c d e f h = subst (λ x. P x b) (sym e) (subst (P c) (sym f) h)

  -- The player at the turn, or who has passed it on, moves.
  pub Move-first :
      (net : Post) (me other : ℕ) (p q p2 q2 : Player F)
      → Delivers net.post me other
      → Turns p q
      → Move net me other p q p2 q2
      → Turns p2 q2
  Move-first net me other p q p2 q2 sent t (click on x y g fits made e f) =
      at Turns p2 q2 _ q e f (click-first on x y p q g fits made t)
  Move-first net me other p q p2 q2 sent t (key action k g made printable e f) =
      at Turns p2 q2 _ q e f (
        Quiet-first p q _ q (key-Quiet net.keys action k p q g (first-Playing p q t) made printable)
          t)
  Move-first net me other p q p2 q2 sent t (frame junk ms g made e f) =
      let (k, drawn, turns) = frame-first junk ms p q t in
      at Turns p2 q2 _ q e f
        (subst (λ j. Turns (record p { scene = j }) q) (ok-injective k g (sym drawn ∙ made)) turns)
  Move-first net me other p q p2 q2 sent t (round d rest c out sends alive parts made passed e f) =
      at Turns p2 q2 _ _ e f (
        Quiet-first p q _ _
          (round-Quiet net.post net.clients me other p q d rest c out sends sent
            (first-Playing p q t) parts made passed)
          t)

  -- The other player moves: the turn may have come to it then.
  pub Move-second :
      (net : Post) (me other : ℕ) (p q p2 q2 : Player F)
      → Delivers net.post me other
      → Turns q p
      → Move net me other p q p2 q2
      → Turns q2 p2 ⊎ Turns p2 q2
  Move-second net me other p q p2 q2 sent t (click on x y g fits made e f) =
      inl (at (λ a b. Turns b a) p2 q2 _ q e f (click-second on x y p q g made t))
  Move-second net me other p q p2 q2 sent t (key action k g made printable e f) = inl (
      at (λ a b. Turns b a) p2 q2 _ q e f
        (Quiet-second p q _ q
          (key-Quiet net.keys action k p q g (second-Playing p q t) made printable) t))
  Move-second net me other p q p2 q2 sent t (frame junk ms g made e f) =
      let (k, drawn, turns) = frame-second junk ms p q t in
      at (λ a b. Turns b a ⊎ Turns a b) p2 q2 _ q e f
        (subst (λ j. Turns q (record p { scene = j }) ⊎ Turns (record p { scene = j }) q)
          (ok-injective k g (sym drawn ∙ made)) turns)
  Move-second net me other p q p2 q2 sent t (round d rest c out sends alive parts made passed e f) =
      inl (
        at (λ a b. Turns b a) p2 q2 _ _ e f
          (Quiet-second p q _ _
            (round-Quiet net.post net.clients me other p q d rest c out sends sent
              (second-Playing p q t) parts made passed)
            t))
