-- ===== src/Match/Hearing.antt =====
-- A frame never fails, and what it reads brings the turn.
use networking_game.Base.{
  ◌≡◌, refl, sym, ap, ◌∙◌, subst, ℤ, List, [], ◌∷◌, ◌++◌, ok, ◌>>=◌, inl, inr, ◌⊎◌, All,
}
use networking_game.Text.{Text}
use networking_game.Packet.{CustomPacket}
use networking_game.Client.{ClientComponent}
use networking_game.Delivery.Packets.{IsPlayPacket}
use networking_game.Game.State.{GameScene, Floats}
use networking_game.Game.Frame.{update_scene}
use networking_game.Game.Network.{unit_network_update, with_updates}
use networking_game.Game.Network.Updates.{unit_network_update_lem, apply_each_frame}
use networking_game.Match.{Player}
use networking_game.Match.Calm.{Calm}
use networking_game.Match.Frames.{Playing, update_scene-Heard}
use networking_game.Match.Links.{units_of}
use networking_game.Match.Rounds.{Link}
use networking_game.Match.Turns.{Passing, Passing-second, Calm-Still}
use networking_game.Match.Reading.{Passing-read, informed}
use networking_game.Match.Wires.{Wired, Turns, Quiet, Calm-Quiet, Quiet-first, Quiet-second}
use networking_game.Match.Moves.{nothing_read}

empty_front : (us rs : List CustomPacket) → us ++ rs ≡ [] → us ≡ []
empty_front [] rs e = refl
empty_front (u ∷ us) rs e = cc

-- With no news on their way the queue is empty.
Link-waiting :
    (c d : ClientComponent) (inbox : List Text) → Link c d inbox [] → d.unit_update_queue ≡ []
Link-waiting c d inbox l =
    empty_front d.unit_update_queue (units_of l.under_way ++ units_of c.sending_queue) l.all_news

module _ {F : Type 0} ⦃fl : Floats F⦄ where
  -- A frame with nothing in the queue.
  unheard :
      (junk : ℤ) (ms : F) (p q : Player F)
      → Playing p.scene
      → p.scene.client_component.unit_update_queue ≡ []
      → (g : GameScene F) × (update_scene junk ms p.scene ≡ ok g)
        × Quiet p q (record p { scene = g }) q
  unheard junk ms p q on empty =
      let (c, calm, heard) = update_scene-Heard junk ms p.scene on in
      elim heard [
        | inl (e, _) ↦ (c, e, Calm-Quiet p q c on calm)
        | inr (away, e) ↦
            let (read, calm2) = nothing_read p c calm empty in
            (with_updates [] c, e ∙ read, Calm-Quiet p q (with_updates [] c) on calm2)
      ]

  -- A frame in which some news are read.
  read_some :
      (p q : Player F) (c : GameScene F) (ns : List CustomPacket)
      → Playing p.scene
      → Calm p.scene c
      → Passing q.scene p.scene ns
      → Wired q p ns []
      → (g : GameScene F) × (unit_network_update c ≡ ok g)
        × (Turns q (record p { scene = g }) ⊎ Turns (record p { scene = g }) q)
  read_some p q c ns on calm a (out, back) =
      let us = c.client_component.unit_update_queue in
      let rs = units_of out.under_way ++ units_of q.scene.client_component.sending_queue in
      let parts : ns ≡ us ++ rs = sym out.all_news ∙ ap (λ u. u ++ rs) (sym calm.waiting) in
      let ready =
        subst (Passing q.scene c) parts
          (Passing-second q.scene p.scene c ns (Calm-Still p.scene c on calm) a) in
      let (j, made, either) = Passing-read q.scene c us rs ready in
      let frame = apply_each_frame us c j made in
      let sent : j.client_component.sending_queue ≡ p.scene.client_component.sending_queue =
        ap (λ k. k.client_component.sending_queue) frame ∙ calm.sending in
      let g = informed j in
      let coming : Link q.scene.client_component g.client_component p.inbox rs = record {
        under_way = out.under_way;
        arriving = out.arriving;
        play = out.play;
        unsent = out.unsent;
        all_news = refl;
      } in
      let going : Link g.client_component q.scene.client_component q.inbox [] = record {
        under_way = back.under_way;
        arriving = back.arriving;
        play = back.play;
        unsent = subst (All IsPlayPacket) (sym sent) back.unsent;
        all_news =
            ap
              (λ l.
                q.scene.client_component.unit_update_queue
                ++ (units_of back.under_way ++ units_of l))
              sent
            ∙ back.all_news;
      } in
      (
        g,
        unit_network_update_lem c ∙ ap (λ r. r >>= λ k. ok (with_updates [] k)) made,
        elim either [
          | inl (none, holds) ↦ inr (
              inl (
                holds,
                (
                  going,
                  subst (Link q.scene.client_component g.client_component p.inbox) none coming,
                ),
              ))
          | inr passes ↦ inl (inr (rs, passes, (coming, going)))
        ],
      )

  -- The player who is at the turn, or has passed it on, draws a frame.
  pub frame-first :
      (junk : ℤ) (ms : F) (p q : Player F)
      → Turns p q
      → (g : GameScene F) × (update_scene junk ms p.scene ≡ ok g) × Turns (record p { scene = g }) q
  frame-first junk ms p q t =
      let (on, empty) = idle_queue t in
      let (g, made, quiet) = unheard junk ms p q on empty in
      (g, made, Quiet-first p q (record p { scene = g }) q quiet t)
    where
      idle_queue : Turns p q → Playing p.scene × (p.scene.client_component.unit_update_queue ≡ [])
      idle_queue (inl (a, w)) =
          (a.playing, Link-waiting q.scene.client_component p.scene.client_component p.inbox w.1)
      idle_queue (inr (ns, a, w)) =
          (a.playing, Link-waiting q.scene.client_component p.scene.client_component p.inbox w.1)

  -- The other player draws a frame.
  pub frame-second :
      (junk : ℤ) (ms : F) (p q : Player F)
      → Turns q p
      → (g : GameScene F) × (update_scene junk ms p.scene ≡ ok g)
        × (Turns q (record p { scene = g }) ⊎ Turns (record p { scene = g }) q)
  frame-second junk ms p q (inl (a, w)) =
      let empty = Link-waiting q.scene.client_component p.scene.client_component p.inbox w.0 in
      let (g, made, quiet) = unheard junk ms p q a.other_playing empty in
      (g, made, inl (Quiet-second p q (record p { scene = g }) q quiet (inl (a, w))))
  frame-second junk ms p q (inr (ns, a, w)) =
      let (c, calm, heard) = update_scene-Heard junk ms p.scene a.other_playing in
      elim heard [
        | inl (e, _) ↦ (
          c,
          e,
          inl (
              Quiet-second p q (record p { scene = c }) q (Calm-Quiet p q c a.other_playing calm)
                (inr (ns, a, w))),
        )
        | inr (away, e) ↦
            let (g, made, turns) = read_some p q c ns a.other_playing calm a w in
            (g, e ∙ made, turns)
      ]
