-- ===== src/Match/Moves.antt =====
-- The moves that have nothing to do with the turn: keys, rounds, clicks of the player who waits and
-- frames with nothing to read.
use networking_game.Base.{
  ◌≡◌, refl, sym, ap, ◌∙◌, subst, ℕ, ℤ, Bool, false, List, [], ◌∷◌, ◌++◌, ok, ok-injective, ◌>>=◌,
  All, inr,
}
use networking_game.Text.{Text, codes, text_eq}
use networking_game.Packet.{CustomPacket}
use networking_game.Packet.Wire.{IsPrintable}
use networking_game.Client.{ClientComponent, consume_round}
use networking_game.Server.{Send}
use networking_game.Delivery.{relay, reaching}
use networking_game.Delivery.Packets.{IsPlayPacket}
use networking_game.Game.State.{GameScene, Floats, turn_eq}
use networking_game.Game.Turn.{other_player}
use networking_game.Game.Chat.{Keys, key_handler}
use networking_game.Game.Frame.{click_handler}
use networking_game.Game.Network.{unit_network_update, with_updates}
use networking_game.Game.Network.Near.{Near-refl}
use networking_game.Game.Network.Updates.{unit_network_update_lem, apply_each}
use networking_game.Match.{Player}
use networking_game.Match.Calm.{Calm, Calm-refl, trifles, trifles-Calm}
use networking_game.Match.Clicks.{None, other_turn, click_handler-idle}
use networking_game.Match.Frames.{Playing}
use networking_game.Match.Links.{units_of, All-split, after}
use networking_game.Match.Rounds.{Delivers, Link, round-Link}
use networking_game.Match.Typing.{key_handler-Spoken}
use networking_game.Match.Turns.{Still}
use networking_game.Match.Wires.{Quiet, said-Quiet, Calm-Quiet}

-- Printable chat packets hold no news.
chat-IsPlayPacket :
    (ps : List CustomPacket)
    → All (λ p. p.type ≡ codes "chat") ps
    → All IsPrintable ps
    → All IsPlayPacket ps × (units_of ps ≡ [])
unfolding text_eq
chat-IsPlayPacket [] h i = (tt, refl)
chat-IsPlayPacket (p ∷ ps) h i =
    let (play, none) = chat-IsPlayPacket ps h.1 i.1 in
    let other : text_eq p.type (codes "unit") ≡ false = ap (λ t. text_eq t (codes "unit")) h.0 in
    ((record { kind = inr h.0; printable = i.0 }, play), rw (other, none))

module _ {F : Type 0} where
  pub key-Quiet :
      (keys : Keys) (action key : ℕ) (p q : Player F) (g : GameScene F)
      → Playing p.scene
      → key_handler keys action key p.scene ≡ ok g
      → All IsPrintable g.client_component.sending_queue
      → Quiet p q (record p { scene = g }) q
  key-Quiet keys action key p q g on made printable =
      let (said, chat, same) = key_handler-Spoken keys action key p.scene g made in
      let sent = ap (λ k. k.client_component.sending_queue) same in
      let new =
        (All-split IsPrintable p.scene.client_component.sending_queue said
          (subst (All IsPrintable) sent printable)).1 in
      let (play, none) = chat-IsPlayPacket said chat new in
      let quiet = said-Quiet p q (trifles p.scene g) said on (trifles-Calm p.scene g) none play in
      subst (λ k. Quiet p q (record p { scene = k }) q) (sym same) quiet

  after-Still :
      (g : GameScene F) (qs : List CustomPacket)
      → Playing g
      → Still g (record g { client_component = after qs g.client_component })
  after-Still g qs on = record {
    units = λ s. Near-refl (g.units s);
    marks = λ s. refl;
    names = λ s. refl;
    turn = refl;
    finished = refl;
    winner = refl;
    team = refl;
    selected = refl;
    in_game = record {
      team = on.team;
      lobby = on.lobby;
      reconnecting = on.reconnecting;
      recieved = refl;
    };
  }

  pub round-Quiet :
      (post : ℕ → Send → List Text) (clients : List ℕ) (me other : ℕ) (p q : Player F)
      (d rest : List Text) (c : ClientComponent) (sent : List (Text × ℕ)) (sends : List Send)
      → Delivers post me other
      → Playing p.scene
      → p.inbox ≡ d ++ rest
      → consume_round d p.scene.client_component ≡ ok (c, sent)
      → relay clients me sent ≡ ok sends
      → Quiet p q
          (record {
            scene = record (p.scene) { client_component = c };
            inbox = rest ++ reaching post me sends;
          })
          (record q { inbox = q.inbox ++ reaching post other sends })
  round-Quiet post clients me other p q d rest c sent sends net on parts made sending ns ms
        (out, back) =
      let own = p.scene.client_component in
      let (qs, same, out2, back2) =
        round-Link post clients me other own c q.scene.client_component d rest q.inbox sent sends ns
          ms net on.recieved out (subst (λ i. Link q.scene.client_component own i ms) parts back)
          made sending in
      record {
        still =
            subst (λ k. Still p.scene (record (p.scene) { client_component = k })) (sym same)
              (after-Still p.scene qs on);
        other = refl;
        wires = (out2, back2);
      }

  -- A scene as it is again.
  pub same-Quiet : (p q : Player F) → Playing p.scene → Quiet p q p q
  same-Quiet p q on = Calm-Quiet p q p.scene on (Calm-refl p.scene)

  -- With nothing queued there is nothing to read.
  pub nothing_read :
      (p : Player F) (c : GameScene F)
      → Calm p.scene c
      → p.scene.client_component.unit_update_queue ≡ []
      → (unit_network_update c ≡ ok (with_updates [] c)) × Calm p.scene (with_updates [] c)
  nothing_read p c calm e =
      let none = calm.waiting ∙ e in
      (
        unit_network_update_lem c ∙ ap (λ u. apply_each u c >>= λ k. ok (with_updates [] k)) none,
        record {
          units = calm.units;
          marks = calm.marks;
          names = calm.names;
          turn = calm.turn;
          finished = calm.finished;
          winner = calm.winner;
          team = calm.team;
          selected = calm.selected;
          sending = calm.sending;
          waiting = sym e;
          recieved = calm.recieved;
          lobby = calm.lobby;
          reconnecting = calm.reconnecting;
        },
      )

module _ {F : Type 0} ⦃fl : Floats F⦄ where
  pub idle-Quiet :
      (on : Bool) (x y : ℤ) (p q : Player F) (g : GameScene F)
      → Playing p.scene
      → None p.scene
      → p.scene.player_turn ≡ other_player p.scene.assigned_team
      → click_handler false on x y p.scene ≡ ok g
      → Quiet p q (record p { scene = g }) q
  idle-Quiet on x y p q g playing none away made =
      let apart =
        ap (λ t. turn_eq t p.scene.assigned_team) away
        ∙ other_turn p.scene.assigned_team playing.team in
      let same : ok p.scene ≡ ok g = sym (click_handler-idle on x y p.scene none apart) ∙ made in
      subst (λ k. Quiet p q (record p { scene = k }) q) (ok-injective p.scene g same)
        (same-Quiet p q playing)
