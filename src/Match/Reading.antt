-- ===== src/Match/Reading.antt =====
-- The player who waits reads some of the news of the other one's turn.
use networking_game.Base.{
  ◌≡◌, ◌≢◌, refl, sym, ap, ◌∙◌, subst, List, [], ◌++◌, ok, ok-injective, >>=-eq-ok, inl, inr, ◌⊎◌,
}
use networking_game.Packet.{CustomPacket}
use networking_game.Game.State.{GameScene, no_player}
use networking_game.Game.Turn.{other_player}
use networking_game.Game.Network.{with_updates}
use networking_game.Game.Network.Near.{Near-refl, Near-sym}
use networking_game.Game.Network.Like.{Like, Like-trans, apply_each-Like}
use networking_game.Game.Network.Updates.{apply_each, apply_each_frame, with_news}
use networking_game.Game.Network.Overlay.{apply_each-append}
use networking_game.Match.Frames.{Playing}
use networking_game.Match.News.{Late-split, apply_each-turn}
use networking_game.Match.Turns.{Holding, Passing, None-selected, other_twice}

module _ {F : Type 0} where
  -- What a player has when some packets are read and the queue is empty.
  abbrev pub informed : GameScene F → GameScene F
  informed j = with_updates [] j

  informed-Like : (j : GameScene F) → Like j (informed j)
  informed-Like j = record {
    turn = refl;
    finished = refl;
    winner = refl;
    units = λ s. Near-refl (j.units s);
    names = λ s. refl;
  }

  read-Playing : (h j : GameScene F) → j ≡ with_news h j → Playing h → Playing (informed j)
  read-Playing h j e p = record {
    team = subst (λ t. t ≢ no_player) (sym (ap (λ k. k.assigned_team) e)) p.team;
    lobby = ap (λ k. k.client_component.is_lobby) e ∙ p.lobby;
    reconnecting = ap (λ k. k.client_component.is_reconnecting) e ∙ p.reconnecting;
    recieved = ap (λ k. k.client_component.recieved_queue) e ∙ p.recieved;
  }

  -- The last packet is read: the turn has come to the reader.
  all_read :
      (g h j : GameScene F) (ns : List CustomPacket)
      → Passing g h ns
      → j ≡ with_news h j
      → Like g j
      → Holding (informed j) g
  all_read g h j ns a e like =
      let team = ap (λ k. k.assigned_team) e in
      record {
        playing = read-Playing h j e a.other_playing;
        other_playing = a.playing;
        teams = sym (other_twice g.assigned_team) ∙ ap other_player (sym (team ∙ a.teams));
        own = like.turn ∙ a.given ∙ sym (team ∙ a.teams);
        away = a.given;
        turn = sym like.turn;
        finished = sym like.finished;
        winner = sym like.winner;
        units = λ s _. Near-sym (g.units s) (j.units s) (like.units s);
        named = λ s. like.names s ∙ a.named s;
        other_named = a.named;
        idle = a.idle;
      }

  -- The news that have come are read with no fault. If they are all there is, the reader is at the
  -- turn; and if not, the rest is still to be read.
  pub Passing-read :
      (g h : GameScene F) (us rs : List CustomPacket)
      → Passing g h (us ++ rs)
      → (j : GameScene F) × (apply_each us h ≡ ok j)
        × (((rs ≡ []) × Holding (informed j) g) ⊎ Passing g (informed j) rs)
  Passing-read g h us rs a =
      let both = sym (apply_each-append us rs h) ∙ a.read in
      let (j, made, rest) = >>=-eq-ok (apply_each us h) (apply_each rs) a.result both in
      let e = apply_each_frame us h j made in
      let (r, again, like) = apply_each-Like rs j (informed j) a.result (informed-Like j) rest in
      (
        j,
        made,
        elim (Late-split us rs a.late) [
          | inl none ↦
              let all : ok j ≡ ok a.result = sym (ap (λ q. apply_each q j) none) ∙ rest in
              inl (
                none,
                all_read g h j (us ++ rs) a e
                    (subst (Like g) (sym (ok-injective j a.result all)) a.alike),
              )
          | inr (keeps, late) ↦ inr (record {
            playing = a.playing;
            other_playing = read-Playing h j e a.other_playing;
            teams = ap (λ k. k.assigned_team) e ∙ a.teams;
            given = a.given;
            away =
                apply_each-turn us h j keeps made
                ∙ a.away
                ∙ ap other_player (sym (ap (λ k. k.assigned_team) e));
            named = a.named;
            idle = a.idle;
            other_idle = None-selected h (informed j) (ap (λ k. k.selected) e) a.other_idle;
            late = late;
            result = r;
            read = again;
            alike = Like-trans g a.result r a.alike like;
          })
        ],
      )
