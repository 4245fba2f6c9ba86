-- ===== src/Match/Turns.antt =====
-- Whose turn it is: one player is at it and the other one waits, or the news of it are on their way.
use networking_game.Base.{◌≡◌, ◌≢◌, refl, sym, ap, ◌∙◌, subst, false, List, [], ok, ok-injective}
use networking_game.Packet.{CustomPacket}
use networking_game.Game.State.{GameScene, Slot, no_player, PlayerTurn, player1, player2}
use networking_game.Game.Turn.{other_player}
use networking_game.Game.Network.Names.{Named}
use networking_game.Game.Network.Near.{Near, Near-sym, Near-trans}
use networking_game.Game.Network.Like.{Like, Like-sym, Like-trans, apply_each-Like}
use networking_game.Game.Network.Updates.{apply_each}
use networking_game.Match.Clicks.{None}
use networking_game.Match.Calm.{Calm}
use networking_game.Match.Frames.{Playing, Calm-Playing}
use networking_game.Match.News.{Late}

pub other_twice : (p : PlayerTurn) → other_player (other_player p) ≡ p
unfolding other_player
other_twice no_player = refl
other_twice player1 = refl
other_twice player2 = refl

pub never_both : (p : PlayerTurn) → p ≢ no_player → p ≢ other_player p
unfolding other_player
never_both no_player n e = n refl
never_both player1 n e = cc
never_both player2 n e = cc

module _ {F : Type 0} where
  -- Nothing changes that has to do with whose turn it is.
  pub record Still (g k : GameScene F) : Type 0 where
    pub units : (s : Slot) → Near (g.units s) (k.units s)
    pub marks : (s : Slot) → (k.units s).has_changed ≡ (g.units s).has_changed
    pub names : (s : Slot) → (k.units s).ref_name ≡ (g.units s).ref_name
    pub turn : k.player_turn ≡ g.player_turn
    pub finished : k.game_finished ≡ g.game_finished
    pub winner : k.winning_player ≡ g.winning_player
    pub team : k.assigned_team ≡ g.assigned_team
    pub selected : k.selected ≡ g.selected
    pub in_game : Playing k

  pub Calm-Still : (g k : GameScene F) → Playing g → Calm g k → Still g k
  Calm-Still g k p c = record {
    units = c.units;
    marks = c.marks;
    names = c.names;
    turn = c.turn;
    finished = c.finished;
    winner = c.winner;
    team = c.team;
    selected = c.selected;
    in_game = Calm-Playing g k c p;
  }

  pub Still-Like : (g k : GameScene F) → Still g k → Like g k
  Still-Like g k s = record {
    turn = s.turn;
    finished = s.finished;
    winner = s.winner;
    units = s.units;
    names = s.names;
  }

  -- The player of `g` is at the turn, and the other one, with the scene `h`, waits: they have the
  -- same but for the units that the first one has changed.
  pub record Holding (g h : GameScene F) : Type 0 where
    pub playing : Playing g
    pub other_playing : Playing h
    pub teams : h.assigned_team ≡ other_player g.assigned_team
    pub own : g.player_turn ≡ g.assigned_team
    pub away : h.player_turn ≡ other_player h.assigned_team
    pub turn : h.player_turn ≡ g.player_turn
    pub finished : h.game_finished ≡ g.game_finished
    pub winner : h.winning_player ≡ g.winning_player
    pub units : (s : Slot) → (g.units s).has_changed ≡ false → Near (g.units s) (h.units s)
    pub named : Named g.units
    pub other_named : Named h.units
    pub idle : None h

  -- The player of `g` has passed the turn on, and the other one, with the scene `h`, has yet to read
  -- the news, which make the two alike.
  pub record Passing (g h : GameScene F) (news : List CustomPacket) : Type 0 where
    pub playing : Playing g
    pub other_playing : Playing h
    pub teams : h.assigned_team ≡ other_player g.assigned_team
    pub given : g.player_turn ≡ other_player g.assigned_team
    pub away : h.player_turn ≡ other_player h.assigned_team
    pub named : Named g.units
    pub idle : None g
    pub other_idle : None h
    pub late : Late news
    pub result : GameScene F
    pub read : apply_each news h ≡ ok result
    pub alike : Like g result

  pub None-selected : (g k : GameScene F) → k.selected ≡ g.selected → None g → None k
  unfolding None
  None-selected g k e n s = ap (λ f. f s) e ∙ n s

  away-team :
      (g k : GameScene F)
      → k.player_turn ≡ g.player_turn
      → k.assigned_team ≡ g.assigned_team
      → g.player_turn ≡ other_player g.assigned_team
      → k.player_turn ≡ other_player k.assigned_team
  away-team g k turn team e = turn ∙ e ∙ ap other_player (sym team)

  -- The one at the turn does something that does not matter.
  pub Holding-first : (g k h : GameScene F) → Still g k → Holding g h → Holding k h
  Holding-first g k h s a = record {
    playing = s.in_game;
    other_playing = a.other_playing;
    teams = a.teams ∙ ap other_player (sym s.team);
    own = s.turn ∙ a.own ∙ sym s.team;
    away = a.away;
    turn = a.turn ∙ sym s.turn;
    finished = a.finished ∙ sym s.finished;
    winner = a.winner ∙ sym s.winner;
    units = λ t e.
        Near-trans (k.units t) (g.units t) (h.units t)
          (Near-sym (g.units t) (k.units t) (s.units t)) (a.units t (sym (s.marks t) ∙ e));
    named = λ t. s.names t ∙ a.named t;
    other_named = a.other_named;
    idle = a.idle;
  }

  -- The one who waits does.
  pub Holding-second : (g h k : GameScene F) → Still h k → Holding g h → Holding g k
  Holding-second g h k s a = record {
    playing = a.playing;
    other_playing = s.in_game;
    teams = s.team ∙ a.teams;
    own = a.own;
    away = away-team h k s.turn s.team a.away;
    turn = s.turn ∙ a.turn;
    finished = s.finished ∙ a.finished;
    winner = s.winner ∙ a.winner;
    units = λ t e. Near-trans (g.units t) (h.units t) (k.units t) (a.units t e) (s.units t);
    named = a.named;
    other_named = λ t. s.names t ∙ a.other_named t;
    idle = None-selected h k s.selected a.idle;
  }

  pub Passing-first :
      (g k h : GameScene F) (ns : List CustomPacket) → Still g k → Passing g h ns → Passing k h ns
  Passing-first g k h ns s a = record {
    playing = s.in_game;
    other_playing = a.other_playing;
    teams = a.teams ∙ ap other_player (sym s.team);
    given = away-team g k s.turn s.team a.given;
    away = a.away;
    named = λ t. s.names t ∙ a.named t;
    idle = None-selected g k s.selected a.idle;
    other_idle = a.other_idle;
    late = a.late;
    result = a.result;
    read = a.read;
    alike = Like-trans k g a.result (Like-sym g k (Still-Like g k s)) a.alike;
  }

  pub Passing-second :
      (g h k : GameScene F) (ns : List CustomPacket) → Still h k → Passing g h ns → Passing g k ns
  Passing-second g h k ns s a =
      let (r, made, like) = apply_each-Like ns h k a.result (Still-Like h k s) a.read in
      record {
        playing = a.playing;
        other_playing = s.in_game;
        teams = s.team ∙ a.teams;
        given = a.given;
        away = away-team h k s.turn s.team a.away;
        named = a.named;
        idle = a.idle;
        other_idle = None-selected h k s.selected a.other_idle;
        late = a.late;
        result = r;
        read = made;
        alike = Like-trans g a.result r a.alike like;
      }

  -- A turn that is passed on is not without news.
  pub Passing-news : (g h : GameScene F) → ¬ Passing g h []
  Passing-news g h a =
      let like = subst (Like g) (sym (ok-injective h a.result a.read)) a.alike in
      never_both h.assigned_team a.other_playing.team
        (a.teams ∙ sym a.given ∙ sym like.turn ∙ a.away)
