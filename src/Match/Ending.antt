-- ===== src/Match/Ending.antt =====
-- What the player at the turn does with it: work on the units, or end it.
use networking_game.Base.{◌≡◌, ◌≢◌, refl, sym, ap, ◌∙◌, subst, Bool, inl, inr, Bool-cases}
use networking_game.Game.State.{GameScene, Slot, no_player}
use networking_game.Game.Turn.{other_player}
use networking_game.Game.Turn.Handover.{queue, won}
use networking_game.Game.Network.Names.{Fits}
use networking_game.Game.Network.Near.{Near-sym, Near-trans}
use networking_game.Game.Network.Work.{Work}
use networking_game.Game.Network.Sync.{handed_over}
use networking_game.Match.Clicks.{handed_over-turn}
use networking_game.Match.News.{turn_packets, turn_packets-Late, turn_read}
use networking_game.Match.Turns.{Holding, Passing}

module _ {F : Type 0} where
  -- The one at the turn works on the units and selects.
  pub Holding-Work :
      (g k h : GameScene F) (selection : Slot → Bool)
      → Work g k
      → Holding g h
      → Holding (record k { selected = selection }) h
  Holding-Work g k h selection w a = record {
    playing = record {
      team = subst (λ t. t ≢ no_player) (sym w.team) a.playing.team;
      lobby = ap (λ c. c.is_lobby) w.client ∙ a.playing.lobby;
      reconnecting = ap (λ c. c.is_reconnecting) w.client ∙ a.playing.reconnecting;
      recieved = ap (λ c. c.recieved_queue) w.client ∙ a.playing.recieved;
    };
    other_playing = a.other_playing;
    teams = a.teams ∙ ap other_player (sym w.team);
    own = w.turn ∙ a.own ∙ sym w.team;
    away = a.away;
    turn = a.turn ∙ sym w.turn;
    finished = a.finished ∙ sym w.finished;
    winner = a.winner ∙ sym w.winner;
    units = λ t e.
        let (clean, near) = w.units t e in
        Near-trans (k.units t) (g.units t) (h.units t) (Near-sym (g.units t) (k.units t) near)
          (a.units t clean);
    named = λ t. w.names t ∙ a.named t;
    other_named = a.other_named;
    idle = a.idle;
  }

  -- The connection and the names of the units of a player who ends the turn.
  pub handed_over-frame :
      (g : GameScene F)
      → ((handed_over g).client_component ≡ (queue (turn_packets g) g).client_component)
        × ((s : Slot) → ((handed_over g).units s).ref_name ≡ (g.units s).ref_name)
  handed_over-frame g = elim (Bool-cases (won g)) [
    | inl w ↦ rw w (refl, λ s. refl)
    | inr l ↦ rw l (refl, λ s. refl)
  ]

  -- The one at the turn ends it.
  pub Holding-Passing :
      (g h : GameScene F)
      → ((s : Slot) → Fits (g.units s))
      → Holding g h
      → Passing (handed_over g) h (turn_packets g)
  Holding-Passing g h fits a =
      let (turn, team, none) = handed_over-turn g in
      let (client, names) = handed_over-frame g in
      let (k, made, like) =
        turn_read g h a.playing.team a.turn a.finished a.winner a.units a.named a.other_named
          fits in
      record {
        playing = record {
          team = subst (λ t. t ≢ no_player) (sym team) a.playing.team;
          lobby = ap (λ c. c.is_lobby) client ∙ a.playing.lobby;
          reconnecting = ap (λ c. c.is_reconnecting) client ∙ a.playing.reconnecting;
          recieved = ap (λ c. c.recieved_queue) client ∙ a.playing.recieved;
        };
        other_playing = a.other_playing;
        teams = a.teams ∙ ap other_player (sym team);
        given = turn ∙ ap other_player (a.own ∙ sym team);
        away = a.away;
        named = λ s. names s ∙ a.named s;
        idle = none;
        other_idle = a.idle;
        late = turn_packets-Late g a.named fits;
        result = k;
        read = made;
        alike = like;
      }
