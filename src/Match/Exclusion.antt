-- ===== src/Match/Exclusion.antt =====
-- What holds of the two players however their clicks, keys, frames and rounds are interleaved.
use networking_game.Base.{
  ◌≡◌, ◌≢◌, sym, ap, ◌∙◌, subst, ℤ, false, List, [], ◌++◌, ok, inl, inr, ◌⊎◌, All,
}
use networking_game.Text.{Text}
use networking_game.Packet.{CustomPacket}
use networking_game.Client.{ClientComponent}
use networking_game.Delivery.Packets.{IsPlayPacket}
use networking_game.Delivery.Turns.{AtRest}
use networking_game.Game.State.{GameScene, Slot, Floats, no_player, player1, player2}
use networking_game.Game.Turn.{other_player}
use networking_game.Game.Frame.{update_scene}
use networking_game.Game.Network.Sync.{InTurn}
use networking_game.Match.{Player, Post, Match, Step, first_moves, second_moves, Reach, here, next}
use networking_game.Match.Clicks.{None}
use networking_game.Match.Links.{units_of, no_packets}
use networking_game.Match.Rounds.{Delivers, Link}
use networking_game.Match.Turns.{Holding, Passing, Passing-news, never_both}
use networking_game.Match.Wires.{Turns}
use networking_game.Match.Hearing.{frame-first, frame-second}
use networking_game.Match.Steps.{Move-first, Move-second}

-- The game has just begun: the first player is at the turn, the two agree on the game but for the
-- units that the first one has marked, and nothing is on its way.
pub record Begun {F : Type 0} (m : Match F) : Type 0 where
  pub first_team : m.first.scene.assigned_team ≡ player1
  pub second_team : m.second.scene.assigned_team ≡ player2
  pub first_turn : m.first.scene.player_turn ≡ player1
  pub agreed : InTurn m.first.scene m.second.scene
  pub none_selected : (s : Slot) → m.second.scene.selected s ≡ false
  pub first_lobby : m.first.scene.client_component.is_lobby ≡ false
  pub second_lobby : m.second.scene.client_component.is_lobby ≡ false
  pub first_back : m.first.scene.client_component.is_reconnecting ≡ false
  pub second_back : m.second.scene.client_component.is_reconnecting ≡ false
  pub first_rest : AtRest m.first.scene.client_component
  pub second_rest : AtRest m.second.scene.client_component
  pub first_inbox : m.first.inbox ≡ []
  pub second_inbox : m.second.inbox ≡ []

-- Nothing is on its way between the two.
pub record Settled {F : Type 0} (m : Match F) : Type 0 where
  pub first_unsent : m.first.scene.client_component.sending_queue ≡ []
  pub second_unsent : m.second.scene.client_component.sending_queue ≡ []
  pub first_unread : m.first.scene.client_component.unit_update_queue ≡ []
  pub second_unread : m.second.scene.client_component.unit_update_queue ≡ []
  pub first_inbox : m.first.inbox ≡ []
  pub second_inbox : m.second.inbox ≡ []

-- The packets that go to all others come to the other player, in both directions, and to nobody
-- twice.
pub record Connected (net : Post) : Type 0 where
  pub there : Delivers net.post 0 1
  pub back : Delivers net.post 1 0

rest-Link :
    (c d : ClientComponent)
    → AtRest c
    → AtRest d
    → (inbox : List Text) → inbox ≡ []
    → Link c d inbox []
rest-Link c d r s inbox e = record {
  under_way = [];
  arriving = e;
  play = tt;
  unsent = subst (All IsPlayPacket) (sym r.unsent) tt;
  all_news = ap (λ l. l ++ ([] ++ units_of c.sending_queue)) s.unread ∙ ap units_of r.unsent;
}

no_news :
    (c d : ClientComponent) (inbox : List Text) (ns : List CustomPacket)
    → Link c d inbox ns
    → c.sending_queue ≡ []
    → d.unit_update_queue ≡ []
    → inbox ≡ []
    → ns ≡ []
no_news c d inbox ns l unsent unread none =
    let way = no_packets l.under_way (sym l.arriving ∙ none) in
    sym l.all_news
    ∙ ap (λ q. q ++ (units_of l.under_way ++ units_of c.sending_queue)) unread
    ∙ ap (λ q. units_of q ++ units_of c.sending_queue) way
    ∙ ap units_of unsent

module _ {F : Type 0} where
  Begun-Turns : (m : Match F) → Begun m → Turns m.first m.second
  unfolding other_player None
  Begun-Turns m b = inl (
    record {
      playing = record {
        team = λ e. let h : player1 ≡ no_player = sym b.first_team ∙ e in cc;
        lobby = b.first_lobby;
        reconnecting = b.first_back;
        recieved = b.first_rest.recieved;
      };
      other_playing = record {
        team = λ e. let h : player2 ≡ no_player = sym b.second_team ∙ e in cc;
        lobby = b.second_lobby;
        reconnecting = b.second_back;
        recieved = b.second_rest.recieved;
      };
      teams = b.second_team ∙ ap other_player (sym b.first_team);
      own = b.first_turn ∙ sym b.first_team;
      away = b.agreed.turn ∙ b.first_turn ∙ ap other_player (sym b.second_team);
      turn = b.agreed.turn;
      finished = b.agreed.finished;
      winner = b.agreed.winner;
      units = λ s e.
          let (x, y, squad, health) = b.agreed.units s e in
          record { squad = squad; health = health; x_pos = λ h. x; y_pos = λ h. y };
      named = b.agreed.names;
      other_named = b.agreed.other_names;
      idle = b.none_selected;
    },
    (
      rest-Link m.first.scene.client_component m.second.scene.client_component b.first_rest
          b.second_rest m.second.inbox b.second_inbox,
      rest-Link m.second.scene.client_component m.first.scene.client_component b.second_rest
          b.first_rest m.first.inbox b.first_inbox,
    ),
  )

  -- Of the two the second waits, or both do.
  second_waits : (p q : Player F) → Turns p q → q.scene.player_turn ≢ q.scene.assigned_team
  second_waits p q (inl (a, w)) e =
      never_both q.scene.assigned_team a.other_playing.team (sym e ∙ a.away)
  second_waits p q (inr (ns, a, w)) e =
      never_both q.scene.assigned_team a.other_playing.team (sym e ∙ a.away)

  -- With nothing on its way the first one is at the turn, unless it has passed it on.
  at_turn :
      (p q : Player F)
      → Turns p q
      → p.scene.client_component.sending_queue ≡ []
      → q.scene.client_component.unit_update_queue ≡ []
      → q.inbox ≡ []
      → Holding p.scene q.scene
  at_turn p q (inl (a, w)) unsent unread none = a
  at_turn p q (inr (ns, a, w)) unsent unread none =
      let empty =
        no_news p.scene.client_component q.scene.client_component q.inbox ns w.0 unsent unread
          none in
      absurd (Passing-news p.scene q.scene (subst (Passing p.scene q.scene) empty a))

module _ {F : Type 0} ⦃fl : Floats F⦄ where
  abbrev Safe : Match F → Type 0
  Safe m = Turns m.first m.second ⊎ Turns m.second m.first

  Step-Safe : (net : Post) (a b : Match F) → Connected net → Safe a → Step net a b → Safe b
  Step-Safe net a b c (inl t) (first_moves m) =
      inl (Move-first net 0 1 a.first a.second b.first b.second c.there t m)
  Step-Safe net a b c (inr t) (first_moves m) =
      elim (Move-second net 0 1 a.first a.second b.first b.second c.there t m) [
        | inl s ↦ inr s
        | inr s ↦ inl s
      ]
  Step-Safe net a b c (inl t) (second_moves m) =
      Move-second net 1 0 a.second a.first b.second b.first c.back t m
  Step-Safe net a b c (inr t) (second_moves m) =
      inr (Move-first net 1 0 a.second a.first b.second b.first c.back t m)

  pub Reach-Safe : (net : Post) (a b : Match F) → Connected net → Begun a → Reach net a b → Safe b
  Reach-Safe net a _ c g here = inl (Begun-Turns a g)
  Reach-Safe net a b c g (next {b = m} r s) = Step-Safe net m b c (Reach-Safe net a m c g r) s

  -- In a game that has begun, played over a network that brings each player what the server sends
  -- to all but the other, whatever the two click and type, whenever their threads draw frames and
  -- send and take in packets, and however the network splits what it delivers: the two are never
  -- both at the turn. An `int` holds the figures of the units at each click, nothing typed has a
  -- zero byte, nobody joins or reconnects, and a check for the end that returns nothing counts as
  -- false.
  pub one_at_a_time :
      (net : Post) (a b : Match F)
      → Connected net
      → Begun a
      → Reach net a b
      → ¬ (
          (b.first.scene.player_turn ≡ b.first.scene.assigned_team)
          × (b.second.scene.player_turn ≡ b.second.scene.assigned_team))
  one_at_a_time net a b c g r (e, f) = elim (Reach-Safe net a b c g r) [
    | inl t ↦ second_waits b.first b.second t f
    | inr t ↦ second_waits b.second b.first t e
  ]

  -- In a game that has begun, played over a network that brings each player what the server sends
  -- to all but the other, whatever the two click and type, whenever their threads draw frames and
  -- send and take in packets, and however the network splits what it delivers: when nothing is on
  -- its way between the two, one of them is at the turn and the other one waits with no unit
  -- selected, and they agree on the turn, on the end of the game and its winner, and on the
  -- strength and the place of every unit that the one at the turn has not marked as changed (the
  -- place, if anyone is left of it). An `int` holds the figures of the units at each click, nothing
  -- typed has a zero byte, nobody joins or reconnects, and a check for the end that returns nothing
  -- counts as false.
  pub Settled-Holding :
      (net : Post) (a b : Match F)
      → Connected net
      → Begun a
      → Reach net a b
      → Settled b
      → Holding b.first.scene b.second.scene ⊎ Holding b.second.scene b.first.scene
  Settled-Holding net a b c g r s = elim (Reach-Safe net a b c g r) [
    | inl t ↦ inl (at_turn b.first b.second t s.first_unsent s.second_unread s.second_inbox)
    | inr t ↦ inr (at_turn b.second b.first t s.second_unsent s.first_unread s.first_inbox)
  ]

  -- In a game that has begun, played over a network that brings each player what the server sends
  -- to all but the other, whatever the two click and type, whenever their threads draw frames and
  -- send and take in packets, and however the network splits what it delivers: the next frame of
  -- either player does not fail. What has come in of the other player's turn, all at once or bit by
  -- bit, can be read. An `int` holds the figures of the units at each click, nothing typed has a
  -- zero byte, nobody joins or reconnects, and a check for the end that returns nothing counts as
  -- false.
  pub frames_succeed :
      (net : Post) (a b : Match F) (junk : ℤ) (ms : F)
      → Connected net
      → Begun a
      → Reach net a b
      → ((g : GameScene F) × (update_scene junk ms b.first.scene ≡ ok g))
        × ((h : GameScene F) × (update_scene junk ms b.second.scene ≡ ok h))
  frames_succeed net a b junk ms c g r = elim (Reach-Safe net a b c g r) [
    | inl t ↦ both b.first b.second t
    | inr t ↦ let (x, y) = both b.second b.first t in (y, x)
  ]
    where
      both :
          (p q : Player F)
          → Turns p q
          → ((g : GameScene F) × (update_scene junk ms p.scene ≡ ok g))
            × ((h : GameScene F) × (update_scene junk ms q.scene ≡ ok h))
      both p q t =
          let (j, drawn, _) = frame-first junk ms p q t in
          let (k, made, _) = frame-second junk ms q p t in ((j, drawn), (k, made))
