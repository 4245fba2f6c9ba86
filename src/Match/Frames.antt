-- ===== src/Match/Frames.antt =====
-- A frame of a player who is in the game: it reads the other player's packets, or does nothing that
-- concerns them.
use networking_game.Base.{
  ◌≡◌, ◌≢◌, refl, sym, ap, ◌∙◌, subst, Bool, true, false, ◌&&◌, ◌||◌, not, [], ◌>>=◌, if◌then◌else◌,
  Bool-cases, inl, inr, ◌⊎◌, ℤ, Result, ok, Result-cases,
}
use networking_game.Game.State.{GameScene, Floats, turn_eq, no_player, PlayerTurn, player1, player2}
use networking_game.Game.Turn.{other_player}
use networking_game.Game.Network.{unit_network_update}
use networking_game.Game.Network.Updates.{unit_network_update_frame}
use networking_game.Game.Chat.{chat_update}
use networking_game.Game.Frame.{units_update, leave, listen, playing, reconnecting, update_scene}
use networking_game.Match.Calm.{
  Calm, Calm-trans, trifles-Calm, leave-Calm, units_update-Calm, chat_update-Calm, assign_team-kept,
}

-- The player has a team, the game has begun, nobody is reconnecting, and the last round of the
-- thread has left no packet behind.
pub record Playing {F : Type 0} (g : GameScene F) : Type 0 where
  pub team : g.assigned_team ≢ no_player
  pub lobby : g.client_component.is_lobby ≡ false
  pub reconnecting : g.client_component.is_reconnecting ≡ false
  pub recieved : g.client_component.recieved_queue ≡ []

both : (a b : Bool) → a && b ≡ true → (a ≡ true) × (b ≡ true)
both true true e = (refl, refl)
both true false e = cc
both false b e = cc

pub turn_eq_lem : (p q : PlayerTurn) → turn_eq p q ≡ true → p ≡ q
turn_eq_lem no_player no_player e = refl
turn_eq_lem no_player player1 e = cc
turn_eq_lem no_player player2 e = cc
turn_eq_lem player1 no_player e = cc
turn_eq_lem player1 player1 e = refl
turn_eq_lem player1 player2 e = cc
turn_eq_lem player2 no_player e = cc
turn_eq_lem player2 player1 e = cc
turn_eq_lem player2 player2 e = refl

own_turn :
    (turn team : PlayerTurn)
    → team ≢ no_player
    → (turn_eq turn player1 && turn_eq team player2) ≡ false
    → (turn_eq turn player2 && turn_eq team player1) ≡ false
    → turn ≢ other_player team
unfolding other_player
own_turn turn no_player n a b e = n refl
own_turn turn player1 n a b e = let f : (turn_eq player2 player2 && true) ≡ false = rw e at b in cc
own_turn turn player2 n a b e = let f : (turn_eq player1 player1 && true) ≡ false = rw e at a in cc

over : (b : Bool) → not b ≡ false → b ≡ true
over true e = refl
over false e = cc

pub no_team : (p : PlayerTurn) → p ≢ no_player → turn_eq p no_player ≡ false
no_team no_player n = absurd (n refl)
no_team player1 n = refl
no_team player2 n = refl

module _ {F : Type 0} where
  pub Calm-Playing : (g k : GameScene F) → Calm g k → Playing g → Playing k
  Calm-Playing g k c p = record {
    team = subst (λ t. t ≢ no_player) (sym c.team) p.team;
    lobby = c.lobby ∙ p.lobby;
    reconnecting = c.reconnecting ∙ p.reconnecting;
    recieved = c.recieved ∙ p.recieved;
  }

  -- It is the turn of the one team, and the player is of the other.
  turn_and_team :
      (g : GameScene F) (p q : PlayerTurn)
      → (turn_eq g.player_turn p && turn_eq g.assigned_team q) ≡ true
      → (g.player_turn ≡ p) × (g.assigned_team ≡ q)
  turn_and_team g p q e =
      let (a, b) = both (turn_eq g.player_turn p) (turn_eq g.assigned_team q) e in
      (turn_eq_lem g.player_turn p a, turn_eq_lem g.assigned_team q b)

  read_team : (g k : GameScene F) → unit_network_update g ≡ ok k → k.assigned_team ≡ g.assigned_team
  read_team g k e = ap (λ j. j.assigned_team) (unit_network_update_frame g k e)

module _ {F : Type 0} ⦃fl : Floats F⦄ where
  -- A player of the second team does not listen to the second player.
  second_deaf : (k : GameScene F) → k.assigned_team ≡ player2 → listen player2 player1 k ≡ ok k
  unfolding listen
  second_deaf k e =
      elim (Bool-cases (turn_eq k.player_turn player2 && turn_eq k.assigned_team player1)) [
        | inl t ↦
            let two : turn_eq k.assigned_team player1 ≡ false = ap (λ p. turn_eq p player1) e in
            let one =
              (both (turn_eq k.player_turn player2) (turn_eq k.assigned_team player1) t).1 in
            cc
        | inr t ↦ rw t
      ]

  -- What a frame comes to once the units and the chat are done: it ends, if the game has ended or it
  -- is not the other player's turn, or it reads what is queued.
  abbrev pub Heard : GameScene F → Result (GameScene F) → Type 0
  Heard c r =
      ((r ≡ ok c) × ((c.game_finished ≡ true) ⊎ (c.player_turn ≢ other_player c.assigned_team)))
      ⊎ ((c.player_turn ≡ other_player c.assigned_team) × (r ≡ unit_network_update c))

  listen-Heard :
      (c : GameScene F)
      → c.assigned_team ≢ no_player
      → Heard c (listen player1 player2 c >>= listen player2 player1)
  unfolding listen other_player
  listen-Heard c team =
      elim (Bool-cases (turn_eq c.player_turn player1 && turn_eq c.assigned_team player2)) [
        | inl e ↦
            let (turn, own) = turn_and_team c player1 player2 e in
            inr (
              turn ∙ ap other_player (sym own),
              rw e (elim (Result-cases (unit_network_update c)) [
                | inl (k, made) ↦ rw made (second_deaf k (read_team c k made ∙ own))
                | inr (f, made) ↦ rw made
              ]),
            )
        | inr n ↦
            elim (Bool-cases (turn_eq c.player_turn player2 && turn_eq c.assigned_team player1)) [
              | inl e ↦
                  let (turn, own) = turn_and_team c player2 player1 e in
                  inr (turn ∙ ap other_player (sym own), rw (n, e) refl)
              | inr m ↦ inl (rw (n, m) refl, inr (own_turn c.player_turn c.assigned_team team n m))
            ]
      ]

  pub update_scene-Heard :
      (junk : ℤ) (ms : F) (g : GameScene F)
      → Playing g
      → (c : GameScene F) × Calm g c × Heard c (update_scene junk ms g)
  unfolding update_scene playing
  update_scene-Heard junk ms g p =
      let g0 = record g { scene_full_init = true } in
      let g1 = leave g0 in
      let calm = Calm-trans g g0 g1 (trifles-Calm g g0) (leave-Calm g0) in
      let in_game = Calm-Playing g g1 calm p in
      let plays =
        ap
          (λ k.
            let j = leave k in
            if j.client_component.is_lobby || j.client_component.is_reconnecting
            then reconnecting junk j
            else playing ms j)
          (assign_team-kept g0 (no_team g.assigned_team p.team))
        ∙ in_play g1 in_game in
      elim (Bool-cases (not g1.game_finished)) [
        | inl e ↦
            let g2 = chat_update ms g1 in
            let g3 = units_update g2 in
            let on = plays ∙ listens g1 e in
            (
              g3,
              Calm-trans g g1 g3 calm
                  (Calm-trans g1 g2 g3 (chat_update-Calm ms g1) (units_update-Calm g2)),
              subst (Heard g3) (sym on) (
                  listen-Heard g3 (
                    subst (λ t. t ≢ no_player)
                      (sym ((units_update-Calm g2).team ∙ (chat_update-Calm ms g1).team))
                      in_game.team)),
            )
        | inr e ↦ (g1, calm, inl (plays ∙ stops g1 e, inl (over g1.game_finished e)))
      ]
    where
      in_play :
          (j : GameScene F)
          → Playing j
          → (if j.client_component.is_lobby || j.client_component.is_reconnecting
              then reconnecting junk j
              else playing ms j)
            ≡ playing ms j
      in_play j q = simp (q.lobby, q.reconnecting)

      listens :
          (j : GameScene F)
          → not j.game_finished ≡ true
          → playing ms j
            ≡ (listen player1 player2 (units_update (chat_update ms j)) >>= listen player2 player1)
      listens j e = simp e

      stops : (j : GameScene F) → not j.game_finished ≡ false → playing ms j ≡ ok j
      stops j e = simp e
