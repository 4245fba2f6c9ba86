-- ===== src/Game/Frame/Steps.antt =====
-- The steps of a frame that keep the selection fair.
use networking_game.Base.{
  ◌≡◌, refl, sym, ap, ◌∙◌, arith, Bool, true, false, ◌&&◌, List, [], ◌∷◌, if◌then◌else◌, ℤ, pos,
  Result, Bool-cases, Result-cases, inl, inr, Ensures, none, some,
}
use networking_game.Text.{codes}
use networking_game.Text.Decimal.{to_string}
use networking_game.Packet.{packet}
use networking_game.Game.State.{
  GameScene, Slot, infantry_enemy, units_vec, PlayerTurn, turn_eq, send_packet, no_player, player1,
  player2,
}
use networking_game.Game.Selection.Exclusive.{IsFairlySelected, team_of, turn_eq_sound}
use networking_game.Game.Selection.Fair.{
  Kept, Kept-refl, Kept-IsFairlySelected, none-IsFairlySelected,
}
use networking_game.Game.Network.{unit_network_update}
use networking_game.Game.Network.Updates.{unit_network_update_frame}
use networking_game.Game.Turn.{update_reconnectee, send_all_units, which_turn}
use networking_game.Game.Frame.{update_units, assign_team, leave, restore}

team_of-some : (s : Slot) → team_of s ≡ no_player → ⊥
team_of-some infantry_enemy e = cc
team_of-some _ e = cc

turn_eq_refl : (p : PlayerTurn) → turn_eq p p ≡ true
turn_eq_refl no_player = refl
turn_eq_refl player1 = refl
turn_eq_refl player2 = refl

different : true ≡ false → ⊥
different e = cc

off : (b : Bool) → (b ≡ true → ⊥) → b ≡ false
off true n = absurd (n refl)
off false n = refl

module _ {F : Type 0} where
  abbrev pub Fair : Result (GameScene F) → Type 0
  Fair r = Ensures IsFairlySelected r

  -- A game that waits for the other player's turn has no unit selected, nor has one with no team.
  pub none_of_others :
      (turn team : PlayerTurn) (g : GameScene F)
      → turn_eq turn team ≡ false
      → (turn_eq g.player_turn turn && turn_eq g.assigned_team team) ≡ true
      → IsFairlySelected g
      → (s : Slot) → g.selected s ≡ false
  none_of_others turn team g apart both v s = off (g.selected s) (λ on. clash s on)
    where
      parts : (a b : Bool) → (a && b) ≡ true → (a ≡ true) × (b ≡ true)
      parts a b h = ground arith

      clash : (s : Slot) → g.selected s ≡ true → ⊥
      clash s on =
          let (e, f) = parts (turn_eq g.player_turn turn) (turn_eq g.assigned_team team) both in
          let at_turn = turn_eq_sound g.player_turn turn e in
          let of_team = turn_eq_sound g.assigned_team team f in
          let same : turn ≡ team = sym at_turn ∙ v.turn s on ∙ of_team in
          different (sym (turn_eq_refl team) ∙ ap (λ p. turn_eq p team) (sym same) ∙ apart)

  none_without_team :
      (g : GameScene F)
      → turn_eq g.assigned_team no_player ≡ true
      → IsFairlySelected g
      → (s : Slot) → g.selected s ≡ false
  none_without_team g e v s =
      off (g.selected s)
        (λ on. team_of-some s (v.one.own s on ∙ turn_eq_sound g.assigned_team no_player e))

  -- What the other player sends leaves an empty selection empty.
  pub unit_network_update-none :
      (g : GameScene F)
      → ((s : Slot) → g.selected s ≡ false)
      → Ensures (λ k. (s : Slot) → k.selected s ≡ false) (unit_network_update g)
  unit_network_update-none g n = elim (Result-cases (unit_network_update g)) [
    | inl (k, e) ↦ rw e (λ s. ap (λ j. j.selected s) (unit_network_update_frame g k e) ∙ n s)
    | inr (f, e) ↦ rw e tt
  ]

  pub assign_team-selected : (g : GameScene F) → (assign_team g).selected ≡ g.selected
  unfolding assign_team
  assign_team-selected g = ground arith

  -- A player that has a team keeps it.
  assign_team-Kept :
      (g : GameScene F) → turn_eq g.assigned_team no_player ≡ false → Kept g (assign_team g)
  unfolding assign_team
  assign_team-Kept g n = record {
    selected = ground arith;
    team = ground arith;
    turn = ground arith;
  }

  pub assign_team-IsFairlySelected :
      (g : GameScene F) → IsFairlySelected g → IsFairlySelected (assign_team g)
  assign_team-IsFairlySelected g v = elim (Bool-cases (turn_eq g.assigned_team no_player)) [
    | inl e ↦
        none-IsFairlySelected (assign_team g)
          (λ s. ap (λ f. f s) (assign_team-selected g) ∙ none_without_team g e v s)
    | inr n ↦ Kept-IsFairlySelected g (assign_team g) (assign_team-Kept g n) v
  ]

  pub leave-Kept : (g : GameScene F) → Kept g (leave g)
  unfolding leave
  leave-Kept g = record { selected = ground arith; team = ground arith; turn = ground arith }

  -- The game of the other player is taken over.
  abbrev pub taking_over : GameScene F → Bool
  taking_over g = g.client_component.is_reconnecting && g.client_component.update_complete

  pub leave-taking_over : (g : GameScene F) → taking_over (leave g) ≡ taking_over g
  unfolding leave
  leave-taking_over g = ground arith

  pub assign_team-taking_over : (g : GameScene F) → taking_over (assign_team g) ≡ taking_over g
  unfolding assign_team
  assign_team-taking_over g = ground arith

  pub update_units-Kept : (ss : List Slot) (g : GameScene F) → Kept g (update_units ss g)
  unfolding update_units
  update_units-Kept [] g = Kept-refl g
  update_units-Kept (s ∷ ss) g =
      let r = update_units-Kept ss _ in
      record { selected = r.selected; team = r.team; turn = r.turn }

  send_all_units-Kept : (ss : List Slot) (g : GameScene F) → Kept g (send_all_units ss g)
  unfolding send_all_units
  send_all_units-Kept [] g = Kept-refl g
  send_all_units-Kept (s ∷ ss) g =
      let r = send_all_units-Kept ss _ in
      record { selected = r.selected; team = r.team; turn = r.turn }

  -- The scene whose units are sent to the other player.
  abbrev greeted : ℤ → GameScene F → GameScene F
  greeted junk g =
      let opponent_team = if turn_eq g.assigned_team player1 then pos 2 else pos 1 in
      let game_turn : ℤ = elim (which_turn g) [ none ↦ junk | some n ↦ n ] in
      send_packet (packet (codes "turn") [] (to_string game_turn))
        (send_packet (packet (codes "player") [] (to_string opponent_team)) g)

  abbrev pub sent_over : ℤ → GameScene F → GameScene F
  sent_over junk g =
      let g1 = update_reconnectee junk g in
      record g1 { client_component = record (g1.client_component) { ready_to_send = false } }

  pub sending-Kept : (junk : ℤ) (g : GameScene F) → Kept g (sent_over junk g)
  unfolding update_reconnectee
  sending-Kept junk g =
      let r = send_all_units-Kept units_vec (greeted junk g) in
      record { selected = r.selected; team = r.team; turn = r.turn }

  pub restore-selected : (g : GameScene F) → (restore g).selected ≡ g.selected
  unfolding restore
  restore-selected g = ground arith
