-- ===== src/Game/Network/Sync.antt =====
-- A turn as the other player sees it: what `nextTurnPressed` queues, read by `unitNetworkUpdate`.
use networking_game.Base.{
  ◌≡◌, ◌≢◌, refl, ap, ◌∙◌, Bool, true, false, [], ◌∷◌, ◌++◌, if◌then◌else◌, Bool-cases, inl, inr,
  ok, ◌>>=◌, ℤ, pos,
}
use networking_game.Text.{Text, codes, text_eq, cut}
use networking_game.Text.Decimal.{stoi, to_string}
use networking_game.Packet.{Deciphered, unit_data_deciper}
use networking_game.Game.State.{
  GameScene, Slot, infantry_enemy, units_vec, PlayerTurn, no_player, player1, player2, turn_eq,
}
use networking_game.Game.Turn.{end_turn_packet, end_game_packet, other_player}
use networking_game.Game.Turn.Handover.{changed_packets, last_packets, queue, settled, won}
use networking_game.Game.Network.{apply_update}
use networking_game.Game.Network.Updates.{apply_each}
use networking_game.Game.Network.Names.{ref_name_of, Named, Fits, take_over_by_name-none}
use networking_game.Game.Network.Overlay.{
  SameUnit, overlay, overlay_all, overlay-Named, apply_each-changed_packets, apply_each-append,
}

-- A packet of the kind `name&x&0&0&0&`.
abbrev pub note : Text → ℤ → Deciphered
note name x = record {
  unit_name = name;
  x_pos = x;
  y_pos = pos 0;
  squad_size = pos 0;
  unit_hp = pos 0;
}

pub deciper-end_turn_packet :
    unit_data_deciper end_turn_packet ≡ ok (note (codes "endturn") (pos 0))
unfolding unit_data_deciper cut stoi
deciper-end_turn_packet = refl

abbrev pub victor : Bool → ℤ
victor first = if first then pos 1 else pos 2

pub deciper-end_game_packet :
    (first : Bool)
    → unit_data_deciper (end_game_packet (victor first))
      ≡ ok (note (codes "endgame") (victor first))
unfolding unit_data_deciper cut stoi to_string
deciper-end_game_packet true = refl
deciper-end_game_packet false = refl

pub ref_name-ne-endturn : (s : Slot) → text_eq (codes "endturn") (ref_name_of s) ≡ false
unfolding text_eq
ref_name-ne-endturn infantry_enemy = refl
ref_name-ne-endturn _ = refl

pub team_of_winner :
    (p : PlayerTurn) → p ≢ no_player → (if turn_eq p player1 then player1 else player2) ≡ p
team_of_winner no_player h = absurd (h refl)
team_of_winner player1 h = refl
team_of_winner player2 h = refl

module _ {F : Type 0} where
  apply_update-endturn :
      (h : GameScene F)
      → Named h.units
      → apply_update (note (codes "endturn") (pos 0)) h
        ≡ record h { player_turn = other_player h.player_turn }
  unfolding apply_update text_eq
  apply_update-endturn h named =
      take_over_by_name-none (note (codes "endturn") (pos 0)) units_vec
        (record h { player_turn = other_player h.player_turn })
        (λ s. ap (text_eq (codes "endturn")) (named s) ∙ ref_name-ne-endturn s)

  apply_update-endgame :
      (first : Bool) (h : GameScene F)
      → apply_update (note (codes "endgame") (victor first)) h
        ≡ record h { winning_player = if first then player1 else player2; game_finished = true }
  unfolding apply_update text_eq
  apply_update-endgame true h = refl
  apply_update-endgame false h = refl

  -- The news that ends a turn, and those that end the game.
  pub turn_passes :
      (h : GameScene F)
      → Named h.units
      → apply_each (end_turn_packet ∷ []) h
        ≡ ok (record h { player_turn = other_player h.player_turn })
  turn_passes h named =
      ap (λ r. r >>= λ d. ok (apply_update d h)) deciper-end_turn_packet
      ∙ ap ok (apply_update-endturn h named)

  pub game_ends :
      (first : Bool) (h : GameScene F)
      → Named h.units
      → apply_each (end_game_packet (victor first) ∷ end_turn_packet ∷ []) h
        ≡ ok (record h {
          player_turn = other_player h.player_turn;
          winning_player = if first then player1 else player2;
          game_finished = true;
        })
  game_ends first h named =
      ap (λ r. r >>= λ d. apply_each (end_turn_packet ∷ []) (apply_update d h))
        (deciper-end_game_packet first)
      ∙ ap (apply_each (end_turn_packet ∷ [])) (apply_update-endgame first h)
      ∙ turn_passes
          (record h { winning_player = if first then player1 else player2; game_finished = true })
          named

  -- What the two players must agree on.
  pub record Agree (g h : GameScene F) : Type 0 where
    pub turn : h.player_turn ≡ g.player_turn
    pub finished : h.game_finished ≡ g.game_finished
    pub winner : h.winning_player ≡ g.winning_player
    pub units : (s : Slot) → SameUnit (g.units s) (h.units s)

  -- They agree but for the units that the one whose turn it is has changed.
  pub record InTurn (g h : GameScene F) : Type 0 where
    pub turn : h.player_turn ≡ g.player_turn
    pub finished : h.game_finished ≡ g.game_finished
    pub winner : h.winning_player ≡ g.winning_player
    pub units : (s : Slot) → (g.units s).has_changed ≡ false → SameUnit (g.units s) (h.units s)
    pub names : Named g.units
    pub other_names : Named h.units
    pub fits : (s : Slot) → Fits (g.units s)

  -- The last packets, read by the other player.
  abbrev pub after_turn : GameScene F → GameScene F → GameScene F
  after_turn g h =
      if won g
      then record h {
        player_turn = other_player h.player_turn;
        winning_player = if turn_eq g.assigned_team player1 then player1 else player2;
        game_finished = true;
      }
      else record h { player_turn = other_player h.player_turn }

  pub last_packets_read :
      (g h : GameScene F)
      → Named h.units
      → apply_each (last_packets false g) h ≡ ok (after_turn g h)
  last_packets_read g h named = elim (Bool-cases (won g)) [
    | inl w ↦ rw w (game_ends (turn_eq g.assigned_team player1) h named)
    | inr l ↦ rw l (turn_passes h named)
  ]

  -- The sender's scene after its click.
  abbrev pub handed_over : GameScene F → GameScene F
  handed_over g =
      if won g
      then queue (changed_packets units_vec g.units ++ last_packets false g) (record (settled g) {
        player_turn = other_player g.player_turn;
        game_finished = true;
        winning_player = g.assigned_team;
      })
      else queue (changed_packets units_vec g.units ++ last_packets false g)
          (record (settled g) { player_turn = other_player g.player_turn })

  agrees :
      (g h : GameScene F)
      → g.assigned_team ≢ no_player
      → InTurn g h
      → Agree
          (handed_over g)
          (after_turn g (record h { units = overlay units_vec g.units h.units }))
  agrees g h team i =
      let same = overlay_all SameUnit (λ u v s. s) g.units h.units i.units in
      elim (Bool-cases (won g)) [
        | inl w ↦ rw w (record {
          turn = ap other_player i.turn;
          finished = refl;
          winner = team_of_winner g.assigned_team team;
          units = same;
        })
        | inr l ↦ rw l (record {
          turn = ap other_player i.turn;
          finished = i.finished;
          winner = i.winner;
          units = same;
        })
      ]

  -- The packets of a turn, read by a player who agrees but for the changes, are read with no fault,
  -- and the two agree again.
  pub packets_read :
      (g h : GameScene F)
      → g.assigned_team ≢ no_player
      → InTurn g h
      → (h' : GameScene F) × (apply_each
            (changed_packets units_vec g.units ++ last_packets false g)
            h
          ≡ ok h')
        × Agree (handed_over g) h'
  packets_read g h team i =
      let h1 = record h { units = overlay units_vec g.units h.units } in
      (
        after_turn g h1,
        apply_each-append (changed_packets units_vec g.units) (last_packets false g) h
            ∙ ap (λ r. r >>= apply_each (last_packets false g))
                (apply_each-changed_packets units_vec g.units h i.names i.fits i.other_names)
            ∙ last_packets_read g h1 (overlay-Named units_vec g.units h.units i.other_names),
        agrees g h team i,
      )
