-- ===== src/Game/Network/Like.antt =====
-- What the packets of a turn make of two scenes that look alike.
use networking_game.Base.{
  ◌≡◌, refl, sym, subst, ap, ◌∙◌, Bool, true, false, List, [], ◌∷◌, ok, Bool-cases, inl, inr, pos,
  eqb_ℤ, if◌then◌else◌, >>=-eq-ok,
}
use networking_game.Text.{codes, text_eq}
use networking_game.Packet.{CustomPacket, Deciphered, unit_data_deciper}
use networking_game.Game.State.{GameScene, Slot, units_vec, slot_eq, change, player1, player2}
use networking_game.Game.Turn.{other_player}
use networking_game.Game.Network.{take_over, take_over_by_name, apply_update}
use networking_game.Game.Network.Updates.{apply_each}
use networking_game.Game.Network.Near.{Near, Near-refl, Near-sym, Near-trans}

module _ {F : Type 0} where
  -- The same turn, the same end of the game, units that are near and have the same names.
  pub record Like (g h : GameScene F) : Type 0 where
    pub turn : h.player_turn ≡ g.player_turn
    pub finished : h.game_finished ≡ g.game_finished
    pub winner : h.winning_player ≡ g.winning_player
    pub units : (s : Slot) → Near (g.units s) (h.units s)
    pub names : (s : Slot) → (h.units s).ref_name ≡ (g.units s).ref_name

  pub Like-refl : (g : GameScene F) → Like g g
  Like-refl g = record {
    turn = refl;
    finished = refl;
    winner = refl;
    units = λ s. Near-refl (g.units s);
    names = λ s. refl;
  }

  pub Like-sym : (g h : GameScene F) → Like g h → Like h g
  Like-sym g h a = record {
    turn = sym a.turn;
    finished = sym a.finished;
    winner = sym a.winner;
    units = λ s. Near-sym (g.units s) (h.units s) (a.units s);
    names = λ s. sym (a.names s);
  }

  pub Like-trans : (g h k : GameScene F) → Like g h → Like h k → Like g k
  Like-trans g h k a b = record {
    turn = b.turn ∙ a.turn;
    finished = b.finished ∙ a.finished;
    winner = b.winner ∙ a.winner;
    units = λ s. Near-trans (g.units s) (h.units s) (k.units s) (a.units s) (b.units s);
    names = λ s. b.names s ∙ a.names s;
  }

  -- The same data, taken over by units of the same name.
  change-Like :
      (d : Deciphered) (s : Slot) (g h : GameScene F)
      → Like g h
      → Like (change s (take_over d) g) (change s (take_over d) h)
  unfolding take_over
  change-Like d s g h a = record {
    turn = a.turn;
    finished = a.finished;
    winner = a.winner;
    units = λ t. near t (slot_eq s t);
    names = λ t. name t (slot_eq s t);
  }
    where
      near :
          (t : Slot) (b : Bool)
          → Near
              (if b then take_over d (g.units s) else g.units t)
              (if b then take_over d (h.units s) else h.units t)
      near t true = record { squad = refl; health = refl; x_pos = λ e. refl; y_pos = λ e. refl }
      near t false = a.units t

      name :
          (t : Slot) (b : Bool)
          → (if b then take_over d (h.units s) else h.units t).ref_name
            ≡ (if b then take_over d (g.units s) else g.units t).ref_name
      name t true = a.names s
      name t false = a.names t

  take_over_by_name-Like :
      (d : Deciphered) (ss : List Slot) (g h : GameScene F)
      → Like g h
      → Like (take_over_by_name d ss g) (take_over_by_name d ss h)
  unfolding take_over_by_name
  take_over_by_name-Like d [] g h a = a
  take_over_by_name-Like d (s ∷ ss) g h a =
      elim (Bool-cases (text_eq d.unit_name (g.units s).ref_name)) [
        | inl e ↦
            let f = ap (text_eq d.unit_name) (a.names s) ∙ e in rw (e, f) (change-Like d s g h a)
        | inr e ↦
            let f = ap (text_eq d.unit_name) (a.names s) ∙ e in
            rw (e, f) (take_over_by_name-Like d ss g h a)
      ]

  apply_update-Like :
      (d : Deciphered) (g h : GameScene F) → Like g h → Like (apply_update d g) (apply_update d h)
  unfolding apply_update
  apply_update-Like d g h a =
      last (text_eq d.unit_name (codes "endgame")) _ _
        (passing (text_eq d.unit_name (codes "endturn")))
    where
      passing :
          (b : Bool)
          → Like
              (if b then record g { player_turn = other_player g.player_turn } else g)
              (if b then record h { player_turn = other_player h.player_turn } else h)
      passing true = record {
        turn = ap other_player a.turn;
        finished = a.finished;
        winner = a.winner;
        units = a.units;
        names = a.names;
      }
      passing false = a

      last :
          (b : Bool) (j k : GameScene F)
          → Like j k
          → Like
              (if b
                then record j {
                  winning_player = if eqb_ℤ d.x_pos (pos 1) then player1 else player2;
                  game_finished = true;
                }
                else take_over_by_name d units_vec j)
              (if b
                then record k {
                  winning_player = if eqb_ℤ d.x_pos (pos 1) then player1 else player2;
                  game_finished = true;
                }
                else take_over_by_name d units_vec k)
      last true j k c = record {
        turn = c.turn;
        finished = refl;
        winner = refl;
        units = c.units;
        names = c.names;
      }
      last false j k c = take_over_by_name-Like d units_vec j k c

  -- What can be read of one scene can be read of the other, and they are alike again.
  pub apply_each-Like :
      (ps : List CustomPacket) (g h g' : GameScene F)
      → Like g h
      → apply_each ps g ≡ ok g'
      → (h' : GameScene F) × (apply_each ps h ≡ ok h') × Like g' h'
  apply_each-Like [] g h g' a e = let same : g ≡ g' = cc in (h, refl, subst (λ k. Like k h) same a)
  apply_each-Like (p ∷ ps) g h g' a e =
      let (d, made, rest) =
        >>=-eq-ok (unit_data_deciper p) (λ d. apply_each ps (apply_update d g)) g' e in
      let (h', more, b) =
        apply_each-Like ps (apply_update d g) (apply_update d h) g' (apply_update-Like d g h a)
          rest in
      (h', rw made more, b)
