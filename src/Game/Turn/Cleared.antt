-- ===== src/Game/Turn/Cleared.antt =====
-- The end of a turn clears the selection.
use networking_game.Base.{
  ◌≡◌, refl, ap, ◌∙◌, arith, Bool, true, false, ◌&&◌, List, [], ◌∷◌, if◌then◌else◌, ℤ, Option, none,
  some, Bool-cases, inl, inr,
}
use networking_game.Sprite.{mouse_on_sprite}
use networking_game.Squad.{set_has_changed}
use networking_game.Game.State.{
  GameScene, Slot, units_vec, change, send_packet, PlayerTurn, no_player, player1, player2, turn_eq,
}
use networking_game.Game.Selection.{deselect_all_units}
use networking_game.Game.Selection.Exclusive.{IsFairlySelected}
use networking_game.Game.Selection.Fair.{none-IsFairlySelected}
use networking_game.Game.Turn.{
  next_turn_pressed, unit_packet, reset_all, send_changed, endgame_check, check, wins, finish,
  announce,
}

module _ {F : Type 0} where
  reset_all-selected : (ss : List Slot) (g : GameScene F) → (reset_all ss g).selected ≡ g.selected
  unfolding reset_all
  reset_all-selected [] g = refl
  reset_all-selected (s ∷ ss) g = reset_all-selected ss _

  send_changed-selected :
      (ss : List Slot) (g : GameScene F) → (send_changed ss g).selected ≡ g.selected
  unfolding send_changed
  send_changed-selected [] g = refl
  send_changed-selected (s ∷ ss) g =
      send_changed-selected ss (if (g.units s).has_changed then sent s else g) ∙ ground arith
    where
      sent : Slot → GameScene F
      sent s = change s (set_has_changed false) (send_packet (unit_packet (g.units s)) g)

  check-selected : (p : PlayerTurn) (g : GameScene F) → (check p g).0.selected ≡ g.selected
  unfolding check wins
  check-selected no_player g = refl
  check-selected player1 g = ground arith
  check-selected player2 g = ground arith

  announce-selected : (b : Bool) (g : GameScene F) → (announce b g).selected ≡ g.selected
  unfolding announce
  announce-selected true g = refl
  announce-selected false g = refl

  finish-selected :
      (junk : Bool) (r : GameScene F × Option Bool) → (finish junk r).selected ≡ r.0.selected
  unfolding finish
  finish-selected junk (g, none) = announce-selected junk g
  finish-selected junk (g, some b) = announce-selected b g

  -- The turn that ends, from the state in which the button is pressed.
  ended-selected :
      (junk : Bool) (g : GameScene F) (s : Slot)
      → (finish junk (
            endgame_check
              (send_changed units_vec (reset_all units_vec (deselect_all_units g))))).selected
          s
        ≡ false
  unfolding endgame_check deselect_all_units
  ended-selected junk g s =
      let g1 = deselect_all_units g in
      let g2 = reset_all units_vec g1 in
      let g3 = send_changed units_vec g2 in
      ap (λ f. f s)
        (finish-selected junk (endgame_check g3)
          ∙ check-selected g3.assigned_team g3
          ∙ send_changed-selected units_vec g2
          ∙ reset_all-selected units_vec g1)

  -- Whether the button is pressed or not, the selection is fair.
  pub next_turn_pressed-IsFairlySelected :
      (junk : Bool) (x y : ℤ) (g : GameScene F)
      → IsFairlySelected g
      → IsFairlySelected (next_turn_pressed junk x y g)
  unfolding next_turn_pressed
  next_turn_pressed-IsFairlySelected junk x y g v =
      elim (Bool-cases
        (turn_eq g.player_turn g.assigned_team && mouse_on_sprite x y g.next_turn_button)) [
          | inl e ↦ rw e (none-IsFairlySelected _ (ended-selected junk g))
          | inr e ↦ rw e v
        ]
