-- ===== src/Game/Frame/Fair.antt =====
-- A click keeps the selection fair: `clickHandler` as a whole.
use networking_game.Base.{
  ◌≡◌, subst, Bool, ◌&&◌, not, ℤ, ok, err, Bool-cases, Result-cases, inl, inr, Ensures-ok,
}
use networking_game.Game.State.{GameScene, Floats}
use networking_game.Game.Selection.{set_selected}
use networking_game.Game.Selection.Exclusive.{IsFairlySelected, set_selected-IsFairlySelected}
use networking_game.Game.Selection.Fair.{Kept-IsFairlySelected}
use networking_game.Game.Turn.{next_turn_pressed}
use networking_game.Game.Turn.Cleared.{next_turn_pressed-IsFairlySelected}
use networking_game.Game.Movement.{place_unit_at_click}
use networking_game.Game.Movement.Places.{place_unit_at_click-Work}
use networking_game.Game.Attack.{attack_clicked_unit}
use networking_game.Game.Attack.Aim.{attack_clicked_unit-Work}
use networking_game.Game.Network.Work.{Work, Work-Kept}
use networking_game.Game.Frame.{click_handler}

module _ {F : Type 0} ⦃fl : Floats F⦄ where
  -- A click, wherever it is, keeps the selection fair: it may end the turn, move a unit, attack and
  -- select, in this order, and after it a flag is set only on the player's turn, for one unit at a
  -- time, and only for a unit of the player's team. This holds whatever `endgame_check` gives when it
  -- ends without a `return`, and says nothing of a click that fails in the attack.
  pub click_handler-IsFairlySelected :
      (junk on : Bool) (x y : ℤ) (g g' : GameScene F)
      → IsFairlySelected g
      → click_handler junk on x y g ≡ ok g'
      → IsFairlySelected g'
  unfolding click_handler
  click_handler-IsFairlySelected junk on x y g g' v h =
      elim (Bool-cases (
        g.last_scene
        && not g.client_component.is_lobby
        && not g.client_component.is_reconnecting
        && on)) [
          | inl e ↦
              let g1 = next_turn_pressed junk x y g in
              let g2 = place_unit_at_click x y g1 in
              let fair =
                Kept-IsFairlySelected g1 g2 (Work-Kept g1 g2 (place_unit_at_click-Work x y g1))
                  (next_turn_pressed-IsFairlySelected junk x y g v) in
              elim (Result-cases (attack_clicked_unit x y g2)) [
                | inl (k, made) ↦
                    let kept =
                      Ensures-ok (Work g2) (attack_clicked_unit x y g2) k made
                        (attack_clicked_unit-Work x y g2) in
                    let out : ok (set_selected x y k) ≡ ok g' = rw (e, made) at h in
                    let same : set_selected x y k ≡ g' = cc in
                    subst IsFairlySelected same (
                      set_selected-IsFairlySelected x y k
                        (Kept-IsFairlySelected g2 k (Work-Kept g2 k kept) fair))
                | inr (f, made) ↦ let out : err f ≡ ok g' = rw (e, made) at h in cc
              ]
          | inr e ↦
              let out : ok g ≡ ok g' = rw e at h in
              let same : g ≡ g' = cc in subst IsFairlySelected same v
        ]
