-- ===== src/Match/Clicks.antt =====
-- A click as a whole: out of turn it does nothing, and in turn it ends the turn or works on.
use networking_game.Base.{
  ◌≡◌, ◌≢◌, refl, sym, subst, ap, ◌∙◌, Bool, true, false, not, ◌&&◌, ◌⊎◌, inl, inr, Bool-cases,
  Result-cases, Ensures-ok, ok, err, Result, ◌>>=◌, ℤ,
}
use networking_game.Sprite.{mouse_on_sprite}
use networking_game.Game.State.{
  GameScene, Slot, units_vec, Floats, PlayerTurn, turn_eq, no_player, player1, player2,
  infantry_enemy, tank_enemy, sniper_enemy, artillery_enemy, infantry_ally, tank_ally, sniper_ally,
  artillery_ally,
}
use networking_game.Game.Selection.{set_selected}
use networking_game.Game.Selection.Exclusive.{set_selected-idle, set_selected-frame}
use networking_game.Game.Turn.{next_turn_pressed, other_player}
use networking_game.Game.Turn.Handover.{won, next_turn_pressed_lem}
use networking_game.Game.Movement.{
  place_unit_at_click, any_selected, sprite_on_target, enemy_order, ally_order,
}
use networking_game.Game.Movement.Places.{place_unit_at_click-Work}
use networking_game.Game.Attack.{attack_clicked_unit, any_of}
use networking_game.Game.Attack.Aim.{attack_clicked_unit-Work}
use networking_game.Game.Frame.{click_handler}
use networking_game.Game.Network.Sync.{handed_over}
use networking_game.Game.Network.Work.{Work, Work-refl, Work-trans}

pub other_turn : (p : PlayerTurn) → p ≢ no_player → turn_eq (other_player p) p ≡ false
unfolding other_player
other_turn no_player n = absurd (n refl)
other_turn player1 n = refl
other_turn player2 n = refl

module _ {F : Type 0} where
  unfoldable pub None : GameScene F → Type 0
  None g = (s : Slot) → g.selected s ≡ false

  place_unit_at_click-idle : (x y : ℤ) (g : GameScene F) → None g → place_unit_at_click x y g ≡ g
  unfolding place_unit_at_click None
  place_unit_at_click-idle x y g n =
      let none : any_selected g.selected ≡ false = rw (
        n infantry_enemy,
        n tank_enemy,
        n sniper_enemy,
        n artillery_enemy,
        n infantry_ally,
        n tank_ally,
        n sniper_ally,
        n artillery_ally,
      ) in
      elim (Bool-cases (sprite_on_target x y units_vec g.units)) [
        | inl e ↦ rw e
        | inr e ↦ rw (e, none)
      ]

  next_turn_pressed-idle :
      (x y : ℤ) (g : GameScene F)
      → turn_eq g.player_turn g.assigned_team ≡ false
      → next_turn_pressed false x y g ≡ g
  unfolding next_turn_pressed
  next_turn_pressed-idle x y g t = rw t

  next_turn_pressed-missed :
      (x y : ℤ) (g : GameScene F)
      → mouse_on_sprite x y g.next_turn_button ≡ false
      → next_turn_pressed false x y g ≡ g
  unfolding next_turn_pressed
  next_turn_pressed-missed x y g off = elim (Bool-cases (turn_eq g.player_turn g.assigned_team)) [
    | inl e ↦ rw (e, off)
    | inr e ↦ rw e
  ]

  -- The end of a turn, as `handed_over` writes it down.
  pub handed_over-turn :
      (g : GameScene F)
      → ((handed_over g).player_turn ≡ other_player g.player_turn)
        × ((handed_over g).assigned_team ≡ g.assigned_team)
        × None (handed_over g)
  unfolding None
  handed_over-turn g = elim (Bool-cases (won g)) [
    | inl w ↦ rw w (refl, refl, λ s. refl)
    | inr l ↦ rw l (refl, refl, λ s. refl)
  ]

module _ {F : Type 0} ⦃fl : Floats F⦄ where
  attack_clicked_unit-idle : (x y : ℤ) (g : GameScene F) → None g → attack_clicked_unit x y g ≡ ok g
  unfolding attack_clicked_unit None
  attack_clicked_unit-idle x y g n =
      let enemies : any_of enemy_order g.selected ≡ false =
        rw (n infantry_enemy, n tank_enemy, n sniper_enemy, n artillery_enemy) in
      let allies : any_of ally_order g.selected ≡ false =
        rw (n infantry_ally, n tank_ally, n sniper_ally, n artillery_ally) in
      elim (Bool-cases (sprite_on_target x y units_vec g.units)) [
        | inl e ↦ rw (e, enemies, allies)
        | inr e ↦ rw e
      ]

  -- What follows the test of the button.
  abbrev aim : ℤ → ℤ → GameScene F → Result (GameScene F)
  aim x y g = attack_clicked_unit x y (place_unit_at_click x y g) >>= λ k. ok (set_selected x y k)

  aim-idle :
      (x y : ℤ) (g : GameScene F)
      → None g
      → turn_eq g.player_turn g.assigned_team ≡ false
      → aim x y g ≡ ok g
  aim-idle x y g n t =
      ap (λ k. attack_clicked_unit x y k >>= λ j. ok (set_selected x y j))
        (place_unit_at_click-idle x y g n)
      ∙ ap (λ r. r >>= λ j. ok (set_selected x y j)) (attack_clicked_unit-idle x y g n)
      ∙ ap ok (set_selected-idle x y g t)

  -- Out of turn, and so with no unit selected, a click changes nothing.
  pub click_handler-idle :
      (on : Bool) (x y : ℤ) (g : GameScene F)
      → None g
      → turn_eq g.player_turn g.assigned_team ≡ false
      → click_handler false on x y g ≡ ok g
  unfolding click_handler
  click_handler-idle on x y g n t =
      elim (Bool-cases (
        g.last_scene
        && not g.client_component.is_lobby
        && not g.client_component.is_reconnecting
        && on)) [
          | inl e ↦ rw e (ap (aim x y) (next_turn_pressed-idle x y g t) ∙ aim-idle x y g n t)
          | inr e ↦ rw e
        ]

  -- What a click in turn can come to.
  abbrev pub Acted : GameScene F → GameScene F → Type 0
  Acted g g' =
      (g' ≡ handed_over g)
      ⊎ ((k : GameScene F) × Work g k × (g' ≡ record k { selected = g'.selected }))

  aim-Acted :
      (x y : ℤ) (g g' : GameScene F)
      → aim x y g ≡ ok g'
      → (k : GameScene F) × Work g k × (g' ≡ record k { selected = g'.selected })
  aim-Acted x y g g' h =
      let g1 = place_unit_at_click x y g in
      elim (Result-cases (attack_clicked_unit x y g1)) [
        | inl (k, made) ↦
            let out : ok (set_selected x y k) ≡ ok g' = rw made at h in
            let same : set_selected x y k ≡ g' = cc in
            (
              k,
              Work-trans g g1 k (place_unit_at_click-Work x y g) (
                  Ensures-ok (Work g1) (attack_clicked_unit x y g1) k made
                    (attack_clicked_unit-Work x y g1)),
              subst (λ j. j ≡ record k { selected = j.selected }) same (set_selected-frame x y k),
            )
        | inr (f, made) ↦ let out : err f ≡ ok g' = rw made at h in cc
      ]

  -- A click in turn ends the turn, and does nothing else then, or works on the units and selects.
  pub click_handler-Acted :
      (on : Bool) (x y : ℤ) (g g' : GameScene F)
      → g.assigned_team ≢ no_player
      → g.player_turn ≡ g.assigned_team
      → turn_eq g.player_turn g.assigned_team ≡ true
      → click_handler false on x y g ≡ ok g'
      → Acted g g'
  unfolding click_handler
  click_handler-Acted on x y g g' team own mine h =
      elim (Bool-cases (
        g.last_scene
        && not g.client_component.is_lobby
        && not g.client_component.is_reconnecting
        && on)) [
          | inl e ↦ elim (Bool-cases (mouse_on_sprite x y g.next_turn_button)) [
            | inl on ↦
                let ended : next_turn_pressed false x y g ≡ handed_over g =
                  next_turn_pressed_lem false x y g team mine on in
                let (turn, same_team, none) = handed_over-turn g in
                let not_mine =
                  ap (λ t. turn_eq t (handed_over g).assigned_team) turn
                  ∙ ap (turn_eq (other_player g.player_turn)) same_team
                  ∙ ap (λ t. turn_eq (other_player t) g.assigned_team) own
                  ∙ other_turn g.assigned_team team in
                let all : aim x y (next_turn_pressed false x y g) ≡ ok g' = rw e at h in
                let out : ok (handed_over g) ≡ ok g' =
                  sym (aim-idle x y (handed_over g) none not_mine)
                  ∙ ap (aim x y) (sym ended)
                  ∙ all in
                inl (let same : handed_over g ≡ g' = cc in sym same)
            | inr off ↦
                let kept : next_turn_pressed false x y g ≡ g = next_turn_pressed-missed x y g off in
                let all : aim x y (next_turn_pressed false x y g) ≡ ok g' = rw e at h in
                inr (aim-Acted x y g g' (ap (aim x y) (sym kept) ∙ all))
          ]
          | inr e ↦
              let out : ok g ≡ ok g' = rw e at h in
              let same : g ≡ g' = cc in
              inr (g, Work-refl g, subst (λ j. j ≡ record g { selected = j.selected }) same refl)
        ]
