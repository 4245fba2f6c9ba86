-- ===== src/Game/Screen/Selected.antt =====
-- What the screen shows of the selection.
use networking_game.Base.{
  ◌≡◌, refl, ap, ◌∙◌, arith, Bool, true, false, ◌||◌, List, [], ◌∷◌, Bool-cases, inl, inr, ◌⊎◌,
}
use networking_game.Text.{codes}
use networking_game.Render.{Draw, sprite, middle_ground_back, middle_ground_mid}
use networking_game.Game.State.{GameScene, Slot, infantry_enemy, slot_eq}
use networking_game.Game.State.Slots.{slot_eq_iff, slot_eq_refl}
use networking_game.Game.Turn.Handover.{mem, Distinct}
use networking_game.Game.Selection.Exclusive.{IsFairlySelected}
use networking_game.Game.Screen.{selection_order, loop_selected, unit_selection_render}

selection_order-Distinct : Distinct selection_order
selection_order-Distinct = (refl, (refl, (refl, (refl, (refl, (refl, (refl, (refl, tt))))))))

mem-selection_order : (t : Slot) → mem t selection_order ≡ true
mem-selection_order infantry_enemy = refl
mem-selection_order _ = refl

left_false : (a b : Bool) → (a || b) ≡ true → a ≡ false → b ≡ true
left_false a b h e = ground arith

module _ {F : Type 0} (g : GameScene F) where
  -- The two areas of a unit.
  abbrev pub areas_of : Slot → List Draw
  areas_of s =
      sprite (codes "move_sprite") (g.units s).move_sprite middle_ground_back
      ∷ sprite (codes "attack_sprite") (g.units s).attack_sprite middle_ground_mid
      ∷ []

  loop_selected-none :
      (ss : List Slot)
      → ((t : Slot) → mem t ss ≡ true → g.selected t ≡ false)
      → loop_selected ss g ≡ []
  unfolding loop_selected
  loop_selected-none [] h = refl
  loop_selected-none (s ∷ ss) h =
      let off : g.selected s ≡ false = h s (rw (slot_eq_refl s)) in
      rw off (loop_selected-none ss (λ t m. h t (later t m)))
    where
      later : (t : Slot) → mem t ss ≡ true → (slot_eq t s || mem t ss) ≡ true
      later t m = ground arith

  loop_selected_lem :
      (ss : List Slot)
      → Distinct ss
      → ((s t : Slot) → g.selected s ≡ true → g.selected t ≡ true → s ≡ t)
      → ((t : Slot) → mem t ss ≡ true → g.selected t ≡ false)
        ⊎ ((s : Slot) × (g.selected s ≡ true) × (loop_selected ss g ≡ areas_of s))
  unfolding loop_selected
  loop_selected_lem [] d single = inl (λ t m. cc)
  loop_selected_lem (s ∷ ss) d single = elim (Bool-cases (g.selected s)) [
    | inl on ↦ inr (s, on, rw (on, loop_selected-none ss (others on)) refl)
    | inr off ↦ elim (loop_selected_lem ss d.1 single) [
      | inl none ↦ inl (λ t m. absent off none t m)
      | inr (r, on, e) ↦ inr (r, on, rw off e)
    ]
  ]
    where
      others : g.selected s ≡ true → (t : Slot) → mem t ss ≡ true → g.selected t ≡ false
      others on t m = elim (Bool-cases (g.selected t)) [
        | inl on_too ↦
            let same : s ≡ t = single s t on on_too in
            let twice : mem s ss ≡ true = ap (λ r. mem r ss) same ∙ m in cc
        | inr off ↦ off
      ]

      absent :
          g.selected s ≡ false
          → ((t : Slot) → mem t ss ≡ true → g.selected t ≡ false)
          → (t : Slot) → (slot_eq t s || mem t ss) ≡ true
          → g.selected t ≡ false
      absent off none t m = elim (Bool-cases (slot_eq t s)) [
        | inl e ↦ ap g.selected ((slot_eq_iff t s).0 e) ∙ off
        | inr n ↦ none t (left_false (slot_eq t s) (mem t ss) m n)
      ]

  -- In a scene that is fairly selected the screen shows the areas of no unit, if none is selected,
  -- or the two areas of one selected unit and nothing else.
  pub unit_selection_render-IsFairlySelected :
      IsFairlySelected g
      → (((t : Slot) → g.selected t ≡ false) × (unit_selection_render g ≡ []))
        ⊎ ((s : Slot) × (g.selected s ≡ true) × (unit_selection_render g ≡ areas_of s))
  unfolding unit_selection_render
  unit_selection_render-IsFairlySelected v =
      elim (loop_selected_lem selection_order selection_order-Distinct v.one.single) [
        | inl none ↦
            inl (λ t. none t (mem-selection_order t), loop_selected-none selection_order none)
        | inr found ↦ inr found
      ]
