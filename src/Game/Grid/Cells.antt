-- ===== src/Game/Grid/Cells.antt =====
-- The cell of the board that a position is snapped to. The board has columns from 40 on and rows
-- from 3 on, each 120 wide; the five rows start at 3, 123, 243, 363 and 483.
use networking_game.Base.{
  ℕ, ◌+◌, ◌-◌, ◌*◌, ◌/◌, ◌≤◌, ◌<◌, ◌≡◌, ◌↔◌, refl, ap, ap₂, ◌∙◌, arith, Bool, true, false,
  Bool-cases, inl, inr, ℤ, pos, negsuc, ◌+ℤ◌, ◌-ℤ◌, ◌*ℤ◌, floor_div,
}
use networking_game.Sprite.{Sprite, move_to}
use networking_game.Game.State.{
  Slot, infantry_enemy, sniper_enemy, artillery_enemy, tank_enemy, infantry_ally, sniper_ally,
  artillery_ally, tank_ally,
}
use networking_game.Game.Grid.{is_a_unit_selected, snap_x, snap_y, grid_snapping}

-- The test for a selected unit is passed only if all eight flags are set.
pub is_a_unit_selected_iff :
    (selected : Slot → Bool)
    → (is_a_unit_selected selected ≡ true) ↔ ((s : Slot) → selected s ≡ true)
unfolding is_a_unit_selected
is_a_unit_selected_iff selected = (each, together)
  where
    each : is_a_unit_selected selected ≡ true → (s : Slot) → selected s ≡ true
    each h infantry_enemy = ground arith
    each h _ = ground arith

    together : ((s : Slot) → selected s ≡ true) → is_a_unit_selected selected ≡ true
    together h = ground (
      arith,
      h infantry_enemy,
      h sniper_enemy,
      h artillery_enemy,
      h tank_enemy,
      h infantry_ally,
      h sniper_ally,
      h artillery_ally,
      h tank_ally,
    )

snap_x_cell :
    (b : Bool) (x : ℕ) → 40 ≤ x → x ≤ 1240 → snap_x b (pos x) ≡ pos (120 * ((x - 40) / 120) + 40)
unfolding snap_x ◌+ℤ◌ ◌-ℤ◌ ◌*ℤ◌ floor_div
snap_x_cell b x h k = ground arith

snap_y_cell :
    (b : Bool) (y : ℕ) → 3 ≤ y → y ≤ 603 → snap_y b (pos y) ≡ pos (120 * ((y - 3) / 120) + 3)
unfolding snap_y ◌+ℤ◌ ◌-ℤ◌ ◌*ℤ◌ floor_div
snap_y_cell b y h k = ground arith

-- A position with x from 40 to 1240 and y from 3 to 603, whatever is selected, is snapped to the
-- corner of the cell that holds it: a corner of the lattice that starts at (40, 3) with steps of 120,
-- from which the position lies less than 120 to the right and less than 120 down. That is always the
-- corner to the left and above, which need not be the closest one.
pub grid_snapping_cell :
    (selected : Slot → Bool) (x y : ℕ) (s : Sprite)
    → 40 ≤ x
    → x ≤ 1240
    → 3 ≤ y
    → y ≤ 603
    → (column : ℕ) × (row : ℕ) × (grid_snapping selected (pos x) (pos y) s
        ≡ move_to (pos (120 * column + 40)) (pos (120 * row + 3)) s)
      × (120 * column + 40 ≤ x)
      × (x < 120 * column + 160)
      × (120 * row + 3 ≤ y)
      × (y < 120 * row + 123)
unfolding grid_snapping
grid_snapping_cell selected x y s h k h' k' =
    let b = is_a_unit_selected selected in
    (
      (x - 40) / 120,
      (y - 3) / 120,
      ap₂ (λ p q. move_to p q s) (snap_x_cell b x h k) (snap_y_cell b y h' k'),
      omega arith,
      omega arith,
      omega arith,
      omega arith,
    )

snap_y_edges :
    (y : ℕ)
    → (y < 3 → snap_y false (pos y) ≡ negsuc 116)
      × (snap_y false (pos 603) ≡ pos 603)
      × (603 < y → snap_y false (pos y) ≡ pos 483)
unfolding snap_y ◌+ℤ◌ ◌-ℤ◌ ◌*ℤ◌ floor_div
snap_y_edges y = (λ h. ground arith, refl, λ h. ground arith)

-- Unless all eight flags are set, a position with y from 0 to 2, above the first row, is snapped to
-- y = -117, above the board; one with y = 603 is snapped to y = 603, a row below the last; and one
-- with y above 603 is snapped to the last row, y = 483.
pub grid_snapping_edges :
    (selected : Slot → Bool) (x : ℤ) (y : ℕ) (s : Sprite) (t : Slot)
    → selected t ≡ false
    → (y < 3 → (grid_snapping selected x (pos y) s).y_pos ≡ negsuc 116)
      × ((grid_snapping selected x (pos 603) s).y_pos ≡ pos 603)
      × (603 < y → (grid_snapping selected x (pos y) s).y_pos ≡ pos 483)
unfolding grid_snapping
grid_snapping_edges selected x y s t off =
    let (above, edge, below) = snap_y_edges y in
    (
      λ h. ap (λ b. snap_y b (pos y)) none_chosen ∙ above h,
      ap (λ b. snap_y b (pos 603)) none_chosen ∙ edge,
      λ h. ap (λ b. snap_y b (pos y)) none_chosen ∙ below h,
    )
  where
    none_chosen : is_a_unit_selected selected ≡ false
    none_chosen = elim (Bool-cases (is_a_unit_selected selected)) [
      | inl h ↦ let e = (is_a_unit_selected_iff selected).0 h t in cc
      | inr h ↦ h
    ]
