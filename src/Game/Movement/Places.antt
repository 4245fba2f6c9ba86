-- ===== src/Game/Movement/Places.antt =====
-- Which units a click moves, where to, and what it costs.
use networking_game.Base.{
  ◌≡◌, refl, sym, subst, ap, ◌∙◌, arith, Bool, true, false, ◌||◌, List, [], ◌∷◌, if◌then◌else◌, ℤ,
  pos, ◌≤ℤ◌, ◌-ℤ◌, int_laws, Bool-cases, inl, inr, ◌⊎◌,
}
use networking_game.Sprite.{mouse_on_sprite}
use networking_game.Squad.{SquadUnit}
use networking_game.Game.State.{
  GameScene, Slot, infantry_enemy, sniper_enemy, artillery_enemy, tank_enemy, infantry_ally,
  sniper_ally, artillery_ally, tank_ally, units_vec, slot_eq,
}
use networking_game.Game.State.Slots.{slot_eq_iff, slot_eq_refl}
use networking_game.Game.Turn.Handover.{mem, slot_eq_sym}
use networking_game.Game.Network.Work.{Work, Unmarked, Work-refl, Work-trans, write-Work}
use networking_game.Game.Grid.{grid_snapping}
use networking_game.Game.Movement.{
  enemy_order, ally_order, any_selected, sprite_on_target, moving_unit, may_move, move_first,
  place_unit_at_click,
}

-- A unit that has moved: it stands where the click is snapped to, and has an action point less.
abbrev pub moved : ℤ → ℤ → (Slot → Bool) → SquadUnit → SquadUnit
moved xpos ypos selected u = record u {
  object_sprite = grid_snapping selected xpos ypos u.object_sprite;
  action_points = u.action_points -ℤ pos 1;
  has_changed = true;
}

either : (a b : Bool) → b ≡ true → (a || b) ≡ true
either a b h = ground arith

not_both : (t : Slot) → mem t enemy_order ≡ true → mem t ally_order ≡ true → ⊥
not_both infantry_enemy n m = cc
not_both sniper_enemy n m = cc
not_both artillery_enemy n m = cc
not_both tank_enemy n m = cc
not_both infantry_ally n m = cc
not_both sniper_ally n m = cc
not_both artillery_ally n m = cc
not_both tank_ally n m = cc

paid : (a : ℤ) → pos 1 ≤ℤ a → pos 0 ≤ℤ a -ℤ pos 1
paid a h = omega int_laws

module _ {F : Type 0} (xpos ypos : ℤ) where
  -- The unit is selected, the click lies in its move area, and it has an action point left.
  pub record MayMove (g : GameScene F) (s : Slot) : Type 0 where
    pub selected : g.selected s ≡ true
    pub in_area : mouse_on_sprite xpos ypos (g.units s).move_sprite ≡ true
    pub points : pos 1 ≤ℤ (g.units s).action_points

  abbrev pub Outcome : GameScene F → GameScene F → Slot → Type 0
  Outcome g g' t =
      (g'.units t ≡ g.units t)
      ⊎ (MayMove g t × (g'.units t ≡ moved xpos ypos g.selected (g.units t)))

  may_move-MayMove : (g : GameScene F) (s : Slot) → may_move xpos ypos g s ≡ true → MayMove g s
  unfolding may_move
  may_move-MayMove g s h = ground arith

  moving_unit-units :
      (g : GameScene F) (s t : Slot)
      → (moving_unit s xpos ypos g).units t
        ≡ (if slot_eq s t then moved xpos ypos g.selected (g.units s) else g.units t)
  unfolding moving_unit
  moving_unit-units g s t = elim (Bool-cases (slot_eq s t)) [
    | inl e ↦ rw (slot_eq_refl s, e)
    | inr e ↦ rw (slot_eq_refl s, e)
  ]

  -- The unit that moves is one of those that are asked, and is the only one.
  move_first-Outcome :
      (ss : List Slot) (g : GameScene F) (t : Slot)
      → let g' = move_first xpos ypos ss g in
        (g'.units t ≡ g.units t)
        ⊎ ((mem t ss ≡ true) × MayMove g t × (g'.units t ≡ moved xpos ypos g.selected (g.units t)))
  unfolding move_first
  move_first-Outcome [] g t = inl refl
  move_first-Outcome (s ∷ ss) g t = elim (Bool-cases (may_move xpos ypos g s)) [
    | inl may ↦ elim (Bool-cases (slot_eq s t)) [
      | inl e ↦
          let same : s ≡ t = (slot_eq_iff s t).0 e in
          let found : (slot_eq t s || mem t ss) ≡ true = rw (slot_eq_sym t s, e) in
          rw may (
            inr (
              found,
              subst (MayMove g) same (may_move-MayMove g s may),
              moving_unit-units g s t
                  ∙ ap (λ b. if b then moved xpos ypos g.selected (g.units s) else g.units t) e
                  ∙ ap (λ r. moved xpos ypos g.selected (g.units r)) same,
            ))
      | inr n ↦ rw may (
          inl (
            moving_unit-units g s t
            ∙ ap (λ b. if b then moved xpos ypos g.selected (g.units s) else g.units t) n))
    ]
    | inr n ↦ rw n (elim (move_first-Outcome ss g t) [
      | inl e ↦ inl e
      | inr (m, may, e) ↦
          let found : (slot_eq t s || mem t ss) ≡ true = either (slot_eq t s) (mem t ss) m in
          inr (found, may, e)
    ])
  ]

  moving_unit-Work : (s : Slot) (g : GameScene F) → Work g (moving_unit s xpos ypos g)
  unfolding moving_unit
  moving_unit-Work s g =
      let w =
        write-Work g s (moved xpos ypos g.selected (g.units s)) (λ h. absurd (different h)) refl in
      record {
        units = λ t h.
            let same = moving_unit-units g s t in
            subst (Unmarked (g.units t)) (sym same) (w.units t) h;
        names = λ t. ap (λ u. u.ref_name) (moving_unit-units g s t) ∙ w.names t;
        turn = refl;
        finished = refl;
        winner = refl;
        team = refl;
        selected = refl;
        client = refl;
      }
    where
      different : true ≡ false → ⊥
      different e = cc

  move_first-Work : (ss : List Slot) (g : GameScene F) → Work g (move_first xpos ypos ss g)
  unfolding move_first
  move_first-Work [] g = Work-refl g
  move_first-Work (s ∷ ss) g = elim (Bool-cases (may_move xpos ypos g s)) [
    | inl e ↦ rw e (moving_unit-Work s g)
    | inr e ↦ rw e (move_first-Work ss g)
  ]

  pub place_unit_at_click-Work : (g : GameScene F) → Work g (place_unit_at_click xpos ypos g)
  unfolding place_unit_at_click
  place_unit_at_click-Work g = elim (Bool-cases (sprite_on_target xpos ypos units_vec g.units)) [
    | inl e ↦ rw e (Work-refl g)
    | inr n ↦ elim (Bool-cases (any_selected g.selected)) [
      | inl e ↦
          let g1 = move_first xpos ypos enemy_order g in
          rw (n, e)
            (Work-trans g g1 (move_first xpos ypos ally_order g1) (move_first-Work enemy_order g)
              (move_first-Work ally_order g1))
      | inr m ↦ rw (n, m) (Work-refl g)
    ]
  ]

  -- The two passes of `placeUnitAtClick`, one for each team.
  both_passes :
      (g : GameScene F) (t : Slot)
      → Outcome g (move_first xpos ypos ally_order (move_first xpos ypos enemy_order g)) t
  both_passes g t =
      let g1 = move_first xpos ypos enemy_order g in
      elim (move_first-Outcome ally_order g1 t) [
        | inl e ↦ elim (move_first-Outcome enemy_order g t) [
          | inl d ↦ inl (e ∙ d)
          | inr (m, may, d) ↦ inr (may, e ∙ d)
        ]
        | inr (m, may, e) ↦ elim (move_first-Outcome enemy_order g t) [
          | inl d ↦
              let s1 = (move_first-Work enemy_order g).selected in
              inr (
                record {
                  selected = ap (λ f. f t) (sym s1) ∙ may.selected;
                  in_area = ap (λ u. mouse_on_sprite xpos ypos u.move_sprite) (sym d) ∙ may.in_area;
                  points = subst (λ u. pos 1 ≤ℤ u.action_points) d may.points;
                },
                e ∙ ap (λ f. moved xpos ypos f (g1.units t)) s1 ∙ ap (moved xpos ypos g.selected) d,
              )
          | inr (n, _, _) ↦ absurd (not_both t n m)
        ]
      ]

  -- A click, wherever it is, leaves each unit as it is or moves it. A unit that moves is selected,
  -- has an action point left and had the click in its move area; it is put where the click is
  -- snapped to, pays one action point, and is marked as changed; nothing else of it changes.
  pub place_unit_at_click-Outcome :
      (g : GameScene F) (t : Slot) → Outcome g (place_unit_at_click xpos ypos g) t
  unfolding place_unit_at_click
  place_unit_at_click-Outcome g t =
      elim (Bool-cases (sprite_on_target xpos ypos units_vec g.units)) [
        | inl e ↦ rw e (inl refl)
        | inr n ↦ elim (Bool-cases (any_selected g.selected)) [
          | inl e ↦ rw (n, e) (both_passes g t)
          | inr m ↦ rw (n, m) (inl refl)
        ]
      ]

  -- So no click makes the action points of a unit negative.
  pub place_unit_at_click-points :
      (g : GameScene F)
      → ((t : Slot) → pos 0 ≤ℤ (g.units t).action_points)
      → (t : Slot) → pos 0 ≤ℤ ((place_unit_at_click xpos ypos g).units t).action_points
  place_unit_at_click-points g h t = elim (place_unit_at_click-Outcome g t) [
    | inl e ↦ subst (λ u. pos 0 ≤ℤ u.action_points) (sym e) (h t)
    | inr (may, e) ↦
        subst (λ u. pos 0 ≤ℤ u.action_points) (sym e) (paid (g.units t).action_points may.points)
  ]
