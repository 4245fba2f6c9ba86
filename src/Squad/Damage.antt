-- ===== src/Squad/Damage.antt =====
-- What `Unit::takeDamage` does to a squad.
use networking_game.Base.{
  ℕ, ◌*◌, ◌/◌, ◌%◌, ◌≤◌, ◌<◌, ◌≡◌, ◌↔◌, refl, sym, ap, ap₂, ◌∙◌, arith, true, false, ℤ, pos, ◌+ℤ◌,
  ◌-ℤ◌, ◌*ℤ◌, quot, rem, ◌≤ℤ◌, ok, int_laws, single, single_ℤ, single_twice, single_exact, ltb,
  Bool, if◌then◌else◌, eqb_ℤ, leb_ℤ, ◌||◌, Bool-cases, inl, inr, err, zero_divide,
}
use networking_game.Squad.Update.{update-is_dead}
use native.Mathlib.Nat.{div-add-mod, mod-lt}
use networking_game.Squad.{SquadUnit, take_damage, damage_taken, lose, update, reduce_action_points}

-- An attack on a squad in the field: the squad's health is positive, and neither its armour nor the
-- attacker's numbers are negative.
pub record Attack (u d : SquadUnit) (h a s m : ℕ) : Type 0 where
  pub health : u.health ≡ pos h
  pub attack : d.attack ≡ pos a
  pub squad : d.squad_size ≡ pos s
  pub armour : u.armour ≡ pos m
  pub alive : 0 < h

-- The damage that an attack of strength `r` does: all of it, as a `float` holds it, with an armour
-- below 100, and none with one from 100 to 199.
abbrev pub dealt : ℕ → ℕ → ℕ
dealt m r = if ltb m 100 then single r else 0

mul_pos : (a b : ℕ) → pos a *ℤ pos b ≡ pos (a * b)
unfolding ◌*ℤ◌
mul_pos a b = ground arith

-- What is left of the damage `r`, which a `float` holds, when `q` times as much is taken off.
left_over : ℕ → ℕ → ℤ
left_over r q = single_ℤ (pos r -ℤ single_ℤ (pos r *ℤ single_ℤ (pos q)))

-- The mitigation is multiplied out and taken off.
left_over_cut :
    (r q c n : ℕ)
    → single q ≡ q
    → single (r * q) ≡ c
    → pos r -ℤ pos c ≡ pos n
    → single n ≡ n
    → left_over r q ≡ pos n
unfolding left_over single_ℤ
left_over_cut r q c n e f g h =
    ap (λ k. single_ℤ (pos r -ℤ single_ℤ (pos r *ℤ pos k))) e
    ∙ ap (λ z. single_ℤ (pos r -ℤ single_ℤ z)) (mul_pos r q)
    ∙ ap (λ k. single_ℤ (pos r -ℤ pos k)) f
    ∙ ap single_ℤ g
    ∙ ap pos h

left_over_all : (r : ℕ) → single r ≡ r → left_over r 0 ≡ pos r
unfolding ◌-ℤ◌
left_over_all r e =
    left_over_cut r 0 0 r (single_exact 0 (omega arith))
      (ap single (omega arith) ∙ single_exact 0 (omega arith)) (ground arith) e

left_over_none : (r : ℕ) → single r ≡ r → left_over r 1 ≡ pos 0
unfolding ◌-ℤ◌
left_over_none r e =
    left_over_cut r 1 r 0 (single_exact 1 (omega arith)) (ap single (omega arith) ∙ e)
      (ground arith) (single_exact 0 (omega arith))

hundredths : (m : ℕ) → m < 200 → m / 100 ≡ (if ltb m 100 then 0 else 1)
hundredths m l = ground arith

sub_back : (x : ℤ) (q : ℕ) → x -ℤ (x -ℤ pos q) ≡ pos q
sub_back x q = omega int_laws

whole_and_rest : (n h : ℕ) → 0 < h → pos (n / h) *ℤ pos h +ℤ pos (n % h) ≡ pos n
whole_and_rest n h l = rw (mul_pos (n / h) h) (omega (int_laws, div-add-mod n h))

remains :
    (x : ℤ) (n h : ℕ) → x ≡ pos h → 0 < h → (pos 1 ≤ℤ x -ℤ pos (n % h)) × (x -ℤ pos (n % h) ≤ℤ x)
remains x n h e l = let r = mod-lt n l in rw e (omega int_laws, omega int_laws)

-- `q` whole healths fit into the damage exactly when the damage reaches `q` healths.
div_le_iff : (r n h : ℕ) → 0 < h → (n ≤ r / h) ↔ (n * h ≤ r)
div_le_iff r n h l = (
  λ e. let d = div-add-mod r h in grind arith,
  λ e. let d = div-add-mod r h in let m = mod-lt r l in grind arith,
)

wiped_out_iff : (r n h : ℕ) → 0 < h → (leb_ℤ (pos n -ℤ pos (r / h)) (pos 0) ≡ true) ↔ (n * h ≤ r)
unfolding ◌-ℤ◌
wiped_out_iff r n h l =
    let i = div_le_iff r n h l in (λ e. i.0 (ground arith), λ e. let g = i.1 e in ground arith)

-- The damage depends on the attack and the squad of the one who deals it, not on its points.
pub take_damage-reduce_action_points :
    (u d : SquadUnit) (n : ℤ) → take_damage u (reduce_action_points n d) ≡ take_damage u d
unfolding take_damage damage_taken
take_damage-reduce_action_points u d n = refl

-- A squad that takes damage stays on its side.
pub take_damage-is_enemy : (u d v : SquadUnit) → take_damage u d ≡ ok v → v.is_enemy ≡ u.is_enemy
unfolding take_damage lose
take_damage-is_enemy u d v h = elim (Bool-cases (eqb_ℤ u.health (pos 0))) [
  | inl e ↦ let out : err zero_divide ≡ ok v = rw e at h in cc
  | inr e ↦
      let w = lose (rem (damage_taken u d) u.health) (quot (damage_taken u d) u.health) u in
      let out : ok w ≡ ok v = rw e at h in let same : w ≡ v = cc in ap (λ k. k.is_enemy) (sym same)
]

-- A squad that takes damage is marked, and keeps its name.
pub take_damage-has_changed :
    (u d v : SquadUnit)
    → take_damage u d ≡ ok v
    → (v.has_changed ≡ true) × (v.ref_name ≡ u.ref_name)
unfolding take_damage lose
take_damage-has_changed u d v h = elim (Bool-cases (eqb_ℤ u.health (pos 0))) [
  | inl e ↦ let out : err zero_divide ≡ ok v = rw e at h in cc
  | inr e ↦
      let w = lose (rem (damage_taken u d) u.health) (quot (damage_taken u d) u.health) u in
      let out : ok w ≡ ok v = rw e at h in
      let same : w ≡ v = cc in (ap (λ k. k.has_changed) (sym same), ap (λ k. k.ref_name) (sym same))
]

module _ (u d : SquadUnit) {h a s m : ℕ} (k : Attack u d h a s m) (l : m < 200) where
  damage_taken_lem : damage_taken u d ≡ pos (dealt m (a * s))
  unfolding damage_taken single_ℤ left_over quot
  damage_taken_lem =
      ap₂ (λ x y. damage_of x y) (ap₂ (λ x y. x *ℤ y) k.attack k.squad ∙ mul_pos a s) k.armour
      ∙ ap (left_over (single (a * s))) (hundredths m l)
      ∙ choose (ltb m 100)
    where
      damage_of : ℤ → ℤ → ℤ
      damage_of x y = single_ℤ (single_ℤ x -ℤ single_ℤ (single_ℤ x *ℤ single_ℤ (quot y (pos 100))))

      choose :
          (b : Bool)
          → left_over (single (a * s)) (if b then 0 else 1) ≡ pos (if b then single (a * s) else 0)
      choose true = left_over_all (single (a * s)) (single_twice (a * s))
      choose false = left_over_none (single (a * s)) (single_twice (a * s))

  -- The squad loses one member for each whole health in the damage, and the health loses the rest.
  take_damage_closed :
      take_damage u d ≡ ok (lose (pos (dealt m (a * s) % h)) (pos (dealt m (a * s) / h)) u)
  unfolding take_damage quot rem
  take_damage_closed = passed ∙ ap₂ (λ r q. ok (lose r q u)) (shared rem) (shared quot)
    where
      shared : (f : ℤ → ℤ → ℤ) → f (damage_taken u d) u.health ≡ f (pos (dealt m (a * s))) (pos h)
      shared f = ap₂ f damage_taken_lem k.health

      test : eqb_ℤ u.health (pos 0) ≡ false
      test = let e = k.health in let l = k.alive in ground arith

      passed :
          take_damage u d
          ≡ ok (lose (rem (damage_taken u d) u.health) (quot (damage_taken u d) u.health) u)
      passed = rw test

  -- An attack on a squad of positive health, with an armour from 0 to 199 and an attacker whose
  -- strength `a` and size `s` are not negative, always succeeds. The health stays positive and
  -- neither the health nor the size of the squad grows; together they account for the whole damage;
  -- and the squad is marked as changed. The damage is `a * s`, rounded to a `float`, when the armour
  -- is below 100, and nothing when it is from 100 to 199.
  pub take_damage_accounts :
      (v : SquadUnit) × (take_damage u d ≡ ok v)
      × (pos 1 ≤ℤ v.health)
      × (v.health ≤ℤ u.health)
      × (v.squad_size ≤ℤ u.squad_size)
      × ((u.squad_size -ℤ v.squad_size) *ℤ u.health +ℤ (u.health -ℤ v.health)
          ≡ pos (dealt m (a * s)))
      × (v.has_changed ≡ true)
  unfolding lose
  take_damage_accounts = (
    lose (pos (dealt m (a * s) % h)) (pos (dealt m (a * s) / h)) u,
    take_damage_closed,
    left.0,
    left.1,
    omega int_laws,
    rw
        (
          sub_back u.squad_size (dealt m (a * s) / h),
          sub_back u.health (dealt m (a * s) % h),
          k.health,
        )
        (whole_and_rest (dealt m (a * s)) h k.alive),
    refl,
  )
    where
      left :
          (pos 1 ≤ℤ u.health -ℤ pos (dealt m (a * s) % h))
          × (u.health -ℤ pos (dealt m (a * s) % h) ≤ℤ u.health)
      left = remains u.health (dealt m (a * s)) h k.health k.alive

  -- A squad of `n` that is not dead yet, of positive health `h` and with an armour from 0 to 199,
  -- is dead after an attack and the next update exactly when the damage reaches the health of all
  -- its members together, `n * h`. The attack, of a strength `a` and a size `s` that are not
  -- negative, succeeds; its damage is `a * s`, rounded to a `float`, when the armour is below 100,
  -- and nothing when it is from 100 to 199.
  pub take_damage_lethal_iff :
      (n : ℕ)
      → u.squad_size ≡ pos n
      → u.is_dead ≡ false
      → (v : SquadUnit) × (take_damage u d ≡ ok v)
        × (((update v).is_dead ≡ true) ↔ (n * h ≤ dealt m (a * s)))
  unfolding lose
  take_damage_lethal_iff n e f =
      let v = lose (pos (dealt m (a * s) % h)) (pos (dealt m (a * s) / h)) u in
      let dead_iff = wiped_out_iff (dealt m (a * s)) n h k.alive in
      let now : (update v).is_dead ≡ leb_ℤ (pos n -ℤ pos (dealt m (a * s) / h)) (pos 0) =
        update-is_dead v ∙ ap₂ (λ b x. b || leb_ℤ (x -ℤ pos (dealt m (a * s) / h)) (pos 0)) f e in
      (v, take_damage_closed, (λ d. dead_iff.0 (sym now ∙ d), λ l. now ∙ dead_iff.1 l))
