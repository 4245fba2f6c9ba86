-- ===== src/Base/Single.antt =====
-- `float` on whole numbers: the nearest number of 24 binary digits times a power of two, and of two
-- that are equally near the even one.
use Prim.Native.Nat.{ℕ, zero, suc, ◌+◌, ◌-◌, ◌*◌, ◌/◌, ◌%◌, ◌≤◌, ◌<◌}
use mathlib.Core.Path.{◌≡◌, refl, ap, subst, ◌∙◌}
use mathlib.Core.Logic.{inl, inr}
use mathlib.Core.Bool.{true, false}
use native.Mathlib.Omega.{arith}
use native.Mathlib.Nat.{mul-div_cancel, mul-mod_left, div-lt_iff_lt-mul, le-div_iff_mul-le}
use networking_game.Base.Tests.{ltb, ◌==◌, if◌then◌else◌, Bool-cases}
use networking_game.Base.Int.{ℤ, pos, negsuc}

-- The quotient, rounded to the nearest whole number.
nearest : ℕ → ℕ → ℕ
nearest n d =
    let q = n / d in
    let twice = 2 * (n % d) in
    if ltb twice d then q else if ltb d twice then q + 1 else if q % 2 == 0 then q else q + 1

-- The numbers below 2 ^ 24 * d keep their digits down to `d`. The step `d` is doubled as often as it
-- takes.
single_from : ℕ → ℕ → ℕ → ℕ
unfolding nearest
single_from zero d n = n
single_from (suc f) d n =
    let coarser = single_from f (2 * d) n in
    if ltb n (16777216 * d) then nearest n d * d else coarser

-- A `float` is below 2 ^ 128, which 104 doublings reach.
pub single : ℕ → ℕ
unfolding single_from
single n = single_from 104 1 n

-- The same with a sign.
unfoldable pub single_ℤ : ℤ → ℤ
unfolding single
single_ℤ (pos n) = pos (single n)
single_ℤ (negsuc n) = if single (suc n) == 0 then pos 0 else negsuc (single (suc n) - 1)

-- A whole number of steps is not changed.
nearest_exact : (q d : ℕ) → 0 < d → nearest (q * d) d ≡ q
unfolding nearest
nearest_exact q d l = rw (mul-div_cancel q l, mul-mod_left q d) (ground arith)

nearest_bounds : (n d : ℕ) → (n / d ≤ nearest n d) × (nearest n d ≤ n / d + 1)
unfolding nearest
nearest_bounds n d = (ground arith, ground arith)

single_from_least : (f d n : ℕ) → 0 < d → 8388608 * d ≤ n → 8388608 * d ≤ single_from f d n
unfolding single_from
single_from_least zero d n l h = h
single_from_least (suc f) d n l h = elim (Bool-cases (ltb n (16777216 * d))) [
  | inl e ↦
      let whole = (le-div_iff_mul-le l).1 h in
      let (least, _) = nearest_bounds n d in rw e (product (nearest n d) (omega arith))
  | inr e ↦
      let big : 16777216 * d ≤ n = ground arith in
      let rest = single_from_least f (2 * d) n (omega arith) (omega arith) in rw e (omega arith)
]
  where
    product : (q : ℕ) → 8388608 ≤ q → 8388608 * d ≤ q * d
    product q k = grind arith

-- At most 2 ^ 24 steps are kept.
single_from_steps : (f d q : ℕ) → 0 < d → q ≤ 16777216 → single_from (suc f) d (q * d) ≡ q * d
unfolding single_from
single_from_steps f d q l h = elim (Bool-cases (ltb (q * d) (16777216 * d))) [
  | inl e ↦ rw e (ap (λ m. m * d) (nearest_exact q d l))
  | inr e ↦ rw e (last f (full e))
]
  where
    smaller : q < 16777216 → q * d < 16777216 * d
    smaller u = grind arith

    full : ltb (q * d) (16777216 * d) ≡ false → q ≡ 16777216
    full e = elim (Bool-cases (ltb q 16777216)) [
      | inl u ↦ let small : q * d < 16777216 * d = smaller (ground arith) in absurd (ground arith)
      | inr u ↦ ground arith
    ]

    last : (f : ℕ) → q ≡ 16777216 → single_from f (2 * d) (q * d) ≡ q * d
    last zero e = refl
    last (suc f) e =
        let even : q * d ≡ 8388608 * (2 * d) = ap (λ m. m * d) e ∙ omega arith in
        let fits : ltb (8388608 * (2 * d)) (16777216 * (2 * d)) ≡ true = ground arith in
        rw (even, fits) (ap (λ m. m * (2 * d)) (nearest_exact 8388608 (2 * d) (omega arith)))

single_from_twice : (f d n : ℕ) → 0 < d → single_from f d (single_from f d n) ≡ single_from f d n
unfolding single_from
single_from_twice zero d n l = refl
single_from_twice (suc f) d n l = elim (Bool-cases (ltb n (16777216 * d))) [
  | inl e ↦
      let small : n < 16777216 * d = ground arith in
      let below : n / d < 16777216 = (div-lt_iff_lt-mul l).1 small in
      let (_, most) = nearest_bounds n d in
      rw e (single_from_steps f d (nearest n d) l (omega arith))
  | inr e ↦
      let least = single_from_least f (2 * d) n (omega arith) (ground arith) in
      let big : ltb (single_from f (2 * d) n) (16777216 * d) ≡ false = ground arith in
      rw (e, big) (single_from_twice f (2 * d) n (omega arith))
]

-- A number is rounded once: what is a `float` stays what it is.
pub single_twice : (n : ℕ) → single (single n) ≡ single n
unfolding single
single_twice n = single_from_twice 104 1 n (omega arith)

-- The numbers up to 2 ^ 24 are `float`s.
pub single_exact : (n : ℕ) → n ≤ 16777216 → single n ≡ n
unfolding single
single_exact n h =
    let one : n * 1 ≡ n = omega arith in
    subst (λ m. single_from 104 1 m ≡ m) one (single_from_steps 103 1 n (omega arith) h)
