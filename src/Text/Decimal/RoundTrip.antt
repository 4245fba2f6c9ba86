-- ===== src/Text/Decimal/RoundTrip.antt =====
-- `std::stoi` reads back what `std::to_string` printed.
use networking_game.Base.{
  ℕ, zero, suc, ◌+◌, ◌-◌, ◌*◌, ◌/◌, ◌%◌, ◌^◌, ◌<◌, ◌≡◌, ◌≢◌, refl, sym, ap, ◌∙◌, inl, inr,
  Bool-cases, true, false, [], ◌∷◌, ◌++◌, append_assoc, arith, leb, some, ℤ, pos, negsuc, ok, ◌≤ℤ◌,
  All, All-append, All-map,
}
use networking_game.Text.{Text, Lacks, codes}
use networking_game.Text.Decimal.{
  digits, to_string, float_to_string, is_digit, skip_space, scan, magnitude, in_int, after_space,
  stoi,
}

abbrev Digit : ℕ → Type 0
Digit c = is_digit c ≡ true

digits-Digit : (f n : ℕ) → All Digit (digits f n)
unfolding digits
digits-Digit zero n = tt
digits-Digit (suc f) n =
    ground
      (arith, digits-Digit f (n / 10), All-append Digit (digits f (n / 10)) ((b'0' + n % 10) ∷ []))

-- No digit follows.
abbrev pub Stops : Text → Type 0
Stops [] = Unit {0}
Stops (c ∷ s) = is_digit c ≡ false

scan-digit : (d : ℕ) (r : Text) (n : ℕ) → d < 10 → scan ((b'0' + d) ∷ r) n ≡ scan r (n * 10 + d)
unfolding scan
scan-digit d r n h = ground (arith, ap (scan r) e)
  where
    e : n * 10 + (b'0' + d - b'0') ≡ n * 10 + d
    e = omega arith

scan-digits : (f n : ℕ) (r : Text) → n < f → scan (digits f n ++ r) 0 ≡ scan r n
unfolding digits
scan-digits zero n r h = absurd (omega arith)
scan-digits (suc f) n r h = elim (Bool-cases (leb 10 n)) [
  | inl big ↦ rw big (
      rw
        (
          append_assoc,
          scan-digits f (n / 10) ((b'0' + n % 10) ∷ r) (ground arith),
          scan-digit (n % 10) r (n / 10) (omega arith),
        )
        (ap (scan r) (omega arith)))
  | inr small ↦ rw small (scan-digit n r 0 (ground arith) ∙ ap (scan r) (omega arith))
]

scan-Stops : (r : Text) (n : ℕ) → Stops r → scan r n ≡ n
unfolding scan
scan-Stops [] n h = refl
scan-Stops (c ∷ r) n h = rw h

-- The printed digits begin with a digit.
digits-cons : (f n : ℕ) → (c : ℕ) × (s : Text) × (digits (suc f) n ≡ c ∷ s) × Digit c
unfolding digits
digits-cons zero n = elim (Bool-cases (leb 10 n)) [
  | inl big ↦ rw big (b'0' + n % 10, [], refl, ground arith)
  | inr small ↦ rw small (b'0' + n, [], refl, ground arith)
]
digits-cons (suc f) n = elim (Bool-cases (leb 10 n)) [
  | inl big ↦
      let (c, s, e, h) = digits-cons f (n / 10) in
      rw big (c, s ++ (b'0' + n % 10) ∷ [], ap (λ t. t ++ (b'0' + n % 10) ∷ []) e, h)
  | inr small ↦ rw small (b'0' + n, [], refl, ground arith)
]

magnitude-Digit : (c : ℕ) (s : Text) → Digit c → magnitude (c ∷ s) ≡ some (scan (c ∷ s) 0)
unfolding magnitude
magnitude-Digit c s h = rw h

magnitude-digits :
    (f n : ℕ) (r : Text) → n < suc f → Stops r → magnitude (digits (suc f) n ++ r) ≡ some n
magnitude-digits f n r h stop =
    let (c, s, e, d) = digits-cons f n in
    ap (λ t. magnitude (t ++ r)) e
    ∙ magnitude-Digit c (s ++ r) d
    ∙ ap (λ t. some (scan (t ++ r) 0)) (sym e)
    ∙ ap some (scan-digits (suc f) n r h ∙ scan-Stops r n stop)

-- A numeral with no sign is read as its magnitude, and one with a minus as the opposite.
stoi-Digit : (c : ℕ) (s : Text) → Digit c → stoi (c ∷ s) ≡ in_int false (magnitude (c ∷ s))
unfolding skip_space after_space stoi
stoi-Digit c s h = ground arith

stoi-minus : (s : Text) → stoi (b'-' ∷ s) ≡ in_int true (magnitude s)
unfolding skip_space after_space stoi
stoi-minus s = refl

stoi-digits :
    (f n : ℕ) (r : Text)
    → n < suc f
    → Stops r
    → stoi (digits (suc f) n ++ r) ≡ in_int false (some n)
stoi-digits f n r h stop =
    let (c, s, e, d) = digits-cons f n in
    ap (λ t. stoi (t ++ r)) e
    ∙ stoi-Digit c (s ++ r) d
    ∙ ap (λ t. in_int false (magnitude (t ++ r))) (sym e)
    ∙ ap (in_int false) (magnitude-digits f n r h stop)

-- What an `int` holds.
abbrev pub InInt : ℤ → Type 0
InInt n = (negsuc (2 ^ 31 - 1) ≤ℤ n) × (n ≤ℤ pos (2 ^ 31 - 1))

pub stoi-to_string : (n : ℤ) (r : Text) → InInt n → Stops r → stoi (to_string n ++ r) ≡ ok n
unfolding to_string in_int
stoi-to_string (pos n) r h stop = stoi-digits n n r (omega arith) stop ∙ ground arith
stoi-to_string (negsuc n) r h stop =
    stoi-minus (digits (suc (suc n)) (suc n) ++ r)
    ∙ ap (in_int true) (magnitude-digits (suc n) (suc n) r (omega arith) stop)
    ∙ ground arith

-- A whole number in the range of int that is printed as a float is read back by `stoi` as it was.
pub stoi-float_to_string : (n : ℤ) → InInt n → stoi (float_to_string n) ≡ ok n
unfolding float_to_string
stoi-float_to_string n h = stoi-to_string n (codes ".000000") h refl

-- A printed number holds only digits, a minus and a point.
module _ (b : ℕ) (nodigit : is_digit b ≡ false) (nominus : b ≢ b'-') where
  digits-Lacks : (f n : ℕ) → Lacks b (digits f n)
  digits-Lacks f n = All-map (λ c h e. cc) (digits f n) (digits-Digit f n)

  pub to_string-Lacks : (n : ℤ) → Lacks b (to_string n)
  unfolding to_string
  to_string-Lacks (pos n) = digits-Lacks (suc n) n
  to_string-Lacks (negsuc n) = (λ e. nominus (sym e), digits-Lacks (suc (suc n)) (suc n))

  pub float_to_string-Lacks : b ≢ b'.' → (n : ℤ) → Lacks b (float_to_string n)
  unfolding float_to_string
  float_to_string-Lacks nopoint n =
      All-append (λ c. c ≢ b) (to_string n) (codes ".000000") (to_string-Lacks n) (ground arith)
