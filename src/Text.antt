-- ===== src/Text.antt =====
-- `std::string` as the list of its bytes.
pub mod Decimal
use Prim.Native.Char.{code}
use Prim.Native.String.{String}
use networking_game.Base.{
  ℕ, suc, ◌≡◌, ◌≢◌, ◌↔◌, refl, Bool, true, false, ◌&&◌, List, [], ◌∷◌, ◌++◌, Option, none, some,
  arith, ◌==◌, if◌then◌else◌, All,
}

abbrev pub Text : Type 0
Text = List ℕ

-- The bytes of a literal (all literals of the program are ASCII).
abbrev pub codes : String → Text
codes String.[] = []
codes (String.◌∷◌ c s) = code c ∷ codes s

-- `a == b` on strings
unfoldable pub text_eq : Text → Text → Bool
text_eq [] [] = true
text_eq [] (d ∷ t) = false
text_eq (c ∷ s) [] = false
text_eq (c ∷ s) (d ∷ t) = c == d && text_eq s t

pub text_eq_iff : (s t : Text) → (text_eq s t ≡ true) ↔ (s ≡ t)
unfolding text_eq
text_eq_iff [] [] = (λ _. refl, λ _. refl)
text_eq_iff [] (d ∷ t) = (λ h. cc, λ h. cc)
text_eq_iff (c ∷ s) [] = (λ h. cc, λ h. cc)
text_eq_iff (c ∷ s) (d ∷ t) =
    (λ h. ground (arith, text_eq_iff s t), λ h. ground (arith, text_eq_iff s t))

pub text_eq_refl : (s : Text) → text_eq s s ≡ true
text_eq_refl s = (text_eq_iff s s).1 refl

-- The text holds no byte `b`.
abbrev pub Lacks : ℕ → Text → Type 0
Lacks b = All (λ c. c ≢ b)

-- The text up to the first `d`, and what follows that `d`: `s.find(d)` with `substr` and `erase`.
unfoldable pub cut : ℕ → Text → Option (Text × Text)
cut d [] = none
cut d (c ∷ s) =
    if c == d
    then some ([], s)
    else (elim (cut d s) [ none ↦ none | some (a, r) ↦ some (c ∷ a, r) ])

-- A text without `d` is cut off whole in front of the first `d`.
pub cut-append : (d : ℕ) (a r : Text) → Lacks d a → cut d (a ++ d ∷ r) ≡ some (a, r)
unfolding cut
cut-append d [] r h = ground arith
cut-append d (c ∷ a) r h = ground (arith, cut-append d a r h.1)

pub cut-none : (d : ℕ) (a : Text) → Lacks d a → cut d a ≡ none
unfolding cut
cut-none d [] h = refl
cut-none d (c ∷ a) h = ground (arith, cut-none d a h.1)
