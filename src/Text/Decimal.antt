-- ===== src/Text/Decimal.antt =====
-- What the program uses of the standard library to print and read numbers: `std::to_string` on
-- int and on float, and `std::stoi`.
pub mod RoundTrip
use networking_game.Base.{
  ℕ, zero, suc, ◌+◌, ◌-◌, ◌*◌, ◌/◌, ◌%◌, ◌^◌, ◌≡◌, refl, Bool, true, false, ◌&&◌, ◌||◌, [], ◌∷◌,
  ◌++◌, leb, ◌==◌, if◌then◌else◌, Option, none, some, ℤ, pos, negsuc, neg_ℕ, Result, ok, err,
  invalid_argument, out_of_range,
}
use networking_game.Text.{Text, codes}

-- The decimal digits of `n`, the highest first. The fuel bounds their number: `suc n` is enough.
digits : ℕ → ℕ → Text
digits zero n = []
digits (suc f) n =
    let more = digits f (n / 10) ++ (b'0' + n % 10) ∷ [] in
    if leb 10 n then more else (b'0' + n) ∷ []

unfoldable pub to_string : ℤ → Text
unfolding digits
to_string (pos n) = digits (suc n) n
to_string (negsuc n) = b'-' ∷ digits (suc (suc n)) (suc n)

-- `std::to_string(float)` of a float that holds a whole number: six decimal places follow.
unfoldable pub float_to_string : ℤ → Text
unfolding to_string
float_to_string n = to_string n ++ codes ".000000"

abbrev is_digit : ℕ → Bool
is_digit c = leb b'0' c && leb c b'9'

abbrev is_space : ℕ → Bool
is_space c = c == 32 || (leb 9 c && leb c 13)

skip_space : Text → Text
skip_space [] = []
skip_space (c ∷ s) = let rest = skip_space s in if is_space c then rest else c ∷ s

-- The number that the leading digits of a text spell, after the digits read so far.
scan : Text → ℕ → ℕ
scan [] n = n
scan (c ∷ s) n = let rest = scan s (n * 10 + (c - b'0')) in if is_digit c then rest else n

magnitude : Text → Option ℕ
unfolding scan
magnitude [] = none
magnitude (c ∷ s) = if is_digit c then some (scan (c ∷ s) 0) else none

-- The value of a signed numeral, if an `int` holds it.
in_int : Bool → Option ℕ → Result ℤ
in_int minus none = err invalid_argument
in_int true (some n) = if leb n (2 ^ 31) then ok (neg_ℕ n) else err out_of_range
in_int false (some n) = if leb (2 ^ 31) n then err out_of_range else ok (pos n)

after_space : Text → Result ℤ
unfolding magnitude in_int
after_space [] = err invalid_argument
after_space (c ∷ s) =
    if c == b'-'
    then in_int true (magnitude s)
    else if c == b'+'
    then in_int false (magnitude s)
    else in_int false (magnitude (c ∷ s))

unfoldable pub stoi : Text → Result ℤ
unfolding skip_space after_space
stoi s = after_space (skip_space s)
