-- ===== src/Packet/UnitData.antt =====
-- The unit data that a client writes into a packet is what the other client reads out of it.
use networking_game.Base.{
  ℕ, zero, suc, ◌≤◌, [], ◌∷◌, ◌++◌, List, arith, length, length-append, ℤ, ok, ◌≡◌, refl, sym, ap,
  append_assoc, append-nil, ◌∙◌, All, All-append, ◌≢◌, subst,
}
use networking_game.Text.{Text, Lacks, codes, cut, cut-append}
use networking_game.Text.Decimal.{float_to_string, to_string, stoi}
use networking_game.Text.Decimal.RoundTrip.{
  InInt, stoi-to_string, stoi-float_to_string, to_string-Lacks, float_to_string-Lacks,
}
use networking_game.Packet.{packet, pieces, unit_data_deciper}

-- Each text with an `&` behind it.
abbrev pub joined : List Text → Text
joined [] = []
joined (x ∷ xs) = x ++ b'&' ∷ joined xs

pieces-joined :
    (fuel : ℕ) (xs : List Text)
    → length xs ≤ fuel
    → All (Lacks b'&') xs
    → pieces fuel (joined xs) ≡ xs
unfolding pieces cut
pieces-joined zero [] h lack = refl
pieces-joined (suc fuel) [] h lack = refl
pieces-joined zero (x ∷ xs) h lack = absurd (omega arith)
pieces-joined (suc fuel) (x ∷ xs) h lack =
    rw (cut-append b'&' x (joined xs) lack.0, pieces)
      (ap (◌∷◌ x) (pieces-joined fuel xs (omega arith) lack.1))

-- The message that `GameScene` writes for a unit: its name, its position as floats, its squad
-- size and its health.
abbrev pub unit_text : Text → ℤ → ℤ → ℤ → ℤ → Text
unit_text name x y squad hp =
    name
    ++ codes "&"
    ++ float_to_string x
    ++ codes "&"
    ++ float_to_string y
    ++ codes "&"
    ++ to_string squad
    ++ codes "&"
    ++ to_string hp
    ++ codes "&"

unit_text-joined :
    (name : Text) (x y squad hp : ℤ)
    → unit_text name x y squad hp
      ≡ joined (name ∷ float_to_string x ∷ float_to_string y ∷ to_string squad ∷ to_string hp ∷ [])
unit_text-joined name x y squad hp = simp append_assoc

fields-Lacks :
    (name : Text) (x y squad hp : ℤ)
    → Lacks b'&' name
    → All
        (Lacks b'&')
        (name ∷ float_to_string x ∷ float_to_string y ∷ to_string squad ∷ to_string hp ∷ [])
fields-Lacks name x y squad hp h =
    let print = float_to_string-Lacks b'&' refl (omega arith) (omega arith) in
    let whole = to_string-Lacks b'&' refl (omega arith) in
    (h, (print x, (print y, (whole squad, (whole hp, tt)))))

length-joined : (xs : List Text) → length xs ≤ length (joined xs)
length-joined [] = omega arith
length-joined (x ∷ xs) = omega (arith, length-append x (b'&' ∷ joined xs), length-joined xs)

pieces-unit_text :
    (name : Text) (x y squad hp : ℤ)
    → Lacks b'&' name
    → let s = unit_text name x y squad hp in
      pieces (suc (length s)) s
      ≡ name ∷ float_to_string x ∷ float_to_string y ∷ to_string squad ∷ to_string hp ∷ []
pieces-unit_text name x y squad hp h =
    let fields =
      name ∷ float_to_string x ∷ float_to_string y ∷ to_string squad ∷ to_string hp ∷ [] in
    rw (unit_text-joined name x y squad hp) (
      pieces-joined (suc (length (joined fields))) fields (omega (arith, length-joined fields))
        (fields-Lacks name x y squad hp h))

-- What `unitDataDeciper` reads out of a message that `GameScene` wrote is what was written: the
-- name, both coordinates (they travel as floats and are read as ints), the squad size and the
-- health, if the name holds no `&` and the numbers fit an int.
pub unit_data_deciper-unit_text :
    (type username name : Text) (x y squad hp : ℤ)
    → Lacks b'&' name
    → InInt x
    → InInt y
    → InInt squad
    → InInt hp
    → unit_data_deciper (packet type username (unit_text name x y squad hp))
      ≡ ok (record { unit_name = name; x_pos = x; y_pos = y; squad_size = squad; unit_hp = hp })
unfolding unit_data_deciper
unit_data_deciper-unit_text type username name x y squad hp h hx hy hs hh = ground (
  arith,
  pieces-unit_text name x y squad hp h,
  stoi-float_to_string x hx,
  stoi-float_to_string y hy,
  stoi-int squad hs,
  stoi-int hp hh,
)
  where
    stoi-int : (n : ℤ) → InInt n → stoi (to_string n) ≡ ok n
    stoi-int n i = ap stoi (sym (append-nil (to_string n))) ∙ stoi-to_string n [] i tt

joined-Lacks : (b : ℕ) (xs : List Text) → b'&' ≢ b → All (Lacks b) xs → Lacks b (joined xs)
joined-Lacks b [] h lack = tt
joined-Lacks b (x ∷ xs) h lack =
    All-append (λ c. c ≢ b) x (b'&' ∷ joined xs) lack.0 (h, joined-Lacks b xs h lack.1)

-- The text of a unit holds no zero byte, if its name holds none.
pub unit_text-Lacks :
    (name : Text) (x y squad hp : ℤ) → Lacks 0 name → Lacks 0 (unit_text name x y squad hp)
unit_text-Lacks name x y squad hp h =
    let print = float_to_string-Lacks 0 refl (omega arith) (omega arith) in
    let whole = to_string-Lacks 0 refl (omega arith) in
    let fields =
      name ∷ float_to_string x ∷ float_to_string y ∷ to_string squad ∷ to_string hp ∷ [] in
    subst (Lacks 0) (sym (unit_text-joined name x y squad hp))
      (joined-Lacks 0 fields (omega arith) (h, (print x, (print y, (whole squad, (whole hp, tt))))))
