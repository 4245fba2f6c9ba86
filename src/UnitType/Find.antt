-- ===== src/UnitType/Find.antt =====
-- Looking a unit type up by name.
use networking_game.Base.{ℕ, suc, ◌+◌, ◌≡◌, ◌≢◌, refl, ap, ◌∙◌, List, [], ◌∷◌, ◌++◌, pos, ok, arith}
use networking_game.Text.{Text, text_eq_iff}
use networking_game.UnitType.{UnitType, Member, from_member, load, find, find_from, at}

-- `t` is the first type of the table that has this name.
pub data First (name : Text) (t : UnitType) : List UnitType → Type 0 where
  here : {ts : List UnitType} → t.unit_name ≡ name → First name t (t ∷ ts)
  there :
      {u : UnitType} {ts : List UnitType}
      → u.unit_name ≢ name
      → First name t ts
      → First name t (u ∷ ts)

find_from-First :
    (name : Text) (t : UnitType) (i : ℕ) (ts : List UnitType)
    → First name t ts
    → (j : ℕ) × (find_from name i ts ≡ pos (i + j)) × (at ts (pos j) ≡ ok t)
unfolding find_from at
find_from-First name t i [] r = elim r [ ]
find_from-First name t i (u ∷ ts) (here e) = (0, ground (arith, text_eq_iff t.unit_name name), refl)
find_from-First name t i (u ∷ ts) (there n r) =
    let (j, e, a) = find_from-First name t (suc i) ts r in
    (suc j, ground (arith, text_eq_iff u.unit_name name), a)

-- A type that stands first of its name in the table is found: `find` returns an index of the table,
-- at which that type stands.
pub find-First :
    (name : Text) (t : UnitType) (ts : List UnitType)
    → First name t ts
    → (j : ℕ) × (find name ts ≡ pos j) × (at ts (find name ts) ≡ ok t)
unfolding find
find-First name t ts r =
    let (j, e, a) = find_from-First name t 0 ts r in
    let here : find_from name 0 ts ≡ pos j = e ∙ ap pos (omega arith) in
    (j, here, ap (at ts) here ∙ a)

First-append :
    (name : Text) (t u : UnitType) (ts : List UnitType)
    → First name t ts
    → First name t (ts ++ u ∷ [])
First-append name t u [] r = elim r [ ]
First-append name t u (v ∷ ts) (here e) = here e
First-append name t u (v ∷ ts) (there n r) = there n (First-append name t u ts r)

-- Loading the file again leaves what a name stands for as it was: the types that were there come
-- first.
pub load-First :
    (name : Text) (t : UnitType) (members : List Member) (ts : List UnitType)
    → First name t ts
    → First name t (load members ts)
unfolding load
load-First name t [] ts r = r
load-First name t (m ∷ members) ts r =
    load-First name t members (ts ++ from_member m ∷ []) (First-append name t (from_member m) ts r)
