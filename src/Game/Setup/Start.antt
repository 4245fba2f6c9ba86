-- ===== src/Game/Setup/Start.antt =====
-- What the units are like when a game starts.
use networking_game.Base.{
  ◌≡◌, refl, sym, subst, ap, ◌∙◌, Bool, true, false, List, Result, ok, ◌>>=◌, >>=-eq-ok, Ensures,
  Ensures-ok, Ensures-bind,
}
use networking_game.Text.{Text, codes}
use networking_game.Sprite.{Sprite}
use networking_game.UnitType.{UnitType, Member, find, at, load}
use networking_game.Squad.{SquadUnit, create_unit}
use networking_game.Squad.Create.{create_unit_values}
use networking_game.Game.State.{
  Slot, infantry_enemy, sniper_enemy, artillery_enemy, tank_enemy, infantry_ally, sniper_ally,
  artillery_ally, tank_ally,
}
use networking_game.Game.Setup.{create_enemy, create_ally, to_right, placed, init_units}
use networking_game.Game.Network.Names.{ref_name_of}

-- The name of the type of a unit, as `initUnits` looks it up.
abbrev pub type_name : Slot → Text
type_name infantry_enemy = codes "Infantry"
type_name sniper_enemy = codes "Sniper"
type_name artillery_enemy = codes "Artillery"
type_name tank_enemy = codes "Tank"
type_name infantry_ally = codes "Infantry"
type_name sniper_ally = codes "Sniper"
type_name artillery_ally = codes "Artillery"
type_name tank_ally = codes "Tank"

abbrev pub on_left : Slot → Bool
on_left infantry_enemy = true
on_left sniper_enemy = true
on_left artillery_enemy = true
on_left tank_enemy = true
on_left _ = false

-- A unit at the start: it has its name and its side, and the strength of the type that is found by
-- its type's name; it is alive, and marked as unchanged.
pub record Ready (types : List UnitType) (s : Slot) (u : SquadUnit) : Type 0 where
  pub kind : UnitType
  pub found : at types (find (type_name s) types) ≡ ok kind
  pub name : u.ref_name ≡ ref_name_of s
  pub side : u.is_enemy ≡ on_left s
  pub alive : u.is_dead ≡ false
  pub unchanged : u.has_changed ≡ false
  pub health : u.health ≡ kind.health
  pub squad : u.squad_size ≡ kind.squad_size
  pub points : u.action_points ≡ kind.action_points
  pub max_points : u.max_action_points ≡ kind.action_points

-- A unit of that type and name, with its sprites as they may be.
make-Ready :
    (loaded : Text → Sprite) (types : List UnitType) (s : Slot) (t : UnitType) (o a m : Sprite)
    → at types (find (type_name s) types) ≡ ok t
    → Ready types s (record (create_unit loaded t) {
      is_enemy = on_left s;
      object_sprite = o;
      attack_sprite = a;
      move_sprite = m;
      ref_name = ref_name_of s;
    })
make-Ready loaded types s t o a m e =
    let v = create_unit_values loaded t in
    record {
      kind = t;
      found = e;
      name = refl;
      side = refl;
      alive = ap (λ u. u.is_dead) v;
      unchanged = ap (λ u. u.has_changed) v;
      health = ap (λ u. u.health) v;
      squad = ap (λ u. u.squad_size) v;
      points = ap (λ u. u.action_points) v;
      max_points = ap (λ u. u.max_action_points) v;
    }

create_enemy-Ready :
    (loaded : Text → Sprite) (types : List UnitType) (s : Slot) (u : SquadUnit)
    → on_left s ≡ true
    → create_enemy loaded types (type_name s) (ref_name_of s) ≡ ok u
    → Ready types s u
unfolding create_enemy
create_enemy-Ready loaded types s u left h =
    let (t, e, made) =
      >>=-eq-ok (at types (find (type_name s) types))
        (λ t. ok (record (create_unit loaded t) { ref_name = ref_name_of s })) u h in
    let v = create_unit loaded t in
    let same : record v { ref_name = ref_name_of s } ≡ u = cc in
    let enemy : v.is_enemy ≡ on_left s =
      ap (λ w. w.is_enemy) (create_unit_values loaded t) ∙ sym left in
    subst (Ready types s)
      (ap (λ b. record v { is_enemy = b; ref_name = ref_name_of s }) (sym enemy) ∙ same)
      (make-Ready loaded types s t v.object_sprite v.attack_sprite v.move_sprite e)

-- A unit of the right side.
abbrev mirrored : (Text → Sprite) → UnitType → Slot → SquadUnit
mirrored loaded t s =
    let v = create_unit loaded t in
    record v {
      is_enemy = false;
      object_sprite = to_right v.object_sprite;
      attack_sprite = to_right v.attack_sprite;
      move_sprite = to_right v.move_sprite;
      ref_name = ref_name_of s;
    }

create_ally-Ready :
    (loaded : Text → Sprite) (types : List UnitType) (s : Slot) (u : SquadUnit)
    → on_left s ≡ false
    → create_ally loaded types (type_name s) (ref_name_of s) ≡ ok u
    → Ready types s u
unfolding create_ally
create_ally-Ready loaded types s u right h =
    let (t, e, made) =
      >>=-eq-ok (at types (find (type_name s) types)) (λ t. ok (mirrored loaded t s)) u h in
    let v = create_unit loaded t in
    let same : mirrored loaded t s ≡ u = cc in
    subst (Ready types s) (ap (λ b. record (mirrored loaded t s) { is_enemy = b }) right ∙ same) (
      make-Ready loaded types s t (to_right v.object_sprite) (to_right v.attack_sprite)
        (to_right v.move_sprite) e)

-- `initUnits` succeeds if the types of all four names are found.
pub init_units_total :
    (loaded : Text → Sprite) (members : List Member) (old_types : List UnitType)
    (infantry sniper artillery tank : UnitType)
    → let types = load members old_types in
      at types (find (codes "Infantry") types) ≡ ok infantry
      → at types (find (codes "Sniper") types) ≡ ok sniper
      → at types (find (codes "Artillery") types) ≡ ok artillery
      → at types (find (codes "Tank") types) ≡ ok tank
      → (units : Slot → SquadUnit) × (init_units loaded members old_types
          ≡ ok (load members old_types, units))
unfolding init_units create_enemy create_ally
init_units_total loaded members old_types infantry sniper artillery tank a b c d =
    let units =
      placed (left infantry infantry_enemy) (left sniper sniper_enemy)
        (left artillery artillery_enemy) (left tank tank_enemy) (right infantry infantry_ally)
        (right sniper sniper_ally) (right artillery artillery_ally) (right tank tank_ally) in
    (units, rw (a, b, c, d))
  where
    left : UnitType → Slot → SquadUnit
    left t s = record (create_unit loaded t) { ref_name = ref_name_of s }

    right : UnitType → Slot → SquadUnit
    right t s = mirrored loaded t s

-- The units that `initUnits` makes, if it finds all types, are ready; the table is the one that the
-- file has been loaded into.
pub init_units-Ready :
    (loaded : Text → Sprite) (members : List Member) (old_types types : List UnitType)
    (units : Slot → SquadUnit)
    → init_units loaded members old_types ≡ ok (types, units)
    → (types ≡ load members old_types) × ((s : Slot) → Ready types s (units s))
unfolding init_units placed
init_units-Ready loaded members old_types types units h =
    Ensures-ok Made (init_units loaded members old_types) (types, units) h
      (bind (enemy sniper_enemy) _ λ se e1. bind (enemy tank_enemy) _ λ te e2.
        bind (enemy artillery_enemy) _ λ ae e3. bind (enemy infantry_enemy) _ λ ie e4.
          bind (ally sniper_ally) _ λ sa e5. bind (ally tank_ally) _ λ ta e6.
            bind (ally artillery_ally) _ λ aa e7. bind (ally infantry_ally) _ λ ia e8. (
              refl,
              λ s.
                  each ie se ae te ia sa aa ta s
                    (create_enemy-Ready loaded new infantry_enemy ie refl e4)
                    (create_enemy-Ready loaded new sniper_enemy se refl e1)
                    (create_enemy-Ready loaded new artillery_enemy ae refl e3)
                    (create_enemy-Ready loaded new tank_enemy te refl e2)
                    (create_ally-Ready loaded new infantry_ally ia refl e8)
                    (create_ally-Ready loaded new sniper_ally sa refl e5)
                    (create_ally-Ready loaded new artillery_ally aa refl e7)
                    (create_ally-Ready loaded new tank_ally ta refl e6),
            ))
  where
    new : List UnitType
    new = load members old_types

    Made : List UnitType × (Slot → SquadUnit) → Type 0
    Made r = (r.0 ≡ new) × ((s : Slot) → Ready r.0 s (r.1 s))

    enemy : Slot → Result SquadUnit
    enemy s = create_enemy loaded new (type_name s) (ref_name_of s)

    ally : Slot → Result SquadUnit
    ally s = create_ally loaded new (type_name s) (ref_name_of s)

    bind :
        (m : Result SquadUnit) (f : SquadUnit → Result (List UnitType × (Slot → SquadUnit)))
        → ((u : SquadUnit) → m ≡ ok u → Ensures Made (f u))
        → Ensures Made (m >>= f)
    bind m f h = Ensures-bind Made m f h

    each :
        (ie se ae te ia sa aa ta : SquadUnit) (s : Slot)
        → Ready new infantry_enemy ie
        → Ready new sniper_enemy se
        → Ready new artillery_enemy ae
        → Ready new tank_enemy te
        → Ready new infantry_ally ia
        → Ready new sniper_ally sa
        → Ready new artillery_ally aa
        → Ready new tank_ally ta
        → Ready new s (placed ie se ae te ia sa aa ta s)
    each ie se ae te ia sa aa ta infantry_enemy a b c d e f g h = a
    each ie se ae te ia sa aa ta sniper_enemy a b c d e f g h = b
    each ie se ae te ia sa aa ta artillery_enemy a b c d e f g h = c
    each ie se ae te ia sa aa ta tank_enemy a b c d e f g h = d
    each ie se ae te ia sa aa ta infantry_ally a b c d e f g h = e
    each ie se ae te ia sa aa ta sniper_ally a b c d e f g h = f
    each ie se ae te ia sa aa ta artillery_ally a b c d e f g h = g
    each ie se ae te ia sa aa ta tank_ally a b c d e f g h = h
