-- ===== src/UnitType.antt =====
-- Source/Client/UnitType.cpp and UnitType.h: the table of unit types that Units.json fills.
pub mod Find
use networking_game.Base.{
  ℕ, suc, zero, ◌≡◌, refl, List, [], ◌∷◌, ◌++◌, ℤ, pos, negsuc, if◌then◌else◌, Result, ok, err,
  bad_index,
}
use networking_game.Text.{Text, codes, text_eq}

pub record UnitType : Type 0 where
  pub unit_name : Text
  pub squad_size : ℤ
  pub health : ℤ
  pub attack_rating : ℤ
  pub armour_rating : ℤ
  pub move_range : ℤ
  pub attack_range : ℤ
  pub action_points : ℤ
  pub sprite_name : Text
  pub attack_name : Text
  pub move_name : Text
  pub attack_sound_name : Text
  pub move_sound_name : Text

-- One member of the JSON object, as the JSON library reads it: its key, and its values under the
-- keys that `load` asks for.
pub record Member : Type 0 where
  pub key : Text
  pub name : Text
  pub squad_size : ℤ
  pub health : ℤ
  pub damage : ℤ
  pub armour : ℤ
  pub move_range : ℤ
  pub attack_range : ℤ
  pub action_points : ℤ
  pub sprite : Text
  pub attack_sprite : Text
  pub move_sprite : Text
  pub attack_sound : Text
  pub move_sound : Text

-- The `UnitType` that `load` builds of a member: it takes the key for the name.
unfoldable pub from_member : Member → UnitType
from_member m = record {
  unit_name = m.key;
  squad_size = m.squad_size;
  health = m.health;
  attack_rating = m.damage;
  armour_rating = m.armour;
  move_range = m.move_range;
  attack_range = m.attack_range;
  action_points = m.action_points;
  sprite_name = m.sprite;
  attack_name = m.attack_sprite;
  move_name = m.move_sprite;
  attack_sound_name = m.attack_sound;
  move_sound_name = m.move_sound;
}

-- `UnitType::load`: each member is pushed behind what the table holds already. The argument is
-- `units.members()` of the file that was read.
unfoldable pub load : List Member → List UnitType → List UnitType
load [] unit_types = unit_types
load (m ∷ members) unit_types = load members (unit_types ++ from_member m ∷ [])

-- The loop of `find` from index `i` on.
find_from : Text → ℕ → List UnitType → ℤ
find_from name i [] = negsuc 0
find_from name i (t ∷ unit_types) =
    let rest = find_from name (suc i) unit_types in if text_eq t.unit_name name then pos i else rest

-- `UnitType::find`
unfoldable pub find : Text → List UnitType → ℤ
unfolding find_from
find name unit_types = find_from name zero unit_types

-- `unit_types[i]`, which is undefined outside the table.
unfoldable pub at : List UnitType → ℤ → Result UnitType
at unit_types (negsuc n) = err bad_index
at [] (pos n) = err bad_index
at (t ∷ unit_types) (pos zero) = ok t
at (t ∷ unit_types) (pos (suc n)) = at unit_types (pos n)
