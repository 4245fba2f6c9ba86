-- ===== src/Squad.antt =====
-- Source/Client/Unit.cpp and Unit.h: one squad of a player.
pub mod Damage
pub mod Update
pub mod Settle
pub mod Create
use networking_game.Base.{
  ℕ, List, [], ◌∷◌, ◌++◌, Bool, true, false, not, ◌&&◌, ℤ, pos, negsuc, ◌+ℤ◌, ◌-ℤ◌, ◌*ℤ◌, quot, rem,
  single_ℤ, leb_ℤ, eqb_ℤ, if◌then◌else◌, Result, ok, err, zero_divide,
}
use networking_game.Text.{Text, codes, text_eq}
use networking_game.Sprite.{Sprite, move_to, resize}
use networking_game.UnitType.{UnitType}

pub record SquadUnit : Type 0 where
  pub x_pos : ℤ
  pub y_pos : ℤ
  pub squad_size : ℤ
  pub health : ℤ
  pub attack : ℤ
  pub armour : ℤ
  pub move_range : ℤ
  pub attack_range : ℤ
  pub action_points : ℤ
  pub max_action_points : ℤ
  pub is_enemy : Bool
  pub is_dead : Bool
  pub has_changed : Bool
  pub unit_name : Text
  pub ref_name : Text
  pub attack_sound : Text
  pub move_sound : Text
  pub object_sprite : Sprite
  pub attack_sprite : Sprite
  pub move_sprite : Sprite
  pub hp_diamond : Sprite
  pub unit_count_box : Sprite

-- An `if` with no `else`, around a change of the unit.
abbrev pub when : Bool → (SquadUnit → SquadUnit) → SquadUnit → SquadUnit
when test change u = if test then change u else u

abbrev pub has_name : Text → SquadUnit → Bool
has_name name u = text_eq u.unit_name name

-- The sizes of the attack area and of the move area, and the starting place.
sizes : ℤ → ℤ → ℤ → ℤ → ℤ → ℤ → SquadUnit → SquadUnit
sizes aw ah mw mh x y u = record u {
  attack_sprite = resize aw ah u.attack_sprite;
  move_sprite = resize mw mh u.move_sprite;
  object_sprite = move_to x y u.object_sprite;
}

-- The four tests of `init` on the unit's name, for a side that starts at column `x`.
start_at : ℤ → SquadUnit → SquadUnit
unfolding sizes
start_at x u =
    let u1 =
      when (has_name (codes "Infantry") u) (sizes (pos 360) (pos 360) (pos 600) (pos 600) x (pos 3))
        u in
    let u2 =
      when (has_name (codes "Sniper") u1)
        (sizes (pos 720) (pos 120) (pos 360) (pos 360) x (pos 123)) u1 in
    let u3 =
      when (has_name (codes "Artillery") u2)
        (sizes (pos 360) (pos 360) (pos 120) (pos 360) x (pos 243)) u2 in
    when (has_name (codes "Tank") u3) (sizes (pos 240) (pos 360) (pos 600) (pos 360) x (pos 363)) u3

-- `Unit::init`. The renderer, a library, gives the sprite for a texture: `loaded path`.
init : (Text → Sprite) → UnitType → SquadUnit → SquadUnit
unfolding start_at
init loaded t u =
    let folder = codes ".\\Resources\\Sprites\\" in
    let dressed = record u {
      object_sprite = resize (pos 117) (pos 117) (loaded (folder ++ t.sprite_name));
      attack_sprite = loaded (folder ++ t.attack_name);
      move_sprite = loaded (folder ++ t.move_name);
      hp_diamond = resize (pos 60) (pos 35) (
          move_to (u.x_pos +ℤ pos 30) (u.y_pos +ℤ pos 85)
            (loaded (codes ".\\Resources\\Sprites\\diamond.png")));
      unit_count_box =
          resize (pos 35) (pos 50)
            (move_to u.x_pos u.y_pos (loaded (codes ".\\Resources\\Sprites\\units_count.png")));
      max_action_points = u.action_points;
    } in
    if dressed.is_enemy then start_at (pos 40) dressed else start_at (pos 880) dressed

abbrev no_sprite : Sprite
no_sprite = record { x_pos = pos 0; y_pos = pos 0; width = pos 0; height = pos 0 }

-- `UnitType::createUnit` and the constructor of `Unit`.
unfoldable pub create_unit : (Text → Sprite) → UnitType → SquadUnit
unfolding init
create_unit loaded t = init loaded t (record {
  x_pos = pos 40;
  y_pos = pos 3;
  squad_size = t.squad_size;
  health = t.health;
  attack = t.attack_rating;
  armour = t.armour_rating;
  move_range = t.move_range;
  attack_range = t.attack_range;
  action_points = t.action_points;
  max_action_points = pos 0;
  is_enemy = true;
  is_dead = false;
  has_changed = false;
  unit_name = t.unit_name;
  ref_name = [];
  attack_sound = t.attack_sound_name;
  move_sound = t.move_sound_name;
  object_sprite = no_sprite;
  attack_sprite = no_sprite;
  move_sprite = no_sprite;
  hp_diamond = no_sprite;
  unit_count_box = no_sprite;
})

-- The unit's sprite goes to its position, its move area and its attack area go to the two places.
areas : ℤ → ℤ → ℤ → ℤ → SquadUnit → SquadUnit
areas mx my ax ay u = record u {
  object_sprite = move_to u.x_pos u.y_pos u.object_sprite;
  move_sprite = move_to mx my u.move_sprite;
  attack_sprite = move_to ax ay u.attack_sprite;
}

-- The four tests of `update` on the unit's name. The two sides differ in the columns of three
-- attack areas, which are the arguments.
follow : ℤ → ℤ → ℤ → SquadUnit → SquadUnit
unfolding areas
follow sniper_x artillery_x tank_x u =
    let x = u.x_pos in
    let y = u.y_pos in
    let u1 =
      when (has_name (codes "Infantry") u)
        (areas (x -ℤ pos 240) (y -ℤ pos 240) (x -ℤ pos 120) (y -ℤ pos 120)) u in
    let u2 =
      when (has_name (codes "Sniper") u1) (areas (x -ℤ pos 120) (y -ℤ pos 120) sniper_x y) u1 in
    let u3 =
      when (has_name (codes "Artillery") u2) (areas x (y -ℤ pos 120) artillery_x (y -ℤ pos 120))
        u2 in
    when (has_name (codes "Tank") u3) (areas (x -ℤ pos 240) (y -ℤ pos 120) tank_x (y -ℤ pos 120)) u3

-- The three parts of `update`: read the position and see whether the unit has died; move the two
-- labels; move the areas.
die : SquadUnit → SquadUnit
die u = record u {
  object_sprite = move_to (negsuc 199) (negsuc 199) u.object_sprite;
  is_dead = true;
}

labels : SquadUnit → SquadUnit
labels u = record u {
  unit_count_box = move_to u.x_pos (u.y_pos +ℤ pos 70) u.unit_count_box;
  hp_diamond = move_to (u.x_pos +ℤ pos 30) (u.y_pos +ℤ pos 85) u.hp_diamond;
}

follow_side : SquadUnit → SquadUnit
unfolding follow
follow_side u =
    let x = u.x_pos in
    if u.is_enemy
    then follow x (x +ℤ pos 600) x u
    else follow (x -ℤ pos 720) (x -ℤ pos 840) (x -ℤ pos 120) u

-- The two blocks under `if (!is_dead)`.
redraw : SquadUnit → SquadUnit
unfolding labels follow_side
redraw u = when (not u.is_dead) follow_side (when (not u.is_dead) labels u)

-- `Unit::update`
unfoldable pub update : SquadUnit → SquadUnit
unfolding die redraw
update u =
    let u1 = record u { x_pos = u.object_sprite.x_pos; y_pos = u.object_sprite.y_pos } in
    redraw (when (leb_ℤ u1.squad_size (pos 0) && not u1.is_dead) die u1)

-- The first half of `Unit::takeDamage`. `raw_damage` and `mitigated_damage` are of type `float`, so
-- the product of `int`s is rounded, and so are the `int` that is multiplied with a `float`, the
-- product of two `float`s and their difference. All of these are whole, so `floor` and the way back
-- to `int` change nothing. The division `armour / 100` is one of `int`s.
pub damage_taken : SquadUnit → SquadUnit → ℤ
damage_taken u damage_dealer =
    let raw_damage = single_ℤ (damage_dealer.attack *ℤ damage_dealer.squad_size) in
    let mitigated_damage = single_ℤ (raw_damage *ℤ single_ℤ (quot u.armour (pos 100))) in
    single_ℤ (raw_damage -ℤ mitigated_damage)

-- Its last three lines.
pub lose : ℤ → ℤ → SquadUnit → SquadUnit
lose health_damage squad_damage u = record u {
  health = u.health -ℤ health_damage;
  squad_size = u.squad_size -ℤ squad_damage;
  has_changed = true;
}

-- `Unit::takeDamage`
unfoldable pub take_damage : SquadUnit → SquadUnit → Result SquadUnit
unfolding damage_taken lose
take_damage u damage_dealer =
    let damage = damage_taken u damage_dealer in
    if eqb_ℤ u.health (pos 0)
    then err zero_divide
    else ok (lose (rem damage u.health) (quot damage u.health) u)

-- `Unit::reduceActionPoints` and `Unit::resetActionPoints`
abbrev pub reduce_action_points : ℤ → SquadUnit → SquadUnit
reduce_action_points reduction u = record u { action_points = u.action_points -ℤ reduction }

abbrev pub reset_action_points : SquadUnit → SquadUnit
reset_action_points u = record u { action_points = u.max_action_points }

-- `Unit::setHasChanged`
abbrev pub set_has_changed : Bool → SquadUnit → SquadUnit
set_has_changed changed u = record u { has_changed = changed }
