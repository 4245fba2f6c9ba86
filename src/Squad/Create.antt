-- ===== src/Squad/Create.antt =====
-- What a new unit has from its type: everything but its sprites.
use networking_game.Base.{◌≡◌, arith, true, false, [], ℤ, pos}
use networking_game.Text.{Text}
use networking_game.Sprite.{Sprite}
use networking_game.UnitType.{UnitType}
use networking_game.Squad.{SquadUnit, create_unit, init, start_at}

-- `v` is `u` but for its sprites.
abbrev Resprited : SquadUnit → SquadUnit → Type 0
Resprited u v = v ≡ record u {
  object_sprite = v.object_sprite;
  attack_sprite = v.attack_sprite;
  move_sprite = v.move_sprite;
  hp_diamond = v.hp_diamond;
  unit_count_box = v.unit_count_box;
}

start_at-Resprited : (x : ℤ) (u : SquadUnit) → Resprited u (start_at x u)
unfolding start_at
start_at-Resprited x u = ground arith

-- A new unit, up to its sprites.
pub create_unit_values :
    (loaded : Text → Sprite) (t : UnitType)
    → let u = create_unit loaded t in
      u ≡ record u {
        x_pos = pos 40;
        y_pos = pos 3;
        squad_size = t.squad_size;
        health = t.health;
        attack = t.attack_rating;
        armour = t.armour_rating;
        move_range = t.move_range;
        attack_range = t.attack_range;
        action_points = t.action_points;
        max_action_points = t.action_points;
        is_enemy = true;
        is_dead = false;
        has_changed = false;
        unit_name = t.unit_name;
        ref_name = [];
        attack_sound = t.attack_sound_name;
        move_sound = t.move_sound_name;
      }
unfolding create_unit init
create_unit_values loaded t = start_at-Resprited (pos 40) _
