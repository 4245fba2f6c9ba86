-- ===== src/Examples/Play.antt =====
-- The theorems of the sprites, the units and the scene at concrete inputs.
use networking_game.Base.{
  ℕ, ◌+◌, ◌*◌, ◌≤◌, ◌<◌, ◌≡◌, ◌↔◌, refl, arith, Bool, true, false, [], ◌∷◌, ◌++◌, none, ℤ, pos,
  negsuc, ◌+ℤ◌, ◌-ℤ◌, ◌*ℤ◌, ◌≤ℤ◌, leb_ℤ, ◌||◌, ok, if◌then◌else◌,
}
use networking_game.Text.{codes}
use networking_game.Sprite.{Sprite, move_to, mouse_on_sprite, sprite_on_sprite}
use networking_game.Sprite.Hit.{Covers, sprite_on_sprite_iff}
use networking_game.UnitType.{Member, from_member, find, at, load}
use networking_game.UnitType.Find.{First, here, find-First, load-First}
use networking_game.Squad.{SquadUnit, take_damage, update}
use networking_game.Squad.Damage.{Attack, dealt, take_damage_accounts, take_damage_lethal_iff}
use networking_game.Squad.Settle.{dies, off_board, update-settles}
use networking_game.Squad.Update.{placed_as, update_frame}
use networking_game.Client
use networking_game.Game.Attack.{after_hit, attack_one, attacking_other_unit}
use networking_game.Game.Attack.Once.{Struck, attacking_other_unit-Struck}
use networking_game.Game.State.{Floats, write, units_vec, infantry_enemy}
use networking_game.Base.{quot, rem, xor, single_ℤ}
use networking_game.Squad.{lose}
use networking_game.Game.State.{GameScene, Slot, tank_ally, units_vec, no_player, player1, stay}
use networking_game.Game.Grid.{is_a_unit_selected, grid_snapping}
use networking_game.Game.Grid.Cells.{
  is_a_unit_selected_iff, grid_snapping_cell, grid_snapping_edges,
}
use networking_game.Game.Selection.{set_selected}
use networking_game.Game.Selection.Exclusive.{IsFairlySelected, set_selected-IsFairlySelected}
use networking_game.Game.Turn.{next_turn_pressed, other_player}
use networking_game.Game.Turn.Handover.{
  units_vec-Distinct, changed_packets, last_packets, queue, won, settled, next_turn_pressed_lem,
}

abbrev tile : Sprite
tile = record { x_pos = pos 40; y_pos = pos 3; width = pos 117; height = pos 117 }

abbrev field : Sprite
field = record { x_pos = negsuc 79; y_pos = negsuc 116; width = pos 360; height = pos 360 }

sprite_on_sprite_iff_example :
    (sprite_on_sprite tile field ≡ true) ↔ ((x : ℤ) × (y : ℤ) × Covers tile x y × Covers field x y)
sprite_on_sprite_iff_example =
    sprite_on_sprite_iff tile field (omega arith) (omega arith) (omega arith) (omega arith)

abbrev tank_json : Member
tank_json = record {
  key = codes "Tank";
  name = codes "Tank";
  squad_size = pos 1;
  health = pos 100;
  damage = pos 15;
  armour = pos 75;
  move_range = pos 1;
  attack_range = pos 2;
  action_points = pos 3;
  sprite = codes "TankBW.png";
  attack_sprite = codes "Attack_Default_New.png";
  move_sprite = codes "Move_Default.png";
  attack_sound = codes "TankShot.mp3";
  move_sound = codes "TankMove.wav";
}

tank_First : First (codes "Tank") (from_member tank_json) (from_member tank_json ∷ [])
unfolding from_member
tank_First = here refl

find-First_example :
    (j : ℕ) × (find (codes "Tank") (from_member tank_json ∷ []) ≡ pos j)
    × (at (from_member tank_json ∷ []) (find (codes "Tank") (from_member tank_json ∷ []))
        ≡ ok (from_member tank_json))
find-First_example =
    find-First (codes "Tank") (from_member tank_json) (from_member tank_json ∷ []) tank_First

load-First_example :
    First
      (codes "Tank")
      (from_member tank_json)
      (load (tank_json ∷ []) (from_member tank_json ∷ []))
load-First_example =
    load-First (codes "Tank") (from_member tank_json) (tank_json ∷ []) (from_member tank_json ∷ [])
      tank_First

-- The infantry of Units.json.
abbrev infantry : SquadUnit
infantry = record {
  x_pos = pos 40;
  y_pos = pos 3;
  squad_size = pos 10;
  health = pos 20;
  attack = pos 5;
  armour = pos 50;
  move_range = pos 1;
  attack_range = pos 1;
  action_points = pos 1;
  max_action_points = pos 3;
  is_enemy = true;
  is_dead = false;
  has_changed = true;
  unit_name = codes "Infantry";
  ref_name = codes "infantry_enemy";
  attack_sound = codes "InfantryShots.mp3";
  move_sound = codes "UnitMove.wav";
  object_sprite = tile;
  attack_sprite = field;
  move_sprite = field;
  hp_diamond = tile;
  unit_count_box = tile;
}

-- Its tank, here with less health.
abbrev tank : SquadUnit
tank = record infantry {
  squad_size = pos 1;
  health = pos 40;
  attack = pos 15;
  armour = pos 75;
  is_enemy = false;
  unit_name = codes "Tank";
  ref_name = codes "tank_ally";
}

infantry_attacks_tank : Attack tank infantry 40 5 10 75
infantry_attacks_tank = record {
  health = refl;
  attack = refl;
  squad = refl;
  armour = refl;
  alive = omega arith;
}

take_damage_accounts_example :
    (v : SquadUnit) × (take_damage tank infantry ≡ ok v)
    × (pos 1 ≤ℤ v.health)
    × (v.health ≤ℤ tank.health)
    × (v.squad_size ≤ℤ tank.squad_size)
    × ((tank.squad_size -ℤ v.squad_size) *ℤ tank.health +ℤ (tank.health -ℤ v.health)
        ≡ pos (dealt 75 (5 * 10)))
    × (v.has_changed ≡ true)
take_damage_accounts_example =
    take_damage_accounts tank infantry infantry_attacks_tank (omega arith)

take_damage_lethal_iff_example :
    (v : SquadUnit) × (take_damage tank infantry ≡ ok v)
    × (((update v).is_dead ≡ true) ↔ (1 * 40 ≤ dealt 75 (5 * 10)))
take_damage_lethal_iff_example =
    take_damage_lethal_iff tank infantry infantry_attacks_tank (omega arith) 1 refl refl

abbrev beaten : SquadUnit
beaten = record infantry { squad_size = negsuc 0 }

update_frame_example : update beaten ≡ record beaten {
  x_pos = beaten.object_sprite.x_pos;
  y_pos = beaten.object_sprite.y_pos;
  is_dead = beaten.is_dead || leb_ℤ beaten.squad_size (pos 0);
  object_sprite = placed_as (update beaten).object_sprite beaten.object_sprite;
  attack_sprite = placed_as (update beaten).attack_sprite beaten.attack_sprite;
  move_sprite = placed_as (update beaten).move_sprite beaten.move_sprite;
  hp_diamond = placed_as (update beaten).hp_diamond beaten.hp_diamond;
  unit_count_box = placed_as (update beaten).unit_count_box beaten.unit_count_box;
}
update_frame_example = update_frame beaten

update-settles_example :
    (update (update beaten) ≡ (if dies beaten then off_board (update beaten) else update beaten))
    × (update (update (update beaten)) ≡ update (update beaten))
update-settles_example = update-settles beaten

abbrev nothing_selected : Slot → Bool
nothing_selected s = false

is_a_unit_selected_iff_example :
    (is_a_unit_selected nothing_selected ≡ true) ↔ ((s : Slot) → nothing_selected s ≡ true)
is_a_unit_selected_iff_example = is_a_unit_selected_iff nothing_selected

grid_snapping_cell_example :
    (column : ℕ) × (row : ℕ) × (grid_snapping nothing_selected (pos 500) (pos 360) tile
      ≡ move_to (pos (120 * column + 40)) (pos (120 * row + 3)) tile)
    × (120 * column + 40 ≤ 500)
    × (500 < 120 * column + 160)
    × (120 * row + 3 ≤ 360)
    × (360 < 120 * row + 123)
grid_snapping_cell_example =
    grid_snapping_cell nothing_selected 500 360 tile (omega arith) (omega arith) (omega arith)
      (omega arith)

grid_snapping_edges_example :
    (1 < 3 → (grid_snapping nothing_selected (pos 500) (pos 1) tile).y_pos ≡ negsuc 116)
    × ((grid_snapping nothing_selected (pos 500) (pos 603) tile).y_pos ≡ pos 603)
    × (603 < 1 → (grid_snapping nothing_selected (pos 500) (pos 1) tile).y_pos ≡ pos 483)
grid_snapping_edges_example = grid_snapping_edges nothing_selected (pos 500) 1 tile tank_ally refl

abbrev is_tank : Slot → Bool
is_tank tank_ally = true
is_tank _ = false

-- Player 1's turn; the numbers stand for floats.
abbrev scene : GameScene ℤ
scene = record {
  client_component = Client.fresh (codes "localhost");
  units = λ s. if is_tank s then tank else infantry;
  selected = nothing_selected;
  assigned_team = player1;
  winning_player = no_player;
  player_turn = player1;
  game_finished = false;
  scene_full_init = true;
  last_scene = true;
  next_scene = stay;
  chat_str = [];
  chat_timer = pos 0;
  next_turn_button = record {
    x_pos = pos 1170;
    y_pos = pos 610;
    width = pos 100;
    height = pos 100;
  };
  bullet_active = false;
  bullet_x = pos 565;
  bullet_y = pos 1;
  clicked_x = pos 0;
  clicked_y = pos 0;
  attacking_unit_bullet = none;
  calls = [];
}

scene-IsFairlySelected : IsFairlySelected scene
scene-IsFairlySelected = record {
  one = record { single = λ s t h k. cc; own = λ s h. cc };
  turn = λ s h. refl;
}

set_selected-IsFairlySelected_example : IsFairlySelected (set_selected (pos 50) (pos 50) scene)
set_selected-IsFairlySelected_example =
    set_selected-IsFairlySelected (pos 50) (pos 50) scene scene-IsFairlySelected

next_turn_pressed_lem_example : next_turn_pressed false (pos 1200) (pos 650) scene ≡ (
    if won scene
    then queue
        (changed_packets units_vec scene.units ++ last_packets false scene)
        (record (settled scene) {
          player_turn = other_player scene.player_turn;
          game_finished = true;
          winning_player = scene.assigned_team;
        })
    else queue
        (changed_packets units_vec scene.units ++ last_packets false scene)
        (record (settled scene) { player_turn = other_player scene.player_turn }))
unfolding mouse_on_sprite ◌+ℤ◌
next_turn_pressed_lem_example =
    next_turn_pressed_lem false (pos 1200) (pos 650) scene (λ e. cc) refl refl

abbrev whole_floats : Floats ℤ
whole_floats = record {
  of_int = λ x. x;
  add = λ x y. x +ℤ y;
  sub = λ x y. x -ℤ y;
  mul = λ x y. x *ℤ y;
  div = λ x y. x;
  sqrt = λ x. x;
  lt = λ x y. true;
}

-- The infantry, which attacks where all units stand, hits the tank alone.
abbrev tank_hit : GameScene ℤ
tank_hit =
    after_hit ⦃fl = whole_floats⦄ infantry_enemy (pos 50) (pos 50)
      (record scene { units = write tank_ally (lose (pos 10) (pos 1) tank) scene.units })

infantry_attacks :
    attacking_other_unit ⦃fl = whole_floats⦄ infantry_enemy (pos 50) (pos 50) units_vec scene
    ≡ ok tank_hit
unfolding attacking_other_unit take_damage attack_one xor after_hit mouse_on_sprite quot rem ◌*ℤ◌
    ◌-ℤ◌ ◌+ℤ◌ single_ℤ
infantry_attacks = refl

attacking_other_unit-Struck_example :
    Struck ⦃fl = whole_floats⦄ infantry_enemy (pos 50) (pos 50) units_vec scene tank_hit
attacking_other_unit-Struck_example =
    attacking_other_unit-Struck ⦃fl = whole_floats⦄ infantry_enemy (pos 50) (pos 50) units_vec scene
      tank_hit units_vec-Distinct infantry_attacks
