-- ===== src/Examples/Worlds.antt =====
-- Concrete units, scenes and surroundings for the examples.
use networking_game.Base.{
  ℕ, true, false, [], ◌∷◌, List, ℤ, pos, ◌+ℤ◌, ◌-ℤ◌, ◌*ℤ◌, none, if◌then◌else◌, ◌==◌,
}
use networking_game.Text.{Text, codes}
use networking_game.Sprite.{Sprite}
use networking_game.Squad.{SquadUnit}
use networking_game.Client
use networking_game.Server.{Send, to, to_all_if}
use networking_game.Game.State.{GameScene, Floats, no_player, player1, player2, stay}
use networking_game.Game.Chat.{Keys}
use networking_game.Game.Network.Names.{ref_name_of}

abbrev pub whole : Floats ℤ
whole = record {
  of_int = λ x. x;
  add = λ x y. x +ℤ y;
  sub = λ x y. x -ℤ y;
  mul = λ x y. x *ℤ y;
  div = λ x y. x;
  sqrt = λ x. x;
  lt = λ x y. true;
}

abbrev pub square : Sprite
square = record { x_pos = pos 40; y_pos = pos 3; width = pos 117; height = pos 117 }

abbrev pub area : Sprite
area = record { x_pos = pos 40; y_pos = pos 3; width = pos 600; height = pos 600 }

abbrev pub soldier : SquadUnit
soldier = record {
  x_pos = pos 40;
  y_pos = pos 3;
  squad_size = pos 10;
  health = pos 20;
  attack = pos 5;
  armour = pos 50;
  move_range = pos 1;
  attack_range = pos 1;
  action_points = pos 2;
  max_action_points = pos 3;
  is_enemy = true;
  is_dead = false;
  has_changed = true;
  unit_name = codes "Infantry";
  ref_name = [];
  attack_sound = codes "InfantryShots.mp3";
  move_sound = codes "UnitMove.wav";
  object_sprite = square;
  attack_sprite = area;
  move_sprite = area;
  hp_diamond = square;
  unit_count_box = square;
}

-- A scene of player 1 with all units changed, and one of player 2 in which they are weaker.
abbrev pub first_scene : GameScene ℤ
first_scene = record {
  client_component = Client.fresh (codes "localhost");
  units = λ s. record soldier { ref_name = ref_name_of s };
  selected = λ s. false;
  assigned_team = player1;
  winning_player = no_player;
  player_turn = player1;
  game_finished = false;
  scene_full_init = true;
  last_scene = true;
  next_scene = stay;
  chat_str = [];
  chat_timer = pos 0;
  next_turn_button = record {
    x_pos = pos 1170;
    y_pos = pos 610;
    width = pos 100;
    height = pos 100;
  };
  bullet_active = false;
  bullet_x = pos 565;
  bullet_y = pos 1;
  clicked_x = pos 0;
  clicked_y = pos 0;
  attacking_unit_bullet = none;
  calls = [];
}

abbrev pub second_scene : GameScene ℤ
second_scene = record first_scene {
  units = λ s. record soldier { ref_name = ref_name_of s; health = pos 7; has_changed = false };
  assigned_team = player2;
}

-- A library that brings each client what is meant for it.
abbrev pub post : ℕ → Send → List Text
post client (to i p) = if i == client then p.0 ∷ [] else []
post client (to_all_if p f) = if f client then p.0 ∷ [] else []

abbrev pub keys : Keys
keys = record {
  key_escape = 27;
  key_delete = 127;
  key_backspace = 8;
  key_enter = 13;
  key_pressed = 1;
}
