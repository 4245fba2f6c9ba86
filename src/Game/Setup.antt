-- ===== src/Game/Setup.antt =====
-- `GameScene::initUnits` and the values that the members of a new scene have. Colours and flips of
-- the sprites are left out.
pub mod Start
use networking_game.Base.{false, List, [], none, pos, Result, ok, ◌>>=◌}
use networking_game.Text.{Text, codes}
use networking_game.Sprite.{Sprite, move_to, resize}
use networking_game.UnitType.{UnitType, Member, find, at, load}
use networking_game.Squad.{SquadUnit, create_unit}
use networking_game.Client.{fresh}
use networking_game.Game.State.{
  GameScene, Slot, infantry_enemy, sniper_enemy, artillery_enemy, tank_enemy, infantry_ally,
  sniper_ally, artillery_ally, tank_ally, no_player, player1, stay, Floats,
}

-- `UnitType::unit_types[UnitType::find(name)].createUnit(...)`, with the name for reference.
create_enemy : (Text → Sprite) → List UnitType → Text → Text → Result SquadUnit
create_enemy loaded unit_types name ref_name = do
  t ← at unit_types (find name unit_types)
  ok (record (create_unit loaded t) { ref_name = ref_name })

-- `xPos(1120)`
abbrev to_right : Sprite → Sprite
to_right s = record s { x_pos = pos 1120 }

create_ally : (Text → Sprite) → List UnitType → Text → Text → Result SquadUnit
create_ally loaded unit_types name ref_name = do
  t ← at unit_types (find name unit_types)
  let u = create_unit loaded t
  ok (record u {
    is_enemy = false;
    object_sprite = to_right u.object_sprite;
    attack_sprite = to_right u.attack_sprite;
    move_sprite = to_right u.move_sprite;
    ref_name = ref_name;
  })

-- The eight pushes: which unit each pointer points to.
placed :
    SquadUnit
    → SquadUnit
    → SquadUnit
    → SquadUnit
    → SquadUnit
    → SquadUnit
    → SquadUnit
    → SquadUnit
    → Slot
    → SquadUnit
placed ie se ae te ia sa aa ta infantry_enemy = ie
placed ie se ae te ia sa aa ta sniper_enemy = se
placed ie se ae te ia sa aa ta artillery_enemy = ae
placed ie se ae te ia sa aa ta tank_enemy = te
placed ie se ae te ia sa aa ta infantry_ally = ia
placed ie se ae te ia sa aa ta sniper_ally = sa
placed ie se ae te ia sa aa ta artillery_ally = aa
placed ie se ae te ia sa aa ta tank_ally = ta

-- `initUnits`: the new table of types, and the units.
unfoldable pub init_units :
    (Text → Sprite) → List Member → List UnitType → Result (List UnitType × (Slot → SquadUnit))
unfolding create_enemy create_ally placed
init_units loaded members old_types = do
  let types = load members old_types
  se ← create_enemy loaded types (codes "Sniper") (codes "sniper_enemy")
  te ← create_enemy loaded types (codes "Tank") (codes "tank_enemy")
  ae ← create_enemy loaded types (codes "Artillery") (codes "artillery_enemy")
  ie ← create_enemy loaded types (codes "Infantry") (codes "infantry_enemy")
  sa ← create_ally loaded types (codes "Sniper") (codes "sniper_ally")
  ta ← create_ally loaded types (codes "Tank") (codes "tank_ally")
  aa ← create_ally loaded types (codes "Artillery") (codes "artillery_ally")
  ia ← create_ally loaded types (codes "Infantry") (codes "infantry_ally")
  ok (types, placed ie se ae te ia sa aa ta)

-- `next_turn_button` as `init` sets it up.
abbrev pub next_turn_button : (Text → Sprite) → Sprite
next_turn_button loaded =
    resize (pos 100) (pos 100)
      (move_to (pos 1170) (pos 610) (loaded (codes ".\\Resources\\Buttons\\XButton.png")))

-- A new scene: the values that the header gives, the button, the bullet's sprite, and the units.
-- `clicked_xPos` and `clicked_yPos` have no value yet; they are not read before they are written.
abbrev pub new_scene :
    {F : Type 0} ⦃fl : Floats F⦄ → (Text → Sprite) → Text → (Slot → SquadUnit) → GameScene F
new_scene ⦃fl⦄ loaded ip units = record {
  client_component = fresh ip;
  units = units;
  selected = λ s. false;
  assigned_team = no_player;
  winning_player = no_player;
  player_turn = player1;
  game_finished = false;
  scene_full_init = false;
  last_scene = false;
  next_scene = stay;
  chat_str = [];
  chat_timer = fl.of_int (pos 0);
  next_turn_button = next_turn_button loaded;
  bullet_active = false;
  bullet_x = fl.of_int (pos 565);
  bullet_y = fl.of_int (pos 1);
  clicked_x = pos 0;
  clicked_y = pos 0;
  attacking_unit_bullet = none;
  calls = [];
}
