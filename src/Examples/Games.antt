-- ===== src/Examples/Games.antt =====
-- The theorems of a game, from its start on, at concrete states.
use networking_game.Base.{
  ◌≡◌, ◌⊎◌, refl, sym, ap, ◌∙◌, arith, true, false, ◌&&◌, ◌==◌, length, [], ◌∷◌, List, Result, ok,
  err, empty_container, ℤ, pos, ◌+ℤ◌,
}
use networking_game.Text.{Text, codes, text_eq}
use networking_game.Sprite.{mouse_on_sprite}
use networking_game.UnitType.{UnitType, Member, from_member, load, find, at}
use networking_game.Squad.{SquadUnit}
use networking_game.Game.State.{GameScene, Slot, slot_eq, Floats, infantry_enemy}
use networking_game.Game.State.Slots.{slot_eq_iff}
use networking_game.Game.Chat.{Keys}
use networking_game.Game.Chat
use networking_game.Game.Chat.Typing.{key_handler_fails, listening}
use networking_game.Game.Setup.{init_units}
use networking_game.Game.Setup.Start.{Ready, init_units_total, init_units-Ready}
use networking_game.Game.Movement.{place_unit_at_click}
use networking_game.Game.Movement.Places.{Outcome, place_unit_at_click-Outcome}
use networking_game.Game.Selection.Exclusive.{team_of, IsFairlySelected}
use networking_game.Game.Screen.{unit_selection_render}
use networking_game.Game.Screen.Selected.{areas_of, unit_selection_render-IsFairlySelected}
use networking_game.Game.Selection.{set_selected}
use networking_game.Game.Turn.{next_turn_pressed}
use networking_game.Game.Attack.{attack_clicked_unit}
use networking_game.Squad.{create_unit}
use networking_game.Game.Network.Names.{Fits}
use networking_game.Client.{ClientComponent, fresh, consume_round}
use networking_game.Client.Round.{wire_bytes}
use networking_game.Server.Session.{init_packet, start_packet}
use networking_game.Match.Exclusion.{Begun}
use networking_game.Match.Start.{player, players-Begun}
use networking_game.Game.Frame.{click_handler}
use networking_game.Game.Frame.Fair.{click_handler-IsFairlySelected}
use networking_game.Examples.Worlds.{whole, square, soldier, keys, first_scene}

instance floats : Floats ℤ
floats = whole

-- A game that has begun.
abbrev begun : GameScene ℤ
begun = record first_scene {
  client_component = record (first_scene.client_component) { is_lobby = false };
  selected = λ s. slot_eq s infantry_enemy;
}

key_handler_fails_example :
    let bad = listening keys 1 begun && (127 == 127 && length begun.chat_str == 0) in
    (bad ≡ true → Chat.key_handler keys 1 127 begun ≡ err empty_container)
    × (bad ≡ false → (g' : GameScene ℤ) × (Chat.key_handler keys 1 127 begun ≡ ok g'))
key_handler_fails_example = key_handler_fails keys 1 127 begun

place_unit_at_click-Outcome_example :
    Outcome (pos 300) (pos 200) begun (place_unit_at_click (pos 300) (pos 200) begun) infantry_enemy
place_unit_at_click-Outcome_example =
    place_unit_at_click-Outcome (pos 300) (pos 200) begun infantry_enemy

begun-IsFairlySelected : IsFairlySelected begun
begun-IsFairlySelected = record {
  one = record {
    single =
        λ s t h k. (slot_eq_iff s infantry_enemy).0 h ∙ sym ((slot_eq_iff t infantry_enemy).0 k);
    own = λ s h. ap team_of ((slot_eq_iff s infantry_enemy).0 h);
  };
  turn = λ s h. refl;
}

unit_selection_render-IsFairlySelected_example :
    (((t : Slot) → begun.selected t ≡ false) × (unit_selection_render begun ≡ []))
    ⊎ ((s : Slot) × (begun.selected s ≡ true) × (unit_selection_render begun ≡ areas_of begun s))
unit_selection_render-IsFairlySelected_example =
    unit_selection_render-IsFairlySelected begun begun-IsFairlySelected

-- The members of a file with the four types.
abbrev member : Text → Member
member name = record {
  key = name;
  name = name;
  squad_size = pos 1;
  health = pos 100;
  damage = pos 15;
  armour = pos 75;
  move_range = pos 1;
  attack_range = pos 2;
  action_points = pos 3;
  sprite = codes "TankBW.png";
  attack_sprite = codes "Attack_Default_New.png";
  move_sprite = codes "Move_Default.png";
  attack_sound = codes "TankShot.mp3";
  move_sound = codes "TankMove.wav";
}

abbrev members : List Member
members =
    member (codes "Infantry")
    ∷ member (codes "Tank")
    ∷ member (codes "Sniper")
    ∷ member (codes "Artillery")
    ∷ []

abbrev types : List UnitType
types = load members []

abbrev kind : Text → UnitType
kind name = from_member (member name)

found_infantry : at types (find (codes "Infantry") types) ≡ ok (kind (codes "Infantry"))
unfolding load find at from_member text_eq
found_infantry = refl

found_sniper : at types (find (codes "Sniper") types) ≡ ok (kind (codes "Sniper"))
unfolding load find at from_member text_eq
found_sniper = refl

found_artillery : at types (find (codes "Artillery") types) ≡ ok (kind (codes "Artillery"))
unfolding load find at from_member text_eq
found_artillery = refl

found_tank : at types (find (codes "Tank") types) ≡ ok (kind (codes "Tank"))
unfolding load find at from_member text_eq
found_tank = refl

start_units : (units : Slot → SquadUnit) × (init_units (λ t. square) members [] ≡ ok (types, units))
start_units =
    init_units_total (λ t. square) members [] (kind (codes "Infantry")) (kind (codes "Sniper"))
      (kind (codes "Artillery")) (kind (codes "Tank")) found_infantry found_sniper found_artillery
      found_tank

init_units-Ready_example :
    (types ≡ load members []) × ((s : Slot) → Ready types s (start_units.0 s))
init_units-Ready_example =
    init_units-Ready (λ t. square) members [] types start_units.0 start_units.1

-- The units that the file makes.
abbrev units_of : Result (List UnitType × (Slot → SquadUnit)) → Slot → SquadUnit
units_of (ok r) = r.1
units_of (err f) = λ s. soldier

abbrev built : Slot → SquadUnit
built = units_of (init_units (λ t. square) members [])

built_lem : init_units (λ t. square) members [] ≡ ok (types, built)
unfolding init_units load find at from_member text_eq
built_lem = refl

built-Fits : (s : Slot) → Fits (built s)
unfolding init_units load find at from_member text_eq create_unit
built-Fits infantry_enemy = record {
  x_pos = omega arith;
  y_pos = omega arith;
  squad_size = omega arith;
  health = omega arith;
}
built-Fits s = record {
  x_pos = omega arith;
  y_pos = omega arith;
  squad_size = omega arith;
  health = omega arith;
}

players-Begun_example :
    (c : ClientComponent) × (d : ClientComponent) × (consume_round
        (wire_bytes (init_packet (pos 0) ∷ start_packet ∷ []))
        (fresh (codes "localhost"))
      ≡ ok (c, []))
    × (consume_round
          (wire_bytes (init_packet (pos 1) ∷ start_packet ∷ []))
          (fresh (codes "192.168.0.2"))
        ≡ ok (d, []))
    × Begun (record {
      first = player ⦃fl = whole⦄ (λ t. square) built (codes "localhost") c;
      second = player ⦃fl = whole⦄ (λ t. square) built (codes "192.168.0.2") d;
    })
players-Begun_example =
    players-Begun ⦃fl = whole⦄ (λ t. square) members [] types built (codes "localhost")
      (codes "192.168.0.2") built_lem built-Fits

-- A game that has begun, with no unit selected.
abbrev waiting : GameScene ℤ
waiting = record begun { selected = λ s. false }

waiting-IsFairlySelected : IsFairlySelected waiting
waiting-IsFairlySelected = record {
  one = record { single = λ s t h k. cc; own = λ s h. cc };
  turn = λ s h. cc;
}

select_click :
    click_handler false true (pos 50) (pos 50) waiting ≡ ok (set_selected (pos 50) (pos 50) waiting)
unfolding click_handler next_turn_pressed place_unit_at_click attack_clicked_unit mouse_on_sprite
    ◌+ℤ◌
select_click = refl

click_handler-IsFairlySelected_example : IsFairlySelected (set_selected (pos 50) (pos 50) waiting)
click_handler-IsFairlySelected_example =
    click_handler-IsFairlySelected false true (pos 50) (pos 50) waiting
      (set_selected (pos 50) (pos 50) waiting) waiting-IsFairlySelected select_click
