-- ===== src/Game/State.antt =====
-- The members of `GameScene`. The eight units stand in `units_vec`, and eight raw pointers point to
-- them; a unit is named by its pointer, and `units` is a function of that name, so a write through
-- a pointer is seen by the loops over the vector.
pub mod Slots
use networking_game.Base.{
  ℕ, List, [], ◌∷◌, ◌++◌, Bool, true, false, ◌==◌, if◌then◌else◌, Option, none, ℤ, pos,
}
use networking_game.Text.{Text}
use networking_game.Sprite.{Sprite}
use networking_game.Squad.{SquadUnit}
use networking_game.Client.{ClientComponent, send}
use networking_game.Packet.{CustomPacket}

pub data PlayerTurn : Type 0 where
  no_player player1 player2 : PlayerTurn

-- `player_turn == PlayerTurn::PLAYER1` and the like
abbrev pub turn_eq : PlayerTurn → PlayerTurn → Bool
turn_eq no_player no_player = true
turn_eq player1 player1 = true
turn_eq player2 player2 = true
turn_eq _ _ = false

-- `SceneTransitions`, with `stay` for NONE
pub data SceneTransitions : Type 0 where
  stay to_menu : SceneTransitions

-- `infantry_enemy_ptr` and the other seven pointers
pub data Slot : Type 0 where
  infantry_enemy sniper_enemy artillery_enemy tank_enemy : Slot
  infantry_ally sniper_ally artillery_ally tank_ally : Slot

-- `units_vec`, in the order of the pushes at the end of `initUnits`
abbrev pub units_vec : List Slot
units_vec =
    infantry_enemy ∷ sniper_enemy ∷ artillery_enemy ∷ tank_enemy ∷ infantry_ally ∷ sniper_ally
    ∷ artillery_ally ∷ tank_ally ∷ []

abbrev pub slot_index : Slot → ℕ
slot_index infantry_enemy = 0
slot_index sniper_enemy = 1
slot_index artillery_enemy = 2
slot_index tank_enemy = 3
slot_index infantry_ally = 4
slot_index sniper_ally = 5
slot_index artillery_ally = 6
slot_index tank_ally = 7

abbrev pub slot_eq : Slot → Slot → Bool
slot_eq s t = slot_index s == slot_index t

-- A write through a pointer.
abbrev pub write {ℓ} : {A : Type ℓ} → Slot → A → (Slot → A) → Slot → A
write s a f t = if slot_eq s t then a else f t

-- The arithmetic of `float` that the bullet and the chat's timer need. It is not modelled; the
-- theorems hold for any such type.
pub record Floats (F : Type 0) : Type 0 where
  pub of_int : ℤ → F
  pub add : F → F → F
  pub sub : F → F → F
  pub mul : F → F → F
  pub div : F → F → F
  pub sqrt : F → F
  pub lt : F → F → Bool

-- A call of a library, or of the scene manager, that leaves no trace in the scene.
pub data Call : Type 0 where
  play2d : Text → Call
  stop_all_sounds unregister_click unregister_key disconnect remove_two_scenes : Call

-- The eight flags `infantry_select`, `infantry2_select`, … are the function `selected`: the flags of
-- team 1 belong to the enemy slots, and those with a 2 to the ally slots. `calls` lists the calls
-- made so far.
pub record GameScene (F : Type 0) : Type 0 where
  pub client_component : ClientComponent
  pub units : Slot → SquadUnit
  pub selected : Slot → Bool
  pub assigned_team : PlayerTurn
  pub winning_player : PlayerTurn
  pub player_turn : PlayerTurn
  pub game_finished : Bool
  pub scene_full_init : Bool
  pub last_scene : Bool
  pub next_scene : SceneTransitions
  pub chat_str : Text
  pub chat_timer : F
  pub next_turn_button : Sprite
  pub bullet_active : Bool
  pub bullet_x : F
  pub bullet_y : F
  pub clicked_x : ℤ
  pub clicked_y : ℤ
  pub attacking_unit_bullet : Option Slot
  pub calls : List Call

module _ {F : Type 0} where
  -- `Unit->…` through a pointer
  abbrev pub change : Slot → (SquadUnit → SquadUnit) → GameScene F → GameScene F
  change s f g = record g { units = write s (f (g.units s)) g.units }

  abbrev pub send_packet : CustomPacket → GameScene F → GameScene F
  send_packet p g = record g { client_component = send p g.client_component }

  abbrev pub call : Call → GameScene F → GameScene F
  call c g = record g { calls = g.calls ++ c ∷ [] }
