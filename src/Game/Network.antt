-- ===== src/Game/Network.antt =====
-- `GameScene::unitNetworkUpdate`: what a player makes of the packets of the other one.
pub mod Updates
pub mod Names
pub mod Overlay
pub mod Sync
pub mod Begin
pub mod Takeover
pub mod Near
pub mod Like
pub mod Work
use networking_game.Base.{
  ℕ, zero, suc, true, List, [], ◌∷◌, if◌then◌else◌, pos, eqb_ℤ, Result, ok, ◌>>=◌, length,
}
use networking_game.Text.{codes, text_eq}
use networking_game.Packet.{CustomPacket, Deciphered, unit_data_deciper}
use networking_game.Sprite.{move_to}
use networking_game.Squad.{SquadUnit}
use networking_game.Game.State.{GameScene, Slot, units_vec, change, player1, player2}
use networking_game.Game.Turn.{other_player}

-- The four setters that take over the data of a unit.
pub take_over : Deciphered → SquadUnit → SquadUnit
take_over d u = record u {
  object_sprite = move_to d.x_pos d.y_pos u.object_sprite;
  squad_size = d.squad_size;
  health = d.unit_hp;
}

module _ {F : Type 0} where
  -- The loop over the units: the first one of that name takes the data over.
  pub take_over_by_name : Deciphered → List Slot → GameScene F → GameScene F
  unfolding take_over
  take_over_by_name d [] g = g
  take_over_by_name d (s ∷ ss) g =
      let rest = take_over_by_name d ss g in
      if text_eq d.unit_name (g.units s).ref_name then change s (take_over d) g else rest

  -- The body of the loop between the two accesses to the queue.
  unfoldable pub apply_update : Deciphered → GameScene F → GameScene F
  unfolding take_over_by_name other_player
  apply_update d g =
      let g1 =
        if text_eq d.unit_name (codes "endturn")
        then record g { player_turn = other_player g.player_turn }
        else g in
      if text_eq d.unit_name (codes "endgame")
      then record g1 {
        winning_player = if eqb_ℤ d.x_pos (pos 1) then player1 else player2;
        game_finished = true;
      }
      else take_over_by_name d units_vec g1

  abbrev pub with_updates : List CustomPacket → GameScene F → GameScene F
  with_updates q g = record g {
    client_component = record (g.client_component) { unit_update_queue = q };
  }

  -- `unitNetworkUpdate`: the loop runs until the queue is empty. Nothing is added meanwhile in this
  -- function; the queue's length is fuel enough.
  update_all : ℕ → GameScene F → Result (GameScene F)
  unfolding apply_update
  update_all zero g = ok g
  update_all (suc fuel) g = elim g.client_component.unit_update_queue [
    | [] ↦ ok g
    | front_unit ∷ rest ↦
        unit_data_deciper front_unit >>= λ d. update_all fuel (with_updates rest (apply_update d g))
  ]

  unfoldable pub unit_network_update : GameScene F → Result (GameScene F)
  unfolding update_all
  unit_network_update g = update_all (length g.client_component.unit_update_queue) g
