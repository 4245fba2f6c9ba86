-- ===== src/Game/Screen.antt =====
-- `GameScene::render` and the functions that it calls: what a frame of the game shows. The colour of
-- the button under the mouse is left out.
pub mod Selected
use networking_game.Base.{
  ℕ, Bool, true, false, not, List, [], ◌∷◌, ◌++◌, ◌==◌, if◌then◌else◌, ℤ, pos, ◌+ℤ◌, ◌*ℤ◌, Option,
  none, some, length, ◌||◌,
}
use networking_game.Text.{Text, codes, text_eq}
use networking_game.Text.Decimal.{to_string}
use networking_game.Sprite.{Sprite, mouse_on_sprite}
use networking_game.Squad.{SquadUnit}
use networking_game.Render.{
  Draw, sprite, text, background, middle_ground_back, middle_ground_mid, middle_ground_front,
  foreground, text_foreground, black, white, ghostwhite,
}
use networking_game.Game.State.{
  GameScene, Slot, infantry_enemy, sniper_enemy, artillery_enemy, tank_enemy, infantry_ally,
  sniper_ally, artillery_ally, tank_ally, units_vec, player1, turn_eq,
}
use networking_game.Game.Turn.{which_turn, which_player}

-- The sprites that stay as they are while the game runs, the bullet where it is now, whether the
-- library says that the client is connected, and the mouse.
pub record Backdrop : Type 0 where
  pub game_background : Sprite
  pub victory_background : Sprite
  pub turn_box : Sprite
  pub bullet_sprite : Sprite
  pub is_connected : Bool
  pub cursor_x : ℤ
  pub cursor_y : ℤ
  -- what the caller gets of a `whichTurn` that does not return
  pub junk_turn : ℤ

-- The order of the tests in `unitSelectionRender`.
abbrev pub selection_order : List Slot
selection_order =
    infantry_enemy ∷ tank_enemy ∷ artillery_enemy ∷ sniper_enemy ∷ infantry_ally ∷ tank_ally
    ∷ artillery_ally ∷ sniper_ally ∷ []

-- The body of the loop of `unitsRender`.
unfoldable pub unit_render : SquadUnit → List Draw
unit_render u =
    let x = u.object_sprite.x_pos in
    let y = u.object_sprite.y_pos +ℤ pos 105 in
    let health_text = to_string (u.health *ℤ u.squad_size) in
    let text_x = if length health_text == 3 then pos 40 else pos 50 in
    let squad_text = to_string u.squad_size in
    let squad_text_x = if length squad_text == 2 then pos 5 else pos 10 in
    if not u.is_dead
    then sprite (codes "object_sprite") u.object_sprite middle_ground_front
      ∷ sprite (codes "hp_diamond") u.hp_diamond foreground
      ∷ sprite (codes "unit_count_box") u.unit_count_box foreground
      ∷ text health_text (x +ℤ text_x) y 30 white text_foreground
      ∷ text squad_text (x +ℤ squad_text_x) y 30 white text_foreground
      ∷ []
    else []

-- `unitInfoBox`
unfoldable pub unit_info_box : SquadUnit → List Draw
unit_info_box u =
    text (codes "HP: " ++ to_string u.health) (pos 900) (pos 630) 30 black foreground
    ∷ text (codes "Squad: " ++ to_string u.squad_size) (pos 900) (pos 650) 30 black foreground
    ∷ text (codes "Attack: " ++ to_string u.attack) (pos 1000) (pos 650) 30 black foreground
    ∷ text (codes "Armour: " ++ to_string u.armour) (pos 1000) (pos 630) 30 black foreground
    ∷ text (codes "AP: " ++ to_string u.action_points) (pos 975) (pos 670) 30 black foreground
    ∷ []

-- The loop of `unitsRender`
loop_units : List Slot → (Slot → SquadUnit) → List Draw
unfolding unit_render
loop_units [] units = []
loop_units (s ∷ ss) units = unit_render (units s) ++ loop_units ss units

-- `lobbyScreenRender`
unfoldable pub lobby_screen_render : Backdrop → List Draw
lobby_screen_render b =
    sprite (codes "victory_background") b.victory_background background
    ∷ text (codes "Waiting for other player...") (pos 150) (pos 50) 70 ghostwhite foreground
    ∷ []

module _ {F : Type 0} where
  -- `unitSelectionRender`
  loop_selected : List Slot → GameScene F → List Draw
  loop_selected [] g = []
  loop_selected (s ∷ ss) g =
      (if g.selected s
        then sprite (codes "move_sprite") (g.units s).move_sprite middle_ground_back
          ∷ sprite (codes "attack_sprite") (g.units s).attack_sprite middle_ground_mid
          ∷ []
        else [])
      ++ loop_selected ss g

  unfoldable pub unit_selection_render : GameScene F → List Draw
  unfolding loop_selected
  unit_selection_render g = loop_selected selection_order g

module _ {F : Type 0} (b : Backdrop) where
  -- `unitsRender`
  unfoldable pub units_render : GameScene F → List Draw
  unfolding loop_units
  units_render g =
      loop_units units_vec g.units
      ++ (if g.bullet_active
          then sprite (codes "bullet_sprite") b.bullet_sprite foreground ∷ []
          else [])

  -- `unitHoverInfoRender`
  loop_hovered : List Slot → GameScene F → List Draw
  unfolding unit_info_box
  loop_hovered [] g = []
  loop_hovered (s ∷ ss) g =
      (if mouse_on_sprite b.cursor_x b.cursor_y (g.units s).object_sprite
        then unit_info_box (g.units s)
        else [])
      ++ loop_hovered ss g

  unfoldable pub unit_hover_info_render : GameScene F → List Draw
  unfolding loop_hovered
  unit_hover_info_render g = loop_hovered units_vec g

  -- `chatRender`
  unfoldable pub chat_render : GameScene F → List Draw
  chat_render g =
      let c = g.client_component in
      let line = λ (s : Text). text s (pos 10) (pos 630) 40 black foreground in
      let latest : List Draw = elim c.chat_recieved_queue [
        | [] ↦ []
        | front ∷ rest ↦
            text (front.username ++ (codes ": " ++ front.msg_text)) (pos 350) (pos 650) 40 black
              foreground
            ∷ []
      ] in
      (if text_eq c.username []
          then line (codes "Please enter username (6 Max chars):")
          else if b.is_connected
          then line (codes "Connected as : " ++ c.username)
          else line (codes "Once you connect your username will be: " ++ c.username))
        ∷ (if not (text_eq c.username [])
            then text (codes "Latest Message:") (pos 350) (pos 630) 40 black foreground ∷ latest
            else [])
      ++ text (codes "> " ++ g.chat_str) (pos 10) (pos 650) 40 black foreground ∷ []

  -- `winScreenRender`
  unfoldable pub win_screen_render : GameScene F → List Draw
  win_screen_render g =
      let vicstring =
        if turn_eq g.winning_player player1 then codes "PLAYER 1 WINS" else codes "PLAYER 2 WINS" in
      sprite (codes "victory_background") b.victory_background middle_ground_front
      ∷ text vicstring (pos 400) (pos 300) 125 ghostwhite foreground
      ∷ text (codes "Press Esc to return to menu") (pos 150) (pos 350) 110 ghostwhite foreground
      ∷ []

  -- `gameScreenRender`
  unfoldable pub game_screen_render : GameScene F → List Draw
  unfolding units_render unit_selection_render unit_hover_info_render chat_render which_turn
      which_player
  game_screen_render g =
      let turn : ℤ = elim (which_turn g) [ none ↦ b.junk_turn | some n ↦ n ] in
      sprite (codes "game_background") b.game_background background
      ∷ sprite (codes "next_turn_button") g.next_turn_button middle_ground_front
      ∷ (unit_selection_render g
          ++ (units_render g
              ++ (chat_render g
                  ++ (unit_hover_info_render g
                      ++ sprite (codes "turn_box") b.turn_box middle_ground_front
                        ∷ text (codes "Player: " ++ (to_string turn ++ codes "'s")) (pos 590)
                            (pos 25) 30 black foreground
                        ∷ text (codes "Turn") (pos 616) (pos 45) 30 black foreground
                        ∷ text (codes "You are:\nPlayer " ++ to_string (which_player g)) (pos 750)
                            (pos 630) 40 black foreground
                        ∷ []))))

  -- `render`
  unfoldable pub render : GameScene F → List Draw
  unfolding lobby_screen_render win_screen_render game_screen_render
  render g =
      if g.client_component.is_lobby || g.client_component.is_reconnecting
      then lobby_screen_render b
      else if g.game_finished
      then win_screen_render g
      else game_screen_render g
