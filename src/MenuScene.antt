-- ===== src/MenuScene.antt =====
-- Source/Client/MenuScene.cpp and MenuScene.h: the menu, with a button to start and one to exit.
use networking_game.Base.{Bool, false, ◌&&◌, List, [], ◌∷◌, ◌++◌, if◌then◌else◌, ℤ, pos}
use networking_game.Text.{Text, codes}
use networking_game.Sprite.{Sprite, move_to, mouse_on_sprite}
use networking_game.Render.{
  Draw, sprite, text, background, middle_ground_front, foreground, black, lightgreen,
}
use networking_game.SceneManager.{Request, add, remove}

-- `SceneTransitions`, with `stay` for NONE
pub data Transition : Type 0 where
  stay to_connect to_exit : Transition

pub record MenuScene : Type 0 where
  pub last_scene : Bool
  pub next_scene : Transition
  pub menu_background : Sprite
  pub start_button_unpressed : Sprite
  pub start_button_pressed : Sprite
  pub exit_button_unpressed : Sprite
  pub exit_button_pressed : Sprite

abbrev pressed : Text
pressed = codes ".\\Resources\\Buttons\\ButtonPressed.png"

abbrev unpressed : Text
unpressed = codes ".\\Resources\\Buttons\\ButtonUnpressed.png"

-- The constructor and `init`.
unfoldable pub new_menu : (Text → Sprite) → MenuScene
new_menu loaded = record {
  last_scene = false;
  next_scene = stay;
  menu_background =
      move_to (pos 0) (pos 0) (loaded (codes ".\\Resources\\Backgrounds\\MainMenu.png"));
  start_button_pressed = move_to (pos 390) (pos 300) (loaded pressed);
  start_button_unpressed = move_to (pos 390) (pos 300) (loaded unpressed);
  exit_button_pressed = move_to (pos 390) (pos 450) (loaded pressed);
  exit_button_unpressed = move_to (pos 390) (pos 450) (loaded unpressed);
}

-- `update`. `connect_scene` is the scene that `make_unique` builds, as a scene.
unfoldable pub update : {A : Type 0} → A → MenuScene → MenuScene × List (Request A)
update connect_scene m = elim m.next_scene [
  | stay ↦ (m, [])
  | to_connect ↦ (record m { last_scene = false; next_scene = stay }, add connect_scene ∷ [])
  | to_exit ↦ (record m { next_scene = stay }, remove ∷ [])
]

-- `clickHandler`. `button_pressed`: the action is BUTTON_PRESSED.
unfoldable pub click_handler : Bool → ℤ → ℤ → MenuScene → MenuScene
click_handler button_pressed xpos ypos m =
    if m.last_scene && button_pressed
    then (if mouse_on_sprite xpos ypos m.start_button_unpressed
        then record m { next_scene = to_connect }
        else if mouse_on_sprite xpos ypos m.exit_button_unpressed
        then record m { next_scene = to_exit }
        else m)
    else m

-- A button of `render`, in the look that it has under the mouse or not.
render_button : Bool → Text → Sprite → Sprite → Text → ℤ → ℤ → List Draw
render_button hover name hovered plain label x y =
    if hover
    then sprite (name ++ codes "_pressed") hovered middle_ground_front
      ∷ text label x y 100 lightgreen foreground
      ∷ []
    else sprite (name ++ codes "_unpressed") plain middle_ground_front
      ∷ text label x y 100 black foreground
      ∷ []

-- `render`, with the mouse at a whole position.
unfoldable pub render : ℤ → ℤ → MenuScene → List Draw
unfolding render_button
render mouse_x mouse_y m =
    sprite (codes "menu_background") m.menu_background background
    ∷ text (codes "Gathering Storm") (pos 320) (pos 100) 120 black foreground
    ∷ (render_button (mouse_on_sprite mouse_x mouse_y m.start_button_unpressed)
          (codes "start_button") m.start_button_pressed m.start_button_unpressed (codes "Start")
          (pos 575) (pos 370)
        ++ render_button (mouse_on_sprite mouse_x mouse_y m.exit_button_unpressed)
            (codes "exit_button") m.exit_button_pressed m.exit_button_unpressed (codes "Exit")
            (pos 590) (pos 520))
