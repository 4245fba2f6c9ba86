-- ===== src/Examples/Scenes.antt =====
-- The theorems of the application and of its scenes at concrete states.
use networking_game.Base.{◌≡◌, refl, true, false, [], ◌∷◌, ◌++◌, ok, ℤ, pos, rem, ◌+ℤ◌, ◌>>=◌}
use networking_game.Text.{codes}
use networking_game.Sprite.{mouse_on_sprite}
use networking_game.SceneManager
use networking_game.SceneManager.{idle, add}
use networking_game.MenuScene
use networking_game.MenuScene.{MenuScene}
use networking_game.ServerConnectScene
use networking_game.ServerConnectScene.{ServerConnectScene}
use networking_game.ServerConnectScene.Address.{enter_connects_to_localhost}
use networking_game.Game.State.{GameScene, Floats, stay, to_menu, stop_all_sounds, unregister_key}
use networking_game.Game.Setup.{init_units, new_scene}
use networking_game.Game.Selection.Exclusive.{IsFairlySelected}
use networking_game.Game.Frame.{update_scene}
use networking_game.Game.Frame.Steady.{update_scene-IsFairlySelected}
use networking_game.Game.Frame.Leaving.{farewell, update_scene-to_menu}
use networking_game.MyNetGame.{Environment, MyNetGame, menu, connect, game, init, update, scene_ops}
use networking_game.MyNetGame.Stack.{IsStacked, Stacked}
use networking_game.MyNetGame.Frames.{last}
use networking_game.MyNetGame.Runs.{here, next, frame, Reach-frame, exit_in_three, menu_in_two}
use networking_game.Examples.Worlds.{whole, square, keys, first_scene}

instance floats : Floats ℤ
floats = whole

abbrev surroundings : Environment
surroundings = record { loaded = λ t. square; members = []; junk_turn = pos 1; junk_end = false }

-- The application after its first frame.
abbrev started : MyNetGame ℤ
started = record {
  exit = false;
  scene_manager = record {
    exit_game = false;
    game_scenes = menu (record (MenuScene.new_menu (λ t. square)) { last_scene = true }) ∷ [];
    scene_switcher = idle;
  };
  unit_types = [];
}

first_frame : update surroundings (pos 16) (init surroundings) ≡ ok started
unfolding update init scene_ops SceneManager.update SceneManager.perform SceneManager.switch_scenes
    SceneManager.update_last SceneManager.perform_all MenuScene.new_menu
first_frame = refl

Reach-frame_example :
    IsStacked started.scene_manager
    × (ts : _) × Stacked ts idle
    × (SceneManager.update (scene_ops surroundings) (pos 16) [] started.scene_manager
        ≡ last surroundings (pos 16) [] false ts)
Reach-frame_example =
    Reach-frame surroundings started (pos 16) (next here (frame (pos 16) first_frame))

abbrev main_menu : MenuScene
main_menu = record (MenuScene.new_menu (λ t. square)) { last_scene = true }

off_start : mouse_on_sprite (pos 400) (pos 460) main_menu.start_button_unpressed ≡ false
unfolding mouse_on_sprite ◌+ℤ◌ MenuScene.new_menu
off_start = refl

on_exit : mouse_on_sprite (pos 400) (pos 460) main_menu.exit_button_unpressed ≡ true
unfolding mouse_on_sprite ◌+ℤ◌ MenuScene.new_menu
on_exit = refl

exit_in_three_example :
    (update surroundings (pos 16) (record {
      exit = false;
      scene_manager = record {
        exit_game = false;
        game_scenes = menu (MenuScene.click_handler true (pos 400) (pos 460) main_menu) ∷ [];
        scene_switcher = idle;
      };
      unit_types = [];
    })
      >>= update surroundings (pos 16)
      >>= update surroundings (pos 17))
    ≡ ok (record {
      exit = true;
      scene_manager = record { exit_game = true; game_scenes = []; scene_switcher = idle };
      unit_types = [];
    })
unfolding MenuScene.new_menu
exit_in_three_example =
    exit_in_three surroundings (pos 400) (pos 460) main_menu [] (pos 16) (pos 16) (pos 17) refl
      off_start on_exit

-- A game in the lobby whose player has pressed the escape key.
abbrev leaving : GameScene ℤ
leaving = record first_scene { next_scene = to_menu }

-- The same game after the frame that takes it away.
abbrev gone : GameScene ℤ
gone = record first_scene {
  last_scene = false;
  client_component = record (first_scene.client_component) { kill_thread = true };
  calls = farewell;
}

last_frame : update_scene (pos 1) (pos 16) leaving ≡ ok gone
unfolding update_scene rem
last_frame = refl

update_scene-to_menu_example :
    (gone.calls ≡ leaving.calls ++ farewell)
    × (gone.client_component.kill_thread ≡ true)
    × (gone.last_scene ≡ false)
    × (gone.next_scene ≡ stay)
update_scene-to_menu_example = update_scene-to_menu (pos 1) (pos 16) leaving gone refl last_frame

menu_in_two_example :
    (update surroundings (pos 16) (record {
      exit = false;
      scene_manager = record {
        exit_game = false;
        game_scenes =
            game leaving
            ∷ connect (ServerConnectScene.new_connect (λ t. square))
            ∷ menu main_menu
            ∷ [];
        scene_switcher = idle;
      };
      unit_types = [];
    })
      >>= update surroundings (pos 17))
    ≡ ok (record {
      exit = false;
      scene_manager = record {
        exit_game = false;
        game_scenes = menu (record main_menu { last_scene = true }) ∷ [];
        scene_switcher = idle;
      };
      unit_types = [];
    })
unfolding MenuScene.new_menu
menu_in_two_example =
    menu_in_two surroundings leaving gone (ServerConnectScene.new_connect (λ t. square)) main_menu
      [] false (pos 16) (pos 17) refl refl last_frame

-- The connect scene with an address typed.
abbrev typed : ServerConnectScene ℤ
typed = record (ServerConnectScene.new_connect (λ t. square)) {
  last_scene = true;
  type_str = codes "10.0.0.7";
}

enter_connects_to_localhost_example :
    (ServerConnectScene.key_handler keys 1 13 typed
      >>= ServerConnectScene.update game (λ t. square) [] (pos 16) [])
    ≡ (init_units (λ t. square) [] [] >>= λ r. ok (
      record (ServerConnectScene.move_tank (pos 16) typed) {
        last_scene = false;
        next_scene = ServerConnectScene.stay;
        connect_ip = codes "localhost";
        type_str = [];
        calls = typed.calls ++ stop_all_sounds ∷ unregister_key ∷ [];
      },
      r.0,
      add (game (new_scene (λ t. square) (codes "localhost") r.1)) ∷ [],
    ))
enter_connects_to_localhost_example =
    enter_connects_to_localhost game (λ t. square) [] keys (pos 16) [] typed refl refl refl

leaving-IsFairlySelected : IsFairlySelected leaving
leaving-IsFairlySelected = record {
  one = record { single = λ s t h k. cc; own = λ s h. cc };
  turn = λ s h. cc;
}

update_scene-IsFairlySelected_example : IsFairlySelected gone
update_scene-IsFairlySelected_example =
    update_scene-IsFairlySelected (pos 1) (pos 16) leaving gone (λ e s. refl)
      leaving-IsFairlySelected last_frame
