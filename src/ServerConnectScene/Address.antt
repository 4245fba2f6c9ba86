-- ===== src/ServerConnectScene/Address.antt =====
-- The address to which a game connects.
use networking_game.Base.{◌≡◌, true, false, List, [], ◌∷◌, ◌++◌, ◌==◌, ==_refl, ok, ◌>>=◌}
use networking_game.Text.{Text, codes, text_eq}
use networking_game.Sprite.{Sprite}
use networking_game.UnitType.{UnitType, Member}
use networking_game.SceneManager.{add}
use networking_game.Game.State.{GameScene, Floats, stop_all_sounds, unregister_key}
use networking_game.Game.Setup.{init_units, new_scene}
use networking_game.Game.Chat.{Keys}
use networking_game.ServerConnectScene.{
  ServerConnectScene, stay, update, key_handler, press_key, move_tank, leave,
}

module _ {F : Type 0} ⦃fl : Floats F⦄ {A : Type 0} (scene : GameScene F → A)
    (loaded : Text → Sprite) (members : List Member) where
  -- The enter key, pressed in a scene that reads the keyboard (it is not the delete key, nor is it
  -- backspace), and the next frame: whatever address was typed, the new game connects to localhost.
  -- The typed text is gone, and the scene is no longer the last one.
  pub enter_connects_to_localhost :
      (k : Keys) (ms : F) (types : List UnitType) (s : ServerConnectScene F)
      → s.last_scene ≡ true
      → (k.key_enter == k.key_delete) ≡ false
      → (k.key_enter == k.key_backspace) ≡ false
      → (key_handler k k.key_pressed k.key_enter s >>= update scene loaded members ms types) ≡ (
          init_units loaded members types >>= λ r. ok (
            record (move_tank ms s) {
              last_scene = false;
              next_scene = stay;
              connect_ip = codes "localhost";
              type_str = [];
              calls = s.calls ++ stop_all_sounds ∷ unregister_key ∷ [];
            },
            r.0,
            add (scene (new_scene loaded (codes "localhost") r.1)) ∷ [],
          ))
  unfolding key_handler update press_key leave text_eq
  enter_connects_to_localhost k ms types s active d b =
      rw (active, d, b, ==_refl k.key_enter, ==_refl k.key_pressed)
