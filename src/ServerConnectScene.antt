-- ===== src/ServerConnectScene.antt =====
-- Source/Client/ServerConnectScene.cpp and ServerConnectScene.h: the scene in which the player types
-- the server's address.
pub mod Address
use networking_game.Base.{
  ℕ, ◌%◌, Bool, true, false, not, ◌&&◌, ◌||◌, List, [], ◌∷◌, ◌++◌, ◌==◌, if◌then◌else◌, ℤ, pos,
  negsuc, Result, ok, ◌>>=◌, length,
}
use networking_game.Text.{Text, codes, text_eq}
use networking_game.Sprite.{Sprite, move_to}
use networking_game.UnitType.{UnitType, Member}
use networking_game.SceneManager.{Request, add}
use networking_game.Render.{
  Draw, sprite, text, background, middle_ground_back, foreground, black, white,
}
use networking_game.Game.State.{GameScene, Floats, Call, play2d, stop_all_sounds, unregister_key}
use networking_game.Game.Setup.{init_units, new_scene}
use networking_game.Game.Chat.{Keys, pop_back}

-- `SceneTransitions`, with `stay` for NONE. TO_EXIT is never used.
pub data Transition : Type 0 where
  stay to_game to_menu to_exit : Transition

-- `tank_x` is `tank_sprite->xPos()`; nothing else of that sprite changes.
pub record ServerConnectScene (F : Type 0) : Type 0 where
  pub last_scene : Bool
  pub next_scene : Transition
  pub connect_ip : Text
  pub type_str : Text
  pub tank_x : F
  pub lobby_background : Sprite
  pub lobby_background_front : Sprite
  pub calls : List Call

module _ {F : Type 0} ⦃fl : Floats F⦄ where
  -- The constructor and `init`. The tank stands at (1380, 350).
  unfoldable pub new_connect : (Text → Sprite) → ServerConnectScene F
  new_connect loaded = record {
    last_scene = false;
    next_scene = stay;
    connect_ip = [];
    type_str = [];
    tank_x = fl.of_int (pos 1380);
    lobby_background =
        move_to (pos 0) (pos 0) (loaded (codes ".\\Resources\\Backgrounds\\GameScene.png"));
    lobby_background_front =
        move_to (pos 0) (pos 0) (loaded (codes ".\\Resources\\Backgrounds\\GameSceneFront.png"));
    calls = play2d (codes "..\\..\\Resources\\SoundGS\\UnitSounds\\GreatEscapeLoop.mp3") ∷ [];
  }

  -- The tank drives to the left, and starts again at the right.
  pub move_tank : F → ServerConnectScene F → ServerConnectScene F
  move_tank ms s = record s {
    tank_x =
        if fl.lt s.tank_x (fl.of_int (negsuc 99))
        then fl.of_int (pos 1680)
        else fl.sub s.tank_x (fl.div ms (fl.of_int (pos 25)));
  }

  -- The case TO_GAME up to the new scene: the strings are cleared, and then the address is tested.
  leave : ServerConnectScene F → ServerConnectScene F
  leave s =
      let s1 = record s {
        last_scene = false;
        calls = s.calls ++ stop_all_sounds ∷ unregister_key ∷ [];
        type_str = [];
        connect_ip = [];
      } in
      if text_eq s1.connect_ip [] then record s1 { connect_ip = codes "localhost" } else s1

  -- `update`. The test for TO_MENU stands inside the `switch`, behind the `break` of its only case,
  -- so it is never reached. `members` is what the file of the units holds; the new scene loads it
  -- into the table of types. `scene` makes it a scene of the manager.
  unfoldable pub update :
      {A : Type 0}
      → (GameScene F → A)
      → (Text → Sprite)
      → List Member
      → F
      → List UnitType
      → ServerConnectScene F
      → Result (ServerConnectScene F × List UnitType × List (Request A))
  unfolding move_tank leave
  update scene loaded members ms types s =
      let s1 = move_tank ms s in
      elim s1.next_scene [
        | to_game ↦
            let s2 = leave s1 in
            init_units loaded members types >>= λ r. ok (
              record s2 { next_scene = stay },
              r.0,
              add (scene (new_scene loaded s2.connect_ip r.1)) ∷ [],
            )
        | other ↦ ok (s1, types, [])
      ]

  -- What `keyHandler` does with a key that was pressed.
  press_key : Keys → ℕ → ServerConnectScene F → Result (ServerConnectScene F)
  unfolding pop_back
  press_key k key s =
      if key == k.key_delete || key == k.key_backspace && not (length s.type_str == 0)
      then (pop_back s.type_str >>= λ t. ok (record s { type_str = t }))
      else if key == k.key_enter
      then ok (record s { connect_ip = s.type_str; next_scene = to_game; type_str = [] })
      else if key == k.key_escape
      then ok (record s { next_scene = to_menu })
      else ok (record s { type_str = s.type_str ++ (key % 256) ∷ [] })

  -- `keyHandler`
  unfoldable pub key_handler : Keys → ℕ → ℕ → ServerConnectScene F → Result (ServerConnectScene F)
  unfolding press_key
  key_handler k action key s =
      if s.last_scene && action == k.key_pressed then press_key k key s else ok s

-- `render`: the tank's sprite at `tank`, between the two backgrounds.
unfoldable pub render : {F : Type 0} → Sprite → ServerConnectScene F → List Draw
render tank s =
    sprite (codes "lobby_background") s.lobby_background background
    ∷ sprite (codes "lobby_background_front") s.lobby_background_front foreground
    ∷ text (codes "Please enter the desired IP to connect to:") (pos 150) (pos 50) 70 white
        foreground
    ∷ text (codes "> " ++ s.type_str) (pos 150) (pos 100) 70 black foreground
    ∷ sprite (codes "tank_sprite") tank middle_ground_back
    ∷ []
