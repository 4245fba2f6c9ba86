-- ===== src/MyNetGame.antt =====
-- Source/Client/MyNetGame.cpp and MyNetGame.h: the application, which updates its scene manager. The
-- three scenes are one type here, and the virtual calls of the manager are resolved.
pub mod Stack
pub mod Frames
pub mod Runs
use networking_game.Base.{
  ℕ, Bool, true, false, List, [], ◌∷◌, if◌then◌else◌, ℤ, Option, none, some, Result, ok, ◌>>=◌,
}
use networking_game.Text.{Text}
use networking_game.Sprite.{Sprite}
use networking_game.UnitType.{UnitType, Member}
use networking_game.SceneManager
use networking_game.SceneManager.{SceneManager, SceneOps, Request, remove_two, new_manager}
use networking_game.MenuScene
use networking_game.MenuScene.{MenuScene}
use networking_game.ServerConnectScene
use networking_game.ServerConnectScene.{ServerConnectScene}
use networking_game.Game.State.{GameScene, Floats, Call, remove_two_scenes}
use networking_game.Game.Chat.{Keys}
use networking_game.Game.Chat
use networking_game.Game.Screen.{Backdrop}
use networking_game.Game.Screen
use networking_game.Render.{Draw}
use networking_game.Game.Frame.{update_scene, click_handler}

-- The classes that derive from `Scene`.
pub data Scene (F : Type 0) : Type 0 where
  menu : MenuScene → Scene F
  connect : ServerConnectScene F → Scene F
  game : GameScene F → Scene F

-- What the scenes are given from outside: the sprite of a texture, the members of the file of the
-- units, and what a caller gets of the two functions that can end without a `return`.
pub record Environment : Type 0 where
  pub loaded : Text → Sprite
  pub members : List Member
  pub junk_turn : ℤ
  pub junk_end : Bool

-- What a player does: a key, with its state; or a click, with the test of the button's state.
pub data Input : Type 0 where
  key : ℕ → ℕ → Input
  click : Bool → ℤ → ℤ → Input

pub record MyNetGame (F : Type 0) : Type 0 where
  pub exit : Bool
  pub scene_manager : SceneManager (Scene F)
  pub unit_types : List UnitType

-- What a game scene has asked of the manager, among the calls that it has made.
abbrev pub requests : {F : Type 0} → List Call → List (Request (Scene F))
requests [] = []
requests (remove_two_scenes ∷ cs) = remove_two ∷ requests cs
requests (c ∷ cs) = requests cs

module _ {F : Type 0} ⦃fl : Floats F⦄ (env : Environment) where
  set_last_scene : Bool → Scene F → Scene F
  set_last_scene b (menu m) = menu (record m { last_scene = b })
  set_last_scene b (connect s) = connect (record s { last_scene = b })
  set_last_scene b (game g) = game (record g { last_scene = b })

  -- The three `update` functions.
  update_any :
      F → List UnitType → Scene F → Result (Scene F × List UnitType × List (Request (Scene F)))
  unfolding MenuScene.update ServerConnectScene.update update_scene ServerConnectScene.new_connect
  update_any ms types (menu m) =
      let (m', rs) = MenuScene.update (connect (ServerConnectScene.new_connect env.loaded)) m in
      ok (menu m', types, rs)
  update_any ms types (connect s) =
      ServerConnectScene.update game env.loaded env.members ms types s >>= λ r.
      ok (connect r.0, r.1, r.2)
  update_any ms types (game g) = update_scene env.junk_turn ms (record g { calls = [] }) >>= λ g'.
      ok (game g', types, requests g'.calls)

  unfoldable pub scene_ops : SceneOps (Scene F) F (List UnitType)
  unfolding set_last_scene update_any
  scene_ops = record { set_last_scene = set_last_scene; update = update_any }

  -- What `init` leaves: a manager with the menu.
  unfoldable pub init : MyNetGame F
  unfolding MenuScene.new_menu SceneManager.perform
  init = record {
    exit = false;
    scene_manager =
        SceneManager.perform (Request.add (menu (MenuScene.new_menu env.loaded))) new_manager;
    unit_types = [];
  }

  -- `update`
  unfoldable pub update : F → MyNetGame F → Result (MyNetGame F)
  unfolding scene_ops SceneManager.update
  update ms a =
      let exit_now = if a.scene_manager.exit_game then true else a.exit in
      SceneManager.update scene_ops ms a.unit_types a.scene_manager >>= λ r.
      ok (record { exit = exit_now; scene_manager = r.0; unit_types = r.1 })

  -- The handler of one scene. A menu has none for keys, and the connect scene none for clicks.
  unfoldable pub handle : Keys → Input → Scene F → Result (Scene F)
  handle k (key code action) (menu m) = ok (menu m)
  handle k (key code action) (connect s) =
      ServerConnectScene.key_handler k action code s >>= λ s'. ok (connect s')
  handle k (key code action) (game g) = Chat.key_handler k action code g >>= λ g'. ok (game g')
  handle k (click on x y) (menu m) = ok (menu (MenuScene.click_handler on x y m))
  handle k (click on x y) (connect s) = ok (connect s)
  handle k (click on x y) (game g) = click_handler env.junk_end on x y g >>= λ g'. ok (game g')

-- The three `render` functions. `tank` is the sprite of the connect scene's tank.
render_any : {F : Type 0} → Backdrop → Sprite → Scene F → List Draw
unfolding MenuScene.render ServerConnectScene.render Screen.render
render_any b tank (menu m) = MenuScene.render b.cursor_x b.cursor_y m
render_any b tank (connect s) = ServerConnectScene.render tank s
render_any b tank (game g) = Screen.render b g

-- `render`. Setting the font is left out.
unfoldable pub render : {F : Type 0} → Backdrop → Sprite → MyNetGame F → List Draw
unfolding render_any SceneManager.render
render b tank a = SceneManager.render (render_any b tank) a.scene_manager
