-- ===== src/MyNetGame/Runs.antt =====
-- The runs of the application: frames, inputs and rounds of the network thread in any order.
use networking_game.Base.{
  ℕ, Bool, true, false, List, [], ◌∷◌, ◌≡◌, refl, sym, subst, ap, ℤ, ok, err, ◌>>=◌, if◌then◌else◌,
  Result-cases, inl, inr, Ensures-ok,
}
use networking_game.Text.{Text}
use networking_game.UnitType.{UnitType}
use networking_game.Sprite.{mouse_on_sprite}
use networking_game.SceneManager
use networking_game.SceneManager.{SceneManager, SceneSwitching, idle, switch_scenes, update_last}
use networking_game.MenuScene
use networking_game.MenuScene.{MenuScene}
use networking_game.ServerConnectScene.{ServerConnectScene}
use networking_game.Game.State.{GameScene, Floats, to_menu}
use networking_game.Game.Frame.{update_scene}
use networking_game.Game.Frame.Leaving.{farewell, update_scene-to_menu}
use networking_game.Game.Chat.{Keys}
use networking_game.MyNetGame.{
  Scene, menu, connect, game, Environment, Input, MyNetGame, scene_ops, set_last_scene, update_any,
  update, handle, init,
}
use networking_game.MyNetGame.Stack.{
  Stacked, in_menu, IsStacked, change_at, network, network-KeepsClass, handle-KeepsClass,
  change_at-Stacked,
}
use networking_game.MyNetGame.Frames.{Good, last, switch_scenes-Stacked, last-IsStacked}

-- The application at work: a frame, an input to one of the scenes, or a round of the network thread
-- of a game. The order is any, and what each of them is given is any.
pub data Step {F : Type 0} ⦃fl : Floats F⦄ (env : Environment) (a b : MyNetGame F) : Type 0 where
  frame : (ms : F) → update env ms a ≡ ok b → Step env a b
  input :
      (k : Keys) (e : Input) (i : ℕ) (ss : List (Scene F))
      → change_at i (handle env k e) a.scene_manager.game_scenes ≡ ok ss
      → b ≡ record a { scene_manager = record (a.scene_manager) { game_scenes = ss } }
      → Step env a b
  round :
      (delivered : List Text) (i : ℕ) (ss : List (Scene F))
      → change_at i (network delivered) a.scene_manager.game_scenes ≡ ok ss
      → b ≡ record a { scene_manager = record (a.scene_manager) { game_scenes = ss } }
      → Step env a b

pub data Reach {F : Type 0} ⦃fl : Floats F⦄ (env : Environment) (a : MyNetGame F)
    : MyNetGame F → Type 0 where
  here : Reach env a a
  next : {b c : MyNetGame F} → Reach env a b → Step env b c → Reach env a c

module _ {F : Type 0} ⦃fl : Floats F⦄ (env : Environment) where
  -- Whatever the shape, the scenes that are to go can be taken off, and the frame is that of the
  -- scene that is then the last one.
  frame-last :
      (ms : F) (a : MyNetGame F)
      → IsStacked a.scene_manager
      → (ts : List (Scene F)) × Stacked ts idle
        × (SceneManager.update (scene_ops env) ms a.unit_types a.scene_manager
            ≡ last env ms a.unit_types a.scene_manager.exit_game ts)
  unfolding SceneManager.update
  frame-last ms a h =
      let m = a.scene_manager in
      let (ts, good, e) =
        switch_scenes-Stacked env ms a.unit_types m.exit_game m.game_scenes m.scene_switcher h in
      (ts, good, ap (λ r. r >>= update_last (scene_ops env) ms a.unit_types) e)

  update-IsStacked :
      (ms : F) (a b : MyNetGame F)
      → update env ms a ≡ ok b
      → IsStacked a.scene_manager
      → IsStacked b.scene_manager
  unfolding update
  update-IsStacked ms a b e h =
      let (ts, good, same) = frame-last ms a h in
      let held = last-IsStacked env ms a.unit_types a.scene_manager.exit_game ts good in
      elim (Result-cases (last env ms a.unit_types a.scene_manager.exit_game ts)) [
        | inl (r, x) ↦
            let exit_now = if a.scene_manager.exit_game then true else a.exit in
            let c : MyNetGame F = record {
              exit = exit_now;
              scene_manager = r.0;
              unit_types = r.1;
            } in
            let out : ok c ≡ ok b = rw (same, x) at e in
            let final : c ≡ b = cc in
            subst (λ d. IsStacked d.scene_manager) final
              (Ensures-ok Good (last env ms a.unit_types a.scene_manager.exit_game ts) r x held)
        | inr (f, x) ↦ let out : err f ≡ ok b = rw (same, x) at e in cc
      ]

  Step-IsStacked :
      (a b : MyNetGame F) → Step env a b → IsStacked a.scene_manager → IsStacked b.scene_manager
  Step-IsStacked a b (frame ms e) h = update-IsStacked ms a b e h
  Step-IsStacked a b (input k e i ss made same) h =
      let kept =
        change_at-Stacked (handle env k e) (handle-KeepsClass env k e) i a.scene_manager.game_scenes
          ss a.scene_manager.scene_switcher h made in
      subst (λ c. IsStacked c.scene_manager) (sym same) kept
  Step-IsStacked a b (round d i ss made same) h =
      let kept =
        change_at-Stacked (network d) (network-KeepsClass d) i a.scene_manager.game_scenes ss
          a.scene_manager.scene_switcher h made in
      subst (λ c. IsStacked c.scene_manager) (sym same) kept

  Reach-IsStacked :
      {a b : MyNetGame F} → Reach env a b → IsStacked a.scene_manager → IsStacked b.scene_manager
  Reach-IsStacked here h = h
  Reach-IsStacked (next {b} {c} r st) h = Step-IsStacked b c st (Reach-IsStacked r h)

  -- In every state that the application reaches from its start, by frames, inputs to any of the
  -- scenes and rounds of the network threads in any order, the stack of scenes is empty, or the
  -- menu, with at most the connect scene on it, and on that at most a game; and in a frame the
  -- manager finds the scenes that it is to take off: what the frame gives, a fault included, is what
  -- the update of the scene that is then last gives.
  pub Reach-frame :
      (a : MyNetGame F) (ms : F)
      → Reach env (init env) a
      → IsStacked a.scene_manager
        × (ts : List (Scene F)) × Stacked ts idle
        × (SceneManager.update (scene_ops env) ms a.unit_types a.scene_manager
            ≡ last env ms a.unit_types a.scene_manager.exit_game ts)
  unfolding init SceneManager.perform
  Reach-frame a ms r =
      let held = Reach-IsStacked r (in_menu (MenuScene.new_menu env.loaded) idle refl) in
      let (ts, good, same) = frame-last ms a held in (held, ts, good, same)

  -- A click on the exit button alone, in a menu that is the only scene: three frames later the
  -- application has no scene and is told to exit.
  pub exit_in_three :
      (x y : ℤ) (m : MenuScene) (types : List UnitType) (ms1 ms2 ms3 : F)
      → m.last_scene ≡ true
      → mouse_on_sprite x y m.start_button_unpressed ≡ false
      → mouse_on_sprite x y m.exit_button_unpressed ≡ true
      → (update env ms1 (record {
        exit = false;
        scene_manager = record {
          exit_game = false;
          game_scenes = menu (MenuScene.click_handler true x y m) ∷ [];
          scene_switcher = idle;
        };
        unit_types = types;
      })
          >>= update env ms2
          >>= update env ms3)
        ≡ ok (record {
          exit = true;
          scene_manager = record { exit_game = true; game_scenes = []; scene_switcher = idle };
          unit_types = types;
        })
  unfolding update SceneManager.update update_last scene_ops update_any set_last_scene
      MenuScene.update MenuScene.click_handler SceneManager.perform_all switch_scenes
  exit_in_three x y m types ms1 ms2 ms3 active off on = rw (active, off, on)

  -- A game that is to go to the menu lies on the connect scene and a menu that is not to go anywhere,
  -- nothing is asked of the manager, and the game's frame fails nowhere: after this frame and the next
  -- one the game and the connect scene are taken off, and the menu is the scene that is played.
  pub menu_in_two :
      (g g' : GameScene F) (s : ServerConnectScene F) (m : MenuScene) (types : List UnitType)
      (exit : Bool) (ms1 ms2 : F)
      → g.next_scene ≡ to_menu
      → m.next_scene ≡ MenuScene.stay
      → update_scene env.junk_turn ms1 (record g { last_scene = true; calls = [] }) ≡ ok g'
      → (update env ms1 (record {
        exit = exit;
        scene_manager = record {
          exit_game = false;
          game_scenes = game g ∷ connect s ∷ menu m ∷ [];
          scene_switcher = idle;
        };
        unit_types = types;
      })
          >>= update env ms2)
        ≡ ok (record {
          exit = exit;
          scene_manager = record {
            exit_game = false;
            game_scenes = menu (record m { last_scene = true }) ∷ [];
            scene_switcher = idle;
          };
          unit_types = types;
        })
  unfolding update SceneManager.update update_last scene_ops update_any set_last_scene
      MenuScene.update SceneManager.perform_all switch_scenes
  menu_in_two g g' s m types exit ms1 ms2 go stays plays =
      let left =
        update_scene-to_menu env.junk_turn ms1 (record g { last_scene = true; calls = [] }) g' go
          plays in
      let asked : g'.calls ≡ farewell = left.0 in rw (plays, asked, stays)
