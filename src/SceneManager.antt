-- ===== src/SceneManager.antt =====
-- Source/Client/SceneManager.cpp, SceneManager.h and Scene.h: the stack of scenes. The class `Scene`
-- is the interface `SceneOps`; what a scene asks of its `host_manager` while it is updated is a list
-- of requests.
use networking_game.Base.{
  Bool, true, false, List, [], ◌∷◌, if◌then◌else◌, Result, ok, err, empty_container, ◌>>=◌,
}

-- `SceneSwiching`
pub data SceneSwitching : Type 0 where
  idle remove_scene remove_2_scenes : SceneSwitching

abbrev pub switch_eq : SceneSwitching → SceneSwitching → Bool
switch_eq idle idle = true
switch_eq remove_scene remove_scene = true
switch_eq remove_2_scenes remove_2_scenes = true
switch_eq _ _ = false

-- A call of `addScene`, `removeScene` or `removeTwoScenes`.
pub data Request (A : Type 0) : Type 0 where
  add : A → Request A
  remove : Request A
  remove_two : Request A

-- The virtual functions of a scene: `lastScene(bool)` and `update`, which takes the frame's time and
-- the objects that all scenes share.
pub record SceneOps (A T W : Type 0) : Type 0 where
  pub set_last_scene : Bool → A → A
  pub update : T → W → A → Result (A × W × List (Request A))

-- `game_scenes` with its back first.
pub record SceneManager (A : Type 0) : Type 0 where
  pub exit_game : Bool
  pub game_scenes : List A
  pub scene_switcher : SceneSwitching

module _ {A : Type 0} where
  -- A new manager. `init` only reserves room for the vector.
  abbrev pub new_manager : SceneManager A
  new_manager = record { exit_game = false; game_scenes = []; scene_switcher = idle }

  -- `addScene`, `removeScene` and `removeTwoScenes`
  unfoldable pub perform : Request A → SceneManager A → SceneManager A
  perform (add scene) m = record m { game_scenes = scene ∷ m.game_scenes }
  perform remove m = record m { scene_switcher = remove_scene }
  perform remove_two m = record m { scene_switcher = remove_2_scenes }

  unfoldable pub perform_all : List (Request A) → SceneManager A → SceneManager A
  unfolding perform
  perform_all [] m = m
  perform_all (r ∷ rs) m = perform_all rs (perform r m)

  -- `game_scenes.back()->lastScene(false); game_scenes.pop_back();`, undefined on an empty vector.
  -- The scene that is popped is destroyed, so its flag does not matter.
  unfoldable pub pop_back : SceneManager A → Result (SceneManager A)
  pop_back m = elim m.game_scenes [
    | [] ↦ err empty_container
    | back ∷ rest ↦ ok (record m { game_scenes = rest })
  ]

  -- The two tests of `scene_switcher` at the head of `update`.
  unfoldable pub switch_scenes : SceneManager A → Result (SceneManager A)
  unfolding pop_back
  switch_scenes m = do
    m1 ←
        if switch_eq m.scene_switcher remove_scene
        then (pop_back m >>= λ m'. ok (record m' { scene_switcher = idle }))
        else ok m
    if switch_eq m1.scene_switcher remove_2_scenes
        then (pop_back m1 >>= pop_back >>= λ m'. ok (record m' { scene_switcher = idle }))
        else ok m1

module _ {A T W : Type 0} (ops : SceneOps A T W) where
  -- The rest of `update`: the last scene is updated, and what it asks for is done; with no scene
  -- left the game ends.
  unfoldable pub update_last : T → W → SceneManager A → Result (SceneManager A × W)
  unfolding perform_all
  update_last ms w m = elim m.game_scenes [
    | [] ↦ ok (record m { exit_game = true }, w)
    | back ∷ rest ↦ ops.update ms w (ops.set_last_scene true back) >>= λ r.
        ok (perform_all r.2 (record m { game_scenes = r.0 ∷ rest }), r.1)
  ]

  -- `SceneManager::update`
  unfoldable pub update : T → W → SceneManager A → Result (SceneManager A × W)
  unfolding switch_scenes update_last
  update ms w m = switch_scenes m >>= update_last ms w

-- `SceneManager::render`: `show` is the virtual `render` of a scene.
unfoldable pub render : {A D : Type 0} → (A → List D) → SceneManager A → List D
render show m = elim m.game_scenes [ [] ↦ [] | back ∷ rest ↦ show back ]
