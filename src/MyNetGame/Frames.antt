-- ===== src/MyNetGame/Frames.antt =====
-- The runs of the application: frames, inputs and rounds of the network thread in any order. The
-- stack of scenes keeps its shape, and the manager never takes a scene from an empty stack.
use networking_game.Base.{
  Bool, true, false, List, [], ◌∷◌, ◌≡◌, refl, Result, ok, Result-cases, inl, inr, Ensures,
}
use networking_game.UnitType.{UnitType}
use networking_game.SceneManager.{
  SceneManager, SceneSwitching, idle, remove_scene, remove_2_scenes, switch_eq, perform_all,
  switch_scenes, update_last,
}
use networking_game.MenuScene
use networking_game.MenuScene.{MenuScene, stay, to_connect, to_exit}
use networking_game.ServerConnectScene
use networking_game.ServerConnectScene.{ServerConnectScene, to_game}
use networking_game.Game.State.{
  GameScene, Floats, Call, play2d, stop_all_sounds, unregister_click, unregister_key, disconnect,
  remove_two_scenes,
}
use networking_game.Game.Setup.{init_units}
use networking_game.Game.Frame.{update_scene}
use networking_game.MyNetGame.{
  Scene, menu, connect, game, Environment, requests, update_any, set_last_scene, scene_ops,
}
use networking_game.MyNetGame.Stack.{Stacked, none_left, in_menu, connecting, in_game, IsStacked}

-- The only thing that a game asks of the manager is that two scenes are removed.
requests-IsStacked :
    {F : Type 0} (cs : List Call) (m : SceneManager (Scene F)) (g : GameScene F)
    (s : ServerConnectScene F) (b : MenuScene)
    → m.game_scenes ≡ game g ∷ connect s ∷ menu b ∷ []
    → switch_eq m.scene_switcher remove_scene ≡ false
    → IsStacked (perform_all (requests cs) m)
unfolding perform_all
requests-IsStacked [] m g s b e h = rw e (in_game g s b m.scene_switcher h)
requests-IsStacked (remove_two_scenes ∷ cs) m g s b e h =
    requests-IsStacked cs (record m { scene_switcher = remove_2_scenes }) g s b e refl
requests-IsStacked (play2d t ∷ cs) m g s b e h = requests-IsStacked cs m g s b e h
requests-IsStacked (stop_all_sounds ∷ cs) m g s b e h = requests-IsStacked cs m g s b e h
requests-IsStacked (unregister_click ∷ cs) m g s b e h = requests-IsStacked cs m g s b e h
requests-IsStacked (unregister_key ∷ cs) m g s b e h = requests-IsStacked cs m g s b e h
requests-IsStacked (disconnect ∷ cs) m g s b e h = requests-IsStacked cs m g s b e h

abbrev pub Good : {F : Type 0} → SceneManager (Scene F) × List UnitType → Type 0
Good r = IsStacked r.0

module _ {F : Type 0} ⦃fl : Floats F⦄ (env : Environment) (ms : F) (types : List UnitType) where
  abbrev pub last : (exit : Bool) → List (Scene F) → Result (SceneManager (Scene F) × List UnitType)
  last exit ss =
      update_last (scene_ops env) ms types
        (record { exit_game = exit; game_scenes = ss; scene_switcher = idle })

  -- One frame of each of the three scenes on top of its stack.
  menu_frame :
      (exit : Bool) (m : MenuScene) (n : MenuScene.Transition)
      → Ensures Good (last exit (menu (record m { next_scene = n }) ∷ []))
  unfolding update_last scene_ops update_any set_last_scene MenuScene.update perform_all
  menu_frame exit m stay = in_menu (record m { next_scene = stay; last_scene = true }) idle refl
  menu_frame exit m to_connect = connecting _ _
  menu_frame exit m to_exit = in_menu _ remove_scene refl

  connect_frame :
      (exit : Bool) (s : ServerConnectScene F) (b : MenuScene) (n : ServerConnectScene.Transition)
      → Ensures Good (last exit (connect (record s { next_scene = n }) ∷ menu b ∷ []))
  unfolding update_last scene_ops update_any set_last_scene ServerConnectScene.update perform_all
  connect_frame exit s b to_game = elim (Result-cases (init_units env.loaded env.members types)) [
    | inl (r, e) ↦ rw e (in_game _ _ b idle refl)
    | inr (x, e) ↦ rw e tt
  ]
  connect_frame exit s b n = connecting _ b

  game_frame :
      (exit : Bool) (g : GameScene F) (s : ServerConnectScene F) (b : MenuScene)
      → Ensures Good (last exit (game g ∷ connect s ∷ menu b ∷ []))
  unfolding update_last scene_ops update_any set_last_scene
  game_frame exit g s b =
      let g0 = record g { last_scene = true; calls = [] } in
      elim (Result-cases (update_scene env.junk_turn ms g0)) [
        | inl (g', e) ↦ rw e (requests-IsStacked g'.calls _ g' s b refl refl)
        | inr (x, e) ↦ rw e tt
      ]

  -- Taking scenes off a stack of the right shape succeeds, and leaves such a stack.
  pub switch_scenes-Stacked :
      (exit : Bool) (ss : List (Scene F)) (sw : SceneSwitching)
      → Stacked ss sw
      → (ts : List (Scene F)) × Stacked ts idle
        × (switch_scenes (record { exit_game = exit; game_scenes = ss; scene_switcher = sw })
            ≡ ok (record { exit_game = exit; game_scenes = ts; scene_switcher = idle }))
  unfolding switch_scenes
  switch_scenes-Stacked exit _ _ none_left = ([], none_left, refl)
  switch_scenes-Stacked exit _ _ (in_menu m idle h) = (menu m ∷ [], in_menu m idle refl, refl)
  switch_scenes-Stacked exit _ _ (in_menu m remove_scene h) = ([], none_left, refl)
  switch_scenes-Stacked exit _ _ (in_menu m remove_2_scenes h) = cc
  switch_scenes-Stacked exit _ _ (connecting s m) = (connect s ∷ menu m ∷ [], connecting s m, refl)
  switch_scenes-Stacked exit _ _ (in_game g s m idle h) =
      (game g ∷ connect s ∷ menu m ∷ [], in_game g s m idle refl, refl)
  switch_scenes-Stacked exit _ _ (in_game g s m remove_scene h) = cc
  switch_scenes-Stacked exit _ _ (in_game g s m remove_2_scenes h) =
      (menu m ∷ [], in_menu m idle refl, refl)

  pub last-IsStacked :
      (exit : Bool) (ss : List (Scene F)) → Stacked ss idle → Ensures Good (last exit ss)
  unfolding update_last
  last-IsStacked exit _ none_left = none_left
  last-IsStacked exit _ (in_menu m _ h) = menu_frame exit m m.next_scene
  last-IsStacked exit _ (connecting s m) = connect_frame exit s m s.next_scene
  last-IsStacked exit _ (in_game g s m _ h) = game_frame exit g s m
