-- ===== src/MyNetGame/Stack.antt =====
-- The shape of the stack of scenes, and the changes of single scenes, which keep it.
use networking_game.Base.{
  ℕ, zero, suc, false, List, [], ◌∷◌, ◌≡◌, arith, Result, ok, err, ◌>>=◌, Result-cases, inl, inr,
  Ensures, Ensures-ok,
}
use networking_game.Text.{Text}
use networking_game.Client.{consume_round}
use networking_game.SceneManager.{
  SceneManager, SceneSwitching, idle, remove_scene, remove_2_scenes, switch_eq,
}
use networking_game.MenuScene.{MenuScene}
use networking_game.ServerConnectScene
use networking_game.ServerConnectScene.{ServerConnectScene}
use networking_game.Game.State.{GameScene, Floats}
use networking_game.Game.Chat
use networking_game.Game.Chat.{Keys}
use networking_game.Game.Frame.{click_handler}
use networking_game.MyNetGame.{Scene, menu, connect, game, Environment, Input, key, click, handle}

-- The menu lies at the bottom, the connect scene on it, and the game on top. Two scenes are only to
-- be removed if the game is one of them, and one scene only if it is the menu.
pub data Stacked {F : Type 0} : List (Scene F) → SceneSwitching → Type 0 where
  none_left : Stacked [] idle
  in_menu :
      (m : MenuScene) (sw : SceneSwitching)
      → switch_eq sw remove_2_scenes ≡ false
      → Stacked (menu m ∷ []) sw
  connecting : (s : ServerConnectScene F) (m : MenuScene) → Stacked (connect s ∷ menu m ∷ []) idle
  in_game :
      (g : GameScene F) (s : ServerConnectScene F) (m : MenuScene) (sw : SceneSwitching)
      → switch_eq sw remove_scene ≡ false
      → Stacked (game g ∷ connect s ∷ menu m ∷ []) sw

abbrev pub IsStacked : {F : Type 0} → SceneManager (Scene F) → Type 0
IsStacked m = Stacked m.game_scenes m.scene_switcher

-- The scene at a place of the stack changes, if there is one.
abbrev pub change_at :
    {F : Type 0} → ℕ → (Scene F → Result (Scene F)) → List (Scene F) → Result (List (Scene F))
change_at i f [] = ok []
change_at zero f (s ∷ ss) = f s >>= λ s'. ok (s' ∷ ss)
change_at (suc i) f (s ∷ ss) = change_at i f ss >>= λ ss'. ok (s ∷ ss')

-- A round of the network thread of a game.
pub network : {F : Type 0} → List Text → Scene F → Result (Scene F)
network delivered (game g) = consume_round delivered g.client_component >>= λ r.
    ok (game (record g { client_component = r.0 }))
network delivered other = ok other

-- What a change makes of a scene is a scene of the same class.
abbrev pub SameClass : {F : Type 0} → Scene F → Scene F → Type 0
SameClass (menu m) (menu m') = Unit {0}
SameClass (connect s) (connect s') = Unit {0}
SameClass (game g) (game g') = Unit {0}
SameClass _ _ = ⊥

abbrev pub KeepsClass : {F : Type 0} → (Scene F → Result (Scene F)) → Type 0
KeepsClass {F} f = (s : Scene F) → Ensures (SameClass s) (f s)

pub network-KeepsClass :
    {F : Type 0} (delivered : List Text) → KeepsClass {F = F} (network delivered)
unfolding network
network-KeepsClass delivered (menu m) = tt
network-KeepsClass delivered (connect s) = tt
network-KeepsClass delivered (game g) =
    elim (consume_round delivered g.client_component)
      as (λ r.
        Ensures (SameClass (game g)) (r >>= λ q. ok (game (record g { client_component = q.0 })))) [
          | ok r ↦ tt
          | err e ↦ tt
        ]

-- A result that is passed on inside a constructor.
inside :
    {F : Type 0} {A : Type 0} (P : Scene F → Type 0) (c : A → Scene F) (r : Result A)
    → ((a : A) → P (c a))
    → Ensures P (r >>= λ a. ok (c a))
inside P c (ok a) h = h a
inside P c (err e) h = tt

module _ {F : Type 0} ⦃fl : Floats F⦄ (env : Environment) where
  pub handle-KeepsClass : (k : Keys) (e : Input) → KeepsClass {F = F} (handle env k e)
  unfolding handle
  handle-KeepsClass k (key code action) (menu m) = tt
  handle-KeepsClass k (key code action) (connect s) =
      inside (SameClass (connect s)) connect (ServerConnectScene.key_handler k action code s)
        (λ a. tt)
  handle-KeepsClass k (key code action) (game g) =
      inside (SameClass (game g)) game (Chat.key_handler k action code g) (λ a. tt)
  handle-KeepsClass k (click on x y) (menu m) = tt
  handle-KeepsClass k (click on x y) (connect s) = tt
  handle-KeepsClass k (click on x y) (game g) =
      inside (SameClass (game g)) game (click_handler env.junk_end on x y g) (λ a. tt)

abbrev SameStack : {F : Type 0} → List (Scene F) → List (Scene F) → Type 0
SameStack [] [] = Unit {0}
SameStack (s ∷ ss) (t ∷ ts) = SameClass s t × SameStack ss ts
SameStack _ _ = ⊥

SameClass-refl : {F : Type 0} (s : Scene F) → SameClass s s
SameClass-refl (menu m) = tt
SameClass-refl (connect s) = tt
SameClass-refl (game g) = tt

SameStack-refl : {F : Type 0} (ss : List (Scene F)) → SameStack ss ss
SameStack-refl [] = tt
SameStack-refl (s ∷ ss) = (SameClass-refl s, SameStack-refl ss)

Stacked-SameStack :
    {F : Type 0} (ss ts : List (Scene F)) (sw : SceneSwitching)
    → Stacked ss sw
    → SameStack ss ts
    → Stacked ts sw
Stacked-SameStack _ [] _ none_left e = none_left
Stacked-SameStack _ (menu m' ∷ []) _ (in_menu m sw h) e = in_menu m' sw h
Stacked-SameStack _ (connect s' ∷ menu m' ∷ []) _ (connecting s m) e = connecting s' m'
Stacked-SameStack _ (game g' ∷ connect s' ∷ menu m' ∷ []) _ (in_game g s m sw h) e =
    in_game g' s' m' sw h
Stacked-SameStack _ _ _ none_left e = ground arith
Stacked-SameStack _ _ _ (in_menu m sw h) e = ground arith
Stacked-SameStack _ _ _ (connecting s m) e = ground arith
Stacked-SameStack _ _ _ (in_game g s m sw h) e = ground arith

module _ {F : Type 0} (f : Scene F → Result (Scene F)) (keeps : KeepsClass f) where
  change_at-SameStack : (i : ℕ) (ss : List (Scene F)) → Ensures (SameStack ss) (change_at i f ss)
  change_at-SameStack i [] = tt
  change_at-SameStack zero (s ∷ ss) = elim (Result-cases (f s)) [
    | inl (s', e) ↦ rw e (Ensures-ok (SameClass s) (f s) s' e (keeps s), SameStack-refl ss)
    | inr (x, e) ↦ rw e tt
  ]
  change_at-SameStack (suc i) (s ∷ ss) = elim (Result-cases (change_at i f ss)) [
    | inl (ts, e) ↦ rw e (
      SameClass-refl s,
      Ensures-ok (SameStack ss) (change_at i f ss) ts e (change_at-SameStack i ss),
    )
    | inr (x, e) ↦ rw e tt
  ]

  -- A change of one scene keeps the shape.
  pub change_at-Stacked :
      (i : ℕ) (ss ts : List (Scene F)) (sw : SceneSwitching)
      → Stacked ss sw
      → change_at i f ss ≡ ok ts
      → Stacked ts sw
  change_at-Stacked i ss ts sw h e =
      Stacked-SameStack ss ts sw h
        (Ensures-ok (SameStack ss) (change_at i f ss) ts e (change_at-SameStack i ss))
