-- ===== src/Game/Chat/Typing.antt =====
-- What typing does to the chat line, and when it fails.
use networking_game.Base.{
  ℕ, ◌≡◌, refl, ap, ◌∙◌, arith, Bool, true, false, not, ◌&&◌, ◌||◌, [], ◌∷◌, ◌++◌, ◌==◌,
  if◌then◌else◌, ok, err, ◌>>=◌, empty_container, length, Bool-cases, inl, inr,
}
use networking_game.Text.{Text}
use networking_game.Game.State.{GameScene, to_menu}
use networking_game.Game.Chat.{Keys, pop_back, type_key, press_key, key_handler, process_string}

-- `pop_back` takes the last character off, of any text that has one.
pub pop_back-append : (s : Text) (c : ℕ) → pop_back (s ++ c ∷ []) ≡ ok s
unfolding pop_back
pop_back-append [] c = refl
pop_back-append (d ∷ []) c = refl
pop_back-append (d ∷ e ∷ s) c = rw (pop_back-append (e ∷ s) c)

pop_back_total : (s : Text) → (length s == 0) ≡ false → (r : Text) × (pop_back s ≡ ok r)
unfolding pop_back
pop_back_total [] h = cc
pop_back_total (c ∷ []) h = ([], refl)
pop_back_total (c ∷ d ∷ s) h = let (r, e) = pop_back_total (d ∷ s) (ground arith) in (c ∷ r, rw e)

pop_back_empty : (s : Text) → (length s == 0) ≡ true → pop_back s ≡ err empty_container
unfolding pop_back
pop_back_empty [] h = refl
pop_back_empty (c ∷ s) h = absurd (ground arith)

module _ {F : Type 0} where
  -- The keyboard is read by the game.
  abbrev pub listening : Keys → ℕ → GameScene F → Bool
  listening k action g =
      g.last_scene
      && not g.client_component.is_lobby
      && not g.client_component.is_reconnecting
      && g.scene_full_init
      && action == k.key_pressed

  press_key_delete :
      (k : Keys) (key : ℕ) (g : GameScene F)
      → (key == k.key_delete) ≡ true
      → press_key k key g ≡ (pop_back g.chat_str >>= λ s. ok (record g { chat_str = s }))
  unfolding press_key
  press_key_delete k key g e = rw e

  press_key_total :
      (k : Keys) (key : ℕ) (g : GameScene F)
      → (key == k.key_delete && length g.chat_str == 0) ≡ false
      → (g' : GameScene F) × (press_key k key g ≡ ok g')
  unfolding press_key
  press_key_total k key g h =
      elim (Bool-cases
        (key == k.key_delete || key == k.key_backspace && not (length g.chat_str == 0))) [
          | inl e ↦
              let (s, r) = pop_back_total g.chat_str (ground arith) in
              (record g { chat_str = s }, rw (e, r))
          | inr n ↦ elim (Bool-cases (key == k.key_enter)) [
            | inl e ↦ (record (process_string g.chat_str g) { chat_str = [] }, rw (n, e))
            | inr m ↦ (record g { chat_str = type_key key g.chat_str }, rw (n, m))
          ]
        ]

  -- The rest of `keyHandler`, behind the test for the escape key.
  typing :
      (k : Keys) (action key : ℕ) (g : GameScene F)
      → let bad = listening k action g && (key == k.key_delete && length g.chat_str == 0) in
        let r = if listening k action g then press_key k key g else ok g in
        (bad ≡ true → r ≡ err empty_container) × (bad ≡ false → (g' : GameScene F) × (r ≡ ok g'))
  typing k action key g = elim (Bool-cases (listening k action g)) [
    | inl on ↦ rw on (
      λ h.
          let (delete, none_typed) = both (key == k.key_delete) (length g.chat_str == 0) h in
          press_key_delete k key g delete
          ∙ ap (λ r. r >>= λ s. ok (record g { chat_str = s }))
              (pop_back_empty g.chat_str none_typed),
      λ h. press_key_total k key g h,
    )
    | inr off ↦ rw off (λ h. cc, λ h. (g, refl))
  ]
    where
      both : (a b : Bool) → (a && b) ≡ true → (a ≡ true) × (b ≡ true)
      both a b h = ground arith

  -- `keyHandler` fails in one case alone: a game that reads the keyboard is told to delete, and
  -- nothing has been typed. Backspace and all other keys are safe, whatever has been typed.
  pub key_handler_fails :
      (k : Keys) (action key : ℕ) (g : GameScene F)
      → let bad = listening k action g && (key == k.key_delete && length g.chat_str == 0) in
        (bad ≡ true → key_handler k action key g ≡ err empty_container)
        × (bad ≡ false → (g' : GameScene F) × (key_handler k action key g ≡ ok g'))
  unfolding key_handler
  key_handler_fails k action key g = elim (Bool-cases (key == k.key_escape)) [
    | inl e ↦ rw e (typing k action key (record g { next_scene = to_menu }))
    | inr e ↦ rw e (typing k action key g)
  ]
