-- ===== src/Match/Typing.antt =====
-- A key: all that the other player can get of it is a line of the chat.
use networking_game.Base.{
  ℕ, ◌≡◌, refl, sym, ap, ◌∙◌, subst, not, ◌&&◌, ◌||◌, ◌==◌, if◌then◌else◌, List, [], ◌∷◌, ok, ◌>>=◌,
  All, append-nil, Bool-cases, inl, inr, ok-injective, length, >>=-eq-ok,
}
use networking_game.Text.{Text, codes, text_eq}
use networking_game.Packet.{CustomPacket, packet}
use networking_game.Game.State.{GameScene, SceneTransitions, to_menu}
use networking_game.Game.Turn.Handover.{queue}
use networking_game.Game.Chat.{Keys, press_key, pop_back, process_string, type_key, key_handler}
use networking_game.Match.Calm.{trifles}

module _ {F : Type 0} where
  -- Some chat packets are queued, and else nothing changes that has to do with the other player.
  abbrev pub Spoken : GameScene F → GameScene F → Type 0
  Spoken g k =
      (said : List CustomPacket) × All (λ p. p.type ≡ codes "chat") said
      × (k ≡ queue said (trifles g k))

  silent : (g k : GameScene F) → k ≡ trifles g k → Spoken g k
  silent g k e = (
    [],
    tt,
    e
        ∙ ap
            (λ q. record (trifles g k) {
              client_component = record ((trifles g k).client_component) { sending_queue = q };
            })
            (sym (append-nil g.client_component.sending_queue)),
  )

  process_string-Spoken :
      (s : Text) (g : GameScene F) → Spoken g (record (process_string s g) { chat_str = [] })
  unfolding process_string
  process_string-Spoken s g = elim (Bool-cases (text_eq g.client_component.username [])) [
    | inl e ↦ silent g _ (rw e)
    | inr e ↦ (packet (codes "chat") g.client_component.username s ∷ [], (refl, tt), rw e)
  ]

  press_key-Spoken :
      (k : Keys) (key : ℕ) (g g' : GameScene F) → press_key k key g ≡ ok g' → Spoken g g'
  unfolding press_key
  press_key-Spoken k key g g' h =
      elim (Bool-cases
        (key == k.key_delete || key == k.key_backspace && not (length g.chat_str == 0))) [
          | inl e ↦
              let deleted : (pop_back g.chat_str >>= λ s. ok (record g { chat_str = s })) ≡ ok g' =
                rw e at h in
              let (s, popped, out) =
                >>=-eq-ok (pop_back g.chat_str) (λ s. ok (record g { chat_str = s })) g' deleted in
              subst (Spoken g) (ok-injective (record g { chat_str = s }) g' out)
                (silent g (record g { chat_str = s }) refl)
          | inr n ↦ elim (Bool-cases (key == k.key_enter)) [
            | inl e ↦
                let j = record (process_string g.chat_str g) { chat_str = [] } in
                let out : ok j ≡ ok g' = rw (n, e) at h in
                subst (Spoken g) (ok-injective j g' out) (process_string-Spoken g.chat_str g)
            | inr m ↦
                let j = record g { chat_str = type_key key g.chat_str } in
                let out : ok j ≡ ok g' = rw (n, m) at h in
                subst (Spoken g) (ok-injective j g' out) (silent g j refl)
          ]
        ]

  pub key_handler-Spoken :
      (k : Keys) (action key : ℕ) (g g' : GameScene F)
      → key_handler k action key g ≡ ok g'
      → Spoken g g'
  unfolding key_handler
  key_handler-Spoken k action key g g' h = elim (Bool-cases (key == k.key_escape)) [
    | inl e ↦ after_escape to_menu (rw e at h)
    | inr e ↦ after_escape g.next_scene (rw e at h)
  ]
    where
      after_escape :
          (n : SceneTransitions)
          → (if g.last_scene
                && not g.client_component.is_lobby
                && not g.client_component.is_reconnecting
                && g.scene_full_init
                && action == k.key_pressed
              then press_key k key (record g { next_scene = n })
              else ok (record g { next_scene = n }))
            ≡ ok g'
          → Spoken g g'
      after_escape n out =
          elim (Bool-cases (
            g.last_scene
            && not g.client_component.is_lobby
            && not g.client_component.is_reconnecting
            && g.scene_full_init
            && action == k.key_pressed)) [
              | inl e ↦
                  let (said, chat, same) =
                    press_key-Spoken k key (record g { next_scene = n }) g' (rw e at out) in
                  (said, chat, same)
              | inr e ↦
                  let j = record g { next_scene = n } in
                  let none : ok j ≡ ok g' = rw e at out in
                  subst (Spoken g) (ok-injective j g' none) (silent g j refl)
            ]
