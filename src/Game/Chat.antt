-- ===== src/Game/Chat.antt =====
-- The chat: `GameScene::keyHandler`, `processString` and `chatUpdate`.
pub mod Typing
use networking_game.Base.{
  ℕ, zero, suc, ◌%◌, not, ◌&&◌, ◌||◌, [], ◌∷◌, ◌++◌, ltb, ◌==◌, if◌then◌else◌, pos, Result, ok, err,
  empty_container, ◌>>=◌, length,
}
use networking_game.Text.{Text, codes, text_eq}
use networking_game.Packet.{packet}
use networking_game.Client.{set_username}
use networking_game.Game.State.{GameScene, Floats, send_packet, to_menu}

-- The numbers that the library gives to the keys and to the state of a pressed one.
pub record Keys : Type 0 where
  pub key_escape : ℕ
  pub key_delete : ℕ
  pub key_backspace : ℕ
  pub key_enter : ℕ
  pub key_pressed : ℕ

-- `std::string::resize` to a smaller size
abbrev pub take : ℕ → Text → Text
take zero s = []
take (suc n) [] = []
take (suc n) (c ∷ s) = c ∷ take n s

-- `pop_back`, which is undefined on an empty string
unfoldable pub pop_back : Text → Result Text
pop_back [] = err empty_container
pop_back (c ∷ []) = ok []
pop_back (c ∷ d ∷ s) = pop_back (d ∷ s) >>= λ r. ok (c ∷ r)

-- The last branch of `keyHandler`: the key's byte, and a line break after each 13th.
pub type_key : ℕ → Text → Text
type_key key chat_str =
    let longer = chat_str ++ (key % 256) ∷ [] in
    if length longer % 13 == 0 then longer ++ codes "\n" else longer

module _ {F : Type 0} where
  -- `processString`. `CustomPacket` has no move constructor (its destructor is declared), so
  -- `std::move` copies, and both queues get the packet.
  unfoldable pub process_string : Text → GameScene F → GameScene F
  process_string str g =
      let c = g.client_component in
      if text_eq c.username []
      then record g {
        client_component = set_username (if ltb 6 (length str) then take 6 str else str) c;
      }
      else let msg = packet (codes "chat") c.username str in
        let g1 = send_packet msg g in
        record g1 {
          client_component = record (g1.client_component) {
            chat_recieved_queue = g1.client_component.chat_recieved_queue ++ msg ∷ [];
          };
        }

  -- What `keyHandler` does with a key that was pressed while the game is on. The test reads
  -- `key == KEY_DELETE || (key == KEY_BACKSPACE && chat_str.size())`.
  unfoldable pub press_key : Keys → ℕ → GameScene F → Result (GameScene F)
  unfolding pop_back process_string type_key
  press_key k key g =
      if key == k.key_delete || key == k.key_backspace && not (length g.chat_str == 0)
      then (pop_back g.chat_str >>= λ s. ok (record g { chat_str = s }))
      else if key == k.key_enter
      then ok (record (process_string g.chat_str g) { chat_str = [] })
      else ok (record g { chat_str = type_key key g.chat_str })

  -- `keyHandler`
  unfoldable pub key_handler : Keys → ℕ → ℕ → GameScene F → Result (GameScene F)
  unfolding press_key
  key_handler k action key g =
      let g1 = if key == k.key_escape then record g { next_scene = to_menu } else g in
      if g1.last_scene
        && not g1.client_component.is_lobby
        && not g1.client_component.is_reconnecting
        && g1.scene_full_init
        && action == k.key_pressed
      then press_key k key g1
      else ok g1

module _ {F : Type 0} ⦃fl : Floats F⦄ where
  -- `chatUpdate`: a message is shown for `msg_duration` seconds, which is 5; `ms` is the count of
  -- the frame's milliseconds.
  unfoldable pub chat_update : F → GameScene F → GameScene F
  chat_update ms g = elim g.client_component.chat_recieved_queue [
    | [] ↦ g
    | front ∷ rest ↦
        if fl.lt (fl.of_int (pos 5)) g.chat_timer
        then record g {
          client_component = record (g.client_component) { chat_recieved_queue = rest };
          chat_timer = fl.of_int (pos 0);
        }
        else record g { chat_timer = fl.add g.chat_timer (fl.div ms (fl.of_int (pos 1000))) }
  ]
