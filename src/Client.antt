-- ===== src/Client.antt =====
-- Source/Client/ClientNetworking.cpp and ClientNetworking.h: the client's end of the connection.
-- The queues are lists, the front first; a mutex makes each function below one step. What the
-- library enet does (`client.connect`, `disconnect`, the events themselves) is not modelled: the
-- data that it delivers is an argument, and the data that it is handed is a result.
pub mod Dispatch
pub mod Round
pub mod Loop
use networking_game.Base.{
  ◌&&◌, ℕ, zero, suc, List, [], ◌∷◌, ◌++◌, Bool, true, false, not, if◌then◌else◌, ℤ, pos, negsuc,
  Result, ok, err, ◌>>=◌, take_front, length,
}
use networking_game.Text.{Text, codes, text_eq}
use networking_game.Text.Decimal.{stoi}
use networking_game.Packet.{CustomPacket, encode, decode}

pub record ClientComponent : Type 0 where
  pub kill_thread : Bool
  pub is_lobby : Bool
  pub is_reconnecting : Bool
  pub data_sender : Bool
  pub ready_to_send : Bool
  pub player_turn : ℤ
  pub assigned_player : ℤ
  pub update_complete : Bool
  pub connecting_ip : Text
  pub username : Text
  pub user_id : ℤ
  pub chat_recieved_queue : List CustomPacket
  pub sending_queue : List CustomPacket
  pub unit_update_queue : List CustomPacket
  pub recieved_queue : List CustomPacket

-- The values that the members start with, and `setIp`.
abbrev pub fresh : Text → ClientComponent
fresh ip = record {
  kill_thread = false;
  is_lobby = true;
  is_reconnecting = false;
  data_sender = false;
  ready_to_send = false;
  player_turn = negsuc 0;
  assigned_player = negsuc 0;
  update_complete = false;
  connecting_ip = ip;
  username = [];
  user_id = negsuc 0;
  chat_recieved_queue = [];
  sending_queue = [];
  unit_update_queue = [];
  recieved_queue = [];
}

-- The functions of the header that set one member.
abbrev pub set_user_id : ℤ → ClientComponent → ClientComponent
set_user_id id c = record c { user_id = id }

abbrev pub set_username : Text → ClientComponent → ClientComponent
set_username str c = record c { username = str }

abbrev pub kill_thread : ClientComponent → ClientComponent
kill_thread c = record c { kill_thread = true }

abbrev pub reset_ready_to_send : ClientComponent → ClientComponent
reset_ready_to_send c = record c { ready_to_send = false }

abbrev pub reset_update_complete : ClientComponent → ClientComponent
reset_update_complete c = record c { update_complete = false }

-- `sending_queue.push` between `lock` and `unlock`
abbrev pub send : CustomPacket → ClientComponent → ClientComponent
send p c = record c { sending_queue = c.sending_queue ++ p ∷ [] }

-- `ClientComponent::on_data`
unfoldable pub on_data : Text → ClientComponent → Result ClientComponent
on_data data_in c = do
  msg ← decode data_in
  ok (record c { recieved_queue = c.recieved_queue ++ msg ∷ [] })

-- The branch for packets of type "reconnect".
reconnect : Text → ClientComponent → ClientComponent
reconnect msg c =
    if text_eq msg (codes "true")
    then record c { is_reconnecting = true; is_lobby = false }
    else if text_eq msg (codes "false")
    then record c { is_reconnecting = false; data_sender = false }
    else c

-- `ClientComponent::processRecievedPackets`
unfoldable pub process_recieved_packets : CustomPacket → ClientComponent → Result ClientComponent
unfolding reconnect
process_recieved_packets msg c =
    if text_eq msg.type (codes "chat")
    then ok (record c { chat_recieved_queue = c.chat_recieved_queue ++ msg ∷ [] })
    else if text_eq msg.type (codes "init")
    then (stoi msg.msg_text >>= λ n. ok (record c { user_id = n }))
    else if text_eq msg.type (codes "unit")
    then ok (record c { unit_update_queue = c.unit_update_queue ++ msg ∷ [] })
    else if text_eq msg.type (codes "turn")
    then (stoi msg.msg_text >>= λ n. ok (record c { player_turn = n }))
    else if text_eq msg.type (codes "player")
    then (stoi msg.msg_text >>= λ n. ok (record c { assigned_player = n }))
    else if text_eq msg.type (codes "reconnect")
    then ok (reconnect msg.msg_text c)
    else if text_eq msg.type (codes "start")
    then ok (record c { is_lobby = false })
    else if text_eq msg.type (codes "data_sender")
    then ok (record c { data_sender = true; is_reconnecting = true })
    else if text_eq msg.type (codes "ready")
    then ok (record c { ready_to_send = true })
    else if text_eq msg.type (codes "update_complete")
    then ok (record c { update_complete = true })
    else ok c

-- `ClientComponent::sendFrontOfQueue`: the packet leaves the queue, and its bytes and their number
-- go to `client.send_packet`.
unfoldable pub send_front_of_queue : ClientComponent → Result (ClientComponent × (Text × ℕ))
send_front_of_queue c = do
  (msg, rest) ← take_front c.sending_queue
  ok (record c { sending_queue = rest }, encode msg)

-- The events of one `client.consume_events`: `on_data` for each delivered block of bytes.
unfoldable pub consume : List Text → ClientComponent → Result ClientComponent
unfolding on_data
consume [] c = ok c
consume (d ∷ ds) c = on_data d c >>= consume ds

-- The loop `while (recieved_queue.size())`. Nothing is added to the queue meanwhile (the thread
-- that fills it is this one), so the queue's length is fuel enough.
pub process_all : ℕ → ClientComponent → Result ClientComponent
process_all zero c = ok c
process_all (suc fuel) c = elim c.recieved_queue [
  | [] ↦ ok c
  | front ∷ rest ↦ process_recieved_packets front c >>= λ c'.
      process_all fuel (record c' { recieved_queue = rest })
]

-- The loop `while (sending_queue.size())`, with the data handed to the library.
pub send_all : ℕ → ClientComponent → Result (ClientComponent × List (Text × ℕ))
send_all zero c = ok (c, [])
send_all (suc fuel) c = elim c.sending_queue [
  | [] ↦ ok (c, [])
  | msg ∷ rest ↦ send_front_of_queue c >>= λ r. send_all fuel r.0 >>= λ s. ok (s.0, r.1 ∷ s.1)
]

-- One round of the loop in `ClientComponent::consumeEvents`.
unfoldable pub consume_round :
    List Text → ClientComponent → Result (ClientComponent × List (Text × ℕ))
unfolding process_all send_all
consume_round delivered c = do
  c1 ← consume delivered c
  c2 ← process_all (length c1.recieved_queue) c1
  send_all (length c2.sending_queue) c2

-- `ClientComponent::consumeEvents`. Each round is given whether the library is still connecting or
-- connected, and what it delivers; the last one that is given is where the view ends. An exception
-- in a round ends the loop; what is sent before it stays sent.
unfoldable pub consume_events :
    List (Bool × List Text) → ClientComponent → List (Text × ℕ) × Result ClientComponent
unfolding consume_round
consume_events [] c = ([], ok c)
consume_events ((connected, delivered) ∷ rounds) c =
    if connected && not c.kill_thread
    then (elim (consume_round delivered c) [
      | ok (c', sent) ↦ let rest = consume_events rounds c' in (sent ++ rest.0, rest.1)
      | err e ↦ ([], err e)
    ])
    else ([], ok c)
