-- ===== src/Server.antt =====
-- Source/Server/Server.cpp, ServerNetworking.cpp and ServerNetworking.h: the server that relays
-- packets between the players. What it asks of the library enetpp is an argument (the connected
-- clients, by their ids, in the library's order) or a result (the packets that it sends). Lines for
-- the console are left out.
pub mod Relay
pub mod Session
use networking_game.Base.{
  ℕ, zero, suc, ◌+◌, ◌%◌, ◌^◌, List, [], ◌∷◌, ◌++◌, Bool, true, false, not, ◌&&◌, ◌||◌, leb, ◌==◌,
  if◌then◌else◌, ℤ, pos, negsuc, Result, ok, err, bad_index, ◌>>=◌, length,
}
use networking_game.Text.{Text, codes, text_eq}
use networking_game.Text.Decimal.{to_string}
use networking_game.Packet.{CustomPacket, packet, encode, decode}

-- `game_active`, and `next_uid` (an unsigned int). The header declares `next_uid` static, so each of
-- the two .cpp files has a variable of its own: the ids are taken from that of ServerNetworking.cpp,
-- `component_next_uid`, and `onClientDisconnect` writes to that of Server.cpp, `next_uid`.
pub record Server : Type 0 where
  pub game_active : Bool
  pub next_uid : ℕ
  pub component_next_uid : ℕ

abbrev pub fresh : Server
fresh = record { game_active = false; next_uid = 0; component_next_uid = 0 }

-- A call of `send_packet_to` (an id and the bytes) or of `send_packet_to_all_if` (the bytes and the
-- test that chooses the clients).
pub data Send : Type 0 where
  to : ℕ → Text × ℕ → Send
  to_all_if : Text × ℕ → (ℕ → Bool) → Send

-- The function that the library calls for a new client: the client gets the next id.
unfoldable pub init_client : Server → ℕ × Server
init_client s =
    (s.component_next_uid, record s { component_next_uid = (s.component_next_uid + 1) % 2 ^ 32 })

-- `clients[i]`, undefined outside the vector
abbrev pub client_at : List ℕ → ℕ → Result ℕ
client_at [] i = err bad_index
client_at (c ∷ cs) zero = ok c
client_at (c ∷ cs) (suc i) = client_at cs i

-- The test `destination.get_id() != client.get_id()`
abbrev pub others : ℕ → ℕ → Bool
others client destination = not (destination == client)

-- Forwarding to everybody but the sender: the five equal branches of `onClientData`.
forward : ℕ → Text → List Send
forward client data_in = to_all_if (data_in, length data_in) (others client) ∷ []

-- One packet to each of the first two clients.
pub to_both : List ℕ → CustomPacket → Result (List Send)
to_both clients p = do
  first ← client_at clients 0
  second ← client_at clients 1
  ok (to first (encode p) ∷ to second (encode p) ∷ [])

-- The branch of `onClientData` for packets of type "resume".
resume : List ℕ → Result (List Send)
unfolding to_both
resume clients = to_both clients (packet (codes "reconnect") [] (codes "false"))

-- The forwarding branches of `onClientData`, one after the other.
forward_if : Text → CustomPacket → ℕ → Text → List Send
unfolding forward
forward_if t msg client data_in = if text_eq msg.type t then forward client data_in else []

-- `Server::onClientData`. The state of the server stays as it is.
unfoldable pub on_client_data : List ℕ → ℕ → Text → Result (List Send)
unfolding forward_if resume
on_client_data clients client data_in = do
  msg ← decode data_in
  let sent =
      forward_if (codes "chat") msg client data_in
      ++ (forward_if (codes "unit") msg client data_in
          ++ (forward_if (codes "turn") msg client data_in
              ++ (forward_if (codes "player") msg client data_in
                  ++ forward_if (codes "update_complete") msg client data_in)))
  resumed ← if text_eq msg.type (codes "resume") then resume clients else ok []
  ok (sent ++ resumed)

-- Whether another client has an even id: the loop of `assignClientLocalID`.
even_check : ℕ → List ℕ → Bool
even_check client [] = false
even_check client (c ∷ cs) = (c % 2 == 0 && not (c == client)) || even_check client cs

-- The id that `assignClientLocalID` hands out, and the packet with it.
unfoldable pub local_id : List ℕ → ℕ → ℤ
unfolding even_check
local_id clients client = if even_check client clients then pos 1 else pos 0

unfoldable pub assign_client_local_id : List ℕ → ℕ → Send
unfolding local_id
assign_client_local_id clients client =
    to client (encode (packet (codes "init") [] (to_string (local_id clients client))))

-- `Server::onClientConnect`
unfoldable pub on_client_connect : List ℕ → ℕ → Server → Result (Server × List Send)
unfolding assign_client_local_id to_both
on_client_connect clients client s =
    if not s.game_active
    then (let init = assign_client_local_id clients client in
        if leb 2 (length clients)
        then (to_both clients (packet (codes "start") [] []) >>= λ start.
            ok (record s { game_active = true }, init ∷ start))
        else ok (s, init ∷ []))
    else ok (
      s,
      to client (encode (packet (codes "reconnect") [] (codes "true")))
          ∷ to_all_if (encode (packet (codes "ready") [] [])) (others client)
          ∷ [],
    )

-- `Server::onClientDisconnect`: what the library still lists as connected is the argument.
unfoldable pub on_client_disconnect : List ℕ → Server → Result (Server × List Send)
on_client_disconnect clients s =
    if s.game_active
    then (if length clients == 0
        then ok (record s { next_uid = 0; game_active = false }, [])
        else client_at clients 0 >>= λ first.
            ok (s, to first (encode (packet (codes "data_sender") [] [])) ∷ []))
    else ok (s, [])
