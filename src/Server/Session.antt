-- ===== src/Server/Session.antt =====
-- Who plays which side, and how a session starts.
use networking_game.Base.{
  ℕ, ◌+◌, ◌%◌, ◌^◌, [], ◌∷◌, ◌≡◌, ◌≢◌, ◌∙◌, arith, true, false, ◌==◌, if◌then◌else◌, ℤ, pos, ok,
}
use networking_game.Text.{codes}
use networking_game.Text.Decimal.{to_string}
use networking_game.Packet.{CustomPacket, packet, encode}
use networking_game.Server.{
  Server, to, local_id, assign_client_local_id, on_client_connect, init_client,
}

abbrev pub init_packet : ℤ → CustomPacket
init_packet side = packet (codes "init") [] (to_string side)

abbrev pub start_packet : CustomPacket
start_packet = packet (codes "start") [] []

first_id : (a : ℕ) → local_id (a ∷ []) a ≡ pos 0
unfolding local_id
first_id a = ground arith

second_id : (a b : ℕ) → a ≢ b → local_id (a ∷ b ∷ []) b ≡ (if a % 2 == 0 then pos 1 else pos 0)
unfolding local_id
second_id a b h = ground arith

-- Two clients join an idle server one after the other, with no other client connected. The first
-- is told that it has side 0. The second is told side 1 if the first one's id is even, and side 0,
-- the same side, if it is odd; then both are told to start, and the game is active.
pub two_clients_join :
    (s : Server)
    → s.game_active ≡ false
    → let (a, s1) = init_client s in
      let (b, s2) = init_client s1 in
      (on_client_connect (a ∷ []) a s1 ≡ ok (s1, to a (encode (init_packet (pos 0))) ∷ []))
      × (on_client_connect (a ∷ b ∷ []) b s2
          ≡ ok (
            record s2 { game_active = true },
            to b (encode (init_packet (if a % 2 == 0 then pos 1 else pos 0)))
                ∷ to a (encode start_packet)
                ∷ to b (encode start_packet)
                ∷ [],
          ))
unfolding init_client on_client_connect assign_client_local_id
two_clients_join s idle =
    let a = s.component_next_uid in
    let b = (a + 1) % 2 ^ 32 in
    let apart : a ≢ b = omega arith in
    (ground (arith, first_id a), ground (arith, second_id a b apart))

-- So whenever the next id is odd, both clients of the new session are told that they have side 0.
pub both_on_side_0 :
    (s : Server)
    → s.component_next_uid % 2 ≡ 1
    → let (a, s1) = init_client s in
      let (b, s2) = init_client s1 in
      (local_id (a ∷ []) a ≡ pos 0) × (local_id (a ∷ b ∷ []) b ≡ pos 0)
unfolding init_client
both_on_side_0 s odd =
    let a = s.component_next_uid in
    let b = (a + 1) % 2 ^ 32 in
    let apart : a ≢ b = omega arith in (first_id a, second_id a b apart ∙ ground arith)
