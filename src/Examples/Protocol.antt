-- ===== src/Examples/Protocol.antt =====
-- The theorems of the packets, the client and the server at concrete inputs.
use networking_game.Base.{
  ◌≡◌, refl, arith, true, [], ◌∷◌, pos, negsuc, ok, err, invalid_argument, out_of_range,
  empty_container, if◌then◌else◌, ◌==◌, ◌%◌, length,
}
use networking_game.Text.{codes, text_eq, cut}
use networking_game.Text.Decimal.{to_string, float_to_string, stoi}
use networking_game.Packet.{CustomPacket, packet, encode, decode, unit_data_deciper}
use networking_game.Packet.Wire.{decode-encode, IsPrintable}
use networking_game.Packet.UnitData.{unit_text, unit_data_deciper-unit_text}
use networking_game.Client.{ClientComponent, consume_events}
use networking_game.Client.Loop.{sent_first, settled, consume_events_lem}
use networking_game.Client
use networking_game.Client.Round.{wire_bytes, process_each}
use networking_game.Client.Dispatch.{Sorted, process_each-Sorted}
use networking_game.Server.{
  Server, to, to_all_if, others, to_both, init_client, on_client_data, on_client_connect,
  on_client_disconnect,
}
use networking_game.Server
use networking_game.Server.Relay.{relayed, on_client_data_lem}
use networking_game.Server.Session.{init_packet, start_packet, two_clients_join}

-- What numbers look like in a message, and what is read out of a message.
printed :
    (to_string (negsuc 199) ≡ codes "-200") × (float_to_string (pos 1120) ≡ codes "1120.000000")
unfolding float_to_string
printed = (refl, refl)

read_back :
    (stoi (codes " -200.000000") ≡ ok (negsuc 199)) × (stoi (codes "x") ≡ err invalid_argument)
unfolding stoi
read_back = (refl, refl)

too_large : stoi (codes "2147483648") ≡ err out_of_range
unfolding stoi
too_large = refl

end_turn :
    unit_data_deciper (packet (codes "unit") [] (codes "endturn&0&-7&0&12&"))
    ≡ ok (record {
      unit_name = codes "endturn";
      x_pos = pos 0;
      y_pos = negsuc 6;
      squad_size = pos 0;
      unit_hp = pos 12;
    })
unfolding unit_data_deciper cut stoi
end_turn = refl

too_few : unit_data_deciper (packet (codes "unit") [] (codes "endturn&0&")) ≡ err empty_container
unfolding unit_data_deciper cut stoi
too_few = refl

abbrev hello : CustomPacket
hello = packet (codes "chat") (codes "bob") (codes "hi")

abbrev tank_moved : CustomPacket
tank_moved = packet (codes "unit") [] (codes "tank_ally&1120.000000&363.000000&1&85&")

hello-IsPrintable : IsPrintable hello
hello-IsPrintable = record {
  type_lacks = omega arith;
  username_lacks = omega arith;
  msg_text_lacks = omega arith;
}

tank_moved-IsPrintable : IsPrintable tank_moved
tank_moved-IsPrintable = record {
  type_lacks = omega arith;
  username_lacks = omega arith;
  msg_text_lacks = omega arith;
}

decode-encode_example :
    (decode (encode hello).0 ≡ ok hello) × ((encode hello).1 ≡ length (encode hello).0)
decode-encode_example = decode-encode hello hello-IsPrintable

unit_data_deciper-unit_text_example :
    unit_data_deciper (
      packet
        (codes "unit")
        []
        (unit_text (codes "tank_ally") (negsuc 199) (pos 3) (negsuc 0) (pos 85)))
    ≡ ok (record {
      unit_name = codes "tank_ally";
      x_pos = negsuc 199;
      y_pos = pos 3;
      squad_size = negsuc 0;
      unit_hp = pos 85;
    })
unit_data_deciper-unit_text_example =
    unit_data_deciper-unit_text (codes "unit") [] (codes "tank_ally") (negsuc 199) (pos 3)
      (negsuc 0) (pos 85) (omega arith) (omega arith) (omega arith) (omega arith) (omega arith)

-- A client with a chat line to send.
abbrev talking : ClientComponent
talking = record (Client.fresh (codes "localhost")) {
  username = codes "eve";
  sending_queue = hello ∷ [];
}

-- The two packets arrive in two rounds.
consume_events_lem_example :
    consume_events
      ((true, wire_bytes (hello ∷ [])) ∷ (true, wire_bytes (tank_moved ∷ [])) ∷ [])
      talking
    ≡ (
      sent_first talking (process_each (hello ∷ []) talking),
      settled (process_each (hello ∷ tank_moved ∷ []) talking),
    )
consume_events_lem_example =
    consume_events_lem (hello ∷ []) ((tank_moved ∷ []) ∷ []) talking (hello-IsPrintable, tt)
      ((tank_moved-IsPrintable, tt), tt) refl refl

process_each-Sorted_example :
    Sorted
      (hello ∷ tank_moved ∷ [])
      talking
      (record talking { chat_recieved_queue = hello ∷ []; unit_update_queue = tank_moved ∷ [] })
unfolding Client.process_recieved_packets text_eq
process_each-Sorted_example =
    process_each-Sorted (hello ∷ tank_moved ∷ []) talking
      (record talking { chat_recieved_queue = hello ∷ []; unit_update_queue = tank_moved ∷ [] })
      refl

on_client_data_lem_example : on_client_data (0 ∷ 1 ∷ []) 1 (encode tank_moved).0 ≡ (
    if relayed tank_moved.type
    then ok (to_all_if (encode tank_moved) (others 1) ∷ [])
    else if text_eq tank_moved.type (codes "resume")
    then to_both (0 ∷ 1 ∷ []) (packet (codes "reconnect") [] (codes "false"))
    else ok [])
on_client_data_lem_example = on_client_data_lem (0 ∷ 1 ∷ []) 1 tank_moved tank_moved-IsPrintable

-- The server after the first client of a session has left again.
abbrev left_alone : Server
left_alone = record Server.fresh { component_next_uid = 1 }

two_clients_join_example :
    let (a, s1) = init_client left_alone in
    let (b, s2) = init_client s1 in
    (on_client_connect (a ∷ []) a s1 ≡ ok (s1, to a (encode (init_packet (pos 0))) ∷ []))
    × (on_client_connect (a ∷ b ∷ []) b s2
        ≡ ok (
          record s2 { game_active = true },
          to b (encode (init_packet (if a % 2 == 0 then pos 1 else pos 0)))
              ∷ to a (encode start_packet)
              ∷ to b (encode start_packet)
              ∷ [],
        ))
two_clients_join_example = two_clients_join left_alone refl
