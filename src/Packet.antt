-- ===== src/Packet.antt =====
-- Source/Common/CustomPacket.cpp and CustomPacket.h: a packet, its wire form, and the unit data
-- that a packet of type "unit" carries in its message.
pub mod Wire
pub mod UnitData
use networking_game.Base.{
  ℕ, zero, suc, ◌+◌, [], ◌∷◌, ◌++◌, List, Option, none, some, ◌==◌, if◌then◌else◌, length, ℤ,
  Result, ok, err, ◌>>=◌, unterminated, empty_container, take_front, ◌≡◌, refl, pos, negsuc,
}
use networking_game.Text.{Text, codes, cut}
use networking_game.Text.Decimal.{stoi}

-- `type`, `username`, `msg_text`
pub record CustomPacket : Type 0 where
  pub type : Text
  pub username : Text
  pub msg_text : Text

-- The constructor CustomPacket(classifier, usr, msg).
abbrev pub packet : Text → Text → Text → CustomPacket
packet classifier usr msg = record { type = classifier; username = usr; msg_text = msg }

-- `CustomPacket::data`: the bytes of the new array, and `size`. A text is copied with the zero that
-- ends it.
unfoldable pub encode : CustomPacket → Text × ℕ
encode p =
    let type_length = length p.type + 1 in
    let username_length = length p.username + 1 in
    let msg_length = length p.msg_text + 1 in
    (
      p.type ++ 0 ∷ (p.username ++ 0 ∷ (p.msg_text ++ 0 ∷ [])),
      type_length + username_length + msg_length,
    )

-- A C string is read up to its zero; a buffer that holds none is read past its end.
read_c_string : Text → Result (Text × Text)
read_c_string b = elim (cut 0 b) [ none ↦ err unterminated | some r ↦ ok r ]

-- The constructor CustomPacket(char*). Each text starts behind the zero of the one before it.
unfoldable pub decode : Text → Result CustomPacket
unfolding read_c_string
decode buffer = do
  (type, rest) ← read_c_string buffer
  (username, rest2) ← read_c_string rest
  (msg_text, rest3) ← read_c_string rest2
  ok (packet type username msg_text)

-- The five values that `unitDataDeciper` returns through its references.
pub record Deciphered : Type 0 where
  pub unit_name : Text
  pub x_pos : ℤ
  pub y_pos : ℤ
  pub squad_size : ℤ
  pub unit_hp : ℤ

-- The `while` loop that cuts the message at each `&` and queues the pieces; what follows the last
-- `&` is dropped. Each round shortens the text, so its length is fuel enough.
pieces : ℕ → Text → List Text
pieces zero s = []
pieces (suc fuel) s = elim (cut b'&' s) [
  | none ↦ []
  | some (piece, rest) ↦ piece ∷ pieces fuel rest
]

-- `std::stoi(results.front()); results.pop();`
number : List Text → Result (ℤ × List Text)
number results = do (front, rest) ← take_front results; n ← stoi front; ok (n, rest)

-- `CustomPacket::unitDataDeciper`
unfoldable pub unit_data_deciper : CustomPacket → Result Deciphered
unfolding pieces number
unit_data_deciper p = do
  (unit_name, results) ← take_front (pieces (suc (length p.msg_text)) p.msg_text)
  (x_pos, results1) ← number results
  (y_pos, results2) ← number results1
  (squad_size, results3) ← number results2
  (unit_hp, results4) ← number results3
  ok (record {
    unit_name = unit_name;
    x_pos = x_pos;
    y_pos = y_pos;
    squad_size = squad_size;
    unit_hp = unit_hp;
  })
