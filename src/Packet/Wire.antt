-- ===== src/Packet/Wire.antt =====
-- The wire form of a packet.
use networking_game.Base.{[], ◌∷◌, ◌++◌, arith, length, length-append, ok, ◌≡◌}
use networking_game.Text.{Text, Lacks, cut-append}
use networking_game.Packet.{CustomPacket, encode, decode, read_c_string}

read_c_string-append : (a r : Text) → Lacks 0 a → read_c_string (a ++ 0 ∷ r) ≡ ok (a, r)
unfolding read_c_string
read_c_string-append a r h = rw (cut-append 0 a r h, read_c_string)

-- No text of the packet holds a zero byte.
pub record IsPrintable (p : CustomPacket) : Type 0 where
  pub type_lacks : Lacks 0 p.type
  pub username_lacks : Lacks 0 p.username
  pub msg_text_lacks : Lacks 0 p.msg_text

-- A packet whose texts hold no zero byte is read back from its wire form, and the size that is
-- reported with the wire form is the number of its bytes.
pub decode-encode :
    (p : CustomPacket)
    → IsPrintable p
    → (decode (encode p).0 ≡ ok p) × ((encode p).1 ≡ length (encode p).0)
unfolding decode encode
decode-encode p h = (
  ground (
    arith,
    read_c_string-append p.type (p.username ++ 0 ∷ (p.msg_text ++ 0 ∷ [])) h.type_lacks,
    read_c_string-append p.username (p.msg_text ++ 0 ∷ []) h.username_lacks,
    read_c_string-append p.msg_text [] h.msg_text_lacks,
  ),
  omega (
    arith,
    length-append p.type (0 ∷ (p.username ++ 0 ∷ (p.msg_text ++ 0 ∷ []))),
    length-append p.username (0 ∷ (p.msg_text ++ 0 ∷ [])),
    length-append p.msg_text (0 ∷ []),
  ),
)
