-- ===== src/Server/Relay.antt =====
-- What the server passes on.
use networking_game.Base.{
  ℕ, List, [], ◌∷◌, ◌++◌, ◌≡◌, refl, sym, subst, append-nil, ap, ◌∙◌, Bool, true, false, ◌||◌,
  if◌then◌else◌, Result, ok, err, ◌>>=◌, Bool-cases, inl, inr,
}
use networking_game.Text.{Text, codes, text_eq, text_eq_iff}
use networking_game.Packet.{CustomPacket, packet, encode}
use networking_game.Packet.Wire.{IsPrintable, decode-encode}
use networking_game.Server.{Send, to_all_if, others, to_both, resume, forward, on_client_data}

-- The types of packets that one player sends to the other.
abbrev pub relayed : Text → Bool
relayed t =
    text_eq t (codes "chat")
    || (text_eq t (codes "unit")
        || (text_eq t (codes "turn")
            || (text_eq t (codes "player") || text_eq t (codes "update_complete"))))

-- The five tests and the sixth one, on a type that equals at most one of the six texts.
abbrev branches : Text → List Send → Result (List Send) → Result (List Send)
branches t f r = do
  resumed ← if text_eq t (codes "resume") then r else ok []
  ok (
      (if text_eq t (codes "chat") then f else [])
      ++ ((if text_eq t (codes "unit") then f else [])
          ++ ((if text_eq t (codes "turn") then f else [])
              ++ ((if text_eq t (codes "player") then f else [])
                  ++ (if text_eq t (codes "update_complete") then f else []))))
      ++ resumed)

abbrev Agrees : List Send → Result (List Send) → Text → Type 0
Agrees f r t =
    branches t f r ≡ (if relayed t then ok f else if text_eq t (codes "resume") then r else ok [])

-- The claim at a type is the claim at the text that the type equals.
at_text :
    (f : List Send) (r : Result (List Send)) (t s : Text)
    → text_eq t s ≡ true
    → Agrees f r s
    → Agrees f r t
at_text f r t s h a = subst (Agrees f r) (sym ((text_eq_iff t s).0 h)) a

resumed_only :
    (b : Bool) (r : Result (List Send))
    → ((if b then r else ok []) >>= λ x. ok x) ≡ (if b then r else ok [])
resumed_only true (ok x) = refl
resumed_only true (err e) = refl
resumed_only false r = refl

branches_lem : (t : Text) (f : List Send) (r : Result (List Send)) → Agrees f r t
unfolding text_eq
branches_lem t f r = elim (Bool-cases (text_eq t (codes "chat"))) [
  | inl h ↦ at_text f r t (codes "chat") h (simp append-nil)
  | inr h1 ↦ elim (Bool-cases (text_eq t (codes "unit"))) [
    | inl h ↦ at_text f r t (codes "unit") h (simp append-nil)
    | inr h2 ↦ elim (Bool-cases (text_eq t (codes "turn"))) [
      | inl h ↦ at_text f r t (codes "turn") h (simp append-nil)
      | inr h3 ↦ elim (Bool-cases (text_eq t (codes "player"))) [
        | inl h ↦ at_text f r t (codes "player") h (simp append-nil)
        | inr h4 ↦ elim (Bool-cases (text_eq t (codes "update_complete"))) [
          | inl h ↦ at_text f r t (codes "update_complete") h (simp append-nil)
          | inr h5 ↦ rw (h1, h2, h3, h4, h5) (resumed_only (text_eq t (codes "resume")) r)
        ]
      ]
    ]
  ]
]

-- A printable packet from a client is passed on, byte for byte and once, to all others, if its type
-- is "chat", "unit", "turn", "player" or "update_complete". A packet "resume" is answered with the
-- end of the reconnection to the first two clients, which fails with fewer than two. Any other
-- packet makes the server send nothing.
pub on_client_data_lem :
    (clients : List ℕ) (client : ℕ) (p : CustomPacket)
    → IsPrintable p
    → on_client_data clients client (encode p).0 ≡ (
        if relayed p.type
        then ok (to_all_if (encode p) (others client) ∷ [])
        else if text_eq p.type (codes "resume")
        then to_both clients (packet (codes "reconnect") [] (codes "false"))
        else ok [])
unfolding on_client_data forward resume
on_client_data_lem clients client p h = rw (decode-encode p h).0 (
    branches_lem p.type (forward client (encode p).0) (resume clients)
    ∙ ap answer (sym (decode-encode p h).1))
  where
    answer : ℕ → Result (List Send)
    answer n =
        if relayed p.type
        then ok (to_all_if ((encode p).0, n) (others client) ∷ [])
        else if text_eq p.type (codes "resume")
        then resume clients
        else ok []
