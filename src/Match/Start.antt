-- ===== src/Match/Start.antt =====
-- How a match begins: two players, whom the server has told their sides and to start.
use networking_game.Base.{
  ◌≡◌, sym, append-nil, ◌∙◌, ap, ◌>>=◌, false, refl, arith, List, [], ◌∷◌, ℤ, pos, rem, ok,
}
use networking_game.Text.{Text, text_eq}
use networking_game.Text.Decimal.{stoi, to_string}
use networking_game.Sprite.{Sprite}
use networking_game.UnitType.{UnitType, Member}
use networking_game.Squad.{SquadUnit}
use networking_game.Client.{ClientComponent, fresh, consume_round, process_recieved_packets}
use networking_game.Client.Round.{
  wire, wire_bytes, with_sending, with_recieved, process_each, consume_round_lem,
}
use networking_game.Packet.Wire.{IsPrintable}
use networking_game.Text.Decimal.RoundTrip.{InInt, to_string-Lacks, stoi-to_string}
use networking_game.Server.Session.{init_packet, start_packet}
use networking_game.Game.State.{Slot, Floats}
use networking_game.Game.Setup.{init_units, new_scene}
use networking_game.Game.Network.Begin.{joined-InTurn}
use networking_game.Game.Frame.{assign_team}
use networking_game.Game.Network.Names.{Fits}
use networking_game.Match.{Player}
use networking_game.Match.Exclusion.{Begun}

-- The client of a new game, when it has been told its side and to start.
abbrev started : Text → ℤ → ClientComponent
started ip side = record (fresh ip) { user_id = side; is_lobby = false }

-- The packets of a side are printable, and the number in them is read back.
side_lem :
    (side : ℤ) → InInt side → IsPrintable (init_packet side) × (stoi (to_string side) ≡ ok side)
side_lem side fits = (
  record {
    type_lacks = omega arith;
    username_lacks = tt;
    msg_text_lacks = to_string-Lacks 0 refl (omega arith) side;
  },
  ap stoi (sym (append-nil (to_string side))) ∙ stoi-to_string side [] fits tt,
)

start_round :
    (ip : Text) (side : ℤ)
    → InInt side
    → consume_round (wire_bytes (init_packet side ∷ start_packet ∷ [])) (fresh ip)
      ≡ ok (started ip side, [])
unfolding process_recieved_packets text_eq
start_round ip side fits =
    let (printable, read) = side_lem side fits in
    consume_round_lem (init_packet side ∷ start_packet ∷ []) (fresh ip) (
      printable,
      (record { type_lacks = omega arith; username_lacks = tt; msg_text_lacks = tt }, tt),
    )
    ∙ ap (λ r. r >>= λ c. ok (with_sending [] (with_recieved [] c), wire c.sending_queue))
        (processed read)
  where
    processed :
        stoi (to_string side) ≡ ok side
        → process_each (init_packet side ∷ start_packet ∷ []) (fresh ip) ≡ ok (started ip side)
    processed e = rw e

module _ {F : Type 0} ⦃fl : Floats F⦄ where
  -- A player with a new scene over the client, once a frame has given a team.
  abbrev pub player : (Text → Sprite) → (Slot → SquadUnit) → Text → ClientComponent → Player F
  player loaded units ip c = record {
    scene = assign_team (record (new_scene loaded ip units) { client_component = c });
    inbox = [];
  }

  -- Two clients on computers with the same file of units, whose figures an `int` holds. The one gets
  -- the packets of side 0 and the start, the other one those of side 1 and the start. Each takes them
  -- in, in one round, and sends nothing; and when the two games have given their players the teams,
  -- the match has begun.
  pub players-Begun :
      (loaded : Text → Sprite) (members : List Member) (old_types types : List UnitType)
      (units : Slot → SquadUnit) (ip other_ip : Text)
      → init_units loaded members old_types ≡ ok (types, units)
      → ((s : Slot) → Fits (units s))
      → (c : ClientComponent) × (d : ClientComponent) × (consume_round
            (wire_bytes (init_packet (pos 0) ∷ start_packet ∷ []))
            (fresh ip)
          ≡ ok (c, []))
        × (consume_round (wire_bytes (init_packet (pos 1) ∷ start_packet ∷ [])) (fresh other_ip)
            ≡ ok (d, []))
        × Begun
            (record { first = player loaded units ip c; second = player loaded units other_ip d })
  unfolding assign_team rem
  players-Begun loaded members old_types types units ip other_ip made fits =
      let (_, _, _, i) =
        joined-InTurn {F = F} loaded members old_types types units ip other_ip made fits in
      (
        started ip (pos 0),
        started other_ip (pos 1),
        start_round ip (pos 0) (omega arith),
        start_round other_ip (pos 1) (omega arith),
        record {
          first_team = refl;
          second_team = refl;
          first_turn = refl;
          agreed = record {
            turn = i.turn;
            finished = i.finished;
            winner = i.winner;
            units = i.units;
            names = i.names;
            other_names = i.other_names;
            fits = i.fits;
          };
          none_selected = λ s. refl;
          first_lobby = refl;
          second_lobby = refl;
          first_back = refl;
          second_back = refl;
          first_rest = record { recieved = refl; unsent = refl; unread = refl };
          second_rest = record { recieved = refl; unsent = refl; unread = refl };
          first_inbox = refl;
          second_inbox = refl;
        },
      )
