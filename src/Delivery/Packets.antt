-- ===== src/Delivery/Packets.antt =====
-- The packets of a turn are of the type "unit" and printable, so they pass through server and client.
use networking_game.Base.{
  ℕ, ◌≡◌, ◌≢◌, refl, sym, subst, ap, ◌∙◌, arith, ◌⊎◌, inl, inr, Bool, true, false, List, [], ◌∷◌,
  ◌++◌, if◌then◌else◌, ok, ◌>>=◌, ℤ, pos, All, All-append, All-map, append_assoc, append-nil,
}
use networking_game.Text.{Text, codes, text_eq, Lacks}
use networking_game.Text.Decimal.{to_string}
use networking_game.Text.Decimal.RoundTrip.{to_string-Lacks}
use networking_game.Packet.{CustomPacket, encode}
use networking_game.Packet.UnitData.{unit_text-Lacks}
use networking_game.Packet.Wire.{IsPrintable}
use networking_game.Squad.{SquadUnit}
use networking_game.Client.{ClientComponent, process_recieved_packets}
use networking_game.Client.Round.{wire, wire_bytes, process_each}
use networking_game.Server.{Send, to_all_if, others}
use networking_game.Server.Relay.{relayed, on_client_data_lem}
use networking_game.Game.State.{GameScene, Slot, units_vec, turn_eq, player1}
use networking_game.Game.Turn.{unit_packet, end_turn_packet, end_game_packet}
use networking_game.Game.Turn.Handover.{changed_packets, last_packets, won}
use networking_game.Game.Network.Names.{ref_name_of, Named, ref_name_of-Lacks}
use networking_game.Delivery.{relay, reaching}

pub record IsUnitPacket (p : CustomPacket) : Type 0 where
  pub kind : p.type ≡ codes "unit"
  pub printable : IsPrintable p

unit_packet-IsUnitPacket :
    (s : Slot) (u : SquadUnit) → u.ref_name ≡ ref_name_of s → IsUnitPacket (unit_packet u)
unfolding unit_packet
unit_packet-IsUnitPacket s u e = record {
  kind = refl;
  printable = record {
    type_lacks = omega arith;
    username_lacks = tt;
    msg_text_lacks =
        unit_text-Lacks u.ref_name u.object_sprite.x_pos u.object_sprite.y_pos u.squad_size u.health
          (subst (Lacks 0) (sym e) (ref_name_of-Lacks s).1);
  };
}

pub changed_packets-IsUnitPacket :
    (ss : List Slot) (us : Slot → SquadUnit) → Named us → All IsUnitPacket (changed_packets ss us)
changed_packets-IsUnitPacket [] us named = tt
changed_packets-IsUnitPacket (s ∷ ss) us named =
    choose (us s).has_changed (changed_packets-IsUnitPacket ss us named)
  where
    choose :
        (b : Bool)
        → All IsUnitPacket (changed_packets ss us)
        → All IsUnitPacket
            (if b then unit_packet (us s) ∷ changed_packets ss us else changed_packets ss us)
    choose true rest = (unit_packet-IsUnitPacket s (us s) (named s), rest)
    choose false rest = rest

end_turn-IsUnitPacket : IsUnitPacket end_turn_packet
end_turn-IsUnitPacket = record {
  kind = refl;
  printable = record {
    type_lacks = omega arith;
    username_lacks = tt;
    msg_text_lacks = omega arith;
  };
}

end_game-IsUnitPacket : (n : ℤ) → IsUnitPacket (end_game_packet n)
end_game-IsUnitPacket n = record {
  kind = refl;
  printable = record {
    type_lacks = omega arith;
    username_lacks = tt;
    msg_text_lacks =
        All-append (λ c. c ≢ 0) (codes "endgame&" ++ to_string n) (codes "&0&0&0&")
          (All-append (λ c. c ≢ 0) (codes "endgame&") (to_string n) (omega arith)
            (to_string-Lacks 0 refl (omega arith) n))
          (omega arith);
  };
}

-- All packets of a turn.
pub turn-IsUnitPacket :
    {F : Type 0} (g : GameScene F)
    → Named g.units
    → All IsUnitPacket (changed_packets units_vec g.units ++ last_packets false g)
turn-IsUnitPacket g named =
    All-append IsUnitPacket (changed_packets units_vec g.units) (last_packets false g)
      (changed_packets-IsUnitPacket units_vec g.units named) (choose (won g))
  where
    choose :
        (b : Bool)
        → All IsUnitPacket (
            if b
            then end_game_packet (if turn_eq g.assigned_team player1 then pos 1 else pos 2)
              ∷ end_turn_packet
              ∷ []
            else end_turn_packet ∷ [])
    choose true = (
      end_game-IsUnitPacket (if turn_eq g.assigned_team player1 then pos 1 else pos 2),
      (end_turn-IsUnitPacket, tt),
    )
    choose false = (end_turn-IsUnitPacket, tt)

pub All-IsPrintable : (ps : List CustomPacket) → All IsUnitPacket ps → All IsPrintable ps
All-IsPrintable ps h = All-map (λ p u. u.printable) ps h

-- The packets that go from player to player in a game without reconnections.
pub record IsPlayPacket (p : CustomPacket) : Type 0 where
  pub kind : (p.type ≡ codes "unit") ⊎ (p.type ≡ codes "chat")
  pub printable : IsPrintable p

pub All-IsPlayPacket : (ps : List CustomPacket) → All IsUnitPacket ps → All IsPlayPacket ps
All-IsPlayPacket ps h = All-map (λ p u. record { kind = inl u.kind; printable = u.printable }) ps h

play-relayed :
    (p : CustomPacket) → (p.type ≡ codes "unit") ⊎ (p.type ≡ codes "chat") → relayed p.type ≡ true
unfolding text_eq
play-relayed p (inl e) = ap relayed e
play-relayed p (inr e) = ap relayed e

-- The server passes each of them on to the other clients.
abbrev pub relayed_all : ℕ → List CustomPacket → List Send
relayed_all sender [] = []
relayed_all sender (p ∷ ps) = to_all_if (encode p) (others sender) ∷ relayed_all sender ps

pub relay_lem :
    (clients : List ℕ) (sender : ℕ) (ps : List CustomPacket)
    → All IsPlayPacket ps
    → relay clients sender (wire ps) ≡ ok (relayed_all sender ps)
unfolding relay
relay_lem clients sender [] h = refl
relay_lem clients sender (p ∷ ps) h =
    let passed = play-relayed p h.0.kind in
    rw (on_client_data_lem clients sender p h.0.printable, passed, relay_lem clients sender ps h.1)

-- The library brings the sender nothing of them.
pub reaching-none :
    (inbox : ℕ → Send → List Text) (sender : ℕ)
    → ((p : Text × ℕ) → inbox sender (to_all_if p (others sender)) ≡ [])
    → (ps : List CustomPacket) → reaching inbox sender (relayed_all sender ps) ≡ []
reaching-none inbox sender h [] = refl
reaching-none inbox sender h (p ∷ ps) = rw (h (encode p), reaching-none inbox sender h ps)

-- The library brings a client what was sent to it.
pub reaching-relayed_all :
    (inbox : ℕ → Send → List Text) (sender client : ℕ)
    → ((p : Text × ℕ) → inbox client (to_all_if p (others sender)) ≡ p.0 ∷ [])
    → (ps : List CustomPacket) → reaching inbox client (relayed_all sender ps) ≡ wire_bytes ps
reaching-relayed_all inbox sender client h [] = refl
reaching-relayed_all inbox sender client h (p ∷ ps) =
    rw (h (encode p), reaching-relayed_all inbox sender client h ps)

process-unit :
    (p : CustomPacket) (c : ClientComponent)
    → p.type ≡ codes "unit"
    → process_recieved_packets p c
      ≡ ok (record c { unit_update_queue = c.unit_update_queue ++ p ∷ [] })
unfolding process_recieved_packets text_eq
process-unit p c e =
    let chat : text_eq p.type (codes "chat") ≡ false = ap (λ t. text_eq t (codes "chat")) e in
    let init : text_eq p.type (codes "init") ≡ false = ap (λ t. text_eq t (codes "init")) e in
    let unit : text_eq p.type (codes "unit") ≡ true = ap (λ t. text_eq t (codes "unit")) e in
    rw (chat, init, unit)

-- The client puts them into the queue for the units, in order.
pub process_each-units :
    (ps : List CustomPacket) (c : ClientComponent)
    → All IsUnitPacket ps
    → process_each ps c ≡ ok (record c { unit_update_queue = c.unit_update_queue ++ ps })
process_each-units [] c h =
    ap (λ q. ok (record c { unit_update_queue = q })) (sym (append-nil c.unit_update_queue))
process_each-units (p ∷ ps) c h =
    let c1 = record c { unit_update_queue = c.unit_update_queue ++ p ∷ [] } in
    ap (λ r. r >>= process_each ps) (process-unit p c h.0.kind)
    ∙ process_each-units ps c1 h.1
    ∙ ap (λ q. ok (record c { unit_update_queue = q }))
        (append_assoc c.unit_update_queue (p ∷ []) ps)
