-- ===== src/Game/Network/Names.antt =====
-- The names by which the packets tell the units apart, and what a packet about one of them does.
use networking_game.Base.{
  ◌≡◌, refl, sym, ap, ◌∙◌, arith, true, false, List, [], ◌∷◌, subst, Bool-cases, inl, inr, ok,
}
use networking_game.Text.{Text, codes, text_eq, Lacks}
use networking_game.Text.Decimal.RoundTrip.{InInt}
use networking_game.Packet.{Deciphered, unit_data_deciper}
use networking_game.Packet.UnitData.{unit_data_deciper-unit_text}
use networking_game.Squad.{SquadUnit}
use networking_game.Game.State.{
  GameScene, Slot, infantry_enemy, sniper_enemy, artillery_enemy, tank_enemy, infantry_ally,
  sniper_ally, artillery_ally, tank_ally, units_vec, slot_eq, change,
}
use networking_game.Game.State.Slots.{slot_eq_iff}
use networking_game.Game.Turn.{unit_packet}
use networking_game.Game.Turn.Handover.{mem, mem-units_vec}
use networking_game.Game.Network.{take_over, take_over_by_name, apply_update}

-- The names for reference that `initUnits` gives.
abbrev pub ref_name_of : Slot → Text
ref_name_of infantry_enemy = codes "infantry_enemy"
ref_name_of sniper_enemy = codes "sniper_enemy"
ref_name_of artillery_enemy = codes "artillery_enemy"
ref_name_of tank_enemy = codes "tank_enemy"
ref_name_of infantry_ally = codes "infantry_ally"
ref_name_of sniper_ally = codes "sniper_ally"
ref_name_of artillery_ally = codes "artillery_ally"
ref_name_of tank_ally = codes "tank_ally"

abbrev pub Named : (Slot → SquadUnit) → Type 0
Named units = (s : Slot) → (units s).ref_name ≡ ref_name_of s

text_eq-ref_name_of : (s t : Slot) → text_eq (ref_name_of s) (ref_name_of t) ≡ slot_eq s t
unfolding text_eq
text_eq-ref_name_of infantry_enemy infantry_enemy = refl
text_eq-ref_name_of infantry_enemy _ = refl
text_eq-ref_name_of sniper_enemy infantry_enemy = refl
text_eq-ref_name_of sniper_enemy _ = refl
text_eq-ref_name_of artillery_enemy infantry_enemy = refl
text_eq-ref_name_of artillery_enemy _ = refl
text_eq-ref_name_of tank_enemy infantry_enemy = refl
text_eq-ref_name_of tank_enemy _ = refl
text_eq-ref_name_of infantry_ally infantry_enemy = refl
text_eq-ref_name_of infantry_ally _ = refl
text_eq-ref_name_of sniper_ally infantry_enemy = refl
text_eq-ref_name_of sniper_ally _ = refl
text_eq-ref_name_of artillery_ally infantry_enemy = refl
text_eq-ref_name_of artillery_ally _ = refl
text_eq-ref_name_of tank_ally infantry_enemy = refl
text_eq-ref_name_of tank_ally _ = refl

pub not_news :
    (s : Slot)
    → (text_eq (ref_name_of s) (codes "endturn") ≡ false)
      × (text_eq (ref_name_of s) (codes "endgame") ≡ false)
unfolding text_eq
not_news infantry_enemy = (refl, refl)
not_news _ = (refl, refl)

pub ref_name_of-Lacks : (s : Slot) → Lacks b'&' (ref_name_of s) × Lacks 0 (ref_name_of s)
ref_name_of-Lacks infantry_enemy = (omega arith, omega arith)
ref_name_of-Lacks sniper_enemy = (omega arith, omega arith)
ref_name_of-Lacks artillery_enemy = (omega arith, omega arith)
ref_name_of-Lacks tank_enemy = (omega arith, omega arith)
ref_name_of-Lacks infantry_ally = (omega arith, omega arith)
ref_name_of-Lacks sniper_ally = (omega arith, omega arith)
ref_name_of-Lacks artillery_ally = (omega arith, omega arith)
ref_name_of-Lacks tank_ally = (omega arith, omega arith)

-- What goes into the packet of a unit, and that `int` holds it.
abbrev pub data_of : SquadUnit → Deciphered
data_of u = record {
  unit_name = u.ref_name;
  x_pos = u.object_sprite.x_pos;
  y_pos = u.object_sprite.y_pos;
  squad_size = u.squad_size;
  unit_hp = u.health;
}

pub record Fits (u : SquadUnit) : Type 0 where
  pub x_pos : InInt u.object_sprite.x_pos
  pub y_pos : InInt u.object_sprite.y_pos
  pub squad_size : InInt u.squad_size
  pub health : InInt u.health

pub deciper-unit_packet :
    (s : Slot) (u : SquadUnit)
    → u.ref_name ≡ ref_name_of s
    → Fits u
    → unit_data_deciper (unit_packet u) ≡ ok (data_of u)
unfolding unit_packet
deciper-unit_packet s u e f =
    unit_data_deciper-unit_text (codes "unit") [] u.ref_name u.object_sprite.x_pos
      u.object_sprite.y_pos u.squad_size u.health
      (subst (Lacks b'&') (sym e) (ref_name_of-Lacks s).0) f.x_pos f.y_pos f.squad_size f.health

module _ {F : Type 0} where
  take_over_by_name-mem :
      (s : Slot) (d : Deciphered) (ss : List Slot) (g : GameScene F)
      → Named g.units
      → d.unit_name ≡ ref_name_of s
      → mem s ss ≡ true
      → take_over_by_name d ss g ≡ change s (take_over d) g
  unfolding take_over_by_name
  take_over_by_name-mem s d [] g named e m = cc
  take_over_by_name-mem s d (t ∷ ss) g named e m =
      let test : text_eq d.unit_name (g.units t).ref_name ≡ slot_eq s t =
        rw (e, named t) (text_eq-ref_name_of s t) in
      elim (Bool-cases (slot_eq s t)) [
        | inl same ↦
            rw (test, same) (ap (λ r. change r (take_over d) g) (sym ((slot_eq_iff s t).0 same)))
        | inr other ↦ rw (test, other) (take_over_by_name-mem s d ss g named e (rw other at m))
      ]

  -- A packet about a unit moves and resizes that unit alone.
  pub apply_update-unit :
      (s : Slot) (d : Deciphered) (g : GameScene F)
      → Named g.units
      → d.unit_name ≡ ref_name_of s
      → apply_update d g ≡ change s (take_over d) g
  unfolding apply_update
  apply_update-unit s d g named e =
      let (no_turn, no_end) = not_news s in
      let turn : text_eq d.unit_name (codes "endturn") ≡ false =
        ap (λ n. text_eq n (codes "endturn")) e ∙ no_turn in
      let ending : text_eq d.unit_name (codes "endgame") ≡ false =
        ap (λ n. text_eq n (codes "endgame")) e ∙ no_end in
      rw (turn, ending) (take_over_by_name-mem s d units_vec g named e (mem-units_vec s))

  pub take_over_by_name-none :
      (d : Deciphered) (ss : List Slot) (g : GameScene F)
      → ((s : Slot) → text_eq d.unit_name (g.units s).ref_name ≡ false)
      → take_over_by_name d ss g ≡ g
  unfolding take_over_by_name
  take_over_by_name-none d [] g h = refl
  take_over_by_name-none d (s ∷ ss) g h = rw (h s) (take_over_by_name-none d ss g h)
