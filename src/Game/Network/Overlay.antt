-- ===== src/Game/Network/Overlay.antt =====
-- What the packets of the changed units make of the other player's units.
use networking_game.Base.{
  ◌≡◌, refl, sym, subst, ap, ◌∙◌, Bool, true, false, List, [], ◌∷◌, ◌++◌, if◌then◌else◌, Bool-cases,
  inl, inr, ◌⊎◌, ok, ◌>>=◌, Result-cases,
}
use networking_game.Packet.{CustomPacket, Deciphered, unit_data_deciper}
use networking_game.Squad.{SquadUnit}
use networking_game.Game.State.{GameScene, Slot, units_vec, slot_eq, write}
use networking_game.Game.State.Slots.{slot_eq_iff}
use networking_game.Game.Turn.{unit_packet}
use networking_game.Game.Turn.Handover.{mem, mem-units_vec, changed_packets}
use networking_game.Game.Network.{take_over, apply_update}
use networking_game.Game.Network.Updates.{apply_each}
use networking_game.Game.Network.Names.{
  Named, data_of, Fits, deciper-unit_packet, apply_update-unit,
}

-- The two players see the same: the place of the unit, and how strong it is.
abbrev pub SameUnit : SquadUnit → SquadUnit → Type 0
SameUnit u v =
    (v.object_sprite.x_pos ≡ u.object_sprite.x_pos)
    × (v.object_sprite.y_pos ≡ u.object_sprite.y_pos)
    × (v.squad_size ≡ u.squad_size)
    × (v.health ≡ u.health)

-- The units `vs` after the packet about one of the units `us`, if there is one.
abbrev told : (Slot → SquadUnit) → Slot → (Slot → SquadUnit) → Slot → SquadUnit
told us s vs = if (us s).has_changed then write s (take_over (data_of (us s)) (vs s)) vs else vs

abbrev pub overlay : List Slot → (Slot → SquadUnit) → (Slot → SquadUnit) → Slot → SquadUnit
overlay [] us vs = vs
overlay (s ∷ ss) us vs = overlay ss us (told us s vs)

taken_over-Named :
    (d : Deciphered) (vs : Slot → SquadUnit) (s : Slot)
    → Named vs
    → Named (write s (take_over d (vs s)) vs)
unfolding take_over
taken_over-Named d vs s named t = elim (Bool-cases (slot_eq s t)) [
  | inl e ↦ rw e (ap (λ r. (vs r).ref_name) ((slot_eq_iff s t).0 e) ∙ named t)
  | inr n ↦ rw n (named t)
]

module _ (us vs : Slot → SquadUnit) (s : Slot) where
  told-Named : Named vs → Named (told us s vs)
  told-Named named t = elim (Bool-cases (us s).has_changed) [
    | inl h ↦ rw h (taken_over-Named (data_of (us s)) vs s named t)
    | inr h ↦ rw h (named t)
  ]

  told-ne : (t : Slot) → slot_eq s t ≡ false → told us s vs t ≡ vs t
  told-ne t n = elim (Bool-cases (us s).has_changed) [ inl h ↦ rw (h, n) | inr h ↦ rw h ]

-- What units that are the same have in common, and what the unmarked units had in common before.
module _ (R : SquadUnit → SquadUnit → Type 0)
    (same : (u v : SquadUnit) → SameUnit u v → R u v) where
  -- The unit that the packet is about is the same then, and no other unit changes.
  told_self :
      (us vs : Slot → SquadUnit) (s t : Slot)
      → slot_eq s t ≡ true
      → ((us t).has_changed ≡ false → R (us t) (vs t))
      → R (us t) (told us s vs t)
  unfolding take_over
  told_self us vs s t e kept = elim (Bool-cases (us s).has_changed) [
    | inl h ↦ rw (h, e) (as_sent (us s) (us t) (ap us ((slot_eq_iff s t).0 e)))
    | inr h ↦ rw h (kept (ap (λ r. (us r).has_changed) (sym ((slot_eq_iff s t).0 e)) ∙ h))
  ]
    where
      as_sent : (a b : SquadUnit) → a ≡ b → R b (take_over (data_of a) (vs s))
      as_sent a b q = same b (take_over (data_of a) (vs s)) (
        ap (λ u. u.object_sprite.x_pos) q,
        ap (λ u. u.object_sprite.y_pos) q,
        ap (λ u. u.squad_size) q,
        ap (λ u. u.health) q,
      )

  -- What was in common stays so.
  told_kept :
      (us vs : Slot → SquadUnit) (s t : Slot)
      → ((us t).has_changed ≡ false → R (us t) (vs t))
      → R (us t) (vs t)
      → R (us t) (told us s vs t)
  told_kept us vs s t kept r = elim (Bool-cases (slot_eq s t)) [
    | inl e ↦ told_self us vs s t e kept
    | inr n ↦ subst (R (us t)) (sym (told-ne us vs s t n)) r
  ]

  overlay_each :
      (ss : List Slot) (us vs : Slot → SquadUnit) (t : Slot)
      → ((us t).has_changed ≡ false → R (us t) (vs t))
      → (mem t ss ≡ true) ⊎ R (us t) (vs t)
      → R (us t) (overlay ss us vs t)
  overlay_each [] us vs t kept (inl m) = cc
  overlay_each [] us vs t kept (inr r) = r
  overlay_each (s ∷ ss) us vs t kept h =
      overlay_each ss us (told us s vs) t (λ q. told_kept us vs s t kept (kept q)) (choose h)
    where
      choose :
          (mem t (s ∷ ss) ≡ true) ⊎ R (us t) (vs t) → (mem t ss ≡ true) ⊎ R (us t) (told us s vs t)
      choose (inr r) = inr (told_kept us vs s t kept r)
      choose (inl m) = elim (Bool-cases (slot_eq t s)) [
        | inl e ↦ inr (told_self us vs s t ((slot_eq_iff s t).1 (sym ((slot_eq_iff t s).0 e))) kept)
        | inr n ↦ inl (rw n at m)
      ]

  -- After the packets of all changed units, all units have it in common.
  pub overlay_all :
      (us vs : Slot → SquadUnit)
      → ((t : Slot) → (us t).has_changed ≡ false → R (us t) (vs t))
      → (t : Slot) → R (us t) (overlay units_vec us vs t)
  overlay_all us vs kept t = overlay_each units_vec us vs t (kept t) (inl (mem-units_vec t))

pub overlay-Named :
    (ss : List Slot) (us vs : Slot → SquadUnit) → Named vs → Named (overlay ss us vs)
overlay-Named [] us vs named = named
overlay-Named (s ∷ ss) us vs named = overlay-Named ss us (told us s vs) (told-Named us vs s named)

module _ {F : Type 0} where
  -- The packets of the changed units are read with no fault, and lay the units over the others.
  pub apply_each-changed_packets :
      (ss : List Slot) (us : Slot → SquadUnit) (g : GameScene F)
      → Named us
      → ((s : Slot) → Fits (us s))
      → Named g.units
      → apply_each (changed_packets ss us) g ≡ ok (record g { units = overlay ss us g.units })
  apply_each-changed_packets [] us g named fits own = refl
  apply_each-changed_packets (s ∷ ss) us g named fits own =
      step (us s).has_changed
        (λ vs e. apply_each-changed_packets ss us (record g { units = vs }) named fits e) own
    where
      taken : Slot → SquadUnit
      taken = write s (take_over (data_of (us s)) (g.units s)) g.units

      step :
          (b : Bool)
          → ((vs : Slot → SquadUnit)
              → Named vs
              → apply_each (changed_packets ss us) (record g { units = vs })
                ≡ ok (record g { units = overlay ss us vs }))
          → Named g.units
          → apply_each
              (if b then unit_packet (us s) ∷ changed_packets ss us else changed_packets ss us)
              g
            ≡ ok (record g { units = overlay ss us (if b then taken else g.units) })
      step true ih own =
          ap (λ r. r >>= λ d. apply_each (changed_packets ss us) (apply_update d g))
            (deciper-unit_packet s (us s) (named s) (fits s))
          ∙ ap (apply_each (changed_packets ss us))
              (apply_update-unit s (data_of (us s)) g own (named s))
          ∙ ih taken (taken_over-Named (data_of (us s)) g.units s own)
      step false ih own = ih g.units own

  pub apply_each-append :
      (ps qs : List CustomPacket) (g : GameScene F)
      → apply_each (ps ++ qs) g ≡ (apply_each ps g >>= apply_each qs)
  apply_each-append [] qs g = refl
  apply_each-append (p ∷ ps) qs g = elim (Result-cases (unit_data_deciper p)) [
    | inl (d, e) ↦ rw e (apply_each-append ps qs (apply_update d g))
    | inr (f, e) ↦ rw e
  ]
