-- ===== src/Game/Turn/Handover.antt =====
-- What the end of a turn leaves behind: which packets are queued, in which order, and the units.
use networking_game.Base.{
  ◌≡◌, ◌≢◌, refl, sym, ap, ◌∙◌, fun_ext, arith, Bool, true, false, ◌&&◌, ◌||◌, List, [], ◌∷◌, ◌++◌,
  append_assoc, append-nil, if◌then◌else◌, ℤ, pos, Bool-cases, inl, inr,
}
use networking_game.Packet.{CustomPacket}
use networking_game.Sprite.{mouse_on_sprite}
use networking_game.Squad.{SquadUnit, reset_action_points, set_has_changed}
use networking_game.Game.State.{
  GameScene, Slot, infantry_enemy, units_vec, slot_eq, change, write, send_packet, PlayerTurn,
  no_player, player1, player2, turn_eq,
}
use networking_game.Game.State.Slots.{slot_eq_iff, write_self, write-ne}
use networking_game.Game.Selection.{deselect_all_units}
use networking_game.Game.Turn.{
  unit_packet, end_turn_packet, end_game_packet, other_player, others_of, check, finish, reset_all,
  send_changed, all_dead, announce, next_turn_pressed,
}

abbrev pub mem : Slot → List Slot → Bool
mem t [] = false
mem t (s ∷ ss) = slot_eq t s || mem t ss

-- No slot stands twice in the list.
abbrev pub Distinct : List Slot → Type 0
Distinct [] = Unit {0}
Distinct (s ∷ ss) = (mem s ss ≡ false) × Distinct ss

pub units_vec-Distinct : Distinct units_vec
units_vec-Distinct = (refl, (refl, (refl, (refl, (refl, (refl, (refl, (refl, tt))))))))

pub mem-units_vec : (t : Slot) → mem t units_vec ≡ true
mem-units_vec infantry_enemy = refl
mem-units_vec _ = refl

-- The packets of the changed units, in the order of the list.
abbrev pub changed_packets : List Slot → (Slot → SquadUnit) → List CustomPacket
changed_packets [] units = []
changed_packets (s ∷ ss) units =
    if (units s).has_changed
    then unit_packet (units s) ∷ changed_packets ss units
    else changed_packets ss units

pub or_false : (a b : Bool) → (a || b) ≡ false → (a ≡ false) × (b ≡ false)
or_false a b h = ground arith

-- A write to a slot outside the list is not seen by the loop over the list.
changed_packets-write :
    (ss : List Slot) (s : Slot) (u : SquadUnit) (units : Slot → SquadUnit)
    → mem s ss ≡ false
    → changed_packets ss (write s u units) ≡ changed_packets ss units
changed_packets-write [] s u units h = refl
changed_packets-write (t ∷ ss) s u units h =
    let (apart, rest) = or_false (slot_eq s t) (mem s ss) h in
    rw (write-ne s t u units apart, changed_packets-write ss s u units rest)

-- The units after the loop: those of the list are no longer marked as changed.
abbrev cleared : List Slot → (Slot → SquadUnit) → Slot → SquadUnit
cleared [] units = units
cleared (s ∷ ss) units =
    cleared ss
      (if (units s).has_changed then write s (set_has_changed false (units s)) units else units)

module _ {F : Type 0} where
  abbrev pub queue : List CustomPacket → GameScene F → GameScene F
  queue ps g = record g {
    client_component = record (g.client_component) {
      sending_queue = g.client_component.sending_queue ++ ps;
    };
  }

  abbrev with_units : (Slot → SquadUnit) → GameScene F → GameScene F
  with_units units g = record g { units = units }

  queue-queue :
      (ps qs : List CustomPacket) (g : GameScene F) → queue qs (queue ps g) ≡ queue (ps ++ qs) g
  queue-queue ps qs g =
      ap (λ q. record g { client_component = record (g.client_component) { sending_queue = q } })
        (append_assoc g.client_component.sending_queue ps qs)

  pub queue-nil : (g : GameScene F) → g ≡ queue [] g
  queue-nil g =
      ap (λ q. record g { client_component = record (g.client_component) { sending_queue = q } })
        (sym (append-nil g.client_component.sending_queue))

  -- The loop queues the packets of the changed units and clears their marks.
  send_changed_lem :
      (ss : List Slot) (g : GameScene F)
      → Distinct ss
      → send_changed ss g ≡ with_units (cleared ss g.units) (queue (changed_packets ss g.units) g)
  unfolding send_changed
  send_changed_lem [] g d = queue-nil g
  send_changed_lem (s ∷ ss) g d = elim (Bool-cases (g.units s).has_changed) [
    | inl h ↦ rw h (
        let p = unit_packet (g.units s) in
        let u = set_has_changed false (g.units s) in
        let g' = change s (set_has_changed false) (send_packet p g) in
        send_changed_lem ss g' d.1
        ∙ ap (λ cs. with_units (cleared ss g'.units) (queue cs g'))
            (changed_packets-write ss s u g.units d.0)
        ∙ ap (with_units (cleared ss g'.units))
            (queue-queue (p ∷ []) (changed_packets ss g.units) g))
    | inr h ↦ rw h (send_changed_lem ss g d.1)
  ]

pub slot_eq_sym : (s t : Slot) → slot_eq s t ≡ slot_eq t s
slot_eq_sym s t = ground arith

module _ (s : Slot) (units : Slot → SquadUnit) where
  abbrev clear_one : Slot → SquadUnit
  clear_one =
      if (units s).has_changed then write s (set_has_changed false (units s)) units else units

  clear_one_self : clear_one s ≡ set_has_changed false (units s)
  clear_one_self = elim (Bool-cases (units s).has_changed) [
    | inl h ↦ rw h (write_self s (set_has_changed false (units s)) units)
    | inr h ↦ rw h (ap (λ b. set_has_changed b (units s)) h)
  ]

  clear_one-ne : (t : Slot) → slot_eq s t ≡ false → clear_one t ≡ units t
  clear_one-ne t e = elim (Bool-cases (units s).has_changed) [
    | inl h ↦ rw h (write-ne s t (set_has_changed false (units s)) units e)
    | inr h ↦ rw h
  ]

cleared_lem :
    (ss : List Slot) (units : Slot → SquadUnit) (t : Slot)
    → Distinct ss
    → cleared ss units t ≡ (if mem t ss then set_has_changed false (units t) else units t)
cleared_lem [] units t d = refl
cleared_lem (s ∷ ss) units t d = elim (Bool-cases (slot_eq t s)) [
  | inl h ↦
      let e = (slot_eq_iff t s).0 h in
      let once : mem t ss ≡ false = ap (λ x. mem x ss) e ∙ d.0 in
      rw h (
        cleared_lem ss (clear_one s units) t d.1
        ∙ ap (λ b. if b then set_has_changed false (clear_one s units t) else clear_one s units t)
            once
        ∙ ap (clear_one s units) e
        ∙ clear_one_self s units
        ∙ ap (λ x. set_has_changed false (units x)) (sym e))
  | inr h ↦ rw h (
      cleared_lem ss (clear_one s units) t d.1
      ∙ ap (λ u. if mem t ss then set_has_changed false u else u)
          (clear_one-ne s units t (slot_eq_sym s t ∙ h)))
]

module _ {F : Type 0} where
  -- The scene when the two loops over the units are done.
  abbrev pub settled : GameScene F → GameScene F
  settled g = record g {
    selected = λ s. false;
    units = λ t. record (g.units t) {
      action_points = (g.units t).max_action_points;
      has_changed = false;
    };
  }

  reset_all_lem :
      (g : GameScene F)
      → reset_all units_vec g ≡ with_units (λ t. reset_action_points (g.units t)) g
  unfolding reset_all
  reset_all_lem g = ap (λ f. with_units f g) (fun_ext (each g.units))
    where
      each :
          (units : Slot → SquadUnit) (t : Slot)
          → (reset_all units_vec (with_units units g)).units t ≡ reset_action_points (units t)
      each units infantry_enemy = refl
      each units _ = refl

  loops_lem :
      (g : GameScene F)
      → send_changed units_vec (reset_all units_vec (deselect_all_units g))
        ≡ queue (changed_packets units_vec g.units) (settled g)
  unfolding deselect_all_units unit_packet
  loops_lem g =
      let g1 = with_units (λ t. reset_action_points (g.units t)) (deselect_all_units g) in
      ap (send_changed units_vec) (reset_all_lem (deselect_all_units g))
      ∙ send_changed_lem units_vec g1 units_vec-Distinct
      ∙ ap (λ f. with_units f (queue (changed_packets units_vec g.units) (deselect_all_units g)))
          (fun_ext (λ t.
            cleared_lem units_vec g1.units t units_vec-Distinct
            ∙ ap (λ b. if b then set_has_changed false (g1.units t) else g1.units t)
                (mem-units_vec t)))

  -- The other player's units are all dead.
  abbrev pub won : GameScene F → Bool
  won g = all_dead (others_of g.assigned_team) g

  -- The packets that end the turn: with the news that the game has ended, if that is so, or if the
  -- check returns no value and the caller takes what it gets for true.
  abbrev pub last_packets : Bool → GameScene F → List CustomPacket
  last_packets junk g =
      if won g
      then end_game_packet (if turn_eq g.assigned_team player1 then pos 1 else pos 2)
        ∷ end_turn_packet
        ∷ []
      else if junk
      then end_game_packet (if turn_eq g.winning_player player1 then pos 1 else pos 2)
        ∷ end_turn_packet
        ∷ []
      else end_turn_packet ∷ []

  abbrev Finishes : Bool → GameScene F → PlayerTurn → Type 0
  Finishes junk g p = finish junk (check p g) ≡ (
      if all_dead (others_of p) g
      then queue
          (end_game_packet (if turn_eq p player1 then pos 1 else pos 2) ∷ end_turn_packet ∷ [])
          (record g {
            player_turn = other_player g.player_turn;
            game_finished = true;
            winning_player = p;
          })
      else queue
          (if junk
            then end_game_packet (if turn_eq g.winning_player player1 then pos 1 else pos 2)
              ∷ end_turn_packet
              ∷ []
            else end_turn_packet ∷ [])
          (record g { player_turn = other_player g.player_turn }))

  abbrev pass : GameScene F → GameScene F
  pass g = record g { player_turn = other_player g.player_turn }

  announce_lem :
      (b : Bool) (g : GameScene F)
      → send_packet end_turn_packet (announce b g)
        ≡ queue
            (if b
              then end_game_packet (if turn_eq g.winning_player player1 then pos 1 else pos 2)
                ∷ end_turn_packet
                ∷ []
              else end_turn_packet ∷ [])
            g
  unfolding announce
  announce_lem true g =
      queue-queue (end_game_packet (if turn_eq g.winning_player player1 then pos 1 else pos 2) ∷ [])
        (end_turn_packet ∷ []) g
  announce_lem false g = refl

  finish_lem : (junk : Bool) (g : GameScene F) (p : PlayerTurn) → p ≢ no_player → Finishes junk g p
  unfolding finish check
  finish_lem junk g no_player h = absurd (h refl)
  finish_lem junk g player1 h = elim (Bool-cases (all_dead (others_of player1) g)) [
    | inl dead ↦
        rw dead (
          ap pass (announce_lem true (record g { game_finished = true; winning_player = player1 })))
    | inr alive ↦ rw alive (ap pass (announce_lem junk g))
  ]
  finish_lem junk g player2 h = elim (Bool-cases (all_dead (others_of player2) g)) [
    | inl dead ↦
        rw dead (
          ap pass (announce_lem true (record g { game_finished = true; winning_player = player2 })))
    | inr alive ↦ rw alive (ap pass (announce_lem junk g))
  ]

  -- The scene in which `endgame_check` is called.
  abbrev checked : GameScene F → GameScene F
  checked g = queue (changed_packets units_vec g.units) (settled g)

  pressed :
      (junk : Bool) (x y : ℤ) (g : GameScene F)
      → turn_eq g.player_turn g.assigned_team ≡ true
      → mouse_on_sprite x y g.next_turn_button ≡ true
      → next_turn_pressed junk x y g ≡ finish junk (check g.assigned_team (checked g))
  unfolding next_turn_pressed
  pressed junk x y g mine on =
      rw (mine, on) (ap (λ k. finish junk (check k.assigned_team k)) (loops_lem g))

  all_dead-checked : (ss : List Slot) (g : GameScene F) → all_dead ss (checked g) ≡ all_dead ss g
  unfolding all_dead
  all_dead-checked [] g = refl
  all_dead-checked (s ∷ ss) g = ap (λ b. (g.units s).is_dead && b) (all_dead-checked ss g)

  -- A click of the player whose turn it is on the button, in a scene with a team. The selection is
  -- cleared, all units get their action points back, and the turn passes to the other player. The
  -- packets of the changed units are queued in the order of the units, and no unit is marked as
  -- changed any more; the packets that end the turn follow, and if the other side is all dead,
  -- the game is finished and won by the player. Nothing else changes.
  pub next_turn_pressed_lem :
      (junk : Bool) (x y : ℤ) (g : GameScene F)
      → g.assigned_team ≢ no_player
      → turn_eq g.player_turn g.assigned_team ≡ true
      → mouse_on_sprite x y g.next_turn_button ≡ true
      → next_turn_pressed junk x y g ≡ (
          if won g
          then queue
              (changed_packets units_vec g.units ++ last_packets junk g)
              (record (settled g) {
                player_turn = other_player g.player_turn;
                game_finished = true;
                winning_player = g.assigned_team;
              })
          else queue
              (changed_packets units_vec g.units ++ last_packets junk g)
              (record (settled g) { player_turn = other_player g.player_turn }))
  next_turn_pressed_lem junk x y g team mine on =
      pressed junk x y g mine on ∙ finish_lem junk (checked g) g.assigned_team team ∙ cases
    where
      news : GameScene F → List CustomPacket
      news k =
          if junk
          then end_game_packet (if turn_eq k.winning_player player1 then pos 1 else pos 2)
            ∷ end_turn_packet
            ∷ []
          else end_turn_packet ∷ []

      victory : List CustomPacket
      victory =
          end_game_packet (if turn_eq g.assigned_team player1 then pos 1 else pos 2)
          ∷ end_turn_packet
          ∷ []

      cases :
          (if all_dead (others_of g.assigned_team) (checked g)
            then queue victory (record (checked g) {
              player_turn = other_player g.player_turn;
              game_finished = true;
              winning_player = g.assigned_team;
            })
            else queue (news g) (record (checked g) { player_turn = other_player g.player_turn }))
          ≡ (if won g
              then queue
                  (changed_packets units_vec g.units ++ last_packets junk g)
                  (record (settled g) {
                    player_turn = other_player g.player_turn;
                    game_finished = true;
                    winning_player = g.assigned_team;
                  })
              else queue
                  (changed_packets units_vec g.units ++ last_packets junk g)
                  (record (settled g) { player_turn = other_player g.player_turn }))
      cases = elim (Bool-cases (won g)) [
        | inl w ↦
            rw (all_dead-checked (others_of g.assigned_team) g, w)
              (queue-queue (changed_packets units_vec g.units) victory (record (settled g) {
                player_turn = other_player g.player_turn;
                game_finished = true;
                winning_player = g.assigned_team;
              }))
        | inr l ↦
            rw (all_dead-checked (others_of g.assigned_team) g, l)
              (queue-queue (changed_packets units_vec g.units) (news g)
                (record (settled g) { player_turn = other_player g.player_turn }))
      ]
