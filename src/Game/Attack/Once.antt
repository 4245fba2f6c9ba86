-- ===== src/Game/Attack/Once.antt =====
-- What an attack does to each of the units, and what it costs.
use networking_game.Base.{
  ◌≡◌, refl, sym, ap, ◌∙◌, subst, arith, Bool, true, false, xor, ◌&&◌, ◌||◌, ◌⊎◌, List, [], ◌∷◌,
  if◌then◌else◌, ℤ, pos, ◌-ℤ◌, ◌+ℤ◌, ok, err, Bool-cases, Result-cases, inl, inr, int_laws,
  >>=-eq-ok,
}
use networking_game.Sprite.{mouse_on_sprite}
use networking_game.Squad.{SquadUnit, take_damage, reduce_action_points}
use networking_game.Squad.Damage.{take_damage-reduce_action_points}
use networking_game.Game.State.{GameScene, Slot, slot_eq, Floats, write}
use networking_game.Game.State.Slots.{slot_eq_iff, write_self, write-ne}
use networking_game.Game.Turn.Handover.{mem, Distinct, or_false, slot_eq_sym}
use networking_game.Game.Attack.{attacking_other_unit, attack_one, after_hit}

no_charge : (a c : ℤ) → a -ℤ c ≡ a -ℤ (pos 0 +ℤ c)
no_charge a c = omega int_laws

both_charges : (a c : ℤ) → a -ℤ pos 2 -ℤ c ≡ a -ℤ (pos 2 +ℤ c)
both_charges a c = omega int_laws

nothing_charged : (a : ℤ) → a ≡ a -ℤ pos 0
nothing_charged a = omega int_laws

true_ne_false : true ≡ false → ⊥
true_ne_false e = cc

found_later : (a b : Bool) → (a || b) ≡ true → a ≡ false → b ≡ true
found_later a b h e = ground arith

not_hit : (a b c : Bool) → ((a || b) && c) ≡ false → a ≡ true → c ≡ false
not_hit a b c h e = ground arith

not_hit_later : (a b c : Bool) → ((a || b) && c) ≡ false → (b && c) ≡ false
not_hit_later a b c h = ground arith

module _ {F : Type 0} ⦃fl : Floats F⦄ (attacker : Slot) (xpos ypos : ℤ) where
  -- The unit is under the mouse, and on the other side.
  abbrev pub hits : GameScene F → Slot → Bool
  hits g t =
      mouse_on_sprite xpos ypos (g.units t).object_sprite
      && xor (g.units attacker).is_enemy (g.units t).is_enemy

  -- What the attacker pays for the hits among some units.
  abbrev pub cost : List Slot → GameScene F → ℤ
  cost [] g = pos 0
  cost (s ∷ ss) g = (if hits g s then pos 2 else pos 0) +ℤ cost ss g

  -- Each of the units that is hit takes damage once, from the attacker as it was before; no other
  -- unit changes; and the attacker pays two points for each hit, and changes in nothing else.
  pub record Struck (ss : List Slot) (g g' : GameScene F) : Type 0 where
    pub damaged :
        (t : Slot)
        → mem t ss ≡ true
        → hits g t ≡ true
        → take_damage (g.units t) (g.units attacker) ≡ ok (g'.units t)
    pub spared :
        (t : Slot)
        → slot_eq attacker t ≡ false
        → (mem t ss && hits g t) ≡ false
        → g'.units t ≡ g.units t
    pub paid : g'.units attacker ≡ reduce_action_points (cost ss g) (g.units attacker)

  -- One hit.
  record Hit (s : Slot) (g k : GameScene F) : Type 0 where
    other : slot_eq attacker s ≡ false
    dealt : take_damage (g.units s) (g.units attacker) ≡ ok (k.units s)
    price : k.units attacker ≡ reduce_action_points (pos 2) (g.units attacker)
    rest : (t : Slot) → slot_eq attacker t ≡ false → slot_eq s t ≡ false → k.units t ≡ g.units t

  hits-other : (g : GameScene F) (s : Slot) → hits g s ≡ true → slot_eq attacker s ≡ false
  unfolding xor
  hits-other g s h = elim (Bool-cases (slot_eq attacker s)) [
    | inl e ↦
        let same : attacker ≡ s = (slot_eq_iff attacker s).0 e in
        absurd (
          xor_self (g.units attacker).is_enemy (
            ap (λ r. xor (g.units attacker).is_enemy (g.units r).is_enemy) same
            ∙ second _ (xor (g.units attacker).is_enemy (g.units s).is_enemy) h))
    | inr n ↦ n
  ]
    where
      xor_self : (b : Bool) → xor b b ≡ true → ⊥
      xor_self true e = cc
      xor_self false e = cc

      second : (a b : Bool) → (a && b) ≡ true → b ≡ true
      second a b e = ground arith

  after_hit-Hit :
      (s : Slot) (g : GameScene F) (u : SquadUnit)
      → slot_eq attacker s ≡ false
      → take_damage (g.units s) (g.units attacker) ≡ ok u
      → Hit s g (after_hit attacker xpos ypos (record g { units = write s u g.units }))
  unfolding after_hit
  after_hit-Hit s g u n e =
      let paying = λ (v : SquadUnit). reduce_action_points (pos 2) v in
      let before = write s u g.units in
      let m : slot_eq s attacker ≡ false = slot_eq_sym s attacker ∙ n in
      record {
        other = n;
        dealt =
            e
            ∙ ap ok (
                sym (
                  write-ne attacker s (paying (before attacker)) before n
                  ∙ write_self s u g.units));
        price =
            write_self attacker (paying (before attacker)) before
            ∙ ap paying (write-ne s attacker u g.units m);
        rest = λ t a b.
            write-ne attacker t (paying (before attacker)) before a ∙ write-ne s t u g.units b;
      }

  attack_one-cases :
      (s : Slot) (g k : GameScene F)
      → attack_one attacker xpos ypos s g ≡ ok k
      → ((hits g s ≡ true) × Hit s g k) ⊎ ((hits g s ≡ false) × (g ≡ k))
  unfolding attack_one
  attack_one-cases s g k h = elim (Bool-cases (hits g s)) [
    | inl hit ↦ elim (Result-cases (take_damage (g.units s) (g.units attacker))) [
      | inl (u, e) ↦
          let j = after_hit attacker xpos ypos (record g { units = write s u g.units }) in
          let out : ok j ≡ ok k = rw (hit, e) at h in
          let same : j ≡ k = cc in
          inl (hit, subst (Hit s g) same (after_hit-Hit s g u (hits-other g s hit) e))
      | inr (f, e) ↦ let out : err f ≡ ok k = rw (hit, e) at h in cc
    ]
    | inr off ↦ let out : ok g ≡ ok k = rw off at h in let same : g ≡ k = cc in inr (off, same)
  ]

  hits-Hit :
      (s : Slot) (g k : GameScene F)
      → Hit s g k
      → (t : Slot) → slot_eq s t ≡ false
      → hits k t ≡ hits g t
  hits-Hit s g k r t n = elim (Bool-cases (slot_eq attacker t)) [
    | inl e ↦
        let same : attacker ≡ t = (slot_eq_iff attacker t).0 e in
        let kept : k.units t ≡ reduce_action_points (pos 2) (g.units t) =
          subst (λ v. k.units v ≡ reduce_action_points (pos 2) (g.units v)) same r.price in
        rw (r.price, kept)
    | inr m ↦ rw (r.price, r.rest t m n)
  ]

  cost-Hit :
      (s : Slot) (ss : List Slot) (g k : GameScene F)
      → Hit s g k
      → mem s ss ≡ false
      → cost ss k ≡ cost ss g
  cost-Hit s [] g k r m = refl
  cost-Hit s (t ∷ ss) g k r m =
      let (apart, rest) = or_false (slot_eq s t) (mem s ss) m in
      rw (hits-Hit s g k r t apart, cost-Hit s ss g k r rest)

  extend_found :
      (s : Slot) (ss : List Slot) (g k g' : GameScene F)
      → mem s ss ≡ false
      → hits g s ≡ true
      → Hit s g k
      → Struck ss k g'
      → Struck (s ∷ ss) g g'
  extend_found s ss g k g' m hit r q = record {
    damaged = λ t i h. elim (Bool-cases (slot_eq s t)) [
      | inl e ↦
          subst (λ v. take_damage (g.units v) (g.units attacker) ≡ ok (g'.units v))
            ((slot_eq_iff s t).0 e) (r.dealt ∙ ap ok (sym (q.spared s r.other (rw m))))
      | inr n ↦
          let later = found_later (slot_eq t s) (mem t ss) i (slot_eq_sym t s ∙ n) in
          sym (take_damage-reduce_action_points (g.units t) (g.units attacker) (pos 2))
          ∙ ap (take_damage (g.units t)) (sym r.price)
          ∙ ap (λ u. take_damage u (k.units attacker)) (sym (r.rest t (hits-other g t h) n))
          ∙ q.damaged t later (hits-Hit s g k r t n ∙ h)
    ];
    spared = λ t a i. elim (Bool-cases (slot_eq s t)) [
      | inl e ↦
          let missed = not_hit (slot_eq t s) (mem t ss) (hits g t) i (slot_eq_sym t s ∙ e) in
          let found : hits g t ≡ true = subst (λ v. hits g v ≡ true) ((slot_eq_iff s t).0 e) hit in
          absurd (true_ne_false (sym found ∙ missed))
      | inr n ↦
          q.spared t a (
            ap (λ b. mem t ss && b) (hits-Hit s g k r t n)
            ∙ not_hit_later (slot_eq t s) (mem t ss) (hits g t) i)
          ∙ r.rest t a n
    ];
    paid =
        q.paid
        ∙ ap (λ c. reduce_action_points c (k.units attacker)) (cost-Hit s ss g k r m)
        ∙ ap (reduce_action_points (cost ss g)) r.price
        ∙ ap (λ n. record (g.units attacker) { action_points = n })
            (both_charges (g.units attacker).action_points (cost ss g))
        ∙ ap
            (λ b.
              reduce_action_points ((if b then pos 2 else pos 0) +ℤ cost ss g) (g.units attacker))
            (sym hit);
  }

  extend_missed :
      (s : Slot) (ss : List Slot) (g g' : GameScene F)
      → hits g s ≡ false
      → Struck ss g g'
      → Struck (s ∷ ss) g g'
  extend_missed s ss g g' off q = record {
    damaged = λ t i h. elim (Bool-cases (slot_eq s t)) [
      | inl e ↦
          let missed : hits g t ≡ false =
            subst (λ v. hits g v ≡ false) ((slot_eq_iff s t).0 e) off in
          absurd (true_ne_false (sym h ∙ missed))
      | inr n ↦ q.damaged t (found_later (slot_eq t s) (mem t ss) i (slot_eq_sym t s ∙ n)) h
    ];
    spared = λ t a i. q.spared t a (not_hit_later (slot_eq t s) (mem t ss) (hits g t) i);
    paid =
        q.paid
        ∙ ap (λ n. record (g.units attacker) { action_points = n })
            (no_charge (g.units attacker).action_points (cost ss g))
        ∙ ap
            (λ b.
              reduce_action_points ((if b then pos 2 else pos 0) +ℤ cost ss g) (g.units attacker))
            (sym off);
  }

  -- An attack that is carried out, wherever the mouse is: each unit under it that is of the other
  -- side takes the damage of the attacker as it was before the click, and takes it once; no other
  -- unit changes but the attacker, which pays two action points for each unit that is hit.
  pub attacking_other_unit-Struck :
      (ss : List Slot) (g g' : GameScene F)
      → Distinct ss
      → attacking_other_unit attacker xpos ypos ss g ≡ ok g'
      → Struck ss g g'
  unfolding attacking_other_unit
  attacking_other_unit-Struck [] g g' d h =
      let same : g ≡ g' = cc in
      subst (Struck [] g) same (record {
        damaged = λ t i e. cc;
        spared = λ t a i. refl;
        paid =
            ap (λ n. record (g.units attacker) { action_points = n })
              (nothing_charged (g.units attacker).action_points);
      })
  attacking_other_unit-Struck (s ∷ ss) g g' d h =
      let (k, one, more) =
        >>=-eq-ok (attack_one attacker xpos ypos s g) (attacking_other_unit attacker xpos ypos ss)
          g' h in
      let rest = attacking_other_unit-Struck ss k g' d.1 more in
      elim (attack_one-cases s g k one) [
        | inl (hit, r) ↦ extend_found s ss g k g' d.0 hit r rest
        | inr (off, same) ↦
            extend_missed s ss g g' off (subst (λ j. Struck ss j g') (sym same) rest)
      ]
