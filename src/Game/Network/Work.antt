-- ===== src/Game/Network/Work.antt =====
-- What a player does in a turn and the other one does not know yet.
use networking_game.Base.{
  ◌≡◌, refl, ap, ◌∙◌, subst, Bool, true, false, if◌then◌else◌, ℤ, Result, ok, err, ◌>>=◌, Ensures,
}
use networking_game.Squad.{SquadUnit, reduce_action_points}
use networking_game.Game.State.{GameScene, Slot, slot_eq, write, change}
use networking_game.Game.State.Slots.{slot_eq_iff}
use networking_game.Game.Selection.Fair.{Kept}
use networking_game.Game.Network.Near.{Near, Near-refl, Near-trans}

-- A unit that is still unmarked was unmarked before, and is near what it was.
abbrev pub Unmarked : SquadUnit → SquadUnit → Type 0
Unmarked u v = v.has_changed ≡ false → (u.has_changed ≡ false) × Near u v

module _ {F : Type 0} where
  -- Units change, but a unit that changes for the other player too is marked; the rest of what the
  -- other player is to know stays as it is, and so does the connection.
  pub record Work (g k : GameScene F) : Type 0 where
    pub units : (s : Slot) → Unmarked (g.units s) (k.units s)
    pub names : (s : Slot) → (k.units s).ref_name ≡ (g.units s).ref_name
    pub turn : k.player_turn ≡ g.player_turn
    pub finished : k.game_finished ≡ g.game_finished
    pub winner : k.winning_player ≡ g.winning_player
    pub team : k.assigned_team ≡ g.assigned_team
    pub selected : k.selected ≡ g.selected
    pub client : k.client_component ≡ g.client_component

  pub Work-refl : (g : GameScene F) → Work g g
  Work-refl g = record {
    units = λ s h. (h, Near-refl (g.units s));
    names = λ s. refl;
    turn = refl;
    finished = refl;
    winner = refl;
    team = refl;
    selected = refl;
    client = refl;
  }

  pub Work-trans : (g h k : GameScene F) → Work g h → Work h k → Work g k
  Work-trans g h k a b = record {
    units = λ s e.
        let (f, m) = b.units s e in
        let (r, n) = a.units s f in (r, Near-trans (g.units s) (h.units s) (k.units s) n m);
    names = λ s. b.names s ∙ a.names s;
    turn = b.turn ∙ a.turn;
    finished = b.finished ∙ a.finished;
    winner = b.winner ∙ a.winner;
    team = b.team ∙ a.team;
    selected = b.selected ∙ a.selected;
    client = b.client ∙ a.client;
  }

  pub Work-Kept : (g k : GameScene F) → Work g k → Kept g k
  Work-Kept g k w = record { selected = w.selected; team = w.team; turn = w.turn }

  -- A step that may fail, and what follows it.
  pub Work-bind :
      (g : GameScene F) (r : Result (GameScene F)) (f : GameScene F → Result (GameScene F))
      → Ensures (Work g) r
      → ((k : GameScene F) → Ensures (Work k) (f k))
      → Ensures (Work g) (r >>= f)
  Work-bind g (ok k) f h rest = follow (f k) (rest k)
    where
      follow : (r : Result (GameScene F)) → Ensures (Work k) r → Ensures (Work g) r
      follow (ok j) a = Work-trans g k j h a
      follow (err x) a = tt
  Work-bind g (err x) f h rest = tt

  -- One unit is replaced, by one that is marked or near it.
  pub write-Work :
      (g : GameScene F) (s : Slot) (u : SquadUnit)
      → Unmarked (g.units s) u
      → u.ref_name ≡ (g.units s).ref_name
      → Work g (record g { units = write s u g.units })
  write-Work g s u kept name = record {
    units = λ t. at t (slot_eq s t) (λ e. (slot_eq_iff s t).0 e);
    names = λ t. name_at t (slot_eq s t) (λ e. (slot_eq_iff s t).0 e);
    turn = refl;
    finished = refl;
    winner = refl;
    team = refl;
    selected = refl;
    client = refl;
  }
    where
      at :
          (t : Slot) (b : Bool)
          → (b ≡ true → s ≡ t)
          → Unmarked (g.units t) (if b then u else g.units t)
      at t true e h =
          subst (λ v. ((g.units v).has_changed ≡ false) × Near (g.units v) u) (e refl) (kept h)
      at t false e h = (h, Near-refl (g.units t))

      name_at :
          (t : Slot) (b : Bool)
          → (b ≡ true → s ≡ t)
          → (if b then u else g.units t).ref_name ≡ (g.units t).ref_name
      name_at t true e = name ∙ ap (λ v. (g.units v).ref_name) (e refl)
      name_at t false e = refl

  pub reduce-Work :
      (g : GameScene F) (s : Slot) (n : ℤ) → Work g (change s (reduce_action_points n) g)
  reduce-Work g s n =
      write-Work g s (reduce_action_points n (g.units s))
        (λ h. (h, record { squad = refl; health = refl; x_pos = λ e. refl; y_pos = λ e. refl }))
        refl
