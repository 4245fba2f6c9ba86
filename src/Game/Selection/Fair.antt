-- ===== src/Game/Selection/Fair.antt =====
-- What keeps a selection fair.
use networking_game.Base.{◌≡◌, refl, sym, ap, ◌∙◌, true, false, Ensures, Result, ok, err, ◌>>=◌}
use networking_game.Game.State.{GameScene, Slot}
use networking_game.Game.Selection.Exclusive.{IsFairlySelected}

module _ {F : Type 0} where
  -- The selection, the team and the turn are the same.
  pub record Kept (g k : GameScene F) : Type 0 where
    pub selected : k.selected ≡ g.selected
    pub team : k.assigned_team ≡ g.assigned_team
    pub turn : k.player_turn ≡ g.player_turn

  pub Kept-refl : (g : GameScene F) → Kept g g
  Kept-refl g = record { selected = refl; team = refl; turn = refl }

  pub Kept-trans : (g h k : GameScene F) → Kept g h → Kept h k → Kept g k
  Kept-trans g h k a b = record {
    selected = b.selected ∙ a.selected;
    team = b.team ∙ a.team;
    turn = b.turn ∙ a.turn;
  }

  pub Kept-IsFairlySelected :
      (g k : GameScene F) → Kept g k → IsFairlySelected g → IsFairlySelected k
  Kept-IsFairlySelected g k a v = record {
    one = record {
      single = λ s t h i. v.one.single s t (before s h) (before t i);
      own = λ s h. v.one.own s (before s h) ∙ sym a.team;
    };
    turn = λ s h. a.turn ∙ v.turn s (before s h) ∙ sym a.team;
  }
    where
      before : (s : Slot) → k.selected s ≡ true → g.selected s ≡ true
      before s h = ap (λ f. f s) (sym a.selected) ∙ h

  -- With no unit selected the selection is fair.
  pub none-IsFairlySelected :
      (g : GameScene F) → ((s : Slot) → g.selected s ≡ false) → IsFairlySelected g
  none-IsFairlySelected g n = record {
    one = record { single = λ s t h i. let off = n s in cc; own = λ s h. let off = n s in cc };
    turn = λ s h. let off = n s in cc;
  }

  -- A step that may fail, and what follows it.
  pub Kept-bind :
      (g : GameScene F) (r : Result (GameScene F)) (f : GameScene F → Result (GameScene F))
      → Ensures (Kept g) r
      → ((k : GameScene F) → Ensures (Kept k) (f k))
      → Ensures (Kept g) (r >>= f)
  Kept-bind g (ok k) f h rest = follow (f k) (rest k)
    where
      follow : (r : Result (GameScene F)) → Ensures (Kept k) r → Ensures (Kept g) r
      follow (ok j) a = Kept-trans g k j h a
      follow (err x) a = tt
  Kept-bind g (err x) f h rest = tt
