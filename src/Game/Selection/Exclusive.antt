-- ===== src/Game/Selection/Exclusive.antt =====
-- A player has at most one unit selected, one of the player's own, and only on the player's turn.
use networking_game.Base.{
  ◌≡◌, refl, sym, subst, ap, ◌∙◌, arith, Bool, true, false, ◌&&◌, List, [], ◌∷◌, ℤ, Bool-cases, inl,
  inr, All,
}
use networking_game.Sprite.{mouse_on_sprite}
use networking_game.Game.State.{
  GameScene, Slot, infantry_enemy, sniper_enemy, artillery_enemy, tank_enemy, infantry_ally,
  sniper_ally, artillery_ally, tank_ally, write, PlayerTurn, no_player, player1, player2, turn_eq,
}
use networking_game.Game.State.Slots.{slot_eq_iff}
use networking_game.Game.Selection.{
  team_units, select_only, click_unit, click_units, select_for, set_selected,
}

-- The team of a unit: the enemy slots are those of player 1.
abbrev pub team_of : Slot → PlayerTurn
team_of infantry_enemy = player1
team_of sniper_enemy = player1
team_of artillery_enemy = player1
team_of tank_enemy = player1
team_of infantry_ally = player2
team_of sniper_ally = player2
team_of artillery_ally = player2
team_of tank_ally = player2

-- At most one flag is set, and only that of a unit of the team.
pub record OneOf (p : PlayerTurn) (selected : Slot → Bool) : Type 0 where
  pub single : (s t : Slot) → selected s ≡ true → selected t ≡ true → s ≡ t
  pub own : (s : Slot) → selected s ≡ true → team_of s ≡ p

select_only_lem :
    (p : PlayerTurn) (s t : Slot) (selected : Slot → Bool)
    → OneOf p selected
    → select_only s (team_units p) selected t ≡ true
    → team_of s ≡ p
    → s ≡ t
unfolding select_only
select_only_lem player1 s infantry_enemy selected o h e = (slot_eq_iff s infantry_enemy).0 h
select_only_lem no_player infantry_enemy t selected o h e = cc
select_only_lem no_player s t selected o h e = cc
select_only_lem p s t selected o h e = ground (arith, slot_eq_iff s t, o.own t)

still_set :
    (s t : Slot) (selected : Slot → Bool) → write s false selected t ≡ true → selected t ≡ true
still_set s t selected h = ground arith

click_unit-OneOf :
    (p : PlayerTurn) (selected : Slot → Bool) (hit : Bool) (s : Slot)
    → team_of s ≡ p
    → OneOf p selected
    → OneOf p (click_unit (team_units p) selected hit s)
unfolding click_unit
click_unit-OneOf p selected false s e o = o
click_unit-OneOf p selected true s e o = elim (Bool-cases (selected s)) [
  | inl was ↦ rw was (record {
    single = λ a b h k. o.single a b (still_set s a selected h) (still_set s b selected k);
    own = λ a h. o.own a (still_set s a selected h);
  })
  | inr new ↦ rw new (record {
    single = λ a b h k.
        sym (select_only_lem p s a selected o h e) ∙ select_only_lem p s b selected o k e;
    own = λ a h. ap team_of (sym (select_only_lem p s a selected o h e)) ∙ e;
  })
]

team_units-own : (p : PlayerTurn) → All (λ s. team_of s ≡ p) (team_units p)
team_units-own player1 = (refl, (refl, (refl, (refl, tt))))
team_units-own player2 = (refl, (refl, (refl, (refl, tt))))
team_units-own no_player = tt

pub turn_eq_sound : (p q : PlayerTurn) → turn_eq p q ≡ true → p ≡ q
turn_eq_sound no_player no_player h = refl
turn_eq_sound player1 player1 h = refl
turn_eq_sound player2 player2 h = refl
turn_eq_sound _ _ h = cc

module _ {F : Type 0} where
  click_units-frame :
      (team ss : List Slot) (x y : ℤ) (g : GameScene F)
      → click_units team x y ss g ≡ record g { selected = (click_units team x y ss g).selected }
  unfolding click_units
  click_units-frame team [] x y g = refl
  click_units-frame team (s ∷ ss) x y g = click_units-frame team ss x y (record g {
    selected = click_unit team g.selected (mouse_on_sprite x y (g.units s).object_sprite) s;
  })

  click_units-OneOf :
      (p : PlayerTurn) (x y : ℤ) (ss : List Slot) (g : GameScene F)
      → All (λ s. team_of s ≡ p) ss
      → OneOf p g.selected
      → OneOf p (click_units (team_units p) x y ss g).selected
  unfolding click_units
  click_units-OneOf p x y [] g own o = o
  click_units-OneOf p x y (s ∷ ss) g own o =
      click_units-OneOf p x y ss _ own.1
        (click_unit-OneOf p g.selected (mouse_on_sprite x y (g.units s).object_sprite) s own.0 o)

  -- What the selection keeps to: a flag is set only on the player's turn, for one unit at a time,
  -- and only for a unit of the player's team.
  pub record IsFairlySelected (g : GameScene F) : Type 0 where
    pub one : OneOf g.assigned_team g.selected
    pub turn : (s : Slot) → g.selected s ≡ true → g.player_turn ≡ g.assigned_team

  select_for-IsFairlySelected :
      (p : PlayerTurn) (x y : ℤ) (g : GameScene F)
      → IsFairlySelected g
      → IsFairlySelected (select_for p x y g)
  unfolding select_for
  select_for-IsFairlySelected p x y g v =
      elim (Bool-cases (turn_eq g.assigned_team p && turn_eq g.player_turn p)) [
        | inl h ↦ rw h (clicked (turn_eq_sound _ p (both h).0) (turn_eq_sound _ p (both h).1))
        | inr h ↦ rw h v
      ]
    where
      both : {a b : Bool} → (a && b) ≡ true → (a ≡ true) × (b ≡ true)
      both {a} {b} h = ground arith

      clicked :
          g.assigned_team ≡ p
          → g.player_turn ≡ p
          → IsFairlySelected (click_units (team_units p) x y (team_units p) g)
      clicked e f =
          subst IsFairlySelected (sym (click_units-frame (team_units p) (team_units p) x y g))
            (record {
              one =
                  subst (λ q. OneOf q (click_units (team_units p) x y (team_units p) g).selected)
                    (sym e)
                    (click_units-OneOf p x y (team_units p) g (team_units-own p)
                      (subst (λ q. OneOf q g.selected) e v.one));
              turn = λ s h. f ∙ sym e;
            })

  -- `setSelected` keeps to that wherever the mouse is, also where sprites lie on one another.
  pub set_selected-IsFairlySelected :
      (x y : ℤ) (g : GameScene F) → IsFairlySelected g → IsFairlySelected (set_selected x y g)
  unfolding set_selected
  set_selected-IsFairlySelected x y g v =
      select_for-IsFairlySelected player2 x y (select_for player1 x y g)
        (select_for-IsFairlySelected player1 x y g v)

  select_for-frame :
      (p : PlayerTurn) (x y : ℤ) (g : GameScene F)
      → select_for p x y g ≡ record g { selected = (select_for p x y g).selected }
  unfolding select_for
  select_for-frame p x y g =
      elim (Bool-cases (turn_eq g.assigned_team p && turn_eq g.player_turn p)) [
        | inl h ↦ rw h (click_units-frame (team_units p) (team_units p) x y g)
        | inr h ↦ rw h
      ]

  -- Nothing but the selection changes.
  pub set_selected-frame :
      (x y : ℤ) (g : GameScene F)
      → set_selected x y g ≡ record g { selected = (set_selected x y g).selected }
  unfolding set_selected
  set_selected-frame x y g =
      let g1 = select_for player1 x y g in
      select_for-frame player2 x y g1
      ∙ ap {A = GameScene F} (λ k. record k { selected = (select_for player2 x y g1).selected })
          (select_for-frame player1 x y g)

  -- In the turn of the other player nothing is selected.
  pub set_selected-idle :
      (x y : ℤ) (g : GameScene F)
      → turn_eq g.player_turn g.assigned_team ≡ false
      → set_selected x y g ≡ g
  unfolding set_selected select_for
  set_selected-idle x y g h =
      let first : (turn_eq g.assigned_team player1 && turn_eq g.player_turn player1) ≡ false =
        apart player1 g.assigned_team g.player_turn h in
      let second : (turn_eq g.assigned_team player2 && turn_eq g.player_turn player2) ≡ false =
        apart player2 g.assigned_team g.player_turn h in
      rw (first, second)
    where
      apart : (p a t : PlayerTurn) → turn_eq t a ≡ false → (turn_eq a p && turn_eq t p) ≡ false
      apart player1 player1 player1 e = cc
      apart player2 player2 player2 e = cc
      apart no_player no_player no_player e = cc
      apart p a t e = refl
