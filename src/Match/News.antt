-- ===== src/Match/News.antt =====
-- The packets of a turn, read by the other player all at once or bit by bit.
use networking_game.Base.{
  ◌≡◌, ◌≢◌, refl, sym, ap, ◌∙◌, subst, Bool, true, false, if◌then◌else◌, List, [], ◌∷◌, ◌++◌, ok,
  ◌>>=◌, All, Bool-cases, inl, inr, ◌⊎◌, ok-injective, >>=-eq-ok,
}
use networking_game.Text.{codes, text_eq}
use networking_game.Packet.{CustomPacket, Deciphered, unit_data_deciper}
use networking_game.Squad.{SquadUnit}
use networking_game.Game.State.{GameScene, Slot, units_vec, turn_eq, player1, no_player}
use networking_game.Game.Turn.{unit_packet, end_game_packet, other_player}
use networking_game.Game.Turn.Handover.{changed_packets, last_packets, settled, won}
use networking_game.Game.Network.{apply_update}
use networking_game.Game.Network.Names.{Named, Fits, data_of, not_news, deciper-unit_packet}
use networking_game.Game.Network.Near.{Near}
use networking_game.Game.Network.Like.{Like}
use networking_game.Game.Network.Updates.{apply_each, take_over_by_name_frame}
use networking_game.Game.Network.Overlay.{
  SameUnit, overlay, overlay_all, overlay-Named, apply_each-changed_packets, apply_each-append,
}
use networking_game.Game.Network.Sync.{
  note, victor, handed_over, after_turn, last_packets_read, deciper-end_game_packet, team_of_winner,
}

abbrev pub turn_packets : {F : Type 0} → GameScene F → List CustomPacket
turn_packets g = changed_packets units_vec g.units ++ last_packets false g

-- The packet does not pass the turn on.
pub Keeps : CustomPacket → Type 0
Keeps p =
    (d : Deciphered) → unit_data_deciper p ≡ ok d → text_eq d.unit_name (codes "endturn") ≡ false

-- No packet but the last one passes the turn on.
pub Late : List CustomPacket → Type 0
Late [] = Unit
Late (p ∷ []) = Unit
Late (p ∷ q ∷ ps) = Keeps p × Late (q ∷ ps)

Late-cons : (p : CustomPacket) (ps : List CustomPacket) → Keeps p → Late ps → Late (p ∷ ps)
unfolding Late
Late-cons p [] k l = tt
Late-cons p (q ∷ ps) k l = (k, l)

Late-append : (ps qs : List CustomPacket) → All Keeps ps → Late qs → Late (ps ++ qs)
Late-append [] qs k l = l
Late-append (p ∷ ps) qs k l = Late-cons p (ps ++ qs) k.0 (Late-append ps qs k.1 l)

-- What is read of late news is all of it, or does not pass the turn on.
pub Late-split :
    (ps qs : List CustomPacket) → Late (ps ++ qs) → (qs ≡ []) ⊎ (All Keeps ps × Late qs)
unfolding Late
Late-split ps [] l = inl refl
Late-split [] (q ∷ qs) l = inr (tt, l)
Late-split (p ∷ []) (q ∷ qs) l = inr ((l.0, tt), l.1)
Late-split (p ∷ r ∷ ps) (q ∷ qs) l = elim (Late-split (r ∷ ps) (q ∷ qs) l.1) [
  | inl e ↦ inl e
  | inr (k, m) ↦ inr ((l.0, k), m)
]

Keeps-read :
    (p : CustomPacket) (d : Deciphered)
    → unit_data_deciper p ≡ ok d
    → text_eq d.unit_name (codes "endturn") ≡ false
    → Keeps p
unfolding Keeps
Keeps-read p d e n d' f =
    subst (λ z. text_eq z.unit_name (codes "endturn") ≡ false) (ok-injective d d' (sym e ∙ f)) n

changed_packets-Keeps :
    (ss : List Slot) (us : Slot → SquadUnit)
    → Named us
    → ((s : Slot) → Fits (us s))
    → All Keeps (changed_packets ss us)
changed_packets-Keeps [] us named fits = tt
changed_packets-Keeps (s ∷ ss) us named fits =
    choose (us s).has_changed (changed_packets-Keeps ss us named fits)
  where
    choose :
        (b : Bool)
        → All Keeps (changed_packets ss us)
        → All Keeps
            (if b then unit_packet (us s) ∷ changed_packets ss us else changed_packets ss us)
    choose true rest = (
      Keeps-read (unit_packet (us s)) (data_of (us s))
          (deciper-unit_packet s (us s) (named s) (fits s))
          (ap (λ n. text_eq n (codes "endturn")) (named s) ∙ (not_news s).0),
      rest,
    )
    choose false rest = rest

end_game-Keeps : (first : Bool) → Keeps (end_game_packet (victor first))
unfolding text_eq
end_game-Keeps first =
    Keeps-read (end_game_packet (victor first)) (note (codes "endgame") (victor first))
      (deciper-end_game_packet first) refl

same-Near : (u v : SquadUnit) → SameUnit u v → Near u v
same-Near u v (x, y, squad, health) = record {
  squad = squad;
  health = health;
  x_pos = λ h. x;
  y_pos = λ h. y;
}

module _ {F : Type 0} where
  last_packets-Late : (g : GameScene F) → Late (last_packets false g)
  unfolding Late
  last_packets-Late g = elim (Bool-cases (won g)) [
    | inl w ↦ rw w (end_game-Keeps (turn_eq g.assigned_team player1), tt)
    | inr l ↦ rw l tt
  ]

  pub turn_packets-Late :
      (g : GameScene F) → Named g.units → ((s : Slot) → Fits (g.units s)) → Late (turn_packets g)
  turn_packets-Late g named fits =
      Late-append (changed_packets units_vec g.units) (last_packets false g)
        (changed_packets-Keeps units_vec g.units named fits) (last_packets-Late g)

  apply_update-turn :
      (d : Deciphered) (g : GameScene F)
      → text_eq d.unit_name (codes "endturn") ≡ false
      → (apply_update d g).player_turn ≡ g.player_turn
  unfolding apply_update
  apply_update-turn d g n = elim (Bool-cases (text_eq d.unit_name (codes "endgame"))) [
    | inl e ↦ rw (e, n)
    | inr e ↦ rw (e, n) (ap (λ k. k.player_turn) (take_over_by_name_frame d units_vec g))
  ]

  -- News that do not pass the turn on leave it as it is.
  pub apply_each-turn :
      (ps : List CustomPacket) (g k : GameScene F)
      → All Keeps ps
      → apply_each ps g ≡ ok k
      → k.player_turn ≡ g.player_turn
  unfolding Keeps
  apply_each-turn [] g k h e = ap (λ j. j.player_turn) (sym (ok-injective g k e))
  apply_each-turn (p ∷ ps) g k h e =
      let (d, made, rest) =
        >>=-eq-ok (unit_data_deciper p) (λ d. apply_each ps (apply_update d g)) k e in
      apply_each-turn ps (apply_update d g) k h.1 rest ∙ apply_update-turn d g (h.0 d made)

  -- The packets of a turn, read by a player who has the same but for the marked units, are read
  -- with no fault, and the two have the same then.
  pub turn_read :
      (g h : GameScene F)
      → g.assigned_team ≢ no_player
      → h.player_turn ≡ g.player_turn
      → h.game_finished ≡ g.game_finished
      → h.winning_player ≡ g.winning_player
      → ((s : Slot) → (g.units s).has_changed ≡ false → Near (g.units s) (h.units s))
      → Named g.units
      → Named h.units
      → ((s : Slot) → Fits (g.units s))
      → (k : GameScene F) × (apply_each (turn_packets g) h ≡ ok k) × Like (handed_over g) k
  turn_read g h team turn finished winner near named other_named fits =
      let us = overlay units_vec g.units h.units in
      let h1 = record h { units = us } in
      let same : (s : Slot) → Near ((settled g).units s) (us s) = λ s.
        let n = overlay_all Near same-Near g.units h.units near s in
        record { squad = n.squad; health = n.health; x_pos = n.x_pos; y_pos = n.y_pos } in
      let other = overlay-Named units_vec g.units h.units other_named in
      (
        after_turn g h1,
        apply_each-append (changed_packets units_vec g.units) (last_packets false g) h
            ∙ ap (λ r. r >>= apply_each (last_packets false g))
                (apply_each-changed_packets units_vec g.units h named fits other_named)
            ∙ last_packets_read g h1 other,
        elim (Bool-cases (won g)) [
          | inl w ↦ rw w (record {
            turn = ap other_player turn;
            finished = refl;
            winner = team_of_winner g.assigned_team team;
            units = same;
            names = λ s. other s ∙ sym (named s);
          })
          | inr l ↦ rw l (record {
            turn = ap other_player turn;
            finished = finished;
            winner = winner;
            units = same;
            names = λ s. other s ∙ sym (named s);
          })
        ],
      )
