-- ===== src/Game/Network/Near.antt =====
-- What two players see alike of a unit, and that the frames of neither disturb it.
use networking_game.Base.{◌≡◌, refl, sym, ap, ◌∙◌, Bool, false, pos, leb_ℤ}
use networking_game.Squad.{SquadUnit, update}
use networking_game.Squad.Update.{update_frame, update_place}

-- The squad is wiped out, or worse.
abbrev pub is_gone : SquadUnit → Bool
is_gone u = leb_ℤ u.squad_size (pos 0)

-- The two are equally strong, and if anyone is left, they stand at the same place. The place of a
-- squad that is wiped out depends on whether a frame has taken it off the board yet.
pub record Near (u v : SquadUnit) : Type 0 where
  pub squad : v.squad_size ≡ u.squad_size
  pub health : v.health ≡ u.health
  pub x_pos : is_gone u ≡ false → v.object_sprite.x_pos ≡ u.object_sprite.x_pos
  pub y_pos : is_gone u ≡ false → v.object_sprite.y_pos ≡ u.object_sprite.y_pos

pub Near-refl : (u : SquadUnit) → Near u u
Near-refl u = record { squad = refl; health = refl; x_pos = λ h. refl; y_pos = λ h. refl }

pub Near-sym : (u v : SquadUnit) → Near u v → Near v u
Near-sym u v n =
    let same : is_gone v ≡ is_gone u = ap (λ s. leb_ℤ s (pos 0)) n.squad in
    record {
      squad = sym n.squad;
      health = sym n.health;
      x_pos = λ h. sym (n.x_pos (sym same ∙ h));
      y_pos = λ h. sym (n.y_pos (sym same ∙ h));
    }

pub Near-trans : (u v w : SquadUnit) → Near u v → Near v w → Near u w
Near-trans u v w n m =
    let same : is_gone v ≡ is_gone u = ap (λ s. leb_ℤ s (pos 0)) n.squad in
    record {
      squad = m.squad ∙ n.squad;
      health = m.health ∙ n.health;
      x_pos = λ h. m.x_pos (same ∙ h) ∙ n.x_pos h;
      y_pos = λ h. m.y_pos (same ∙ h) ∙ n.y_pos h;
    }

pub update-Near : (u : SquadUnit) → Near u (update u)
update-Near u = record {
  squad = ap (λ v. v.squad_size) (update_frame u);
  health = ap (λ v. v.health) (update_frame u);
  x_pos = λ h. (update_place u h).0;
  y_pos = λ h. (update_place u h).1;
}
