-- ===== src/Game/State/Slots.antt =====
-- Slots are told apart by their index, and a write through one pointer is seen there only.
use networking_game.Base.{ℕ, zero, suc, ◌≡◌, ◌↔◌, refl, sym, ap, ◌∙◌, true, false, ==_iff, ==_refl}
use networking_game.Game.State.{
  Slot, infantry_enemy, sniper_enemy, artillery_enemy, tank_enemy, infantry_ally, sniper_ally,
  artillery_ally, tank_ally, slot_index, slot_eq, write,
}

abbrev from_index : ℕ → Slot
from_index zero = infantry_enemy
from_index (suc zero) = sniper_enemy
from_index (suc (suc zero)) = artillery_enemy
from_index (suc (suc (suc zero))) = tank_enemy
from_index (suc (suc (suc (suc zero)))) = infantry_ally
from_index (suc (suc (suc (suc (suc zero))))) = sniper_ally
from_index (suc (suc (suc (suc (suc (suc zero)))))) = artillery_ally
from_index (suc (suc (suc (suc (suc (suc (suc n))))))) = tank_ally

from_index-slot_index : (s : Slot) → from_index (slot_index s) ≡ s
from_index-slot_index infantry_enemy = refl
from_index-slot_index _ = refl

pub slot_eq_iff : (s t : Slot) → (slot_eq s t ≡ true) ↔ (s ≡ t)
slot_eq_iff s t = (
  λ h.
      sym (from_index-slot_index s)
      ∙ ap from_index ((==_iff (slot_index s) (slot_index t)).0 h)
      ∙ from_index-slot_index t,
  λ e. (==_iff (slot_index s) (slot_index t)).1 (ap slot_index e),
)

pub slot_eq_refl : (s : Slot) → slot_eq s s ≡ true
slot_eq_refl s = ==_refl (slot_index s)

module _ {ℓ} {A : Type ℓ} where
  pub write_self : (s : Slot) (a : A) (f : Slot → A) → write s a f s ≡ a
  write_self s a f = rw (slot_eq_refl s)

  pub write-ne : (s t : Slot) (a : A) (f : Slot → A) → slot_eq s t ≡ false → write s a f t ≡ f t
  write-ne s t a f h = rw h
