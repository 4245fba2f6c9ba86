-- ===== src/Render.antt =====
-- What the scenes hand to the renderer, a library: Source/Client/Constants.h and the calls of
-- `renderSprite` and `renderText`. A frame is the list of these calls in their order.
use networking_game.Base.{ℕ, ℤ}
use networking_game.Text.{Text}
use networking_game.Sprite.{Sprite}

-- The layers of Constants.h, from the back.
pub data Layer : Type 0 where
  background middle_ground_back middle_ground_mid middle_ground_front : Layer
  foreground text_foreground : Layer

pub data Colour : Type 0 where
  black white ghostwhite lightgreen : Colour

-- `sprite` has the name of the member that holds the sprite; `text` has the text, its place, its
-- scale in hundredths, and its colour.
pub data Draw : Type 0 where
  sprite : Text → Sprite → Layer → Draw
  text : Text → ℤ → ℤ → ℕ → Colour → Layer → Draw
