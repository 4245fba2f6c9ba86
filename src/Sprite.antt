-- ===== src/Sprite.antt =====
-- Source/Client/Collision.cpp, GameObject.cpp and the position and size of an ASGE sprite.
-- The coordinates that the modelled code gives to sprites are whole, and far below 2^24, where a
-- float is exact; they are modelled as whole numbers.
pub mod Hit
use networking_game.Base.{ℤ, ◌+ℤ◌, leb_ℤ, Bool, ◌&&◌, true, false, if◌then◌else◌, quot, pos}

pub record Sprite : Type 0 where
  pub x_pos : ℤ
  pub y_pos : ℤ
  pub width : ℤ
  pub height : ℤ

abbrev pub move_to : ℤ → ℤ → Sprite → Sprite
move_to x y s = record s { x_pos = x; y_pos = y }

abbrev pub resize : ℤ → ℤ → Sprite → Sprite
resize w h s = record s { width = w; height = h }

-- `Collision::spriteOnSprite`
unfoldable pub sprite_on_sprite : Sprite → Sprite → Bool
sprite_on_sprite collider collidee =
    let x_collide =
      leb_ℤ collider.x_pos (collidee.x_pos +ℤ collidee.width)
      && leb_ℤ collidee.x_pos (collider.x_pos +ℤ collider.width) in
    let y_collide =
      leb_ℤ collider.y_pos (collidee.y_pos +ℤ collidee.height)
      && leb_ℤ collidee.y_pos (collider.y_pos +ℤ collider.height) in
    if x_collide && y_collide then true else false

-- `Collision::mouseOnSprite`
unfoldable pub mouse_on_sprite : ℤ → ℤ → Sprite → Bool
mouse_on_sprite pos_x pos_y collidee =
    let x_collide = leb_ℤ pos_x (collidee.x_pos +ℤ collidee.width) && leb_ℤ collidee.x_pos pos_x in
    let y_collide = leb_ℤ pos_y (collidee.y_pos +ℤ collidee.height) && leb_ℤ collidee.y_pos pos_y in
    if x_collide && y_collide then true else false
