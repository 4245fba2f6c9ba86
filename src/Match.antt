-- ===== src/Match.antt =====
-- Two players and the server between them: each plays in a scene of its own, and the packets of each
-- are under way to the other one. The order in which clicks, keys, frames and rounds of the network
-- threads come is any.
mod Clicks
mod Calm
pub mod Frames
mod Links
mod Rounds
mod Typing
mod News
pub mod Turns
mod Ending
mod Reading
mod Wires
mod Moves
mod Hearing
mod Steps
pub mod Exclusion
pub mod Arrival
pub mod Start
use networking_game.Base.{ℕ, Bool, false, List, ◌++◌, ◌≡◌, ℤ, ok, All}
use networking_game.Text.{Text}
use networking_game.Packet.Wire.{IsPrintable}
use networking_game.Client.{consume_round}
use networking_game.Server.{Send}
use networking_game.Delivery.{relay, reaching}
use networking_game.Game.State.{GameScene, Slot, Floats}
use networking_game.Game.Chat.{Keys, key_handler}
use networking_game.Game.Frame.{click_handler, update_scene}
use networking_game.Game.Network.Names.{Fits}

-- A player: the scene, and the blocks of bytes that the library has yet to deliver to its client.
pub record Player (F : Type 0) : Type 0 where
  pub scene : GameScene F
  pub inbox : List Text

-- What the library and the server bring to whom: `post i s` is what the client of id `i` gets of a
-- send `s`, `clients` are the connected clients, and `keys` are the numbers of the keys.
pub record Post : Type 0 where
  pub post : ℕ → Send → List Text
  pub clients : List ℕ
  pub keys : Keys

-- What the player `p` of id `me` does next to the player `q` of id `other`: they are `p2` and `q2`
-- then.
--   click, key: an input. What a check for the end that returns nothing gives counts as false. An
--     `int` holds the figures of the units, and no text with a zero byte is typed.
--   frame: the game's thread draws a frame.
--   round: the network's thread, while it lives, is delivered some of what has come in, in order,
--     and what it sends goes through the server to both.
pub data Move {F : Type 0} ⦃fl : Floats F⦄ (net : Post) (me other : ℕ) (p q p2 q2 : Player F)
    : Type 0 where
  click :
      (on : Bool) (x y : ℤ) (g : GameScene F)
      → ((s : Slot) → Fits (p.scene.units s))
      → click_handler false on x y p.scene ≡ ok g
      → p2 ≡ record p { scene = g }
      → q2 ≡ q
      → Move net me other p q p2 q2
  key :
      (action key : ℕ) (g : GameScene F)
      → key_handler net.keys action key p.scene ≡ ok g
      → All IsPrintable g.client_component.sending_queue
      → p2 ≡ record p { scene = g }
      → q2 ≡ q
      → Move net me other p q p2 q2
  frame :
      (junk : ℤ) (ms : F) (g : GameScene F)
      → update_scene junk ms p.scene ≡ ok g
      → p2 ≡ record p { scene = g }
      → q2 ≡ q
      → Move net me other p q p2 q2
  round :
      (d rest : List Text) (c : _) (sent : _) (sends : List Send)
      → p.scene.client_component.kill_thread ≡ false
      → p.inbox ≡ d ++ rest
      → consume_round d p.scene.client_component ≡ ok (c, sent)
      → relay net.clients me sent ≡ ok sends
      → p2 ≡ record {
        scene = record (p.scene) { client_component = c };
        inbox = rest ++ reaching net.post me sends;
      }
      → q2 ≡ record q { inbox = q.inbox ++ reaching net.post other sends }
      → Move net me other p q p2 q2

pub record Match (F : Type 0) : Type 0 where
  pub first : Player F
  pub second : Player F

-- One of the two moves.
pub data Step {F : Type 0} ⦃fl : Floats F⦄ (net : Post) (a b : Match F) : Type 0 where
  first_moves : Move net 0 1 a.first a.second b.first b.second → Step net a b
  second_moves : Move net 1 0 a.second a.first b.second b.first → Step net a b

pub data Reach {F : Type 0} ⦃fl : Floats F⦄ (net : Post) (a : Match F) : Match F → Type 0 where
  here : Reach net a a
  next : {b c : Match F} → Reach net a b → Step net b c → Reach net a c
