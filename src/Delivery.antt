-- ===== src/Delivery.antt =====
-- The way of a turn: from one client's queue through the server (Source/Server/Server.cpp) into the
-- other client's queue and scene. What the network library brings to a client of what the server
-- sends is an argument.
pub mod Packets
pub mod Turns
pub mod Rejoin
use networking_game.Base.{ℕ, List, [], ◌∷◌, ◌++◌, Result, ok, ◌>>=◌}
use networking_game.Text.{Text}
use networking_game.Server.{Send, on_client_data}

-- The server gets the data of one client, block by block.
unfoldable pub relay : List ℕ → ℕ → List (Text × ℕ) → Result (List Send)
relay clients sender [] = ok []
relay clients sender (d ∷ ds) = do
  sends ← on_client_data clients sender d.0
  more ← relay clients sender ds
  ok (sends ++ more)

-- What reaches a client of a list of sends, in order.
abbrev pub reaching : (ℕ → Send → List Text) → ℕ → List Send → List Text
reaching inbox client [] = []
reaching inbox client (s ∷ ss) = inbox client s ++ reaching inbox client ss
