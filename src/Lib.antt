-- ===== src/Lib.antt =====
-- A verification library for NetworkingGame, a turn-based game for two players over a network.
-- Each player runs a client (Source/Client) with a scene of eight squads, four a side; a server
-- (Source/Server) passes the packets (Source/Common) of each client on to the other one.
--
-- The parts and their files:
--
-- - Base: whole numbers, Boolean tests, lists, and results that are a value or a fault. A fault
--   stands for an exception or for behaviour that C++ leaves undefined.
-- - Text: texts as lists of character codes; Text/Decimal: `std::to_string` and `std::stoi`.
-- - Packet: `CustomPacket` of Source/Common/CustomPacket.cpp, its wire form and `unitDataDeciper`.
-- - Sprite: the rectangle of a sprite and Source/Client/Collision.cpp.
-- - UnitType: Source/Client/UnitType.cpp, the table of types that is loaded from units.json.
-- - Squad: `Unit` of Source/Client/Unit.cpp, called SquadUnit.
-- - Client: Source/Client/ClientNetworking.cpp, the loop of the network thread and its rounds.
-- - Server: Source/Server/Server.cpp, the handlers of data, connection and disconnection.
-- - Game: Source/Client/GameScene.cpp. Game/State has the scene's record, and each other file one
--   group of its functions: Setup (`initUnits`), Selection (`setSelected`), Grid (`gridSnapping`),
--   Movement (`placeUnitAtClick`), Attack (`attackClickedUnit`), Turn (`nextTurnPressed`,
--   `endgame_check`, `updateReconnectee`), Network (`unitNetworkUpdate`), Chat (`keyHandler`), Frame
--   (`update`, `clickHandler`) and Screen (`render`).
-- - Render: the calls of the renderer and the layers of Source/Client/Constants.h.
-- - SceneManager: Source/Client/SceneManager.cpp, the stack of scenes, over the interface SceneOps,
--   which stands for the class `Scene` of Source/Client/Scene.h.
-- - MenuScene, ServerConnectScene: Source/Client/MenuScene.cpp and ServerConnectScene.cpp.
-- - MyNetGame: Source/Client/MyNetGame.cpp, the application: it fills SceneOps with the three kinds
--   of scenes. Its files Stack, Frames and Runs are about the shape of the stack and the runs.
-- - Delivery: the way of packets from one client through the server to the other one; Delivery/Rejoin
--   is about a player who comes back.
-- - Match: two players, each with a scene and an inbox, and the server between them, as a step
--   relation: a step is a click, a key, a frame or a round of the network thread of either player.
--   Its files take the moves one by one (Clicks, Typing, Frames, Rounds) and put them together
--   (Turns, Ending, Reading, Wires, Moves, Hearing, Steps); Start has how a match begins, and Exclusion
--   and Arrival have what holds of every run.
-- - Examples: the theorems at concrete inputs.
--
-- How they interact: a click or a frame of Game changes the units and queues packets in the
-- client's state; a round of Client sends that queue and sorts what has arrived into the queues
-- that the next frame of Game reads; Server turns what one client sends into what others get, and
-- Delivery composes the three, once. Match lets all of that happen in any order and any number of
-- times, with what the network delivers split at any block. A scene that is updated asks the scene
-- manager to add or remove scenes: the menu adds the connect scene, that adds the game, and a game
-- that ends has both removed. The requests are a list that the manager works off after the update.
--
-- How the code is written here:
--
-- - An operation takes the state and returns the new one. The network thread and the game take
--   turns as whole rounds and whole frames; mutexes are left out.
-- - Coordinates are whole numbers: the engine's floats hold those exactly below 2 ^ 24, and the
--   positions that the code computes are whole. The damage of an attack is whole too, but may be
--   larger: Base/Single rounds it as a float does, to 24 binary digits, to the nearest and on a tie to
--   the even one. Its step is doubled at most 104 times, with which it reaches 2 ^ 128, the bound of
--   floats; the conversions to float of the code stay far below. Only the bullet and the chat's timer
--   need fractions; their arithmetic is an argument, the interface Floats.
-- - Arithmetic on int is unbounded, since overflow is undefined in C++; `std::stoi` checks the range.
--   The ids of clients are 32 bit wide and wrap around.
-- - The eight units and the pointers to them are functions from Slot, one slot for each pointer of
--   the scene; the order of `units_vec` is a list of slots.
-- - A function that flows off its end without a return takes the value as an argument, `junk`.
-- - Loops over queues and texts recurse on the list, or on its length as fuel, which each step
--   shortens.
-- - What the engine, the network library, the audio library and the JSON library are asked for is a
--   result (a list of calls or of sends), and what they answer is an argument.
-- - The calls that a game makes are logged in its `calls`. MyNetGame empties the log before it updates
--   a game, and reads the requests to the manager from it after.
-- - The cursor stands at a whole position when a scene is drawn.
-- - A match is played by two players who are in the game and stay there: the lobby and reconnections
--   are modelled as functions, and do not occur among its steps. Delivery/Rejoin composes those of a
--   reconnection, once.
--
-- Not modelled: the window and the fonts, which are calls of the engine; the start and end of the
-- network and audio libraries; output to the console; the colours of sprites; the size and the
-- height of the tank in the connect scene, which do not change; and what the destructors of the
-- scenes ask of the libraries.
pub mod Base
pub mod Text
pub mod Packet
pub mod Sprite
pub mod UnitType
pub mod Squad
pub mod Client
pub mod Server
pub mod Render
pub mod SceneManager
pub mod MenuScene
pub mod ServerConnectScene
pub mod MyNetGame
pub mod Game
pub mod Delivery
pub mod Match
pub mod Examples
