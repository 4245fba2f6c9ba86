-- ===== src/Game.antt =====
-- Source/Client/GameScene.cpp and GameScene.h: the scene in which the game is played. One module
-- for the state, one for each group of operations; what is proved of a group stands below it.
pub mod State
pub mod Setup
pub mod Grid
pub mod Selection
pub mod Movement
pub mod Attack
pub mod Turn
pub mod Network
pub mod Chat
pub mod Frame
pub mod Screen
