-- ===== src/Examples.antt =====
-- The theorems at concrete inputs that meet their hypotheses: the protocol (packets, client, server),
-- the play (sprites, units, the scene), the scenes of the application, a game from its start on, and
-- the exchange of a turn, and a match of two players. Worlds has the scenes and units that they share.
mod Protocol
mod Play
mod Worlds
mod Scenes
mod Games
mod Exchange
mod Matches
