-- ===== src/Game/Network/Begin.antt =====
-- Two games that start from the same file agree.
use networking_game.Base.{◌≡◌, refl, List, ℤ, pos, rem, ok}
use networking_game.Text.{Text}
use networking_game.Sprite.{Sprite}
use networking_game.UnitType.{UnitType, Member}
use networking_game.Squad.{SquadUnit}
use networking_game.Client.{fresh}
use networking_game.Game.State.{GameScene, Slot, Floats, player1, player2}
use networking_game.Game.Setup.{init_units, new_scene}
use networking_game.Game.Setup.Start.{init_units-Ready}
use networking_game.Game.Frame.{assign_team}
use networking_game.Game.Network.Names.{Fits}
use networking_game.Game.Network.Sync.{InTurn}

module _ {F : Type 0} ⦃fl : Floats F⦄ where
  -- A new game whose client has got an id from the server, with the team that it then has.
  abbrev pub joined : (Text → Sprite) → (Slot → SquadUnit) → Text → ℤ → GameScene F
  joined loaded units ip id =
      assign_team (record (new_scene loaded ip units) {
        client_component = record (fresh ip) { user_id = id };
      })

  -- The clients of ids 0 and 1, on computers with the same file of units, whose figures an `int`
  -- holds: when both have got their ids they are of different teams, it is the first player's turn,
  -- and they agree on the game, as a turn that is to be sent over asks for.
  pub joined-InTurn :
      (loaded : Text → Sprite) (members : List Member) (old_types types : List UnitType)
      (units : Slot → SquadUnit) (ip other_ip : Text)
      → init_units loaded members old_types ≡ ok (types, units)
      → ((s : Slot) → Fits (units s))
      → let g = joined loaded units ip (pos 0) in
        let h = joined loaded units other_ip (pos 1) in
        (g.assigned_team ≡ player1)
        × (h.assigned_team ≡ player2)
        × (g.player_turn ≡ player1)
        × InTurn g h
  unfolding assign_team rem
  joined-InTurn loaded members old_types types units ip other_ip made fits =
      let ready = (init_units-Ready loaded members old_types types units made).1 in
      (
        refl,
        refl,
        refl,
        record {
          turn = refl;
          finished = refl;
          winner = refl;
          units = λ s h. (refl, refl, refl, refl);
          names = λ s. (ready s).name;
          other_names = λ s. (ready s).name;
          fits = fits;
        },
      )
