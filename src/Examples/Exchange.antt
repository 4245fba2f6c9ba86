-- ===== src/Examples/Exchange.antt =====
-- The theorems of the exchange between two players at concrete scenes.
use networking_game.Base.{ℕ, ◌≡◌, refl, arith, true, false, [], ◌∷◌, List, ok, ℤ, pos, ◌+ℤ◌, ◌>>=◌}
use networking_game.Text.{Text}
use networking_game.Client.{ClientComponent, consume_round}
use networking_game.Server.{Server, Send, on_client_connect, on_client_disconnect}
use networking_game.Sprite.{mouse_on_sprite}
use networking_game.Game.State.{GameScene}
use networking_game.Game.Turn.{next_turn_pressed, end_turn_packet}
use networking_game.Game.Network.{unit_network_update, with_updates}
use networking_game.Game.Network.Updates.{apply_each, unit_network_update_lem}
use networking_game.Game.Network.Sync.{Agree, InTurn}
use networking_game.Base.{◌++◌}
use networking_game.Client.Round.{process_each}
use networking_game.Game.State.{Slot}
use networking_game.Game.Turn.{update_reconnectee, other_player}
use networking_game.Game.Frame.{restore, update_scene}
use networking_game.Game.Network.Overlay.{SameUnit}
use networking_game.Game.Network.Takeover.{whole_game, game_is_taken_over}
use networking_game.Delivery.{relay, reaching}
use networking_game.Delivery.Rejoin.{Brings}
use networking_game.Delivery.Rejoin.Resumed.{game_is_resumed}
use networking_game.Delivery.Turns.{AtRest, turn_reaches_other_player}
use networking_game.Examples.Worlds.{whole, first_scene, second_scene, post}

scenes-InTurn : InTurn first_scene second_scene
scenes-InTurn = record {
  turn = refl;
  finished = refl;
  winner = refl;
  units = λ s h. cc;
  names = λ s. refl;
  other_names = λ s. refl;
  fits = λ s. record {
    x_pos = omega arith;
    y_pos = omega arith;
    squad_size = omega arith;
    health = omega arith;
  };
}

first-AtRest : AtRest first_scene.client_component
first-AtRest = record { recieved = refl; unsent = refl; unread = refl }

second-AtRest : AtRest second_scene.client_component
second-AtRest = record { recieved = refl; unsent = refl; unread = refl }

on_button : mouse_on_sprite (pos 1200) (pos 650) first_scene.next_turn_button ≡ true
unfolding mouse_on_sprite ◌+ℤ◌
on_button = refl

turn_reaches_other_player_example :
    let g' = next_turn_pressed false (pos 1200) (pos 650) first_scene in
    (sent : List (Text × ℕ)) × (sends : List Send) × (c : ClientComponent) × (d : ClientComponent)
    × (h' : GameScene ℤ) × (consume_round [] g'.client_component ≡ ok (c, sent))
    × (relay (0 ∷ 1 ∷ []) 0 sent ≡ ok sends)
    × (consume_round (reaching post 1 sends) second_scene.client_component ≡ ok (d, []))
    × (unit_network_update (record second_scene { client_component = d }) ≡ ok h')
    × (h'.client_component.unit_update_queue ≡ [])
    × Agree g' h'
turn_reaches_other_player_example =
    turn_reaches_other_player post (0 ∷ 1 ∷ []) 0 1 (pos 1200) (pos 650) first_scene second_scene
      (λ p. refl) first-AtRest second-AtRest scenes-InTurn (λ e. cc) refl on_button

abbrev told : GameScene ℤ
told = with_updates (end_turn_packet ∷ []) second_scene

unit_network_update_lem_example :
    unit_network_update told
    ≡ (apply_each told.client_component.unit_update_queue told >>= λ g'. ok (with_updates [] g'))
unit_network_update_lem_example = unit_network_update_lem told

-- The second player reconnects.
game_is_taken_over_example :
    ((update_reconnectee (pos 0) first_scene).client_component.sending_queue
      ≡ first_scene.client_component.sending_queue ++ whole_game first_scene)
    × (c : ClientComponent) × (h' : GameScene ℤ) × (process_each
          (whole_game first_scene)
          second_scene.client_component
        ≡ ok c)
    × (c.update_complete ≡ true)
    × (unit_network_update (restore (record second_scene { client_component = c })) ≡ ok h')
    × (h'.player_turn ≡ first_scene.player_turn)
    × (h'.assigned_team ≡ other_player first_scene.assigned_team)
    × ((s : Slot) → SameUnit (first_scene.units s) (h'.units s))
game_is_taken_over_example =
    game_is_taken_over (pos 0) first_scene second_scene (λ e. cc) (λ e. cc) (λ s. refl) (λ s. refl)
      scenes-InTurn.fits refl

post-Brings : Brings post
post-Brings = record { one = λ client i p. refl; all = λ client p f. refl }

abbrev on_air : Server
on_air = record { game_active = true; next_uid = 0; component_next_uid = 2 }

-- The second player comes back as client 2.
game_is_resumed_example :
    (lost : List Send) × (back : List Send) × (c : ClientComponent) × (d : ClientComponent)
    × (g' : GameScene ℤ) × (c' : ClientComponent) × (sent : List (Text × ℕ)) × (passed : List Send)
    × (d' : ClientComponent) × (h' : GameScene ℤ) × (on_client_disconnect (0 ∷ []) on_air
        ≡ ok (on_air, lost))
    × (on_client_connect (0 ∷ 2 ∷ []) 2 on_air ≡ ok (on_air, back))
    × (consume_round (reaching post 0 (lost ++ back)) first_scene.client_component ≡ ok (c, []))
    × (consume_round (reaching post 2 (lost ++ back)) second_scene.client_component ≡ ok (d, []))
    × (update_scene ⦃fl = whole⦄ (pos 0) (pos 16) (record first_scene { client_component = c })
        ≡ ok g')
    × (consume_round [] g'.client_component ≡ ok (c', sent))
    × (relay (0 ∷ 2 ∷ []) 0 sent ≡ ok passed)
    × (consume_round (reaching post 2 passed) d ≡ ok (d', []))
    × (d'.update_complete ≡ true)
    × (d'.is_reconnecting ≡ true)
    × (d'.is_lobby ≡ false)
    × (unit_network_update (restore (record second_scene { client_component = d' })) ≡ ok h')
    × (h'.player_turn ≡ first_scene.player_turn)
    × (h'.assigned_team ≡ other_player first_scene.assigned_team)
    × ((t : Slot) → SameUnit (first_scene.units t) (h'.units t))
game_is_resumed_example =
    game_is_resumed ⦃fl = whole⦄ post on_air 0 2 (pos 0) (pos 16) first_scene second_scene
      post-Brings (omega arith) refl first-AtRest second-AtRest (λ e. cc) (λ e. cc) refl (λ s. refl)
      (λ s. refl) scenes-InTurn.fits
