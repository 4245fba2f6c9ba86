-- ===== src/Examples/Matches.antt =====
-- The theorems about two players at a concrete game.
use networking_game.Base.{
  ◌≡◌, refl, arith, Result, err, true, false, [], ◌∷◌, ok, ℤ, pos, ◌+ℤ◌, ◌⊎◌,
}
use networking_game.Sprite.{mouse_on_sprite}
use networking_game.Game.State.{GameScene, Floats}
use networking_game.Game.Turn.{next_turn_pressed}
use networking_game.Game.Selection.{set_selected}
use networking_game.Game.Attack.{attack_clicked_unit}
use networking_game.Game.Movement.{place_unit_at_click}
use networking_game.Game.Frame.{click_handler, update_scene}
use networking_game.Match.{Match, Post, Reach, here, next, first_moves, click}
use networking_game.Match.Turns.{Holding}
use networking_game.Match.Arrival.{turn_arrives}
use networking_game.Match.Exclusion.{
  Begun, Settled, Connected, one_at_a_time, Settled-Holding, frames_succeed,
}
use networking_game.Examples.Worlds.{first_scene, second_scene, post, keys, whole}

instance floats : Floats ℤ
floats = whole

abbrev net : Post
net = record { post = post; clients = 0 ∷ 1 ∷ []; keys = keys }

-- Both players are in the game.
abbrev in_game : GameScene ℤ → GameScene ℤ
in_game g = record g { client_component = record (g.client_component) { is_lobby = false } }

abbrev start : Match ℤ
start = record {
  first = record { scene = in_game first_scene; inbox = [] };
  second = record { scene = in_game second_scene; inbox = [] };
}

start-Begun : Begun start
start-Begun = record {
  first_team = refl;
  second_team = refl;
  first_turn = refl;
  agreed = record {
    turn = refl;
    finished = refl;
    winner = refl;
    units = λ s h. cc;
    names = λ s. refl;
    other_names = λ s. refl;
    fits = λ s. record {
      x_pos = omega arith;
      y_pos = omega arith;
      squad_size = omega arith;
      health = omega arith;
    };
  };
  none_selected = λ s. refl;
  first_lobby = refl;
  second_lobby = refl;
  first_back = refl;
  second_back = refl;
  first_rest = record { recieved = refl; unsent = refl; unread = refl };
  second_rest = record { recieved = refl; unsent = refl; unread = refl };
  first_inbox = refl;
  second_inbox = refl;
}

net-Connected : Connected net
net-Connected = record {
  there = record { to_other = λ p. refl; to_me = λ p. refl };
  back = record { to_other = λ p. refl; to_me = λ p. refl };
}

-- What is produced, or else the second.
abbrev result {ℓ} : {A : Type ℓ} → Result A → A → A
result (ok a) b = a
result (err e) b = b

-- The first player ends the turn.
abbrev ended : GameScene ℤ
ended = result (click_handler false true (pos 1200) (pos 650) start.first.scene) start.first.scene

clicked : click_handler false true (pos 1200) (pos 650) start.first.scene ≡ ok ended
unfolding click_handler mouse_on_sprite ◌+ℤ◌ attack_clicked_unit place_unit_at_click
    next_turn_pressed set_selected
clicked = refl

-- The match after a click of the first player.
abbrev with_first : GameScene ℤ → Match ℤ
with_first g = record start { first = record { scene = g; inbox = [] } }

to_ended : Reach net start (with_first ended)
to_ended =
    next here (
      first_moves (click true (pos 1200) (pos 650) ended start-Begun.agreed.fits clicked refl refl))

one_at_a_time_example : ¬ (
    (ended.player_turn ≡ ended.assigned_team)
    × (start.second.scene.player_turn ≡ start.second.scene.assigned_team))
one_at_a_time_example =
    one_at_a_time net start (with_first ended) net-Connected start-Begun to_ended

frames_succeed_example :
    ((g : GameScene ℤ) × (update_scene (pos 0) (pos 16) ended ≡ ok g))
    × ((h : GameScene ℤ) × (update_scene (pos 0) (pos 16) start.second.scene ≡ ok h))
frames_succeed_example =
    frames_succeed net start (with_first ended) (pos 0) (pos 16) net-Connected start-Begun to_ended

alive : ended.client_component.kill_thread ≡ false
unfolding click_handler mouse_on_sprite ◌+ℤ◌ attack_clicked_unit place_unit_at_click
    next_turn_pressed set_selected
alive = refl

goes_on : ended.game_finished ≡ false
unfolding click_handler mouse_on_sprite ◌+ℤ◌ attack_clicked_unit place_unit_at_click
    next_turn_pressed set_selected
goes_on = refl

turn_arrives_example :
    (c : Match ℤ) × Reach net (with_first ended) c
    × ((c.first.scene.player_turn ≡ c.first.scene.assigned_team)
        ⊎ (c.second.scene.player_turn ≡ c.second.scene.assigned_team))
turn_arrives_example =
    turn_arrives net start (with_first ended) (pos 16) net-Connected start-Begun to_ended alive refl
      goes_on refl

-- Instead the first player selects a unit.
abbrev choosing : GameScene ℤ
choosing = result (click_handler false true (pos 50) (pos 10) start.first.scene) start.first.scene

chosen : click_handler false true (pos 50) (pos 10) start.first.scene ≡ ok choosing
unfolding click_handler mouse_on_sprite ◌+ℤ◌ attack_clicked_unit place_unit_at_click
    next_turn_pressed set_selected
chosen = refl

to_choosing : Reach net start (with_first choosing)
to_choosing =
    next here
      (first_moves (click true (pos 50) (pos 10) choosing start-Begun.agreed.fits chosen refl refl))

choosing-Settled : Settled (with_first choosing)
unfolding click_handler mouse_on_sprite ◌+ℤ◌ attack_clicked_unit place_unit_at_click
    next_turn_pressed set_selected
choosing-Settled = record {
  first_unsent = refl;
  second_unsent = refl;
  first_unread = refl;
  second_unread = refl;
  first_inbox = refl;
  second_inbox = refl;
}

Settled-Holding_example : Holding choosing start.second.scene ⊎ Holding start.second.scene choosing
Settled-Holding_example =
    Settled-Holding net start (with_first choosing) net-Connected start-Begun to_choosing
      choosing-Settled
