-- ===== src/Match/Calm.antt =====
-- What a player does with no effect on the other one.
use networking_game.Base.{
  ◌≡◌, refl, sym, ap, ◌∙◌, subst, arith, Bool, true, false, List, [], ◌∷◌, if◌then◌else◌,
  Bool-cases, inl, inr, ℤ, pos,
}
use networking_game.Packet.{CustomPacket}
use networking_game.Squad.{update}
use networking_game.Squad.Update.{update_frame}
use networking_game.Game.State.{
  GameScene, Slot, units_vec, slot_eq, change, Floats, turn_eq, no_player, stay, to_menu,
  SceneTransitions,
}
use networking_game.Game.State.Slots.{slot_eq_iff}
use networking_game.Game.Chat.{chat_update}
use networking_game.Game.Frame.{update_units, bullet_movement, units_update, assign_team, leave}
use networking_game.Game.Network.Near.{Near, Near-refl, Near-trans, update-Near}

module _ {F : Type 0} where
  -- The units are near what they were and keep their marks; the turn, the end of the game, the team
  -- and the selection are the same, and the connection has the same packets to send and to read.
  pub record Calm (g k : GameScene F) : Type 0 where
    pub units : (s : Slot) → Near (g.units s) (k.units s)
    pub marks : (s : Slot) → (k.units s).has_changed ≡ (g.units s).has_changed
    pub names : (s : Slot) → (k.units s).ref_name ≡ (g.units s).ref_name
    pub turn : k.player_turn ≡ g.player_turn
    pub finished : k.game_finished ≡ g.game_finished
    pub winner : k.winning_player ≡ g.winning_player
    pub team : k.assigned_team ≡ g.assigned_team
    pub selected : k.selected ≡ g.selected
    pub sending : k.client_component.sending_queue ≡ g.client_component.sending_queue
    pub waiting : k.client_component.unit_update_queue ≡ g.client_component.unit_update_queue
    pub recieved : k.client_component.recieved_queue ≡ g.client_component.recieved_queue
    pub lobby : k.client_component.is_lobby ≡ g.client_component.is_lobby
    pub reconnecting : k.client_component.is_reconnecting ≡ g.client_component.is_reconnecting

  pub Calm-refl : (g : GameScene F) → Calm g g
  Calm-refl g = record {
    units = λ s. Near-refl (g.units s);
    marks = λ s. refl;
    names = λ s. refl;
    turn = refl;
    finished = refl;
    winner = refl;
    team = refl;
    selected = refl;
    sending = refl;
    waiting = refl;
    recieved = refl;
    lobby = refl;
    reconnecting = refl;
  }

  pub Calm-trans : (g h k : GameScene F) → Calm g h → Calm h k → Calm g k
  Calm-trans g h k a b = record {
    units = λ s. Near-trans (g.units s) (h.units s) (k.units s) (a.units s) (b.units s);
    marks = λ s. b.marks s ∙ a.marks s;
    names = λ s. b.names s ∙ a.names s;
    turn = b.turn ∙ a.turn;
    finished = b.finished ∙ a.finished;
    winner = b.winner ∙ a.winner;
    team = b.team ∙ a.team;
    selected = b.selected ∙ a.selected;
    sending = b.sending ∙ a.sending;
    waiting = b.waiting ∙ a.waiting;
    recieved = b.recieved ∙ a.recieved;
    lobby = b.lobby ∙ a.lobby;
    reconnecting = b.reconnecting ∙ a.reconnecting;
  }

  change-Calm : (s : Slot) (g : GameScene F) → Calm g (change s update g)
  change-Calm s g = record {
    units = λ t. near t (slot_eq s t) (λ e. (slot_eq_iff s t).0 e);
    marks = λ t. mark t (slot_eq s t) (λ e. (slot_eq_iff s t).0 e);
    names = λ t. name t (slot_eq s t) (λ e. (slot_eq_iff s t).0 e);
    turn = refl;
    finished = refl;
    winner = refl;
    team = refl;
    selected = refl;
    sending = refl;
    waiting = refl;
    recieved = refl;
    lobby = refl;
    reconnecting = refl;
  }
    where
      near :
          (t : Slot) (b : Bool)
          → (b ≡ true → s ≡ t)
          → Near (g.units t) (if b then update (g.units s) else g.units t)
      near t true e =
          subst (λ v. Near (g.units v) (update (g.units s))) (e refl) (update-Near (g.units s))
      near t false e = Near-refl (g.units t)

      mark :
          (t : Slot) (b : Bool)
          → (b ≡ true → s ≡ t)
          → (if b then update (g.units s) else g.units t).has_changed ≡ (g.units t).has_changed
      mark t true e =
          ap (λ v. v.has_changed) (update_frame (g.units s))
          ∙ ap (λ v. (g.units v).has_changed) (e refl)
      mark t false e = refl

      name :
          (t : Slot) (b : Bool)
          → (b ≡ true → s ≡ t)
          → (if b then update (g.units s) else g.units t).ref_name ≡ (g.units t).ref_name
      name t true e =
          ap (λ v. v.ref_name) (update_frame (g.units s)) ∙ ap (λ v. (g.units v).ref_name) (e refl)
      name t false e = refl

  update_units-Calm : (ss : List Slot) (g : GameScene F) → Calm g (update_units ss g)
  unfolding update_units
  update_units-Calm [] g = Calm-refl g
  update_units-Calm (s ∷ ss) g =
      let g1 = change s update g in
      Calm-trans g g1 (update_units ss g1) (change-Calm s g) (update_units-Calm ss g1)

  -- A scene with what has nothing to do with the other player taken from another one.
  abbrev pub trifles : GameScene F → GameScene F → GameScene F
  trifles g k = record g {
    scene_full_init = k.scene_full_init;
    last_scene = k.last_scene;
    next_scene = k.next_scene;
    chat_str = k.chat_str;
    chat_timer = k.chat_timer;
    bullet_active = k.bullet_active;
    bullet_x = k.bullet_x;
    bullet_y = k.bullet_y;
    calls = k.calls;
    client_component = record (g.client_component) {
      kill_thread = k.client_component.kill_thread;
      username = k.client_component.username;
      chat_recieved_queue = k.client_component.chat_recieved_queue;
    };
  }

  pub trifles-Calm : (g k : GameScene F) → Calm g (trifles g k)
  trifles-Calm g k = record {
    units = λ s. Near-refl (g.units s);
    marks = λ s. refl;
    names = λ s. refl;
    turn = refl;
    finished = refl;
    winner = refl;
    team = refl;
    selected = refl;
    sending = refl;
    waiting = refl;
    recieved = refl;
    lobby = refl;
    reconnecting = refl;
  }

  trifling : (g k : GameScene F) → k ≡ trifles g k → Calm g k
  trifling g k e = subst (Calm g) (sym e) (trifles-Calm g k)

  leave_frame : (g : GameScene F) → leave g ≡ trifles g (leave g)
  unfolding leave
  leave_frame g = by_scene g.next_scene refl
    where
      by_scene : (n : SceneTransitions) → g.next_scene ≡ n → leave g ≡ trifles g (leave g)
      by_scene stay e = rw e
      by_scene to_menu e = rw e

  pub leave-Calm : (g : GameScene F) → Calm g (leave g)
  leave-Calm g = trifling g (leave g) (leave_frame g)

  pub assign_team-kept :
      (g : GameScene F) → turn_eq g.assigned_team no_player ≡ false → assign_team g ≡ g
  unfolding assign_team
  assign_team-kept g n = ground arith

module _ {F : Type 0} ⦃fl : Floats F⦄ where
  bullet_movement-Calm : (x y : ℤ) (g : GameScene F) → Calm g (bullet_movement x y g)
  unfolding bullet_movement
  bullet_movement-Calm x y g = trifling g (bullet_movement x y g) (ground arith)

  pub units_update-Calm : (g : GameScene F) → Calm g (units_update g)
  unfolding units_update
  units_update-Calm g =
      let g1 = update_units units_vec g in
      Calm-trans g g1 (units_update g) (update_units-Calm units_vec g)
        (bullet_movement-Calm g1.clicked_x g1.clicked_y g1)

  chat_update_frame : (ms : F) (g : GameScene F) → chat_update ms g ≡ trifles g (chat_update ms g)
  unfolding chat_update
  chat_update_frame ms g = by_queue g.client_component.chat_recieved_queue refl
    where
      by_queue :
          (q : List CustomPacket)
          → g.client_component.chat_recieved_queue ≡ q
          → chat_update ms g ≡ trifles g (chat_update ms g)
      by_queue [] e = rw e
      by_queue (p ∷ q) e = elim (Bool-cases (fl.lt (fl.of_int (pos 5)) g.chat_timer)) [
        | inl l ↦ rw (e, l)
        | inr l ↦ rw (e, l)
      ]

  pub chat_update-Calm : (ms : F) (g : GameScene F) → Calm g (chat_update ms g)
  chat_update-Calm ms g = trifling g (chat_update ms g) (chat_update_frame ms g)
