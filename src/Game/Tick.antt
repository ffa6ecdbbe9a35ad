-- ===== src/Game/Tick.antt =====
-- The events of a frame of main.c, its ticks, and the frame as a whole.
use fury_clash.Prelude.{
  ℕ, zero, suc, eqb_ℤ, ℤ, pos, Bool, true, false, ◌&&◌, List, [], ◌∷◌, Option, some, ◌>>=◌,
  if◌then◌else◌,
}
use fury_clash.Floats.{Floats}
use fury_clash.Gameplay.Simulation.{simulation_tick}
use fury_clash.Core.StateMachine.{
  gs_title, gs_lobby, gs_match_search, gs_fight, gs_results, statemachine_tick,
}
use fury_clash.Core.GameLoop.{gameloop_begin_frame, gameloop_should_tick}
use fury_clash.Input.{InputEvent, input_handle_event, input_tick, input_get_local}
use fury_clash.Input.Gamepad.{PadButton}
use fury_clash.Network.Os.{Os}
use fury_clash.Network.Http.{Blocking}
use fury_clash.Network.Rollback.{
  rollback_save, rollback_get_remote, rollback_needs_resim, rollback_rewind_and_resim,
}
use fury_clash.Network.Client.{net_client_send_input, net_client_disconnect}
use fury_clash.Network.Client.Receive.{net_client_receive}
use fury_clash.Lobby.{
  Key, key_return, key_space, key_escape, lobby_init, lobby_handle_text_input, lobby_handle_key,
}
use fury_clash.Lobby.Touch.{lobby_handle_touch}
use fury_clash.Lobby.Create.{Dice}
use fury_clash.Game.{
  App, game_engine, on_screen, request, lobby_frame, match_search_frame, results_frame,
}

-- An SDL event as main.c reads it: a click in game coordinates, a text, a key that goes down.
pub data Event (F : Type 0) : Type 0 where
  quit nothing : Event F
  click : F → F → Event F
  typed : List ℕ → Event F
  key_pressed : Key → Event F

-- FC_MAX_FRAME_SKIP
abbrev pub max_frame_skip : ℕ
max_frame_skip = 5

abbrev pub is_confirm : Key → Bool
is_confirm key_return = true
is_confirm key_space = true
is_confirm _ = false

abbrev pub is_escape : Key → Bool
is_escape key_escape = true
is_escape _ = false

-- the inputs of P1 and P2
abbrev pub seats : ℤ → ℕ → ℕ → ℕ × ℕ
seats slot local remote =
    ((if eqb_ℤ slot (pos 0) then local else remote), (if eqb_ℤ slot (pos 1) then local else remote))

module _ (fl : Floats) (os : Os) where
  open fl use {Float, Double}

  abbrev A : Type 0
  A = App fl os

  -- in the lobby
  unfoldable pub lobby_event : Event Float → A → Option A
  lobby_event (click x y) a =
      lobby_handle_touch fl os (game_engine fl) x y (a.lobby, a.net) >>= λ r.
      some (record a { lobby = r.0; net = r.1 })
  lobby_event (typed text) a = some (record a { lobby = lobby_handle_text_input text a.lobby })
  lobby_event (key_pressed key) a =
      lobby_handle_key os (game_engine fl) key (a.lobby, a.net) >>= λ r.
      some (record a { lobby = r.0; net = r.1 })
  lobby_event _ a = some a

  -- return or space on the title
  unfoldable pub title_key : Key → A → A
  title_key key a =
      if is_confirm key && on_screen gs_title a.screen then request fl os gs_lobby a else a

  -- escape in the search for a match
  unfoldable pub search_key : Key → A → A
  search_key key a =
      if is_escape key && on_screen gs_match_search a.screen
      then request fl os gs_title
          (record a { net = net_client_disconnect os (game_engine fl) a.net })
      else a

  -- return or space on the results
  unfoldable pub results_key : Key → A → A
  results_key key a =
      if is_confirm key && on_screen gs_results a.screen
      then request fl os gs_lobby
          (record a { net = net_client_disconnect os (game_engine fl) a.net; lobby = lobby_init })
      else a

  unfoldable pub screen_event : Event Float → A → A
  screen_event (key_pressed key) a = results_key key (search_key key (title_key key a))
  screen_event quit a = record a { loop = record (a.loop) { running = false } }
  screen_event _ a = a

  -- One event, and the same event as the devices read it.
  unfoldable pub handle_event : Event Float × InputEvent Float → A → Option A
  handle_event (ev, input) a =
      let in_lobby = lobby_event ev a in
      (if on_screen gs_lobby a.screen then in_lobby else some a) >>= λ b.
      let c = screen_event ev b in
      some (record c { devices = input_handle_event fl input c.devices })

  unfoldable pub handle_events : List (Event Float × InputEvent Float) → A → Option A
  handle_events [] a = some a
  handle_events (ev ∷ evs) a = handle_event ev a >>= λ b. handle_events evs b

  -- `rollback_rewind_and_resim` on the simulation and the ring
  unfoldable pub rewind_if_needed : ℤ → A → Option A
  rewind_if_needed frame a =
      let rewound = rollback_rewind_and_resim (game_engine fl) frame a.sim (a.net).ring >>= λ r.
      some (record a { sim = r.0; net = record (a.net) { ring = r.1 } }) in
      if rollback_needs_resim (game_engine fl) (a.net).ring then rewound else some a

  -- the simulation goes one tick on, and is saved and announced under the frame's number
  unfoldable pub advance : ℤ → ℕ → ℕ → A → Option A
  advance frame local remote a =
      let both = seats a.local_slot local remote in
      let s = simulation_tick fl a.sim both.0 both.1 in
      rollback_save (game_engine fl) frame s (a.net).ring >>= λ r. some (record a {
        sim = s;
        net = net_client_send_input os (game_engine fl) frame local (record (a.net) { ring = r });
      })

  unfoldable pub fight_tick : A → Option A
  fight_tick a =
      let frame = pos (a.loop).current_frame in
      let local = input_get_local fl a.devices in
      rollback_get_remote (game_engine fl) frame (a.net).ring >>= λ remote.
      rewind_if_needed frame a >>= λ b. advance frame local remote b

  -- the body of the loop over the ticks
  unfoldable pub game_tick : (PadButton → Bool) → A → Option A
  game_tick held a =
      let b = record a {
        screen = statemachine_tick a.screen;
        devices = input_tick fl held a.devices;
      } in
      let fought = fight_tick b in if on_screen gs_fight b.screen then fought else some b

  -- `gameloop_should_tick(&g_loop) && ticks < FC_MAX_FRAME_SKIP`, with `left` ticks to go: the loop
  -- has already taken its time when `left` is 0.
  unfoldable pub run_ticks : ℕ → (PadButton → Bool) → A → Option A
  run_ticks zero held a = some (record a { loop = (gameloop_should_tick fl a.loop).1 })
  run_ticks (suc left) held a =
      let t = gameloop_should_tick fl a.loop in
      let next = game_tick held (record a { loop = t.1 }) >>= λ b. run_ticks left held b in
      if t.0 then next else some (record a { loop = t.1 })

  -- `net_client_receive` on the client
  unfoldable pub receive_frame : A → Option A
  receive_frame a =
      net_client_receive os (game_engine fl) a.net >>= λ s. some (record a { net = s })

  -- One round of the main loop: `now` is the performance counter, `held` the buttons of the gamepad.
  unfoldable pub main_frame :
      Blocking os
      → Dice os
      → ℕ
      → ℕ
      → List (Event Float × InputEvent Float)
      → (PadButton → Bool)
      → A
      → Option A
  main_frame net dice fuel now evs held a = do
    b ← handle_events evs a
    c ← receive_frame b
    d ← lobby_frame fl os net dice fuel c
    let e = results_frame fl os (match_search_frame fl os d)
    run_ticks max_frame_skip held (record e { loop = (gameloop_begin_frame fl now e.loop).1 })
