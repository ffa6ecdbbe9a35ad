-- ===== src/Tests/Program.antt =====
-- The program started on concrete machines, and a frame of it.
use mathlib.Core.Path.{subst}
use fury_clash.Prelude.{
  ℕ, true, ◌≡◌, ◌≤◌, refl, ap, ◌+ℤ◌, ◌-ℤ◌, quot_ℤ, List, [], ◌∷◌, length, Option, none, some,
  OnSome, Bool, false, pos, arith,
}
use fury_clash.Core.StateMachine.{
  gs_lobby, gs_fight, gs_count, statemachine_request, statemachine_init, statemachine_tick,
}
use fury_clash.Core.GameLoop.{gameloop_should_tick, gameloop_begin_frame, gameloop_init}
use fury_clash.Input.{key_down}
use fury_clash.Input.Keyboard.{k_w}
use fury_clash.Input.Gamepad.{PadButton}
use fury_clash.Network.Os.{IsStream}
use fury_clash.Network.Client.Receive.{net_client_receive}
use fury_clash.Lobby.{key_return}
use fury_clash.Game.{App, request, lobby_frame, match_search_frame, results_frame}
use fury_clash.Game.Start.{no_args, Boot, runs, main_start, app_init, zero_session, zero_client}
use fury_clash.Game.Tick.{
  key_pressed, main_frame, handle_events, handle_event, receive_frame, run_ticks, game_tick,
  screen_event, title_key, search_key, results_key,
}
use fury_clash.Game.Whole.{IsApp}
use fury_clash.Game.Whole.Frame.{begun, frame}
use fury_clash.Game.Whole.Ticks.{run_ticks-Returns}
use fury_clash.Game.Whole.Fight.{fight_frame-Returns}
use fury_clash.Network.Client.{hs_open}
use fury_clash.Game.Program.{program-IsApp}
use fury_clash.Tests.Machines.{slow_kernel, whole_numbers}
use fury_clash.Tests.Game.{echo, last_face, bytes_of}

slow_kernel-IsStream : IsStream slow_kernel
slow_kernel-IsStream fd n w b e = subst (λ (t : List ℕ). length t ≤ n) (ap bytes_of e) (omega arith)

abbrev no_button : PadButton → Bool
no_button b = false

abbrev boot : Boot whole_numbers slow_kernel
boot = record { now = 0; freq = 1000; pad = none; world = [] }

abbrev or_else :
    App whole_numbers slow_kernel
    → Option (App whole_numbers slow_kernel)
    → App whole_numbers slow_kernel
or_else a none = a
or_else a (some b) = b

abbrev started : App whole_numbers slow_kernel
started =
    request whole_numbers slow_kernel gs_lobby (
      app_init whole_numbers slow_kernel (pos 0) (zero_session whole_numbers slow_kernel boot) boot)

main_start-started : main_start whole_numbers slow_kernel no_args boot ≡ some (runs started)
unfolding main_start
main_start-started = refl

abbrev first_frame : Option (App whole_numbers slow_kernel)
first_frame =
    main_frame whole_numbers slow_kernel echo last_face 9 50
      ((key_pressed key_return, key_down k_w) ∷ []) no_button started

-- The frame returns.
first_frame-returns : first_frame ≡ some (or_else started first_frame)
unfolding main_frame handle_events handle_event receive_frame run_ticks game_tick screen_event
    title_key search_key results_key net_client_receive lobby_frame match_search_frame results_frame
    request app_init zero_client statemachine_request statemachine_init statemachine_tick
    gameloop_should_tick gameloop_begin_frame gameloop_init quot_ℤ ◌+ℤ◌ ◌-ℤ◌
first_frame-returns = refl

program-IsApp_example : OnSome (IsApp whole_numbers slow_kernel) first_frame
program-IsApp_example =
    program-IsApp whole_numbers slow_kernel echo last_face slow_kernel-IsStream no_args boot started
      first_frame main_start-started
      (frame 9 50 ((key_pressed key_return, key_down k_w) ∷ []) no_button begun)

started-IsApp : IsApp whole_numbers slow_kernel started
started-IsApp =
    program-IsApp whole_numbers slow_kernel echo last_face slow_kernel-IsStream no_args boot started
      (some started) main_start-started begun

run_ticks-Returns_example :
    (b : App whole_numbers slow_kernel) × (run_ticks whole_numbers slow_kernel 5 no_button started
      ≡ some b)
    × IsApp whole_numbers slow_kernel b
run_ticks-Returns_example =
    run_ticks-Returns whole_numbers slow_kernel 5 no_button started started-IsApp

-- a fight over the network on a stream that has ended
abbrev fighting : App whole_numbers slow_kernel
fighting = record started {
  net = record (started.net) {
    client = record ((started.net).client) {
      configured = true;
      network_mode = true;
      fd = pos 3;
      hs = hs_open;
    };
  };
  screen = record { current = gs_fight; pending = gs_count; transition_frame = 4 };
}

fighting-IsApp : IsApp whole_numbers slow_kernel fighting
fighting-IsApp = record {
  kept = (started-IsApp.kept.0, started-IsApp.kept.1);
  inputs = started-IsApp.inputs;
  shown = (refl, refl);
}

fight_frame-Returns_example :
    (b : App whole_numbers slow_kernel) × (main_frame whole_numbers slow_kernel echo last_face 9 50
        ((key_pressed key_return, key_down k_w) ∷ [])
        no_button
        fighting
      ≡ some b)
    × IsApp whole_numbers slow_kernel b
fight_frame-Returns_example =
    fight_frame-Returns whole_numbers slow_kernel echo last_face slow_kernel-IsStream 9 50
      ((key_pressed key_return, key_down k_w) ∷ []) no_button fighting fighting-IsApp refl
      (λ n. refl)
