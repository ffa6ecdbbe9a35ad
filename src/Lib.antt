-- ===== src/Lib.antt =====
-- Fury Clash: a model of the game client of fury-clash-client/src.
--
-- The client runs two fighters on a fixed tick (gameplay/), exchanges inputs with a relay server
-- over a WebSocket (network/net_client.c), and rewinds the simulation when a confirmed input
-- contradicts a predicted one (network/rollback.c). In a frame, main.c hands the events of SDL to
-- the lobby, the screens and the input devices (input/), calls net_client_receive, which calls
-- rollback_confirm_remote, lets the lobby create a room over HTTP (network/http_client.c) or start a
-- fight, and then runs the ticks that are due (core/gameloop.c). A tick moves the screens on
-- (core/state_machine.c), reads the devices and, in a fight, calls rollback_get_remote,
-- rollback_rewind_and_resim where a divergence is marked, simulation_tick, rollback_save and
-- net_client_send_input.
--
-- The files, by the code that they model:
--   Gameplay/Types, Data        gameplay/fighter.h, fighter_data.c, core/config.h
--   Gameplay/Fighter, Physics   gameplay/fighter.c (fighter_tick in its parts), physics.c
--   Gameplay/Hitbox, Round      gameplay/hitbox.c, round.c; Round/Bout has matches as steps
--   Gameplay/Simulation         gameplay/simulation.c; Simulation/Runs has whole fights
--   Gameplay/Combo, Motion      gameplay/combo.c, special_moves.c
--   Network/Rollback            network/rollback.c; Resim, Confirm and Forget prove its parts
--   Network/Frame, Json, Url    the frames, the JSON numbers and the URL of network/net_client.c
--   Network/Client              its state g_ws and what it sends; Dispatch, Receive and Connect
--                               have the functions of these names, Wire, Sending, Loop, Moves,
--                               Intact, Calls, Opponent and Pieces the proofs
--   Network/Http                network/http_client.c; Urls compares its URLs, Totals has its loops
--   Network/Serializer, InputBuffer, NetStats
--                               network/serializer.c (Wide has its 32-bit numbers), input_buffer.c,
--                               net_stats.c
--   Core/StateMachine, GameLoop core/state_machine.c, gameloop.c and timer.c
--   Core/Arena                  core/memory.c; Arena/Bounds has the blocks
--   Gameplay/Super, Camera      gameplay/super.c, render/camera.c
--   Input                       input/input.c; Keyboard, Gamepad and Touch the files of these names,
--                               Laws what they can report
--   Lobby                       the lobby of main.c: text fields, joining, keyboard; Create and
--                               Touch have the other handlers, Fields, Codes and Kept the proofs
--   Game, Game/Start, Game/Tick main.c: the screens in a frame, the start, and the events, ticks and
--                               frames; Flow, Choice, Peers, Replay, Whole and Program the proofs
--   Dodge                       main.c at the root, an earlier game on its own: its state and what it
--                               spawns; Update has the step and the keys, Screen the proofs
--   Render, with children       the calls of SDL that draw: render/renderer.c, hud.c (Hud), simulation_render
--                               (Stage), and of main.c the lobby (Lobby) and the other screens
--                               (Screens); Buttons and Bars the proofs
--   Prelude                     numbers, lists, bits, C strings and the tests of the sources
--   Tests                       concrete machines, and the theorems applied to concrete inputs
--
-- How the code is represented. A global record is passed as an argument and returned. An int is
-- an integer ℤ, a counter that only grows from 0 and an index are natural numbers, bytes and
-- unsigned numbers are natural numbers with their wrap-around written out. A C string is the list
-- of its bytes without the NUL. Where C leaves an access out of bounds or an overflow undefined,
-- a function returns `none`. A frame's number is `current_frame`, which counts from 0 and is taken
-- without overflow. float and double are a parameter (Floats, with the rounding of IEEE 754
-- as the hypothesis IsIeee where a theorem needs it), as are the operating
-- system's sockets (Network/Os and the record Blocking of Network/Http, with the manual's statements
-- on send and recv as hypotheses), SDL_rand (Dice in Lobby/Create), rand (Random in
-- Dodge), the performance counter and the
-- buttons of the gamepad (arguments) and, for the rollback engine, the simulation that it saves and runs again (Engine).
--
-- Fuel. The loop over the frames of the receive buffer has one more than the number of bytes in the
-- buffer as its fuel, and returns `none` without any; the loop of ws_send has the length of the
-- frame. A round of either takes one byte at least. The ten digits of print_int hold every int. The
-- rounds of http_post's send loop take a byte each, so the request's length and one are enough; its receive loop gets its fuel from the
-- caller, since a signal may interrupt recv any number of times, and 4096 rounds are enough
-- without signals. A frame has at most FC_MAX_FRAME_SKIP ticks.
--
-- Not modelled: in main.c the start of SDL, the on-screen keyboard and what only iOS compiles; the
-- bytes of the arena; audio and platform code, which only call SDL; what SDL makes of the calls that
-- draw; the drawing and the frame clock of the prototype; and the server in fury-clash-server.
pub mod Prelude
pub mod Floats
pub mod Gameplay
pub mod Network
pub mod Core
pub mod Lobby
pub mod Input
pub mod Game
pub mod Dodge
pub mod Render
pub mod Tests
