-- ===== src/Tests/Game.antt =====
-- The lobby, the main loop, the devices, the arena and the HTTP client on concrete machines.
use fury_clash.Prelude.{
  ℕ, ◌-◌, ◌<◌, ◌≤◌, ◌≡◌, refl, ap, ◌>>=◌, ℤ, ◌-ℤ◌, pos, Bool, true, false, List, [], ◌∷◌, ◌++◌,
  length, length-take, take, drop, replicate, none, some, arith,
}
use mathlib.Core.Path.{subst}
use mathlib.Core.Bool.{true≢false}
use fury_clash.Prelude.Text.{codes}
use fury_clash.Gameplay.Simulation.{simulation_init}
use fury_clash.Core.StateMachine.{gs_lobby, gs_count}
use fury_clash.Core.GameLoop.{gameloop_init}
use fury_clash.Core.Arena.{Arena}
use fury_clash.Core.Arena.Bounds.{IsArena, AreApart, blocks, blocks-AreApart}
use fury_clash.Input.{key_down, input_init, input_handle_event, input_tick, input_get_local}
use fury_clash.Input.Keyboard.{k_w}
use fury_clash.Input.Gamepad.{PadButton}
use fury_clash.Input.Laws.{AreInputs, begun, event, ticked, devices_reach}
use fury_clash.Network.Os.{RecvResult, received, recv_blocks, recv_fails}
use fury_clash.Network.Url.{parse_ws_url}
use fury_clash.Network.Rollback.{
  Rollback, zero_entry, rollback_init, rollback_save, rollback_confirm_remote,
  rollback_rewind_and_resim, rollback_get_remote, rollback_needs_resim, entry_at, slot_of, predict,
}
use fury_clash.Network.Client.{net_ready, hs_open}
use fury_clash.Network.Client.Connect.{configured_client}
use fury_clash.Network.Http.{Blocking, no_route, post_recv, http_parse_ws_url}
use fury_clash.Network.Http.Urls.{host_and_port, http_parse_ws_url-agrees}
use fury_clash.Network.Http.Totals.{IsUninterrupted, post_recv_total}
use fury_clash.Lobby.{Lobby, lobby_init, ls_enter_code, ls_loadout}
use fury_clash.Lobby.Create.{Dice, gen_room_code}
use fury_clash.Lobby.Codes.{IsDice, all, is_clear, gen_room_code-clear, type_text, type_text-code}
use fury_clash.Game.{App, game_engine, lobby_fight}
use fury_clash.Game.Peers.{peers_agree, loadouts_agree}
use fury_clash.Game.Tick.{fight_tick}
use fury_clash.Game.Replay.{rewind_repeats, early_input_restores}
use fury_clash.Tests.Machines.{input_log, slow_kernel, whole_numbers}

-- a server that sends back what it got
abbrev pub echo : Blocking slow_kernel
echo = record {
  dial_and_wait = λ host port w. (no_route, w);
  recv_and_wait = λ fd n w. (received (take n w), drop n w);
}

abbrev pub bytes_of : RecvResult → List ℕ
bytes_of (received b) = b
bytes_of recv_blocks = []
bytes_of recv_fails = []

abbrev is_received : RecvResult → Bool
is_received (received b) = true
is_received recv_blocks = false
is_received recv_fails = false

take-le : (n : ℕ) (w : List ℕ) → length (take n w) ≤ n
take-le n w = omega (arith, length-take n w)

echo-IsUninterrupted : IsUninterrupted slow_kernel echo
echo-IsUninterrupted = record {
  at_most = λ fd n w b e. subst (λ (t : List ℕ). length t ≤ n) (ap bytes_of e) (take-le n w);
  answers = λ fd n w e. absurd (true≢false (ap is_received e));
}

post_recv_total_example :
    (r : List ℕ × List ℕ) × (post_recv slow_kernel echo 4096
        (pos 3)
        []
        (codes "HTTP/1.1 201 Created")
      ≡ some r)
    × (length r.0 < 4096)
post_recv_total_example =
    post_recv_total slow_kernel echo echo-IsUninterrupted (pos 3) (codes "HTTP/1.1 201 Created")

http_parse_ws_url-agrees_example :
    http_parse_ws_url 128 (codes "ws://" ++ codes "10.0.0.7:3002/ws") ≡ (
      parse_ws_url 128 128 (codes "ws://" ++ codes "10.0.0.7:3002/ws") >>= λ r.
      some (host_and_port r))
http_parse_ws_url-agrees_example = http_parse_ws_url-agrees 128 128 (codes "10.0.0.7:3002/ws")

abbrev pub last_face : Dice slow_kernel
last_face = record { rand = λ n w. (n - 1, w) }

last_face-IsDice : IsDice slow_kernel last_face
last_face-IsDice n w h = omega arith

gen_room_code-clear_example :
    (r : List ℕ × List ℕ) × (gen_room_code slow_kernel last_face [] ≡ some r)
    × (length r.0 ≡ 6)
    × (all is_clear r.0 ≡ true)
gen_room_code-clear_example = gen_room_code-clear slow_kernel last_face last_face-IsDice []

abbrev code_screen : Lobby
code_screen = record lobby_init { sub = ls_enter_code; code_input = [] }

type_text-code_example : (type_text (codes "ab23cD") code_screen).code_input ≡ codes "AB23CD"
type_text-code_example =
    type_text-code
      ((true, b'A')
        ∷ (true, b'B')
        ∷ (false, b'2')
        ∷ (true, b'3')
        ∷ (true, b'C')
        ∷ (false, b'D')
        ∷ [])
      code_screen refl refl refl refl

abbrev page : Arena
page = record { mapped = true; offset = 21; capacity = 4096 }

page-IsArena : IsArena page
page-IsArena = record { within = omega arith; small = omega arith }

blocks-AreApart_example : AreApart 21 4096 (blocks (100 ∷ 13 ∷ 5000 ∷ 9 ∷ []) page)
blocks-AreApart_example =
    blocks-AreApart (100 ∷ 13 ∷ 5000 ∷ 9 ∷ []) page page-IsArena
      (omega arith, (omega arith, (omega arith, (omega arith, tt))))

abbrev hold_all : PadButton → Bool
hold_all b = true

devices_reach_example : AreInputs whole_numbers (
    input_tick whole_numbers hold_all
      (input_handle_event whole_numbers (key_down k_w) (input_init whole_numbers (some 4))))
devices_reach_example =
    devices_reach whole_numbers (some 4)
      (input_tick whole_numbers hold_all
        (input_handle_event whole_numbers (key_down k_w) (input_init whole_numbers (some 4))))
      (ticked hold_all (event (key_down k_w) begun))

-- the frames of the ring hold an input of the opponent
abbrev ring_of : ℕ → Rollback (game_engine whole_numbers).State
ring_of input = record (rollback_init (game_engine whole_numbers)) {
  buf = replicate 128 (record (zero_entry (game_engine whole_numbers)) { remote_input = input });
}

-- a player in a slot, with a loadout and the input of the tick, who expects one from the opponent
abbrev player : Bool → ℤ → ℤ → ℤ → ℕ → ℕ → App whole_numbers slow_kernel
player is_p1 slot mine theirs own expected = record {
  lobby = record lobby_init {
    sub = ls_loadout;
    is_p1 = is_p1;
    my_loadout = mine;
    local_mode = false;
  };
  net = record {
    client =
        record (configured_client (some (codes "ws://host")) (some (codes "AB23CD"))
          (some (codes "AB23CDP1")) slot) {
            hs = hs_open;
            state = net_ready;
            opponent_loadout = theirs;
          };
    world = [];
    ring = ring_of expected;
  };
  screen = record { current = gs_lobby; pending = gs_count; transition_frame = 9 };
  sim = simulation_init whole_numbers (pos 0) (pos 1) (pos 1) (pos 2);
  local_slot = slot;
  loop = record (gameloop_init whole_numbers 0 1000) { current_frame = 5 };
  devices = record (input_init whole_numbers none) { current = own };
}

abbrev host : App whole_numbers slow_kernel
host = player true (pos 0) (pos 1) (pos 2) 16 8

abbrev joiner : App whole_numbers slow_kernel
joiner = player false (pos 1) (pos 2) (pos 1) 8 16

loadouts_agree_example :
    (lobby_fight whole_numbers slow_kernel host).sim
    ≡ (lobby_fight whole_numbers slow_kernel joiner).sim
loadouts_agree_example =
    loadouts_agree whole_numbers slow_kernel host joiner refl refl refl refl refl refl refl refl
      refl refl refl refl

-- a guest who has not chosen yet
abbrev undecided : App whole_numbers slow_kernel
undecided = player false (pos 1) (pos 0) (pos 1) 0 0

peers_agree_example :
    (a' b' : App whole_numbers slow_kernel) × (fight_tick whole_numbers slow_kernel host ≡ some a')
    × (fight_tick whole_numbers slow_kernel joiner ≡ some b')
    × (a'.sim ≡ b'.sim)
unfolding rollback_get_remote rollback_needs_resim entry_at slot_of predict rollback_init ◌-ℤ◌
    input_get_local
peers_agree_example =
    peers_agree whole_numbers slow_kernel host joiner refl refl refl (refl, refl) (refl, refl) refl
      refl

rewind_repeats_example :
    (saved r1 r2 : Rollback (List (ℕ × ℕ))) × (rollback_save input_log
        (pos 3)
        ((1, 0) ∷ [])
        (rollback_init input_log)
      ≡ some saved)
    × (rollback_confirm_remote input_log (pos 3) 16 saved ≡ some r1)
    × (rollback_rewind_and_resim input_log (pos 4) [] r1 ≡ some ((0, 16) ∷ (1, 0) ∷ [], r2))
unfolding rollback_init
rewind_repeats_example =
    rewind_repeats input_log 3 16 ((1, 0) ∷ []) [] (rollback_init input_log) refl refl refl

early_input_restores_example :
    (r1 r2 : Rollback (List (ℕ × ℕ))) × (rollback_confirm_remote input_log
        (pos 5)
        16
        (rollback_init input_log)
      ≡ some r1)
    × (rollback_rewind_and_resim input_log (pos 5) ((1, 0) ∷ []) r1 ≡ some ([], r2))
unfolding rollback_init
early_input_restores_example =
    early_input_restores input_log 5 5 16 ((1, 0) ∷ []) (rollback_init input_log) refl
      (refl, refl, refl) (omega arith)
