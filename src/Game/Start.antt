-- ===== src/Game/Start.antt =====
-- The start of main.c on a desktop, up to the main loop. The start of SDL, of the window and of the
-- audio is left out; it is taken to succeed.
use fury_clash.Prelude.{
  ℕ, eqb_ℤ, ℤ, pos, false, not, ◌&&◌, List, [], replicate, Option, none, some, ◌>>=◌, if◌then◌else◌,
}
use fury_clash.Floats.{Floats}
use fury_clash.Core.StateMachine.{gs_lobby, gs_match_search, statemachine_init}
use fury_clash.Core.GameLoop.{gameloop_init}
use fury_clash.Input.{input_init}
use fury_clash.Network.Os.{Os}
use fury_clash.Network.Url.{atoi}
use fury_clash.Network.Frame.{ws_recv_buf}
use fury_clash.Network.Rollback.{rollback_init}
use fury_clash.Network.Client.{NetClient, Session, net_idle, hs_idle}
use fury_clash.Network.Client.Connect.{net_client_configure, net_client_connect}
use fury_clash.Lobby.{lobby_init}
use fury_clash.Game.{App, game_engine, request}

-- `argc` is 1, or 5, or another number.
pub data Args : Type 0 where
  no_args other_args : Args
  match_args : List ℕ → List ℕ → List ℕ → List ℕ → Args

-- `g_ws` before the first call: all zero bytes
unfoldable pub zero_client : NetClient
zero_client = record {
  fd = pos 0;
  hs = hs_idle;
  url = [];
  host = [];
  port = pos 0;
  path = [];
  room = [];
  player_id = [];
  slot = pos 0;
  configured = false;
  rbuf = replicate ws_recv_buf 0;
  rbuf_head = 0;
  state = net_idle;
  match_info = record { your_slot = pos 0; p1_fighter = pos 0; p2_fighter = pos 0; room_id = [] };
  end_info = record { winner_slot = pos 0; p1_rounds_won = pos 0; p2_rounds_won = pos 0 };
  network_mode = false;
  opponent_loadout = pos 0;
}

module _ (fl : Floats) (os : Os) where
  -- The program exits with 1, or enters the main loop.
  pub data Started : Type 0 where
    exits : Started
    runs : App fl os → Started

  -- the first `now` and `freq` of the performance counter, the first gamepad, the state of the world
  pub record Boot : Type 0 where
    pub now : ℕ
    pub freq : ℕ
    pub pad : Option ℕ
    pub world : os.World

  -- after the `_init` calls of the subsystems
  unfoldable pub app_init : ℤ → Session os (game_engine fl) → Boot → App fl os
  app_init slot net b = record {
    lobby = lobby_init;
    net = record net { ring = rollback_init (game_engine fl) };
    screen = statemachine_init;
    sim = (game_engine fl).zeroed;
    local_slot = slot;
    loop = gameloop_init fl b.now b.freq;
    devices = input_init fl b.pad;
  }

  abbrev pub zero_session : Boot → Session os (game_engine fl)
  zero_session b = record {
    client = zero_client;
    world = b.world;
    ring = rollback_init (game_engine fl);
  }

  -- the match of the command line, with the slot read
  unfoldable pub join_match : List ℕ → List ℕ → List ℕ → ℤ → Boot → Option Started
  join_match url room id slot b =
      let en = game_engine fl in
      let joined =
        net_client_configure os en (some url) (some room) (some id) slot (zero_session b) >>= λ s.
        let a = app_init slot s b in
        net_client_connect os en none a.net >>= λ r.
        some (runs (request fl os gs_match_search (record a { net = r.1 }))) in
      if not (eqb_ℤ slot (pos 0)) && not (eqb_ℤ slot (pos 1)) then some exits else joined

  -- `none` is an overflow inside `atoi`.
  unfoldable pub main_start : Args → Boot → Option Started
  main_start no_args b = some (runs (request fl os gs_lobby (app_init (pos 0) (zero_session b) b)))
  main_start other_args b = some exits
  main_start (match_args url room id slot) b = atoi slot >>= λ n. join_match url room id n b
