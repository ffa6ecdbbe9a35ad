-- ===== src/Game.antt =====
-- The main loop of main.c: what happens in a frame between the lobby, the client of the network, the
-- screens, the input devices, the ring of rollback.c and the simulation. Logging, the window and
-- rendering are left out. `none` is that of the functions called.
pub mod Tick
pub mod Start
pub mod Flow
pub mod Choice
pub mod Peers
pub mod Replay
pub mod Whole
pub mod Program
use fury_clash.Prelude.{
  ℕ, ltb_ℤ, leb_ℤ, eqb_ℤ, ◌==◌, ℤ, pos, Bool, true, false, not, ◌&&◌, ◌||◌, List, [], ◌∷◌, ◌++◌,
  replicate, Option, none, some, ◌>>=◌, if◌then◌else◌,
}
use fury_clash.Prelude.Text.{codes}
use fury_clash.Floats.{Floats, whole}
use fury_clash.Gameplay.Types.{Fighter, Rect, LoadoutType, loadout_none, idle}
use fury_clash.Gameplay.Round.{RoundState}
use fury_clash.Gameplay.Simulation.{SimState, simulation_init, simulation_tick}
use fury_clash.Core.StateMachine.{
  StateMachine, GameState, game_state_code, gs_title, gs_lobby, gs_match_search, gs_fight,
  gs_results, statemachine_request,
}
use fury_clash.Core.GameLoop.{GameLoop}
use fury_clash.Input.{Devices}
use fury_clash.Network.Os.{Os}
use fury_clash.Network.Http.{Blocking}
use fury_clash.Network.Rollback.{Engine}
use fury_clash.Network.Client.{
  NetState, state_code, Session, net_client_ack_start, net_client_disconnect,
}
use fury_clash.Lobby.{
  Lobby, LobbySubState, ls_creating, ls_show_code, ls_waiting, ls_loadout, ls_ready, lobby_init,
  is_unset,
}
use fury_clash.Lobby.Create.{Dice, lobby_create_room}

-- `g_state.current == s`
abbrev pub on_screen : GameState → StateMachine → Bool
on_screen s sm = game_state_code sm.current == game_state_code s

abbrev pub is_creating : LobbySubState → Bool
is_creating ls_creating = true
is_creating _ = false

-- LS_SHOW_CODE or LS_WAITING
abbrev pub awaits : LobbySubState → Bool
awaits ls_show_code = true
awaits ls_waiting = true
awaits _ = false

abbrev pub is_choosing : LobbySubState → Bool
is_choosing ls_loadout = true
is_choosing _ = false

-- the loadouts of P1 and P2
abbrev pub both_loadouts : Lobby → ℤ → LoadoutType × LoadoutType
both_loadouts l opponent =
    if l.local_mode
    then (l.my_loadout, loadout_none)
    else if l.is_p1
    then (l.my_loadout, opponent)
    else (opponent, l.my_loadout)

-- U+2014 in UTF-8
abbrev em_dash : List ℕ
em_dash = 226 ∷ 128 ∷ 148 ∷ []

module _ (fl : Floats) where
  open fl use {Float}

  abbrev zero_rect : Rect Float
  zero_rect = record { x = whole fl 0; y = whole fl 0; w = whole fl 0; h = whole fl 0 }

  -- all zero bytes
  abbrev pub zero_fighter : Fighter Float
  zero_fighter = record {
    fighter_id = pos 0;
    player_slot = pos 0;
    x = whole fl 0;
    y = whole fl 0;
    vx = whole fl 0;
    vy = whole fl 0;
    facing = pos 0;
    state = idle;
    state_frame = 0;
    hitstun = pos 0;
    blockstun = pos 0;
    combo_counter = 0;
    move_id = 0;
    health = pos 0;
    max_health = pos 0;
    super_meter = whole fl 0;
    anim_id = pos 0;
    anim_frame = pos 0;
    hitboxes = replicate 4 zero_rect;
    hitbox_count = 0;
    hurtbox = zero_rect;
    hit_props = record {
      damage = pos 0;
      chip_damage = pos 0;
      hitstun = pos 0;
      blockstun = pos 0;
      knockback_x = whole fl 0;
      knockback_y = whole fl 0;
      launches = pos 0;
    };
    prev_input = 0;
    loadout = pos 0;
    damage_pct = pos 0;
  }

  abbrev pub zero_round : RoundState
  zero_round = record {
    p1_rounds_won = 0;
    p2_rounds_won = 0;
    frame_timer = pos 0;
    round_number = 0;
    round_over = false;
    match_over = false;
    winner_slot = pos 0;
  }

  -- the simulation that rollback.c saves and runs again
  abbrev pub game_engine : Engine
  game_engine = record {
    State = SimState Float;
    tick = simulation_tick fl;
    zeroed = record { p1 = zero_fighter; p2 = zero_fighter; round = zero_round; frame = 0 };
  }

  module _ (os : Os) where
    -- `g_lobby`, `g_ws` with the ring, `g_state`, `g_sim`, `g_local_slot`, `g_loop`, the devices
    pub record App : Type 0 where
      pub lobby : Lobby
      pub net : Session os game_engine
      pub screen : StateMachine
      pub sim : SimState Float
      pub local_slot : ℤ
      pub loop : GameLoop fl.Double
      pub devices : Devices Float

    abbrev pub net_state : App → NetState
    net_state a = ((a.net).client).state

    abbrev pub state_is : ℕ → App → Bool
    state_is code a = state_code (net_state a) == code

    unfoldable pub request : GameState → App → App
    request s a = record a { screen = statemachine_request s a.screen }

    -- NET_READY while a room waits: the players choose
    unfoldable pub lobby_ready : App → App
    lobby_ready a =
        if awaits (a.lobby).sub && state_is 3 a
        then record a {
          lobby = record (a.lobby) { sub = ls_loadout };
          local_slot = (((a.net).client).match_info).your_slot;
          net = net_client_ack_start os game_engine a.net;
        }
        else a

    unfoldable pub lobby_error : App → App
    lobby_error a =
        if awaits (a.lobby).sub && state_is 6 a
        then record a {
          lobby = record (a.lobby) {
            error_msg =
                codes "Connection error " ++ (em_dash ++ codes " check server URL and try again");
          };
        }
        else a

    abbrev pub opponent_choice : App → ℤ
    opponent_choice a =
        if (a.lobby).local_mode then loadout_none else ((a.net).client).opponent_loadout

    unfoldable pub start_fight : LoadoutType × LoadoutType → App → App
    start_fight lts a = request gs_fight (record a {
      lobby = record (a.lobby) { sub = ls_ready };
      sim = simulation_init fl (pos 0) (pos 1) lts.0 lts.1;
    })

    -- LS_LOADOUT to LS_READY
    unfoldable pub lobby_fight : App → App
    lobby_fight a =
        let opponent = opponent_choice a in
        if is_choosing (a.lobby).sub && not (is_unset (a.lobby).my_loadout)
        then (if leb_ℤ (pos 0) opponent then start_fight (both_loadouts a.lobby opponent) a else a)
        else a

    unfoldable pub match_search_frame : App → App
    match_search_frame a =
        let info = ((a.net).client).match_info in
        if on_screen gs_match_search a.screen && state_is 3 a
        then request gs_fight (record a {
          sim = simulation_init fl info.p1_fighter info.p2_fighter loadout_none loadout_none;
          local_slot = info.your_slot;
          net = net_client_ack_start os game_engine a.net;
        })
        else a

    -- NET_ENDED or NET_ERROR ends a fight over the network
    unfoldable pub results_frame : App → App
    results_frame a =
        if (on_screen gs_fight a.screen && ((a.net).client).network_mode)
          && (state_is 5 a || state_is 6 a)
        then request gs_results a
        else a

    module _ (net : Blocking os) (dice : Dice os) where
      -- LS_CREATING: the blocking request
      unfoldable pub lobby_create : ℕ → App → Option App
      lobby_create fuel a =
          let made = lobby_create_room os dice net game_engine fuel (a.lobby, a.net) >>= λ r.
          some (record a { lobby = r.0; net = r.1 }) in
          if is_creating (a.lobby).sub then made else some a

      unfoldable pub lobby_frame : ℕ → App → Option App
      lobby_frame fuel a =
          let frame =
            lobby_create fuel a >>= λ b. some (lobby_fight (lobby_error (lobby_ready b))) in
          if on_screen gs_lobby a.screen then frame else some a
