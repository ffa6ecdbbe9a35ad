-- ===== src/Core/StateMachine.antt =====
-- core/state_machine.c: the screens of the game and the transition that waits for the next tick.
use fury_clash.Prelude.{
  ℕ, zero, suc, ◌+◌, ◌≡◌, refl, ◌≢◌, ap, ◌∙◌, ltb, ◌==◌, not, if◌then◌else◌, arith,
}

pub data GameState : Type 0 where
  gs_title gs_main_menu gs_lobby gs_char_select gs_match_search gs_loading gs_fight gs_results
        gs_training gs_settings gs_count :
      GameState

-- the enumeration's numbers
abbrev pub game_state_code : GameState → ℕ
game_state_code gs_title = 0
game_state_code gs_main_menu = 1
game_state_code gs_lobby = 2
game_state_code gs_char_select = 3
game_state_code gs_match_search = 4
game_state_code gs_loading = 5
game_state_code gs_fight = 6
game_state_code gs_results = 7
game_state_code gs_training = 8
game_state_code gs_settings = 9
game_state_code gs_count = 10

pub record StateMachine : Type 0 where
  pub current : GameState
  pub pending : GameState
  pub transition_frame : ℕ

unfoldable pub statemachine_init : StateMachine
statemachine_init = record { current = gs_title; pending = gs_count; transition_frame = 0 }

unfoldable pub statemachine_request : GameState → StateMachine → StateMachine
statemachine_request next sm =
    if ltb (game_state_code next) (game_state_code gs_count)
    then record sm { pending = next }
    else sm

unfoldable pub statemachine_tick : StateMachine → StateMachine
statemachine_tick sm =
    if not (game_state_code sm.pending == game_state_code gs_count)
    then record { current = sm.pending; pending = gs_count; transition_frame = 1 }
    else record sm { transition_frame = sm.transition_frame + 1 }

abbrev pub sm_ticks : ℕ → StateMachine → StateMachine
sm_ticks zero sm = sm
sm_ticks (suc n) sm = statemachine_tick (sm_ticks n sm)

request_tick :
    (next : GameState) (sm : StateMachine)
    → next ≢ gs_count
    → statemachine_tick (statemachine_request next sm)
      ≡ record { current = next; pending = gs_count; transition_frame = 1 }
unfolding statemachine_tick statemachine_request
request_tick gs_title sm h = refl
request_tick gs_main_menu sm h = refl
request_tick gs_lobby sm h = refl
request_tick gs_char_select sm h = refl
request_tick gs_match_search sm h = refl
request_tick gs_loading sm h = refl
request_tick gs_fight sm h = refl
request_tick gs_results sm h = refl
request_tick gs_training sm h = refl
request_tick gs_settings sm h = refl
request_tick gs_count sm h = absurd (h refl)

idle_tick :
    (next : GameState) (n : ℕ)
    → statemachine_tick (record { current = next; pending = gs_count; transition_frame = n })
      ≡ record { current = next; pending = gs_count; transition_frame = n + 1 }
unfolding statemachine_tick
idle_tick next n = refl

suc_left : (n : ℕ) → n + 1 + 1 ≡ suc n + 1
suc_left n = omega arith

-- The screen that was asked for is the current one from the next tick on, whatever the machine was
-- doing, and `transition_frame` counts the ticks on it; no transition is left over.
pub sm_ticks-request :
    (n : ℕ) (next : GameState) (sm : StateMachine)
    → next ≢ gs_count
    → sm_ticks (suc n) (statemachine_request next sm)
      ≡ record { current = next; pending = gs_count; transition_frame = n + 1 }
sm_ticks-request zero next sm h = request_tick next sm h
sm_ticks-request (suc n) next sm h =
    ap statemachine_tick (sm_ticks-request n next sm h)
    ∙ idle_tick next (n + 1)
    ∙ ap (λ k. record { current = next; pending = gs_count; transition_frame = k }) (suc_left n)
