-- ===== src/Game/Whole.antt =====
-- What every frame of main.c that returns keeps: the fields of the lobby and the buffers of the
-- client in bounds, the ring at its size, the inputs within their bits, the screen one of five.
pub mod Events
pub mod Ticks
pub mod Frame
pub mod Fight
use mathlib.Core.Path.{subst}
use mathlib.Core.Bool.{true≢false}
use fury_clash.Prelude.{
  ℕ, ◌≡◌, refl, sym, ltb, leb_ℤ, ◌==◌, ℤ, pos, Bool, true, false, not, ◌&&◌, ◌||◌, Option, none,
  some, OnSome, if_ind, Option-cases, inl, inr, arith, if◌then◌else◌,
}
use fury_clash.Floats.{Floats}
use fury_clash.Core.StateMachine.{
  GameState, StateMachine, game_state_code, gs_title, gs_main_menu, gs_lobby, gs_char_select,
  gs_match_search, gs_loading, gs_fight, gs_results, gs_training, gs_settings, gs_count,
  statemachine_request, statemachine_tick,
}
use fury_clash.Input.Laws.{AreInputs}
use fury_clash.Network.Os.{Os}
use fury_clash.Network.Http.{Blocking}
use fury_clash.Network.Client.Intact.{IsIntact}
use fury_clash.Network.Client.Calls.{ack_start-kept}
use fury_clash.Gameplay.Types.{LoadoutType}
use fury_clash.Lobby.{is_unset}
use fury_clash.Lobby.Fields.{HasFields}
use fury_clash.Lobby.Create.{Dice, lobby_create_room}
use fury_clash.Lobby.Kept.{IsKept}
use fury_clash.Lobby.Create.Kept.{create-Kept}
use fury_clash.Game.{
  App, game_engine, on_screen, awaits, is_creating, is_choosing, state_is, opponent_choice,
  both_loadouts, request, lobby_ready, lobby_error, start_fight, lobby_fight, match_search_frame,
  results_frame, lobby_create, lobby_frame,
}

-- the screens that main.c asks for
abbrev pub is_used : GameState → Bool
is_used gs_title = true
is_used gs_lobby = true
is_used gs_match_search = true
is_used gs_fight = true
is_used gs_results = true
is_used _ = false

-- or none
abbrev pub is_next : GameState → Bool
is_next gs_count = true
is_next s = is_used s

abbrev pub IsUsed : StateMachine → Type 0
IsUsed sm = (is_used sm.current ≡ true) × (is_next sm.pending ≡ true)

ticked_to :
    (current next : GameState) (n : ℕ)
    → IsUsed (record { current = current; pending = next; transition_frame = n })
    → IsUsed
        (statemachine_tick (record { current = current; pending = next; transition_frame = n }))
unfolding statemachine_tick
ticked_to current gs_title n h = (refl, refl)
ticked_to current gs_lobby n h = (refl, refl)
ticked_to current gs_match_search n h = (refl, refl)
ticked_to current gs_fight n h = (refl, refl)
ticked_to current gs_results n h = (refl, refl)
ticked_to current gs_count n h = h
ticked_to current next n h = absurd (true≢false (sym h.1))

pub tick-IsUsed : (sm : StateMachine) → IsUsed sm → IsUsed (statemachine_tick sm)
tick-IsUsed sm h = ticked_to sm.current sm.pending sm.transition_frame h

module _ (fl : Floats) (os : Os) where
  abbrev A : Type 0
  A = App fl os

  pub record IsApp (a : A) : Type 0 where
    pub kept : IsKept os (game_engine fl) (a.lobby, a.net)
    pub inputs : AreInputs fl a.devices
    pub shown : IsUsed a.screen

  pub request-IsApp :
      (s : GameState) (a : A) → is_next s ≡ true → IsApp a → IsApp (request fl os s a)
  unfolding request statemachine_request
  request-IsApp s a h k = record {
    kept = k.kept;
    inputs = k.inputs;
    shown = if_ind IsUsed (ltb (game_state_code s) 10) (λ _. (k.shown.0, h)) (λ _. k.shown);
  }

  ready-IsApp : (a : A) → IsApp a → IsApp (lobby_ready fl os a)
  unfolding lobby_ready
  ready-IsApp a k =
      if_ind IsApp (awaits (a.lobby).sub && state_is fl os 3 a)
        (λ _. record {
          kept = (k.kept.0, ack_start-kept os (game_engine fl) a.net k.kept.1);
          inputs = k.inputs;
          shown = k.shown;
        })
        (λ _. k)

  error-IsApp : (a : A) → IsApp a → IsApp (lobby_error fl os a)
  unfolding lobby_error
  error-IsApp a k =
      if_ind IsApp (awaits (a.lobby).sub && state_is fl os 6 a)
        (λ _. record { kept = k.kept; inputs = k.inputs; shown = k.shown }) (λ _. k)

  start_fight-IsApp :
      (lts : LoadoutType × LoadoutType) (a : A) → IsApp a → IsApp (start_fight fl os lts a)
  unfolding start_fight
  start_fight-IsApp lts a k =
      request-IsApp gs_fight _ refl (record { kept = k.kept; inputs = k.inputs; shown = k.shown })

  fight-IsApp : (a : A) → IsApp a → IsApp (lobby_fight fl os a)
  unfolding lobby_fight
  fight-IsApp a k =
      let opponent = opponent_choice fl os a in
      if_ind IsApp (is_choosing (a.lobby).sub && not (is_unset (a.lobby).my_loadout))
        (λ _.
          if_ind IsApp (leb_ℤ (pos 0) opponent)
            (λ _. start_fight-IsApp (both_loadouts a.lobby opponent) a k) (λ _. k))
        (λ _. k)

  pub search-IsApp : (a : A) → IsApp a → IsApp (match_search_frame fl os a)
  unfolding match_search_frame
  search-IsApp a k =
      if_ind IsApp (on_screen gs_match_search a.screen && state_is fl os 3 a)
        (λ _. request-IsApp gs_fight _ refl (record {
          kept = (k.kept.0, ack_start-kept os (game_engine fl) a.net k.kept.1);
          inputs = k.inputs;
          shown = k.shown;
        }))
        (λ _. k)

  pub results-IsApp : (a : A) → IsApp a → IsApp (results_frame fl os a)
  unfolding results_frame
  results-IsApp a k =
      if_ind IsApp
        ((on_screen gs_fight a.screen && ((a.net).client).network_mode)
          && (state_is fl os 5 a || state_is fl os 6 a))
        (λ _. request-IsApp gs_results a refl k) (λ _. k)

  module _ (net : Blocking os) (dice : Dice os) where
    create-IsApp : (fuel : ℕ) (a : A) → IsApp a → OnSome IsApp (lobby_create fl os net dice fuel a)
    unfolding lobby_create
    create-IsApp fuel a k =
        let made = lobby_create_room os dice net (game_engine fl) fuel (a.lobby, a.net) in
        if_ind (OnSome IsApp) (is_creating (a.lobby).sub)
          (λ _. elim (Option-cases made) [
            | inl n ↦ rw n tt
            | inr (r, e) ↦
                let h = create-Kept os (game_engine fl) dice net fuel (a.lobby, a.net) k.kept in
                rw e (record {
                  kept = subst (OnSome (IsKept os (game_engine fl))) e h;
                  inputs = k.inputs;
                  shown = k.shown;
                })
          ])
          (λ _. k)

    pub lobby_frame-IsApp :
        (fuel : ℕ) (a : A) → IsApp a → OnSome IsApp (lobby_frame fl os net dice fuel a)
    unfolding lobby_frame
    lobby_frame-IsApp fuel a k =
        if_ind (OnSome IsApp) (on_screen gs_lobby a.screen)
          (λ _. elim (Option-cases (lobby_create fl os net dice fuel a)) [
            | inl n ↦ rw n tt
            | inr (b, e) ↦
                let h = subst (OnSome IsApp) e (create-IsApp fuel a k) in
                rw e (
                  fight-IsApp (lobby_error fl os (lobby_ready fl os b))
                    (error-IsApp (lobby_ready fl os b) (ready-IsApp b h)))
          ])
          (λ _. k)
