-- ===== src/Game/Flow.antt =====
-- How the screens of main.c follow each other: into a fight and out of it.
use fury_clash.Prelude.{
  ℕ, ◌≡◌, ◌≢◌, refl, ap, ◌∙◌, leb_ℤ, pos, true, false, ◌||◌, some, ◌>>=◌, arith,
}
use fury_clash.Floats.{Floats}
use fury_clash.Gameplay.Simulation.{simulation_init}
use fury_clash.Core.StateMachine.{
  gs_fight, gs_lobby, gs_results, gs_count, game_state_code, statemachine_tick, sm_ticks-request,
}
use fury_clash.Network.Os.{Os}
use fury_clash.Network.Http.{Blocking}
use fury_clash.Lobby.{ls_loadout, ls_ready, is_unset}
use fury_clash.Lobby.Create.{Dice}
use fury_clash.Game.{
  App, on_screen, is_creating, opponent_choice, both_loadouts, start_fight, state_is, request,
  lobby_ready, lobby_error, lobby_fight, lobby_create, lobby_frame, results_frame,
}

fight_is_none : gs_fight ≢ gs_count
fight_is_none e = absurd (omega (arith, ap game_state_code e))

results_is_none : gs_results ≢ gs_count
results_is_none e = absurd (omega (arith, ap game_state_code e))

module _ (fl : Floats) (os : Os) where
  abbrev A : Type 0
  A = App fl os

  ready_not_due : (a : A) → (a.lobby).sub ≡ ls_loadout → lobby_ready fl os a ≡ a
  unfolding lobby_ready
  ready_not_due a on = rw on refl

  error_not_due : (a : A) → (a.lobby).sub ≡ ls_loadout → lobby_error fl os a ≡ a
  unfolding lobby_error
  error_not_due a on = rw on refl

  no_creation :
      (net : Blocking os) (dice : Dice os) (fuel : ℕ) (a : A)
      → (a.lobby).sub ≡ ls_loadout
      → lobby_create fl os net dice fuel a ≡ some a
  unfolding lobby_create
  no_creation net dice fuel a on =
      let quiet : is_creating (a.lobby).sub ≡ false = ap is_creating on in rw quiet refl

  pub chosen :
      (a : A)
      → (a.lobby).sub ≡ ls_loadout
      → is_unset (a.lobby).my_loadout ≡ false
      → leb_ℤ (pos 0) (opponent_choice fl os a) ≡ true
      → lobby_fight fl os a ≡ start_fight fl os (both_loadouts a.lobby (opponent_choice fl os a)) a
  unfolding lobby_fight
  chosen a on mine theirs = rw (on, mine, theirs) refl

  -- both loadouts are known: the fight is requested on them
  pub lobby_starts :
      (net : Blocking os) (dice : Dice os) (fuel : ℕ) (a : A)
      → on_screen gs_lobby a.screen ≡ true
      → (a.lobby).sub ≡ ls_loadout
      → is_unset (a.lobby).my_loadout ≡ false
      → leb_ℤ (pos 0) (opponent_choice fl os a) ≡ true
      → (b : A) × (lobby_frame fl os net dice fuel a ≡ some b)
        × (b.sim ≡ (
            let lts = both_loadouts a.lobby (opponent_choice fl os a) in
            simulation_init fl (pos 0) (pos 1) lts.0 lts.1))
        × ((b.lobby).sub ≡ ls_ready)
        × (statemachine_tick b.screen
            ≡ record { current = gs_fight; pending = gs_count; transition_frame = 1 })
  unfolding lobby_frame start_fight request
  lobby_starts net dice fuel a here on mine theirs =
      let lts = both_loadouts a.lobby (opponent_choice fl os a) in
      (
        start_fight fl os lts a,
        rw here (
            ap (λ o. o >>= λ b. some (lobby_fight fl os (lobby_error fl os (lobby_ready fl os b))))
              (no_creation net dice fuel a on)
            ∙ ap some (
                ap (λ b. lobby_fight fl os (lobby_error fl os b)) (ready_not_due a on)
                ∙ ap (lobby_fight fl os) (error_not_due a on)
                ∙ chosen a on mine theirs)),
        refl,
        refl,
        sm_ticks-request 0 gs_fight a.screen fight_is_none,
      )

  -- When a fight over the network has ended, or its connection has failed, main.c asks for the
  -- results, and the next tick is on their screen, with the fight's state as it was.
  pub results_frame-ends :
      (a : A)
      → on_screen gs_fight a.screen ≡ true
      → ((a.net).client).network_mode ≡ true
      → (state_is fl os 5 a || state_is fl os 6 a) ≡ true
      → ((results_frame fl os a).sim ≡ a.sim)
        × (statemachine_tick (results_frame fl os a).screen
            ≡ record { current = gs_results; pending = gs_count; transition_frame = 1 })
  unfolding results_frame request
  results_frame-ends a here online over =
      rw (here, online, over) (refl, sm_ticks-request 0 gs_results a.screen results_is_none)
