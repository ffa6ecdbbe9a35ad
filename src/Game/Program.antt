-- ===== src/Game/Program.antt =====
-- The program from its start.
use mathlib.Core.Path.{subst}
use fury_clash.Prelude.{
  ℕ, ◌≡◌, refl, eqb_ℤ, ℤ, pos, not, ◌&&◌, length-replicate, List, Option, none, some, OnSome,
  if_ind, Option-cases, inl, inr, arith,
}
use fury_clash.Floats.{Floats}
use fury_clash.Core.StateMachine.{gs_lobby, gs_match_search, statemachine_init}
use fury_clash.Input.Laws.{begun, devices_reach}
use fury_clash.Network.Os.{Os, IsStream}
use fury_clash.Network.Http.{Blocking}
use fury_clash.Network.Url.{atoi}
use fury_clash.Network.Rollback.{rollback_init, zero_entry}
use fury_clash.Network.Client.{Session}
use fury_clash.Network.Client.Connect.{net_client_configure, net_client_connect}
use fury_clash.Network.Client.Intact.{IsIntact}
use fury_clash.Network.Client.Calls.{configure-kept, connect-kept}
use fury_clash.Lobby.Create.{Dice}
use fury_clash.Game.{App, game_engine}
use fury_clash.Game.Start.{
  Args, no_args, other_args, match_args, zero_client, Boot, Started, exits, runs, app_init,
  zero_session, join_match, main_start,
}
use fury_clash.Game.Whole.{IsApp, request-IsApp}
use fury_clash.Game.Whole.Events.{lobby_init-HasFields}
use fury_clash.Game.Whole.Frame.{Frames, Frames-IsApp}

module _ (fl : Floats) (os : Os) where
  abbrev Good : Session os (game_engine fl) → Type 0
  Good s = IsIntact os (game_engine fl) s

  -- a start that enters the main loop with a sound game
  abbrev IsSoundStart : Started fl os → Type 0
  IsSoundStart exits = Unit
  IsSoundStart (runs a) = IsApp fl os a

  zero_session-IsIntact : (b : Boot fl os) → Good (zero_session fl os b)
  unfolding zero_client rollback_init
  zero_session-IsIntact b = (
    (length-replicate {A = ℕ} 65536 0, omega arith),
    length-replicate 128 (zero_entry (game_engine fl)),
  )

  app_init-IsApp :
      (slot : ℤ) (s : Session os (game_engine fl)) (b : Boot fl os)
      → Good s
      → IsApp fl os (app_init fl os slot s b)
  unfolding app_init statemachine_init
  app_init-IsApp slot s b g = record {
    kept = (lobby_init-HasFields fl os, (g.0, (zero_session-IsIntact b).1));
    inputs = devices_reach fl b.pad _ begun;
    shown = (refl, refl);
  }

  join_match-IsSound :
      (url room id : List ℕ) (slot : ℤ) (b : Boot fl os)
      → OnSome IsSoundStart (join_match fl os url room id slot b)
  unfolding join_match
  join_match-IsSound url room id slot b =
      let en = game_engine fl in
      let z = zero_session fl os b in
      let conf = net_client_configure os en (some url) (some room) (some id) slot z in
      if_ind (OnSome IsSoundStart) (not (eqb_ℤ slot (pos 0)) && not (eqb_ℤ slot (pos 1))) (λ _. tt)
        (λ _. elim (Option-cases conf) [
          | inl n ↦ rw n tt
          | inr (s, e) ↦
              let g = subst (OnSome Good) e (
                configure-kept os en (some url) (some room) (some id) slot z
                  (zero_session-IsIntact b)) in
              let a = app_init fl os slot s b in
              let k = app_init-IsApp slot s b g in
              elim (Option-cases (net_client_connect os en none a.net)) [
                | inl n ↦ rw (e, n) tt
                | inr (r, c) ↦
                    let gr = subst (OnSome (λ r. Good r.1)) c (connect-kept os en a.net k.kept.1) in
                    rw (e, c)
                      (request-IsApp fl os gs_match_search (record a { net = r.1 }) refl
                        (record { kept = (k.kept.0, gr); inputs = k.inputs; shown = k.shown }))
              ]
        ])

  start-IsSound : (args : Args) (b : Boot fl os) → OnSome IsSoundStart (main_start fl os args b)
  unfolding main_start
  start-IsSound no_args b =
      request-IsApp fl os gs_lobby (app_init fl os (pos 0) (zero_session fl os b) b) refl
        (app_init-IsApp (pos 0) (zero_session fl os b) b (zero_session-IsIntact b))
  start-IsSound other_args b = tt
  start-IsSound (match_args url room id slot) b = elim (Option-cases (atoi slot)) [
    | inl n ↦ rw n tt
    | inr (n, e) ↦ rw e (join_match-IsSound url room id n b)
  ]

  -- Started with any arguments, whatever the players do and whatever arrives, as long as recv returns
  -- no more bytes than asked for: after any number of frames either the last one made an access that
  -- C leaves undefined (a received frame number that is negative as an int, a JSON text without a
  -- NUL), of which nothing more is said, or the program is sound: each text field and its NUL fit its
  -- array, the filled part of the receive buffer lies within its 65536 bytes, the local input has no
  -- bit but its twelve, and the screen is the title, the lobby, the search, the fight or the results.
  pub program-IsApp :
      (net : Blocking os) (dice : Dice os) (stream : IsStream os) (args : Args) (b : Boot fl os)
      (first : App fl os) (o : Option (App fl os))
      → main_start fl os args b ≡ some (runs first)
      → Frames fl os net dice first o
      → OnSome (IsApp fl os) o
  program-IsApp net dice stream args b first o e r =
      Frames-IsApp fl os net dice stream first
        (subst (OnSome IsSoundStart) e (start-IsSound args b)) o r
