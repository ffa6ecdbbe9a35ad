-- ===== src/Game/Whole/Ticks.antt =====
-- The ticks of a frame always return.
use mathlib.Core.Path.{subst}
use fury_clash.Prelude.{
  ℕ, zero, suc, ◌%◌, ◌≡◌, refl, sym, ◌∙◌, ltb_ℤ, leb_ℤ, ℤ, ◌-ℤ◌, ℤ-cases, pos, negsuc, Bool, true,
  false, length, Option, some, if_ind, inl, inr, arith,
}
use fury_clash.Floats.{Floats}
use fury_clash.Gameplay.Simulation.{simulation_tick}
use fury_clash.Core.StateMachine.{gs_fight, statemachine_tick}
use fury_clash.Core.GameLoop.{GameLoop, gameloop_should_tick}
use fury_clash.Input.{input_get_local, input_tick}
use fury_clash.Input.Gamepad.{PadButton}
use fury_clash.Input.Laws.{tick-AreInputs}
use fury_clash.Network.Os.{Os}
use fury_clash.Network.Rollback.{
  Engine, Rollback, predict, rollback_get_remote, rollback_needs_resim, rollback_rewind_and_resim,
}
use fury_clash.Network.Rollback.Entry.{entry, save-size}
use fury_clash.Network.Rollback.Resim.{rewind_lem}
use fury_clash.Network.Rollback.Confirm.{predict_eq, get_remote_eq}
use fury_clash.Network.Client.{net_client_send_input}
use fury_clash.Network.Client.Calls.{send_input-kept}
use fury_clash.Game.{App, game_engine, on_screen}
use fury_clash.Game.Peers.{save_returns}
use fury_clash.Game.Tick.{seats, rewind_if_needed, advance, fight_tick, game_tick, run_ticks}
use fury_clash.Game.Whole.{IsApp, tick-IsUsed}

module _ (en : Engine) where
  predict_returns :
      (prev : ℤ) (r : Rollback en.State)
      → length r.buf ≡ 128
      → (x : ℕ) × (predict en prev r ≡ some x)
  unfolding predict
  predict_returns (pos n) r h = ((entry en r.buf (n % 128)).remote_input, predict_eq en n r h)
  predict_returns (negsuc n) r h =
      let low : leb_ℤ (pos 0) (negsuc n) ≡ false = ground arith in (0, rw low refl)

  get_remote_returns :
      (f : ℕ) (r : Rollback en.State)
      → length r.buf ≡ 128
      → (x : ℕ) × (rollback_get_remote en (pos f) r ≡ some x)
  get_remote_returns f r h =
      let e = entry en r.buf (f % 128) in
      let q = predict_returns (pos f -ℤ pos 1) r h in
      subst (λ o. (x : ℕ) × (o ≡ some x)) (sym (get_remote_eq en f r h))
        (if_ind (λ (o : Option ℕ). (x : ℕ) × (o ≡ some x)) e.remote_confirmed
          (λ _. (e.remote_input, refl)) (λ _. q))

  rewind_returns :
      (c : ℕ) (sim : en.State) (r : Rollback en.State)
      → length r.buf ≡ 128
      → (x : en.State × Rollback en.State) × (rollback_rewind_and_resim en (pos c) sim r ≡ some x)
        × (length (x.1).buf ≡ 128)
  unfolding rollback_rewind_and_resim
  rewind_returns c sim r h = elim (ℤ-cases r.diverge_frame) [
    | inl (d, e) ↦
        let w = rewind_lem en d (pos c) sim r h e in ((w.sim, w.after), w.returns, w.size)
    | inr (n, e) ↦
        let none_marked : ltb_ℤ r.diverge_frame (pos 0) ≡ true = ground arith in
        ((sim, r), rw none_marked refl, h)
  ]

module _ (fl : Floats) (os : Os) where
  abbrev A : Type 0
  A = App fl os

  abbrev Good : A → Type 0
  Good a = IsApp fl os a

  -- what a call leaves that always returns
  abbrev pub Returns : Option A → Type 0
  Returns o = (b : A) × (o ≡ some b) × Good b

  rewound : (f : ℕ) (a : A) → Good a → Returns (rewind_if_needed fl os (pos f) a)
  unfolding rewind_if_needed
  rewound f a k =
      let ring = (a.net).ring in
      let (x, e, size) = rewind_returns (game_engine fl) f a.sim ring k.kept.1.1 in
      if_ind Returns (rollback_needs_resim (game_engine fl) ring)
        (λ _. (
          record a { sim = x.0; net = record (a.net) { ring = x.1 } },
          rw e refl,
          record { kept = (k.kept.0, (k.kept.1.0, size)); inputs = k.inputs; shown = k.shown },
        ))
        (λ _. (a, refl, k))

  advanced : (f local remote : ℕ) (a : A) → Good a → Returns (advance fl os (pos f) local remote a)
  unfolding advance
  advanced f local remote a k =
      let en = game_engine fl in
      let both = seats a.local_slot local remote in
      let s = simulation_tick fl a.sim both.0 both.1 in
      let (r, e) = save_returns en f s (a.net).ring k.kept.1.1 in
      let size = save-size en (pos f) s (a.net).ring e ∙ k.kept.1.1 in
      (
        record a {
          sim = s;
          net = net_client_send_input os en (pos f) local (record (a.net) { ring = r });
        },
        rw e refl,
        record {
          kept = (
            k.kept.0,
            send_input-kept os en (pos f) local (record (a.net) { ring = r }) (k.kept.1.0, size),
          );
          inputs = k.inputs;
          shown = k.shown;
        },
      )

  fought : (a : A) → Good a → Returns (fight_tick fl os a)
  unfolding fight_tick
  fought a k =
      let f = (a.loop).current_frame in
      let (remote, e) = get_remote_returns (game_engine fl) f (a.net).ring k.kept.1.1 in
      let (b, eb, kb) = rewound f a k in
      let (c, ec, kc) = advanced f (input_get_local fl a.devices) remote b kb in
      (c, rw (e, eb) ec, kc)

  ticked : (held : PadButton → Bool) (a : A) → Good a → Returns (game_tick fl os held a)
  unfolding game_tick
  ticked held a k =
      let b : A = record a {
        screen = statemachine_tick a.screen;
        devices = input_tick fl held a.devices;
      } in
      let kb : Good b = record {
        kept = k.kept;
        inputs = tick-AreInputs fl held a.devices k.inputs;
        shown = tick-IsUsed a.screen k.shown;
      } in
      if_ind Returns (on_screen gs_fight b.screen) (λ _. fought b kb) (λ _. (b, refl, kb))

  with_loop : (a : A) (loop : GameLoop fl.Double) → Good a → Good (record a { loop = loop })
  with_loop a loop k = record { kept = k.kept; inputs = k.inputs; shown = k.shown }

  -- In a game that is sound, whatever the ring holds, the ticks of a frame always return: no access
  -- of the rollback leaves its ring, on any screen, with or without a rewind, and the game is sound
  -- again.
  pub run_ticks-Returns :
      (left : ℕ) (held : PadButton → Bool) (a : A)
      → IsApp fl os a
      → (b : A) × (run_ticks fl os left held a ≡ some b) × IsApp fl os b
  unfolding run_ticks
  run_ticks-Returns zero held a k = (_, refl, with_loop a (gameloop_should_tick fl a.loop).1 k)
  run_ticks-Returns (suc left) held a k =
      let t = gameloop_should_tick fl a.loop in
      let a1 : A = record a { loop = t.1 } in
      let (b, e, kb) = ticked held a1 (with_loop a t.1 k) in
      let (c, ec, kc) = run_ticks-Returns left held b kb in
      if_ind Returns t.0 (λ _. (c, rw e ec, kc)) (λ _. (a1, refl, with_loop a t.1 k))
