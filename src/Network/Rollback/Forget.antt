-- ===== src/Network/Rollback/Forget.antt =====
-- What the ring does not keep: `rollback_save` stores neither the local input nor the prediction.
use mathlib.Core.Path.{subst}
use mathlib.Core.Option.{some-injective}
use native.Mathlib.Decide.{ℕ_discrete}
use fury_clash.Prelude.{
  ℕ, zero, suc, ◌-◌, ◌%◌, ◌<◌, ◌≡◌, refl, ◌∙◌, ap, sym, ℤ, pos, List, length, set, ◌==◌, length-set,
  replicate, get_or-set_self, get_or-set_ne, Option, some, inl, inr, Option-cases, Bool, true,
  false, arith, ltb_ℤ, ℤ-cases, pos_part, length-replicate, if◌then◌else◌,
}
use fury_clash.Network.Rollback.{
  Engine, FrameEntry, Rollback, rollback_init, zero_entry, entry_at, rollback_save,
  rollback_confirm_remote, mark_divergence, rollback_rewind_and_resim,
}
use fury_clash.Network.Rollback.Entry.{entry, entry_at_pos, entry_at-some}
use fury_clash.Network.Rollback.Resim.{recorded, replay, replay_ext, IsRewound, rewind_lem}
use fury_clash.Network.Rollback.Confirm.{confirmed, confirm_eq}

module _ (en : Engine) where
  open en use {State}

  -- the rings that the calls of the engine lead to, at any frames, inputs and simulations
  pub data Reach : Rollback State → Type 0 where
    start : Reach (rollback_init en)
    save :
        (frame : ℤ) (sim : State) {r r' : Rollback State}
        → Reach r
        → rollback_save en frame sim r ≡ some r'
        → Reach r'
    confirm :
        (frame : ℤ) (input : ℕ) {r r' : Rollback State}
        → Reach r
        → rollback_confirm_remote en frame input r ≡ some r'
        → Reach r'
    resim :
        (current : ℤ) (sim sim' : State) {r r' : Rollback State}
        → Reach r
        → rollback_rewind_and_resim en current sim r ≡ some (sim', r')
        → Reach r'

  pub record IsNeutral (r : Rollback State) : Type 0 where
    pub size : length r.buf ≡ 128
    pub local_zero : (k : ℕ) → (entry en r.buf k).local_input ≡ 0

  set-local_zero :
      (buf : List (FrameEntry State)) (k : ℕ) (e : FrameEntry State)
      → length buf ≡ 128
      → k < 128
      → e.local_input ≡ 0
      → ((j : ℕ) → (entry en buf j).local_input ≡ 0)
      → (j : ℕ) → (entry en (set buf k e) j).local_input ≡ 0
  set-local_zero buf k e h lt z all j = elim (ℕ_discrete k j) [
    | yes same ↦
        subst (λ j. (entry en (set buf k e) j).local_input ≡ 0) same
          (rw (get_or-set_self buf k e (zero_entry en) (omega arith)) z)
    | no ne ↦ rw (get_or-set_ne buf k j e (zero_entry en) ne) (all j)
  ]

  save-IsNeutral :
      (frame : ℤ) (sim : State) (r : Rollback State) {r' : Rollback State}
      → IsNeutral r
      → rollback_save en frame sim r ≡ some r'
      → IsNeutral r'
  unfolding rollback_save
  save-IsNeutral frame sim r v p = elim (Option-cases (entry_at en frame r)) [
    | inl e ↦ let q = rw e at p in absurd (cc)
    | inr ((k, x), e) ↦
        let at = entry_at-some en frame r v.size e in
        subst IsNeutral (some-injective _ _ (rw e at p)) (record {
          size = length-set r.buf k _ ∙ v.size;
          local_zero = set-local_zero r.buf k _ v.size at.0 refl v.local_zero;
        })
  ]

  confirm-IsNeutral :
      (frame : ℤ) (input : ℕ) (r : Rollback State) {r' : Rollback State}
      → IsNeutral r
      → rollback_confirm_remote en frame input r ≡ some r'
      → IsNeutral r'
  unfolding rollback_confirm_remote
  confirm-IsNeutral frame input r v p = elim (Option-cases (entry_at en frame r)) [
    | inl e ↦ let q = rw e at p in absurd (cc)
    | inr ((k, x), e) ↦
        let at = entry_at-some en frame r v.size e in
        subst IsNeutral (some-injective _ _ (rw e at p)) (record {
          size = length-set r.buf k _ ∙ v.size;
          local_zero =
              set-local_zero r.buf k _ v.size at.0
                (ap (λ (y : FrameEntry State). y.local_input) at.1 ∙ v.local_zero k) v.local_zero;
        })
  ]

  rewound-IsNeutral :
      (d c : ℕ) (r : Rollback State) {result : Option (State × Rollback State)} {s' : State}
      {r' : Rollback State}
      → IsNeutral r
      → IsRewound en d c r result
      → result ≡ some (s', r')
      → IsNeutral r'
  rewound-IsNeutral d c r v w p =
      subst IsNeutral
        (ap (λ (y : State × Rollback State). y.1) (some-injective _ _ (sym w.returns ∙ p)))
        (record {
          size = w.size;
          local_zero = λ k. ap (λ (y : ℕ × ℕ × Bool). y.0) (w.kept k) ∙ v.local_zero k;
        })

  resim-IsNeutral :
      (current : ℤ) (sim : State) (r : Rollback State) {s' : State} {r' : Rollback State}
      → IsNeutral r
      → rollback_rewind_and_resim en current sim r ≡ some (s', r')
      → IsNeutral r'
  unfolding rollback_rewind_and_resim
  resim-IsNeutral current sim r v p = elim (ℤ-cases r.diverge_frame) [
    | inl (d, e) ↦
        rewound-IsNeutral d (pos_part current) r v (rewind_lem en d current sim r v.size e) p
    | inr (n, e) ↦
        let none_marked : ltb_ℤ r.diverge_frame (pos 0) ≡ true = ground arith in
        subst IsNeutral
          (ap (λ (y : State × Rollback State). y.1) (some-injective _ _ (rw none_marked at p))) v
  ]

  replicate-local_zero : (n k : ℕ) → (entry en (replicate n (zero_entry en)) k).local_input ≡ 0
  replicate-local_zero zero k = refl
  replicate-local_zero (suc n) zero = refl
  replicate-local_zero (suc n) (suc k) = replicate-local_zero n k

  pub Reach-IsNeutral : {r : Rollback State} → Reach r → IsNeutral r
  unfolding rollback_init
  Reach-IsNeutral start = record {
    size = length-replicate 128 (zero_entry en);
    local_zero = replicate-local_zero 128;
  }
  Reach-IsNeutral (save frame sim h p) = save-IsNeutral frame sim _ (Reach-IsNeutral h) p
  Reach-IsNeutral (confirm frame input h p) = confirm-IsNeutral frame input _ (Reach-IsNeutral h) p
  Reach-IsNeutral (resim current sim sim' h p) = resim-IsNeutral current sim _ (Reach-IsNeutral h) p

  -- Whatever the engine has been asked to do before, a rewind from frame `d` plays the frames up
  -- to the current one again with the local player's input 0 (neutral) in each of them, not with
  -- the inputs that were pressed.
  pub resim_is_neutral :
      (d : ℕ) (current : ℤ) (sim : State) {r : Rollback State}
      → Reach r
      → r.diverge_frame ≡ pos d
      → (sim' : State) × (r' : Rollback State) × (rollback_rewind_and_resim en current sim r
          ≡ some (sim', r'))
        × (sim'
            ≡ replay en
                (λ f. (0, (recorded en r.buf f).1))
                (pos_part current - d)
                d
                (entry en r.buf (d % 128)).snapshot)
  resim_is_neutral d current sim {r} h e =
      let v = Reach-IsNeutral h in
      let w = rewind_lem en d current sim r v.size e in
      (
        w.sim,
        w.after,
        w.returns,
        w.replayed
            ∙ replay_ext en (recorded en r.buf) (λ f. (0, (recorded en r.buf f).1))
                (pos_part current - d) d (entry en r.buf (d % 128)).snapshot
                (λ f. ap (λ (x : ℕ). (x, (recorded en r.buf f).1)) (v.local_zero (f % 128))),
      )

  abbrev pub saved_entry : ℕ → State → Rollback State → FrameEntry State
  saved_entry f sim r = record (entry en r.buf (f % 128)) {
    snapshot = sim;
    local_input = 0;
    remote_confirmed = false;
  }

  -- After the save of a frame, its confirmation marks a divergence exactly where the arriving input
  -- differs from the one that the frame's slot stored before the save, be that a confirmed input
  -- or one left from 128 frames earlier. The prediction that the frame ran on has no part in it.
  pub confirm-save :
      (f input : ℕ) (sim : State) (r : Rollback State)
      → length r.buf ≡ 128
      → (saved after : Rollback State) × (rollback_save en (pos f) sim r ≡ some saved)
        × (rollback_confirm_remote en (pos f) input saved ≡ some after)
        × (after.diverge_frame ≡ (
            if (entry en r.buf (f % 128)).remote_input == input
            then r.diverge_frame
            else mark_divergence (pos f) r.diverge_frame))
  unfolding rollback_save
  confirm-save f input sim r h =
      let saved : Rollback State = record r { buf = set r.buf (f % 128) (saved_entry f sim r) } in
      (
        saved,
        confirmed en f input saved,
        rw (entry_at_pos en f r h),
        confirm_eq en f input saved (length-set r.buf (f % 128) (saved_entry f sim r) ∙ h),
        rw (get_or-set_self r.buf (f % 128) (saved_entry f sim r) (zero_entry en) (omega arith))
            (ground arith),
      )
