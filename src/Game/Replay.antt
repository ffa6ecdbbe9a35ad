-- ===== src/Game/Replay.antt =====
-- What main.c makes of a rewind: it saves a frame behind its tick, and rollback.c plays that frame
-- again from there.
use fury_clash.Prelude.{
  ℕ, ◌+◌, ◌-◌, ◌%◌, ◌≤◌, ◌≡◌, refl, ap, ◌∙◌, pos, negsuc, length, length-set, set, get_or-set_self,
  ◌==◌, true, false, some, arith,
}
use fury_clash.Network.Rollback.{
  Engine, FrameEntry, Rollback, zero_entry, rollback_save, rollback_confirm_remote, mark_divergence,
  rollback_rewind_and_resim,
}
use fury_clash.Network.Rollback.Entry.{entry, entry_at_pos}
use fury_clash.Network.Rollback.Resim.{recorded, replay, rewind_lem}
use fury_clash.Network.Rollback.Confirm.{confirmed, confirmed_entry, confirm_eq, confirmed_size}
use fury_clash.Network.Rollback.Forget.{saved_entry}

module _ (en : Engine) where
  open en use {State, tick}

  abbrev Saved : ℕ → State → Rollback State → Rollback State
  Saved f s r = record r { buf = set r.buf (f % 128) (saved_entry en f s r) }

  saved_returns :
      (f : ℕ) (s : State) (r : Rollback State)
      → length r.buf ≡ 128
      → rollback_save en (pos f) s r ≡ some (Saved f s r)
  unfolding rollback_save
  saved_returns f s r h = rw (entry_at_pos en f r h) refl

  saved_size :
      (f : ℕ) (s : State) (r : Rollback State) → length r.buf ≡ 128 → length (Saved f s r).buf ≡ 128
  saved_size f s r h = length-set r.buf (f % 128) (saved_entry en f s r) ∙ h

  first_mark : (f : ℕ) → mark_divergence (pos f) (negsuc 0) ≡ pos f
  unfolding mark_divergence
  first_mark f = refl

  -- a contradicted slot of a ring with no divergence marks its frame
  marks :
      (f input : ℕ) (r : Rollback State)
      → r.diverge_frame ≡ negsuc 0
      → (entry en r.buf (f % 128)).remote_confirmed ≡ false
      → ((entry en r.buf (f % 128)).remote_input == input) ≡ false
      → (confirmed en f input r).diverge_frame ≡ pos f
  marks f input r calm unknown other =
      rw (unknown, other) (ap (mark_divergence (pos f)) calm ∙ first_mark f)

  slot_confirmed :
      (f input : ℕ) (r : Rollback State)
      → length r.buf ≡ 128
      → entry en (confirmed en f input r).buf (f % 128) ≡ confirmed_entry en f input r
  slot_confirmed f input r h =
      get_or-set_self r.buf (f % 128) (confirmed_entry en f input r) (zero_entry en) (omega arith)

  -- a frame whose confirmation marks a divergence
  abbrev IsWrongAt : ℕ → ℕ → Rollback State → Type 0
  IsWrongAt f input r =
      (r.diverge_frame ≡ negsuc 0)
      × ((entry en r.buf (f % 128)).remote_confirmed ≡ false)
      × (((entry en r.buf (f % 128)).remote_input == input) ≡ false)

  -- The confirmation of a frame that is not in the past, as of a peer that is ahead, marks that frame,
  -- and the rewind in front of it puts whatever snapshot the frame's slot holds, of 128 frames ago or
  -- all zero, in place of the running simulation.
  pub early_input_restores :
      (f c input : ℕ) (sim : State) (r : Rollback State)
      → length r.buf ≡ 128
      → IsWrongAt f input r
      → c ≤ f
      → (r1 r2 : Rollback State) × (rollback_confirm_remote en (pos f) input r ≡ some r1)
        × (rollback_rewind_and_resim en (pos c) sim r1
            ≡ some ((entry en r.buf (f % 128)).snapshot, r2))
  early_input_restores f c input sim r h (calm, unknown, other) early =
      let r1 = confirmed en f input r in
      let size = confirmed_size en f input r h in
      let w = rewind_lem en f (pos c) sim r1 size (marks f input r calm unknown other) in
      let none_left : c - f ≡ 0 = omega arith in
      let kept : w.sim ≡ (entry en r.buf (f % 128)).snapshot =
        w.replayed
        ∙ ap (λ n. replay en (recorded en r1.buf) n f (entry en r1.buf (f % 128)).snapshot)
            none_left
        ∙ ap (λ (e : FrameEntry State). e.snapshot) (slot_confirmed f input r h) in
      (
        r1,
        w.after,
        confirm_eq en f input r h,
        w.returns ∙ ap (λ (t : State). some (t, w.after)) kept,
      )

  -- A frame is saved behind its tick, as main.c does. If its confirmation contradicts the slot, the
  -- rewind at the next frame does not undo that tick: it plays the frame once more on top of it,
  -- with the confirmed input and a neutral local player.
  pub rewind_repeats :
      (f input : ℕ) (s sim : State) (r : Rollback State)
      → length r.buf ≡ 128
      → r.diverge_frame ≡ negsuc 0
      → ((entry en r.buf (f % 128)).remote_input == input) ≡ false
      → (saved r1 r2 : Rollback State) × (rollback_save en (pos f) s r ≡ some saved)
        × (rollback_confirm_remote en (pos f) input saved ≡ some r1)
        × (rollback_rewind_and_resim en (pos (f + 1)) sim r1 ≡ some (tick s 0 input, r2))
  rewind_repeats f input s sim r h calm other =
      let saved = Saved f s r in
      let size = saved_size f s r h in
      let r1 = confirmed en f input saved in
      let slot : entry en saved.buf (f % 128) ≡ saved_entry en f s r =
        get_or-set_self r.buf (f % 128) (saved_entry en f s r) (zero_entry en) (omega arith) in
      let unknown = ap (λ (e : FrameEntry State). e.remote_confirmed) slot in
      let other' = ap (λ (e : FrameEntry State). e.remote_input == input) slot ∙ other in
      let w =
        rewind_lem en f (pos (f + 1)) sim r1 (confirmed_size en f input saved size)
          (marks f input saved calm unknown other') in
      let one_left : f + 1 - f ≡ 1 = omega arith in
      let e1 =
        slot_confirmed f input saved size
        ∙ ap (λ (e : FrameEntry State). record e { remote_input = input; remote_confirmed = true })
            slot in
      let played : w.sim ≡ tick s 0 input =
        w.replayed
        ∙ ap (λ n. replay en (recorded en r1.buf) n f (entry en r1.buf (f % 128)).snapshot) one_left
        ∙ ap (λ (e : FrameEntry State). tick e.snapshot e.local_input e.remote_input) e1 in
      (
        saved,
        r1,
        w.after,
        saved_returns f s r h,
        confirm_eq en f input saved size,
        w.returns ∙ ap (λ (t : State). some (t, w.after)) played,
      )
