-- ===== src/Network/Rollback/Confirm.antt =====
-- What a confirmed input does to the ring, and what saving a frame forgets.
use fury_clash.Prelude.{
  ℕ, ◌+◌, ◌%◌, ◌≡◌, refl, ◌≢◌, ℤ, pos, ◌≤ℤ◌, ◌-ℤ◌, List, [], ◌∷◌, ◌++◌, length, set, length-set,
  get_or-set_self, get_or-set_ne, ◌∙◌, some, true, false, All, arith, if◌then◌else◌, not, ◌&&◌,
  ◌==◌,
}
use fury_clash.Network.Rollback.{
  Engine, FrameEntry, Rollback, zero_entry, rollback_get_remote, predict, rollback_confirm_remote,
  confirm_all, mark_divergence,
}
use fury_clash.Network.Rollback.Entry.{entry, entry_at_pos}

pub pred_pos : (f : ℕ) → pos (f + 1) -ℤ pos 1 ≡ pos f
unfolding ◌-ℤ◌
pred_pos f = ground arith

module _ (en : Engine) where
  open en use {State}

  -- the frame's slot is not confirmed, and the input that it stores is not the one that arrives
  abbrev pub IsWrong : Rollback State → ℕ → ℕ → Type 0
  IsWrong r f input =
      ((entry en r.buf (f % 128)).remote_confirmed ≡ false)
      × ((entry en r.buf (f % 128)).remote_input ≢ input)

  -- the slot's entry and the ring after `rollback_confirm_remote(f, input)`
  abbrev pub confirmed_entry : ℕ → ℕ → Rollback State → FrameEntry State
  confirmed_entry f input r = record (entry en r.buf (f % 128)) {
    remote_input = input;
    remote_confirmed = true;
  }

  abbrev pub confirmed : ℕ → ℕ → Rollback State → Rollback State
  confirmed f input r =
      let e = entry en r.buf (f % 128) in
      record {
        buf = set r.buf (f % 128) (confirmed_entry f input r);
        diverge_frame =
            if not e.remote_confirmed && not (e.remote_input == input)
            then mark_divergence (pos f) r.diverge_frame
            else r.diverge_frame;
      }

  pub confirmed_size :
      (f input : ℕ) (r : Rollback State)
      → length r.buf ≡ 128
      → length (confirmed f input r).buf ≡ 128
  confirmed_size f input r h = length-set r.buf (f % 128) (confirmed_entry f input r) ∙ h

  pub predict_eq :
      (f : ℕ) (r : Rollback State)
      → length r.buf ≡ 128
      → predict en (pos f) r ≡ some (entry en r.buf (f % 128)).remote_input
  unfolding predict
  predict_eq f r h = ground (arith, entry_at_pos en f r h)

  pub confirm_eq :
      (f input : ℕ) (r : Rollback State)
      → length r.buf ≡ 128
      → rollback_confirm_remote en (pos f) input r ≡ some (confirmed f input r)
  unfolding rollback_confirm_remote
  confirm_eq f input r h = rw (entry_at_pos en f r h)

  pub get_remote_eq :
      (f : ℕ) (r : Rollback State)
      → length r.buf ≡ 128
      → rollback_get_remote en (pos f) r ≡ (
          if (entry en r.buf (f % 128)).remote_confirmed
          then some (entry en r.buf (f % 128)).remote_input
          else predict en (pos f -ℤ pos 1) r)
  unfolding rollback_get_remote
  get_remote_eq f r h = rw (entry_at_pos en f r h)

  -- A confirmed input is what `rollback_get_remote` gives for its frame.
  get_remote-confirm :
      (f input : ℕ) (r : Rollback State)
      → length r.buf ≡ 128
      → (r' : Rollback State) × (rollback_confirm_remote en (pos f) input r ≡ some r')
        × (rollback_get_remote en (pos f) r' ≡ some input)
  get_remote-confirm f input r h = (
    confirmed f input r,
    confirm_eq f input r h,
    ground (
      arith,
      get_remote_eq f (confirmed f input r) (confirmed_size f input r h),
      get_or-set_self r.buf (f % 128) (confirmed_entry f input r) (zero_entry en),
    ),
  )

  -- For the next frame, as long as it is not confirmed itself, a confirmed input is the prediction.
  get_remote-predict :
      (f input : ℕ) (r : Rollback State)
      → length r.buf ≡ 128
      → (entry en r.buf ((f + 1) % 128)).remote_confirmed ≡ false
      → (r' : Rollback State) × (rollback_confirm_remote en (pos f) input r ≡ some r')
        × (rollback_get_remote en (pos (f + 1)) r' ≡ some input)
  get_remote-predict f input r h u = (
    confirmed f input r,
    confirm_eq f input r h,
    ground (
      arith,
      get_remote_eq (f + 1) (confirmed f input r) (confirmed_size f input r h),
      predict_eq f (confirmed f input r) (confirmed_size f input r h),
      pred_pos f,
      get_or-set_self r.buf (f % 128) (confirmed_entry f input r) (zero_entry en),
      get_or-set_ne r.buf (f % 128) ((f + 1) % 128) (confirmed_entry f input r) (zero_entry en),
    ),
  )

  -- the confirmations of one batch, in order
  abbrev pub confirmed_all : List (ℕ × ℕ) → Rollback State → Rollback State
  confirmed_all [] r = r
  confirmed_all ((f, input) ∷ es) r = confirmed_all es (confirmed f input r)

  abbrev frames : List (ℕ × ℕ) → List (ℤ × ℕ)
  frames [] = []
  frames ((f, input) ∷ es) = (pos f, input) ∷ frames es

  confirm_all_eq :
      (es : List (ℕ × ℕ)) (r : Rollback State)
      → length r.buf ≡ 128
      → confirm_all en (frames es) r ≡ some (confirmed_all es r)
  unfolding confirm_all
  confirm_all_eq [] r h = refl
  confirm_all_eq ((f, input) ∷ es) r h =
      rw (confirm_eq f input r h)
        (confirm_all_eq es (confirmed f input r) (confirmed_size f input r h))

  -- the divergence is marked, at `f` or before
  abbrev Caught : ℕ → Rollback State → Type 0
  Caught f r = (pos 0 ≤ℤ r.diverge_frame) × (r.diverge_frame ≤ℤ pos f)

  Caught-confirmed :
      (f g input : ℕ) (r : Rollback State) → Caught f r → Caught f (confirmed g input r)
  unfolding mark_divergence
  Caught-confirmed f g input r h = ground arith

  Caught-of_wrong :
      (f input : ℕ) (r : Rollback State) → IsWrong r f input → Caught f (confirmed f input r)
  unfolding mark_divergence
  Caught-of_wrong f input r h = ground arith

  Caught-confirmed_all :
      (f : ℕ) (es : List (ℕ × ℕ)) (r : Rollback State) → Caught f r → Caught f (confirmed_all es r)
  Caught-confirmed_all f [] r h = h
  Caught-confirmed_all f ((g, input) ∷ es) r h =
      Caught-confirmed_all f es (confirmed g input r) (Caught-confirmed f g input r h)

  IsWrong-confirmed :
      (f input g y : ℕ) (r : Rollback State)
      → g % 128 ≢ f % 128
      → IsWrong r f input
      → IsWrong (confirmed g y r) f input
  IsWrong-confirmed f input g y r ne h =
      rw (get_or-set_ne r.buf (g % 128) (f % 128) (confirmed_entry g y r) (zero_entry en) ne) h

  Caught-in_batch :
      (before after : List (ℕ × ℕ)) (f input : ℕ) (r : Rollback State)
      → All (λ (e : ℕ × ℕ). e.0 % 128 ≢ f % 128) before
      → IsWrong r f input
      → Caught f (confirmed_all (before ++ ((f, input) ∷ after)) r)
  Caught-in_batch [] after f input r a w =
      Caught-confirmed_all f after (confirmed f input r) (Caught-of_wrong f input r w)
  Caught-in_batch ((g, y) ∷ before) after f input r a w =
      Caught-in_batch before after f input (confirmed g y r) a.1
        (IsWrong-confirmed f input g y r a.0 w)

  -- No contradiction in a batch of confirmations is missed: where one of them differs from the
  -- input that its unconfirmed slot stores, and no earlier one of the batch fell on that slot, the
  -- batch is taken, and the divergence is then marked at that frame or at an earlier one.
  pub confirm_all_catches :
      (before after : List (ℕ × ℕ)) (f input : ℕ) (r : Rollback State)
      → length r.buf ≡ 128
      → All (λ (e : ℕ × ℕ). e.0 % 128 ≢ f % 128) before
      → IsWrong r f input
      → (r' : Rollback State) × (confirm_all en (frames (before ++ ((f, input) ∷ after))) r
          ≡ some r')
        × (pos 0 ≤ℤ r'.diverge_frame)
        × (r'.diverge_frame ≤ℤ pos f)
  confirm_all_catches before after f input r h a w =
      let c = Caught-in_batch before after f input r a w in
      (confirmed_all (before ++ ((f, input) ∷ after)) r, confirm_all_eq _ r h, c.0, c.1)
