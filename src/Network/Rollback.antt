-- ===== src/Network/Rollback.antt =====
-- network/rollback.c over the simulation that it saves, restores and runs again. `none` is an
-- access outside `g_buf`, which C leaves undefined.
pub mod Entry
pub mod Resim
pub mod Confirm
pub mod Forget
use fury_clash.Prelude.{
  ℕ, zero, suc, ◌+◌, ◌%◌, ℤ, pos, negsuc, pos_part, ◌-ℤ◌, ltb_ℤ, leb_ℤ, ◌==◌, Bool, true, false,
  not, ◌&&◌, ◌||◌, List, [], ◌∷◌, replicate, set, get_elem?, Option, none, some, ◌>>=◌,
  if◌then◌else◌,
}

-- FC_ROLLBACK_FRAMES
abbrev pub rollback_frames : ℕ
rollback_frames = 128

-- What the engine asks of gameplay/simulation.c: its state, whose copies are snapshots, one tick
-- on both inputs, and the state of all zero bytes.
pub record Engine : Type 1 where
  pub State : Type 0
  pub tick : State → ℕ → ℕ → State
  pub zeroed : State

pub record FrameEntry (S : Type 0) : Type 0 where
  pub snapshot : S
  pub local_input : ℕ
  pub remote_input : ℕ
  pub remote_confirmed : Bool

-- `g_buf` and `g_diverge_frame`
pub record Rollback (S : Type 0) : Type 0 where
  pub buf : List (FrameEntry S)
  pub diverge_frame : ℤ

-- `frame % FC_ROLLBACK_FRAMES` as an index: the remainder of a negative number is not positive.
unfoldable pub slot_of : ℤ → Option ℕ
slot_of (pos n) = some (n % rollback_frames)
slot_of (negsuc n) = if ((n + 1) % rollback_frames) == 0 then some 0 else none

-- the earliest mispredicted frame
unfoldable pub mark_divergence : ℤ → ℤ → ℤ
mark_divergence frame diverge =
    if ltb_ℤ diverge (pos 0) || ltb_ℤ frame diverge then frame else diverge

module _ (en : Engine) where
  open en use {State, tick, zeroed}

  abbrev pub zero_entry : FrameEntry State
  zero_entry = record {
    snapshot = zeroed;
    local_input = 0;
    remote_input = 0;
    remote_confirmed = false;
  }

  unfoldable pub rollback_init : Rollback State
  rollback_init = record { buf = replicate rollback_frames zero_entry; diverge_frame = negsuc 0 }

  -- `&g_buf[frame % FC_ROLLBACK_FRAMES]`, with its index
  unfoldable pub entry_at : ℤ → Rollback State → Option (ℕ × FrameEntry State)
  entry_at frame r = do k ← slot_of frame; e ← get_elem? r.buf k; some (k, e)

  -- the current simulation is saved
  unfoldable pub rollback_save : ℤ → State → Rollback State → Option (Rollback State)
  rollback_save frame sim r = do
    (k, e) ← entry_at frame r
    some (record r {
      buf = set r.buf k (record e { snapshot = sim; local_input = 0; remote_confirmed = false });
    })

  -- the last known remote input, confirmed or predicted
  unfoldable pub predict : ℤ → Rollback State → Option ℕ
  predict prev r =
      let known = entry_at prev r >>= (λ ke. some ke.1.remote_input) in
      if leb_ℤ (pos 0) prev then known else some 0

  unfoldable pub rollback_get_remote : ℤ → Rollback State → Option ℕ
  rollback_get_remote frame r = do
    (k, e) ← entry_at frame r
    if e.remote_confirmed then some e.remote_input else predict (frame -ℤ pos 1) r

  unfoldable pub rollback_confirm_remote : ℤ → ℕ → Rollback State → Option (Rollback State)
  rollback_confirm_remote frame input r = do
    (k, e) ← entry_at frame r
    some (record {
      buf = set r.buf k (record e { remote_input = input; remote_confirmed = true });
      diverge_frame =
          if not e.remote_confirmed && not (e.remote_input == input)
          then mark_divergence frame r.diverge_frame
          else r.diverge_frame;
    })

  -- the loop of `dispatch_message` (network/net_client.c) over the entries of an input batch
  unfoldable pub confirm_all : List (ℤ × ℕ) → Rollback State → Option (Rollback State)
  confirm_all [] r = some r
  confirm_all ((frame, input) ∷ es) r =
      rollback_confirm_remote frame input r >>= λ r'. confirm_all es r'

  unfoldable pub rollback_needs_resim : Rollback State → Bool
  rollback_needs_resim r = leb_ℤ (pos 0) r.diverge_frame

  -- The loop from frame `f` on, with `left` rounds to go.
  unfoldable pub resim_from :
      ℕ → ℕ → State → List (FrameEntry State) → Option (State × List (FrameEntry State))
  resim_from zero f s buf = some (s, buf)
  resim_from (suc left) f s buf = get_elem? buf (f % rollback_frames) >>= λ e.
      let s' = tick s e.local_input e.remote_input in
      resim_from left (f + 1) s' (set buf (f % rollback_frames) (record e { snapshot = s' }))

  -- from the snapshot at the divergence up to the current frame
  unfoldable pub rewind : ℤ → Rollback State → Option (State × Rollback State)
  rewind current r = do
    (k, base) ← entry_at r.diverge_frame r
    (s, buf) ←
        resim_from (pos_part (current -ℤ r.diverge_frame)) (pos_part r.diverge_frame) base.snapshot
          r.buf
    some (s, record { buf = buf; diverge_frame = negsuc 0 })

  unfoldable pub rollback_rewind_and_resim :
      ℤ → State → Rollback State → Option (State × Rollback State)
  rollback_rewind_and_resim current sim r =
      if ltb_ℤ r.diverge_frame (pos 0) then some (sim, r) else rewind current r
