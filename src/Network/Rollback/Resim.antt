-- ===== src/Network/Rollback/Resim.antt =====
-- What a rewind computes: the recorded inputs played again from the snapshot of the divergence.
use fury_clash.Prelude.{
  ℕ, zero, suc, ◌+◌, ◌-◌, ◌%◌, ◌≤◌, ◌<◌, ◌≡◌, refl, ◌≢◌, ℤ, pos, negsuc, pos_part, ◌-ℤ◌, List,
  length, set, length-set, get_elem?-eq-get_or, get_or-set_self, get_or-set_ne, Option, some, Bool,
  false, arith, ◌∙◌, ap,
}
use mathlib.Core.Path.{subst}
use native.Mathlib.Decide.{ℕ_discrete}
use fury_clash.Network.Rollback.Entry
use fury_clash.Network.Rollback.Entry.{entry_at_pos}
use fury_clash.Network.Rollback.{
  Engine, FrameEntry, Rollback, rollback_frames, zero_entry, resim_from, rewind,
  rollback_rewind_and_resim, rollback_needs_resim,
}

-- two different frames less than a lap apart have different slots
slot_ne : (f j : ℕ) → 0 < j → j < 128 → f % 128 ≢ (f + j) % 128
slot_ne f j p q = omega arith

sub_pos : (c : ℤ) (d : ℕ) → pos_part (c -ℤ pos d) ≡ pos_part c - d
unfolding ◌-ℤ◌
sub_pos c d = ground arith

module _ (en : Engine) where
  abbrev entry : List (FrameEntry en.State) → ℕ → FrameEntry en.State
  entry = Entry.entry en

  open en use {State, tick}

  -- what the buffer has recorded of a frame's inputs, local and remote
  abbrev pub recorded : List (FrameEntry State) → ℕ → ℕ × ℕ
  recorded buf f = let e = entry buf (f % rollback_frames) in (e.local_input, e.remote_input)

  -- `n` ticks from frame `f` on, on the given inputs
  abbrev pub replay : (ℕ → ℕ × ℕ) → ℕ → ℕ → State → State
  replay ins zero f s = s
  replay ins (suc n) f s = replay ins n (f + 1) (tick s (ins f).0 (ins f).1)

  pub replay_ext :
      (ins ins' : ℕ → ℕ × ℕ) (n f : ℕ) (s : State)
      → ((g : ℕ) → ins g ≡ ins' g)
      → replay ins n f s ≡ replay ins' n f s
  replay_ext ins ins' zero f s h = refl
  replay_ext ins ins' (suc n) f s h =
      rw (h f) (replay_ext ins ins' n (f + 1) (tick s (ins' f).0 (ins' f).1) h)

  -- all of an entry but its snapshot
  abbrev pub inputs : FrameEntry State → ℕ × ℕ × Bool
  inputs e = (e.local_input, e.remote_input, e.remote_confirmed)

  pub record IsResim (left f : ℕ) (s : State) (buf : List (FrameEntry State))
      (result : Option (State × List (FrameEntry State))) : Type 0 where
    pub out : State × List (FrameEntry State)
    pub returns : result ≡ some out
    pub final : out.0 ≡ replay (recorded buf) left f s
    pub size : length out.1 ≡ 128
    pub kept : (k : ℕ) → inputs (entry out.1 k) ≡ inputs (entry buf k)
    pub snapshots :
        (j : ℕ)
        → j < left
        → left ≤ 128
        → (entry out.1 ((f + j) % 128)).snapshot ≡ replay (recorded buf) (suc j) f s
    pub outside : (k : ℕ) → ((j : ℕ) → j < left → k ≢ (f + j) % 128) → entry out.1 k ≡ entry buf k

  -- one round of the loop
  abbrev stepped : ℕ → State → List (FrameEntry State) → State
  stepped f s buf = tick s (recorded buf f).0 (recorded buf f).1

  abbrev stored : ℕ → State → List (FrameEntry State) → List (FrameEntry State)
  stored f s buf = set buf (f % 128) (record (entry buf (f % 128)) { snapshot = stepped f s buf })

  resim_from-suc :
      (left f : ℕ) (s : State) (buf : List (FrameEntry State))
      → length buf ≡ 128
      → resim_from en (suc left) f s buf
        ≡ resim_from en left (f + 1) (stepped f s buf) (stored f s buf)
  unfolding resim_from
  resim_from-suc left f s buf h =
      rw (get_elem?-eq-get_or buf (f % 128) (zero_entry en) (omega arith))

  inputs-stored :
      (f : ℕ) (s : State) (buf : List (FrameEntry State)) (k : ℕ)
      → length buf ≡ 128
      → inputs (entry (stored f s buf) k) ≡ inputs (entry buf k)
  inputs-stored f s buf k h = elim (ℕ_discrete (f % 128) k) [
    | yes e ↦
        subst (λ k. inputs (entry (stored f s buf) k) ≡ inputs (entry buf k)) e
          (ap inputs (get_or-set_self buf (f % 128) _ (zero_entry en) (omega arith)))
    | no ne ↦ ap inputs (get_or-set_ne buf (f % 128) k _ (zero_entry en) ne)
  ]

  recorded-stored :
      (f : ℕ) (s : State) (buf : List (FrameEntry State))
      → length buf ≡ 128
      → (g : ℕ) → recorded (stored f s buf) g ≡ recorded buf g
  recorded-stored f s buf h g =
      ap (λ (t : ℕ × ℕ × Bool). (t.0, t.1)) (inputs-stored f s buf (g % 128) h)

  IsResim-zero :
      (f : ℕ) (s : State) (buf : List (FrameEntry State))
      → length buf ≡ 128
      → IsResim 0 f s buf (resim_from en 0 f s buf)
  IsResim-zero f s buf h = record {
    out = (s, buf);
    returns = unfold resim_from in refl;
    final = refl;
    size = h;
    kept = λ k. refl;
    snapshots = λ j p q. absurd (omega arith);
    outside = λ k p. refl;
  }

  module _ (left f : ℕ) (s : State) (buf : List (FrameEntry State)) (h : length buf ≡ 128)
      (r : IsResim left
        (f + 1)
        (stepped f s buf)
        (stored f s buf)
        (resim_from en left (f + 1) (stepped f s buf) (stored f s buf))) where
    snapshots-suc :
        (j : ℕ)
        → j < suc left
        → suc left ≤ 128
        → (entry r.out.1 ((f + j) % 128)).snapshot ≡ replay (recorded buf) (suc j) f s
    snapshots-suc zero p q =
        let e : (f + 0) % 128 ≡ f % 128 = omega arith in
        rw (
          e,
          r.outside (f % 128)
              (λ j lt same. slot_ne f (j + 1) (omega arith) (omega arith) (omega arith)),
          get_or-set_self buf (f % 128)
              (record (entry buf (f % 128)) { snapshot = stepped f s buf }) (zero_entry en)
              (omega arith),
        )
    snapshots-suc (suc j) p q =
        let e : (f + suc j) % 128 ≡ (f + 1 + j) % 128 = omega arith in
        rw e (
          r.snapshots j (omega arith) (omega arith)
          ∙ replay_ext (recorded (stored f s buf)) (recorded buf) (suc j) (f + 1) (stepped f s buf)
              (recorded-stored f s buf h))

    outside-suc :
        (k : ℕ) → ((j : ℕ) → j < suc left → k ≢ (f + j) % 128) → entry r.out.1 k ≡ entry buf k
    outside-suc k p =
        r.outside k (λ j lt same. p (suc j) (omega arith) (omega arith))
        ∙ get_or-set_ne buf (f % 128) k _ (zero_entry en) (λ e. p 0 (omega arith) (omega arith))

    IsResim-suc : IsResim (suc left) f s buf (resim_from en (suc left) f s buf)
    IsResim-suc = record {
      out = r.out;
      returns = resim_from-suc left f s buf h ∙ r.returns;
      final =
          r.final
          ∙ replay_ext (recorded (stored f s buf)) (recorded buf) left (f + 1) (stepped f s buf)
              (recorded-stored f s buf h);
      size = r.size;
      kept = λ k. r.kept k ∙ inputs-stored f s buf k h;
      snapshots = snapshots-suc;
      outside = outside-suc;
    }

  pub resim_from-IsResim :
      (left f : ℕ) (s : State) (buf : List (FrameEntry State))
      → length buf ≡ 128
      → IsResim left f s buf (resim_from en left f s buf)
  resim_from-IsResim zero f s buf h = IsResim-zero f s buf h
  resim_from-IsResim (suc left) f s buf h = IsResim-suc left f s buf h (
      resim_from-IsResim left (f + 1) (stepped f s buf) (stored f s buf)
        (length-set buf (f % 128) _ ∙ h))

  -- what a rewind from the divergence `d` to the current frame `c` leaves behind
  pub record IsRewound (d c : ℕ) (r : Rollback State) (result : Option (State × Rollback State))
      : Type 0 where
    pub sim : State
    pub after : Rollback State
    pub returns : result ≡ some (sim, after)
    pub replayed : sim ≡ replay (recorded r.buf) (c - d) d (entry r.buf (d % 128)).snapshot
    pub settled : rollback_needs_resim en after ≡ false
    pub size : length after.buf ≡ 128
    pub kept : (k : ℕ) → inputs (entry after.buf k) ≡ inputs (entry r.buf k)
    pub snapshots :
        (j : ℕ)
        → j < c - d
        → c - d ≤ 128
        → (entry after.buf ((d + j) % 128)).snapshot
          ≡ replay (recorded r.buf) (suc j) d (entry r.buf (d % 128)).snapshot
    pub outside :
        (k : ℕ) → ((j : ℕ) → j < c - d → k ≢ (d + j) % 128) → entry after.buf k ≡ entry r.buf k

  pub rewind_lem :
      (d : ℕ) (current : ℤ) (sim : State) (r : Rollback State)
      → length r.buf ≡ 128
      → r.diverge_frame ≡ pos d
      → IsRewound d (pos_part current) r (rollback_rewind_and_resim en current sim r)
  unfolding rollback_rewind_and_resim rewind rollback_needs_resim
  rewind_lem d current sim r h e =
      let v =
        resim_from-IsResim (pos_part current - d) d (entry r.buf (d % 128)).snapshot r.buf h in
      record {
        sim = v.out.0;
        after = record { buf = v.out.1; diverge_frame = negsuc 0 };
        returns = ground (arith, entry_at_pos en d r h, sub_pos current d, v.returns);
        replayed = v.final;
        settled = refl;
        size = v.size;
        kept = v.kept;
        snapshots = v.snapshots;
        outside = v.outside;
      }

  -- With a divergence at frame `d`, `rollback_rewind_and_resim` returns, and leaves the simulation
  -- that the recorded inputs of the frames from `d` up to the current one make of the snapshot of
  -- `d`, with the divergence cleared and the recorded inputs and confirmations of every slot as
  -- they were.
  pub rewind-replays :
      (d : ℕ) (current : ℤ) (sim : State) (r : Rollback State)
      → length r.buf ≡ 128
      → r.diverge_frame ≡ pos d
      → (sim' : State) × (r' : Rollback State) × (rollback_rewind_and_resim en current sim r
          ≡ some (sim', r'))
        × (sim' ≡ replay (recorded r.buf) (pos_part current - d) d (entry r.buf (d % 128)).snapshot)
        × (rollback_needs_resim en r' ≡ false)
        × ((k : ℕ) → inputs (entry r'.buf k) ≡ inputs (entry r.buf k))
  rewind-replays d current sim r h e =
      let w = rewind_lem d current sim r h e in
      (w.sim, w.after, w.returns, w.replayed, w.settled, w.kept)

  -- The rewind over at most 128 frames stores, in the slot of each frame from `d` up to the current
  -- one, the state behind that frame.
  rewind-stores :
      (d j : ℕ) (current : ℤ) (sim : State) (r : Rollback State)
      → length r.buf ≡ 128
      → r.diverge_frame ≡ pos d
      → j < pos_part current - d
      → pos_part current - d ≤ 128
      → (sim' : State) × (r' : Rollback State) × (rollback_rewind_and_resim en current sim r
          ≡ some (sim', r'))
        × ((entry r'.buf ((d + j) % 128)).snapshot
            ≡ replay (recorded r.buf) (suc j) d (entry r.buf (d % 128)).snapshot)
  rewind-stores d j current sim r h e lt few =
      let w = rewind_lem d current sim r h e in (w.sim, w.after, w.returns, w.snapshots j lt few)
