-- ===== src/Network/Rollback/Entry.antt =====
-- The entries of `g_buf` at frames that are not negative.
use fury_clash.Prelude.{
  ℕ, ◌%◌, ◌≡◌, pos, List, ◌<◌, ℤ, negsuc, length, length-set, ◌∙◌, refl, [], ◌∷◌, none, inl, inr,
  Option, Option-cases, get_or, get_elem?-eq-get_or, some, arith,
}
use mathlib.Core.Path.{subst}
use fury_clash.Network.Rollback.{
  Engine, FrameEntry, Rollback, slot_of, zero_entry, entry_at, rollback_save,
  rollback_confirm_remote, confirm_all,
}

module _ (en : Engine) where
  -- the entry of a slot
  abbrev pub entry : List (FrameEntry en.State) → ℕ → FrameEntry en.State
  entry buf k = get_or buf k (zero_entry en)

  pub entry_at_pos :
      (n : ℕ) (r : Rollback en.State)
      → length r.buf ≡ 128
      → entry_at en (pos n) r ≡ some (n % 128, entry r.buf (n % 128))
  unfolding entry_at slot_of
  entry_at_pos n r h = rw (get_elem?-eq-get_or r.buf (n % 128) (zero_entry en) (omega arith))

  -- An access that is no fault reads one of the 128 entries.
  pub entry_at-some :
      (frame : ℤ) (r : Rollback en.State) {k : ℕ} {e : FrameEntry en.State}
      → length r.buf ≡ 128
      → entry_at en frame r ≡ some (k, e)
      → (k < 128) × (e ≡ entry r.buf k)
  unfolding entry_at slot_of
  entry_at-some (pos n) r h p = ground (arith, get_elem?-eq-get_or r.buf (n % 128) (zero_entry en))
  entry_at-some (negsuc n) r h p = ground (arith, get_elem?-eq-get_or r.buf 0 (zero_entry en))

  -- no operation resizes the ring
  abbrev HasSize : ℕ → Option (Rollback en.State) → Type 0
  HasSize n none = Unit
  HasSize n (some r) = length r.buf ≡ n

  save-HasSize :
      (frame : ℤ) (sim : en.State) (r : Rollback en.State)
      → HasSize (length r.buf) (rollback_save en frame sim r)
  unfolding rollback_save
  save-HasSize frame sim r = elim (Option-cases (entry_at en frame r)) [
    | inl e ↦ rw e tt
    | inr ((k, x), e) ↦ rw e (length-set r.buf k _)
  ]

  pub save-size :
      (frame : ℤ) (sim : en.State) (r : Rollback en.State) {r' : Rollback en.State}
      → rollback_save en frame sim r ≡ some r'
      → length r'.buf ≡ length r.buf
  save-size frame sim r e = subst (HasSize (length r.buf)) e (save-HasSize frame sim r)

  confirm-HasSize :
      (frame : ℤ) (input : ℕ) (r : Rollback en.State)
      → HasSize (length r.buf) (rollback_confirm_remote en frame input r)
  unfolding rollback_confirm_remote
  confirm-HasSize frame input r = elim (Option-cases (entry_at en frame r)) [
    | inl e ↦ rw e tt
    | inr ((k, x), e) ↦ rw e (length-set r.buf k _)
  ]

  confirm_all-HasSize :
      (es : List (ℤ × ℕ)) (r : Rollback en.State) (n : ℕ)
      → length r.buf ≡ n
      → HasSize n (confirm_all en es r)
  unfolding confirm_all
  confirm_all-HasSize [] r n h = h
  confirm_all-HasSize ((frame, input) ∷ es) r n h =
      elim (Option-cases (rollback_confirm_remote en frame input r)) [
        | inl e ↦ rw e tt
        | inr (r', e) ↦
            let same = subst (HasSize (length r.buf)) e (confirm-HasSize frame input r) in
            rw e (confirm_all-HasSize es r' n (same ∙ h))
      ]

  pub confirm_all-size :
      (es : List (ℤ × ℕ)) (r : Rollback en.State) {r' : Rollback en.State}
      → confirm_all en es r ≡ some r'
      → length r'.buf ≡ length r.buf
  confirm_all-size es r e =
      subst (HasSize (length r.buf)) e (confirm_all-HasSize es r (length r.buf) refl)
