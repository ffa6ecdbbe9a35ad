-- ===== src/Tests/Rollback.antt =====
-- Rewinds and confirmations on a ring whose engine logs the inputs.
use fury_clash.Prelude.{
  ℕ, ◌≡◌, refl, pos, negsuc, ◌≤ℤ◌, true, false, List, [], ◌∷◌, replicate, set, some, arith,
}
use fury_clash.Network.Rollback.{
  Rollback, rollback_init, rollback_save, rollback_confirm_remote, rollback_rewind_and_resim,
  rollback_needs_resim, confirm_all, zero_entry, mark_divergence, slot_of, entry_at,
}
use fury_clash.Network.Rollback.Entry.{entry}
use fury_clash.Network.Rollback.Resim.{inputs, rewind-replays}
use fury_clash.Network.Rollback.Confirm.{confirm_all_catches}
use fury_clash.Network.Rollback.Forget.{Reach, start, confirm, resim_is_neutral, confirm-save}
use fury_clash.Tests.Machines.{input_log}

-- the divergence is at frame 3, which pressed a remote 8 over a local 1
abbrev wrong_3 : Rollback (List (ℕ × ℕ))
wrong_3 = record {
  buf = set (replicate 128 (zero_entry input_log)) 3 (record {
    snapshot = (5, 5) ∷ [];
    local_input = 1;
    remote_input = 8;
    remote_confirmed = true;
  });
  diverge_frame = pos 3;
}

rewind-replays_example :
    (sim' : List (ℕ × ℕ)) × (r' : Rollback (List (ℕ × ℕ))) × (rollback_rewind_and_resim input_log
        (pos 5)
        []
        wrong_3
      ≡ some (sim', r'))
    × (sim' ≡ (0, 0) ∷ (1, 8) ∷ (5, 5) ∷ [])
    × (rollback_needs_resim input_log r' ≡ false)
    × ((k : ℕ)
        → inputs input_log (entry input_log r'.buf k)
          ≡ inputs input_log (entry input_log wrong_3.buf k))
rewind-replays_example = rewind-replays input_log 3 (pos 5) [] wrong_3 refl refl

abbrev fresh : Rollback (List (ℕ × ℕ))
fresh = record { buf = replicate 128 (zero_entry input_log); diverge_frame = negsuc 0 }

confirm_all_catches_example :
    (r' : Rollback (List (ℕ × ℕ))) × (confirm_all input_log
        ((pos 2, 0) ∷ (pos 4, 16) ∷ (pos 5, 1) ∷ [])
        fresh
      ≡ some r')
    × (pos 0 ≤ℤ r'.diverge_frame)
    × (r'.diverge_frame ≤ℤ pos 4)
confirm_all_catches_example =
    confirm_all_catches input_log ((2, 0) ∷ []) ((5, 1) ∷ []) 4 16 fresh refl
      ((λ e. omega (arith, e)), tt) (refl, λ e. omega (arith, e))

-- a remote input that contradicts the empty ring
abbrev diverged : Rollback (List (ℕ × ℕ))
diverged = record {
  buf =
      set (replicate 128 (zero_entry input_log)) 3
        (record { snapshot = []; local_input = 0; remote_input = 8; remote_confirmed = true });
  diverge_frame = pos 3;
}

diverged-Reach : Reach input_log diverged
unfolding rollback_init rollback_confirm_remote entry_at slot_of mark_divergence
diverged-Reach = confirm (pos 3) 8 start refl

resim_is_neutral_example :
    (sim' : List (ℕ × ℕ)) × (r' : Rollback (List (ℕ × ℕ))) × (rollback_rewind_and_resim input_log
        (pos 5)
        []
        diverged
      ≡ some (sim', r'))
    × (sim' ≡ (0, 0) ∷ (0, 8) ∷ [])
resim_is_neutral_example = resim_is_neutral input_log 3 (pos 5) [] diverged-Reach refl

confirm-save_example :
    (saved after : Rollback (List (ℕ × ℕ))) × (rollback_save input_log (pos 3) [] diverged
      ≡ some saved)
    × (rollback_confirm_remote input_log (pos 3) 0 saved ≡ some after)
    × (after.diverge_frame ≡ mark_divergence (pos 3) (pos 3))
confirm-save_example = confirm-save input_log 3 0 [] diverged refl
