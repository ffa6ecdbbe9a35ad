-- ===== src/Network/Frame/Mask.antt =====
-- Unmasking in place undoes the masking of the sender.
use mathlib.Core.List.{append_assoc}
use fury_clash.Prelude.{
  ℕ, suc, ◌+◌, ◌-◌, ◌%◌, ◌≤◌, ◌<◌, ◌≡◌, refl, ◌∙◌, ap, List, [], ◌∷◌, ◌++◌, length, get_elem?,
  get_or, length-append, get_elem?-append_left, get_elem?-middle, set-middle, some, arith, bit_xor,
}
use fury_clash.Prelude.Bits.{bit_xor_twice}
use fury_clash.Network.Frame.{mask_from, unmask}

pub length-mask_from :
    (key : List ℕ) (j : ℕ) (xs : List ℕ) → length (mask_from key j xs) ≡ length xs
unfolding mask_from
length-mask_from key j [] = refl
length-mask_from key j (x ∷ xs) = ap suc (length-mask_from key (j + 1) xs)

-- `front` ends at the payload's index `j`; the four key bytes stand before the index `hdr` in it.
pub unmask-mask_from :
    (key front xs rest : List ℕ) (j hdr : ℕ)
    → length front ≡ hdr + j
    → ((i : ℕ) → i < 4 → get_elem? front (hdr - 4 + i) ≡ some (get_or key i 0))
    → 4 ≤ hdr
    → unmask (length xs) j hdr (front ++ (mask_from key j xs ++ rest))
      ≡ some (front ++ (xs ++ rest))
unfolding mask_from unmask
unmask-mask_from key front [] rest j hdr e k h = refl
unmask-mask_from key front (x ∷ xs) rest j hdr e k h =
    let m = get_or key (j % 4) 0 in
    let tail = mask_from key (j + 1) xs ++ rest in
    let key_at : get_elem? (front ++ (bit_xor x m ∷ tail)) (hdr - 4 + j % 4) ≡ some m =
      get_elem?-append_left front _ (hdr - 4 + j % 4) (omega arith) ∙ k (j % 4) (omega arith) in
    let grown : length (front ++ (x ∷ [])) ≡ hdr + (j + 1) =
      omega (arith, length-append front (x ∷ [])) in
    rw
      (
        get_elem?-middle front (bit_xor x m) tail (hdr + j) e,
        key_at,
        bit_xor_twice x m,
        set-middle front (bit_xor x m) x tail (hdr + j) e,
        ← append_assoc front (x ∷ []) tail,
      )
      (unmask-mask_from key (front ++ (x ∷ [])) xs rest (j + 1) hdr grown
          (λ i lt. get_elem?-append_left front (x ∷ []) (hdr - 4 + i) (omega arith) ∙ k i lt) h
        ∙ ap some (append_assoc front (x ∷ []) (xs ++ rest)))
