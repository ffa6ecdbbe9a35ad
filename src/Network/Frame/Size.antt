-- ===== src/Network/Frame/Size.antt =====
-- Unmasking in place leaves the receive buffer as long as it was.
use fury_clash.Prelude.{
  ℕ, zero, suc, ◌+◌, ◌-◌, ◌/◌, ◌%◌, ◌^◌, ◌≡◌, refl, ◌∙◌, bit_xor, pos, ltb, ltb_ℤ, ◌==◌, Bool, List,
  length, set, length-set, get_elem?, Option, none, some, Option-cases, inl, inr, if_ind,
  if◌then◌else◌,
}
use mathlib.Core.Path.{subst}
use fury_clash.Network.Frame.{
  ws_recv_buf, size_mod, to_int, WsFrame, Parsed, incomplete, protocol_error, parsed, LengthField,
  short, field, length_field, unmask, parse_body, with_length, ws_parse_frame,
}

abbrev HasLength : ℕ → Option (List ℕ) → Type 0
HasLength n none = Unit
HasLength n (some b) = length b ≡ n

unmask-HasLength :
    (left j hdr : ℕ) (b : List ℕ) (n : ℕ) → length b ≡ n → HasLength n (unmask left j hdr b)
unfolding unmask
unmask-HasLength zero j hdr b n h = h
unmask-HasLength (suc left) j hdr b n h = elim (Option-cases (get_elem? b (hdr + j))) [
  | inl e ↦ rw e tt
  | inr (x, e) ↦ elim (Option-cases (get_elem? b (hdr - 4 + j % 4))) [
    | inl k ↦ rw (e, k) tt
    | inr (m, k) ↦
        rw (e, k)
          (unmask-HasLength left (j + 1) hdr (set b (hdr + j) (bit_xor x m)) n
            (length-set b (hdr + j) (bit_xor x m) ∙ h))
  ]
]

-- the buffer of a parsed frame
abbrev Sized : ℕ → Option Parsed → Type 0
Sized n none = Unit
Sized n (some incomplete) = Unit
Sized n (some protocol_error) = Unit
Sized n (some (parsed f)) = length f.rbuf ≡ n

parse_body-Sized :
    (b : List ℕ) (head opcode : ℕ) (masked : Bool) (hdr len : ℕ)
    → Sized (length b) (parse_body b head opcode masked hdr len)
unfolding parse_body
parse_body-Sized b head opcode masked hdr len =
    let total = (hdr + len) % size_mod in
    let P = Sized (length b) in
    if_ind P (ltb_ℤ (pos head) (to_int total)) (λ _. tt)
      (λ _.
        if_ind P (ltb ws_recv_buf total) (λ _. tt)
          (λ _.
            if_ind P masked
              (λ _. elim (Option-cases (unmask len 0 hdr b)) [
                | inl e ↦ rw e tt
                | inr (b', e) ↦
                    rw e (
                      subst (HasLength (length b)) e (unmask-HasLength len 0 hdr b (length b) refl))
              ])
              (λ _. refl)))

with_length-Sized :
    (b : List ℕ) (head opcode : ℕ) (masked : Bool) (l : LengthField)
    → Sized (length b) (with_length b head opcode masked l)
with_length-Sized b head opcode masked short = tt
with_length-Sized b head opcode masked (field len hdr) =
    parse_body-Sized b head opcode masked (if masked then hdr + 4 else hdr) len

ws_parse-Sized : (b : List ℕ) (head : ℕ) → Sized (length b) (ws_parse_frame b head)
unfolding ws_parse_frame
ws_parse-Sized b head =
    if_ind (Sized (length b)) (ltb head 2) (λ _. tt)
      (λ _. elim (Option-cases (get_elem? b 0)) [
        | inl n ↦ rw n tt
        | inr (b0, e0) ↦ elim (Option-cases (get_elem? b 1)) [
          | inl n ↦ rw (e0, n) tt
          | inr (b1, e1) ↦ elim (Option-cases (length_field b head (b1 % 128))) [
            | inl n ↦ rw (e0, e1, n) tt
            | inr (l, el) ↦
                rw (e0, e1, el) (with_length-Sized b head (b0 % 16) ((b1 / 2 ^ 7 % 2) == 1) l)
          ]
        ]
      ])

pub ws_parse-size :
    (b : List ℕ) (head : ℕ) {f : WsFrame}
    → ws_parse_frame b head ≡ some (parsed f)
    → length f.rbuf ≡ length b
ws_parse-size b head e = subst (Sized (length b)) e (ws_parse-Sized b head)
