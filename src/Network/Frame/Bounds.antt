-- ===== src/Network/Frame/Bounds.antt =====
-- What `ws_parse_frame` says of the bytes that it has: within them for a length that `size_t`
-- holds, and far beyond them for one that wraps round.
use fury_clash.Prelude.{
  ℕ, ◌+◌, ◌-◌, ◌%◌, ◌^◌, ◌≤◌, ◌<◌, ◌≡◌, refl, inl, inr, Option-cases, Bool-cases, ◌/◌, ◌==◌, List,
  ◌∷◌, get_elem?, some, arith, pos, Bool, ltb, if◌then◌else◌,
}
use fury_clash.Network.Frame.{
  size_mod, WsFrame, parsed, LengthField, short, field, be_length, length_field, parse_body,
  with_length, unmask, ws_parse_frame,
}

-- the frame lies in the first `head` bytes, and is what is consumed
abbrev pub Fits : ℕ → WsFrame → Type 0
Fits head f =
    f.payload + f.plen < size_mod
    → (f.consumed ≡ pos (f.payload + f.plen)) × (f.payload + f.plen ≤ head)

parse_body-Fits :
    (b : List ℕ) (head opcode : ℕ) (masked : Bool) (hdr len : ℕ) {f : WsFrame}
    → parse_body b head opcode masked hdr len ≡ some (parsed f)
    → Fits head f
unfolding parse_body
parse_body-Fits b head opcode masked hdr len e = elim (Option-cases (unmask len 0 hdr b)) [
  | inl u ↦ λ h. ground (arith, u)
  | inr (b', u) ↦ λ h. ground (arith, u)
]

with_length-Fits :
    (b : List ℕ) (head opcode : ℕ) (masked : Bool) (l : LengthField) {f : WsFrame}
    → with_length b head opcode masked l ≡ some (parsed f)
    → Fits head f
with_length-Fits b head opcode masked short e = absurd (ground arith)
with_length-Fits b head opcode masked (field len hdr) e =
    parse_body-Fits b head opcode masked (if masked then hdr + 4 else hdr) len e

-- Where the header's length and the payload's, added up, fit `size_t`, a parsed frame lies within
-- the bytes received, and exactly its bytes are consumed.
pub ws_parse-Fits :
    (b : List ℕ) (head : ℕ) {f : WsFrame}
    → ws_parse_frame b head ≡ some (parsed f)
    → f.payload + f.plen < size_mod
    → (f.consumed ≡ pos (f.payload + f.plen)) × (f.payload + f.plen ≤ head)
unfolding ws_parse_frame
ws_parse-Fits b head e = elim (Bool-cases (ltb head 2)) [
  | inl few ↦ absurd (ground arith)
  | inr enough ↦ elim (Option-cases (get_elem? b 0)) [
    | inl n ↦ let q = rw (enough, n) at e in absurd (cc)
    | inr (b0, e0) ↦ elim (Option-cases (get_elem? b 1)) [
      | inl n ↦ let q = rw (enough, e0, n) at e in absurd (cc)
      | inr (b1, e1) ↦ elim (Option-cases (length_field b head (b1 % 128))) [
        | inl n ↦ let q = rw (enough, e0, e1, n) at e in absurd (cc)
        | inr (l, el) ↦
            with_length-Fits b head (b0 % 16) ((b1 / 2 ^ 7 % 2) == 1) l
              (rw (enough, e0, e1, el) at e)
      ]
    ]
  ]
]

-- A length field of `2 ^ 64 - 10 + t` bytes is taken for a complete frame of `t` bytes: the sum with
-- the header's ten bytes wraps round, and the payload that the caller gets is longer than any
-- memory.
pub ws_parse_wraps :
    (b0 t head : ℕ) (b : List ℕ)
    → 10 ≤ head
    → 0 < t
    → t ≤ head
    → head ≤ 65536
    → be_length (b0 ∷ 127 ∷ b) 8 2 0 ≡ some (size_mod - 10 + t)
    → (f : WsFrame) × (ws_parse_frame (b0 ∷ 127 ∷ b) head ≡ some (parsed f))
      × (f.consumed ≡ pos t)
      × (f.plen ≡ size_mod - 10 + t)
unfolding ws_parse_frame length_field parse_body
ws_parse_wraps b0 t head b h p q m e = (
  record {
    opcode = b0 % 16;
    payload = 10;
    plen = size_mod - 10 + t;
    consumed = pos t;
    rbuf = b0 ∷ 127 ∷ b;
  },
  ground (arith, e),
  refl,
  refl,
)
