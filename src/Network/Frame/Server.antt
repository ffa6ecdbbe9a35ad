-- ===== src/Network/Frame/Server.antt =====
-- The unmasked binary frames of RFC 6455, as a server sends them, under `ws_parse_frame`.
use fury_clash.Prelude.{
  ℕ, suc, ◌+◌, ◌*◌, ◌/◌, ◌%◌, ◌^◌, ◌≤◌, ◌<◌, ◌≡◌, refl, ap, inl, inr, Bool-cases, leb, pos, List,
  [], ◌∷◌, ◌++◌, length, length-append, some, bit_or, if◌then◌else◌, arith,
}
use fury_clash.Prelude.Bits.{bit_or_fields}
use fury_clash.Network.Frame.{WsFrame, incomplete, parsed, length_field, parse_body, ws_parse_frame}

-- the opcode of binary data, and the length in one byte or in two behind 126
abbrev pub server_header : ℕ → List ℕ
server_header n = if leb n 125 then 0x82 ∷ n ∷ [] else 0x82 ∷ 126 ∷ n / 2 ^ 8 ∷ n % 2 ^ 8 ∷ []

abbrev pub server_frame : List ℕ → List ℕ
server_frame p = server_header (length p) ++ p

abbrev pub frame_at : List ℕ → List ℕ → WsFrame
frame_at p b = record {
  opcode = 2;
  payload = length (server_header (length p));
  plen = length p;
  consumed = pos (length (server_frame p));
  rbuf = b;
}

big_endian : (n : ℕ) → n ≤ 65535 → bit_or (n / 2 ^ 8 * 2 ^ 8) (n % 2 ^ 8) ≡ n
big_endian n h = omega (arith, bit_or_fields 8 (n / 2 ^ 8) (n % 2 ^ 8) (omega arith))

complete_small :
    (p rest : List ℕ) (head : ℕ)
    → length p ≤ 125
    → suc (suc (length p)) ≤ head
    → let b = 0x82 ∷ length p ∷ (p ++ rest) in
      ws_parse_frame b head
      ≡ some (
          parsed (record {
            opcode = 2;
            payload = 2;
            plen = length p;
            consumed = pos (suc (suc (length p)));
            rbuf = b;
          }))
unfolding ws_parse_frame length_field parse_body
complete_small p rest head h room = ground arith

complete_large :
    (p rest : List ℕ) (head : ℕ)
    → 125 < length p
    → length p ≤ 60000
    → suc (suc (suc (suc (length p)))) ≤ head
    → let b = 0x82 ∷ 126 ∷ length p / 2 ^ 8 ∷ length p % 2 ^ 8 ∷ (p ++ rest) in
      ws_parse_frame b head
      ≡ some (
          parsed (record {
            opcode = 2;
            payload = 4;
            plen = length p;
            consumed = pos (suc (suc (suc (suc (length p)))));
            rbuf = b;
          }))
unfolding ws_parse_frame length_field parse_body
complete_large p rest head h few room = ground (arith, big_endian (length p) (omega arith))

-- A frame of which bytes are missing is waited for, whatever stands behind the head.
waits_small :
    (p x y stale : List ℕ)
    → length p ≤ 125
    → 0x82 ∷ length p ∷ p ≡ x ++ y
    → 0 < length y
    → ws_parse_frame (x ++ stale) (length x) ≡ some incomplete
unfolding ws_parse_frame length_field parse_body
waits_small p [] y stale h e more = refl
waits_small p (a ∷ []) y stale h e more = refl
waits_small p (a ∷ b ∷ x) y stale h e more =
    let b_is : length p ≡ b = cc e in
    let size : length p ≡ length x + length y = omega (arith, ap length e, length-append x y) in
    ground (arith, b_is, size)

waits_large :
    (p x y stale : List ℕ)
    → 125 < length p
    → length p ≤ 60000
    → 0x82 ∷ 126 ∷ length p / 2 ^ 8 ∷ length p % 2 ^ 8 ∷ p ≡ x ++ y
    → 0 < length y
    → ws_parse_frame (x ++ stale) (length x) ≡ some incomplete
unfolding ws_parse_frame length_field parse_body
waits_large p [] y stale h few e more = refl
waits_large p (a ∷ []) y stale h few e more = refl
waits_large p (a ∷ b ∷ []) y stale h few e more = let b_is : b ≡ 126 = cc e in rw b_is refl
waits_large p (a ∷ b ∷ c ∷ []) y stale h few e more = let b_is : b ≡ 126 = cc e in rw b_is refl
waits_large p (a ∷ b ∷ c ∷ d ∷ x) y stale h few e more =
    let b_is : b ≡ 126 = cc e in
    let c_is : c ≡ length p / 2 ^ 8 = cc e in
    let d_is : d ≡ length p % 2 ^ 8 = cc e in
    let size : length p ≡ length x + length y = omega (arith, ap length e, length-append x y) in
    rw (b_is, c_is, d_is) (ground (arith, big_endian (length p) (omega arith), size))

pub ws_parse-server_frame :
    (p rest : List ℕ) (head : ℕ)
    → length p ≤ 60000
    → length (server_frame p) ≤ head
    → ws_parse_frame (server_frame p ++ rest) head
      ≡ some (parsed (frame_at p (server_frame p ++ rest)))
ws_parse-server_frame p rest head h room = elim (Bool-cases (leb (length p) 125)) [
  | inl small ↦ rw small (complete_small p rest head (ground arith) (let q = rw small at room in q))
  | inr large ↦
      rw large (complete_large p rest head (ground arith) h (let q = rw large at room in q))
]

pub ws_parse-waits :
    (p x y stale : List ℕ)
    → length p ≤ 60000
    → server_frame p ≡ x ++ y
    → 0 < length y
    → ws_parse_frame (x ++ stale) (length x) ≡ some incomplete
ws_parse-waits p x y stale h e more = elim (Bool-cases (leb (length p) 125)) [
  | inl small ↦ waits_small p x y stale (ground arith) (let q = rw small at e in q) more
  | inr large ↦ waits_large p x y stale (ground arith) h (let q = rw large at e in q) more
]
