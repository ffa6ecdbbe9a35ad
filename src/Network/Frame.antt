-- ===== src/Network/Frame.antt =====
-- The WebSocket frames of network/net_client.c: `ws_encode_frame` and `ws_parse_frame`. Bytes are
-- numbers below 256; `size_t` has 64 bits and `int` 32. `none` is an access outside the buffer.
pub mod Mask
pub mod RoundTrip
pub mod Bounds
pub mod Size
pub mod Server
pub mod Stream
use fury_clash.Prelude.{
  ℕ, zero, suc, ◌+◌, ◌-◌, ◌*◌, ◌/◌, ◌%◌, ◌^◌, bit_or, bit_xor, ℤ, pos, negsuc, ltb_ℤ, ltb, leb,
  ◌==◌, Bool, List, [], ◌∷◌, ◌++◌, length, get_elem?, get_or, set, Option, none, some, ◌>>=◌,
  if◌then◌else◌,
}

abbrev pub u8 : ℕ → ℕ
u8 n = n % 2 ^ 8

abbrev pub u32 : ℕ → ℕ
u32 n = n % 2 ^ 32

abbrev pub size_mod : ℕ
size_mod = 2 ^ 64

-- WS_RECV_BUF
abbrev pub ws_recv_buf : ℕ
ws_recv_buf = 65536

-- the cast `(int)` of a `size_t`
abbrev pub to_int : ℕ → ℤ
to_int n = let low = n % 2 ^ 32 in if ltb low (2 ^ 31) then pos low else negsuc (2 ^ 32 - low - 1)

-- `r ^= r << 13; r ^= r >> 17; r ^= r << 5;`
unfoldable pub xorshift32 : ℕ → ℕ
xorshift32 r =
    let r1 = bit_xor r (u32 (r * 2 ^ 13)) in
    let r2 = bit_xor r1 (r1 / 2 ^ 17) in bit_xor r2 (u32 (r2 * 2 ^ 5))

-- The masking key from the ticks of SDL, cast to `uint32_t`.
unfoldable pub mask_key : ℕ → List ℕ
mask_key ticks =
    let r = xorshift32 (u32 ticks) in
    u8 (r / 2 ^ 24) ∷ u8 (r / 2 ^ 16) ∷ u8 (r / 2 ^ 8) ∷ r % 256 ∷ []

unfoldable pub frame_header : ℕ → List ℕ
frame_header plen =
    if leb plen 125
    then 0x82 ∷ u8 (bit_or 0x80 plen) ∷ []
    else if leb plen 65535
    then 0x82 ∷ bit_or 0x80 126 ∷ u8 (plen / 2 ^ 8) ∷ plen % 256 ∷ []
    else (0x82
        ∷ bit_or 0x80 127
        ∷ 0
        ∷ 0
        ∷ 0
        ∷ 0
        ∷ u8 (plen / 2 ^ 24)
        ∷ u8 (plen / 2 ^ 16)
        ∷ u8 (plen / 2 ^ 8)
        ∷ plen % 256
        ∷ [])

-- `dst[i++] = src[j] ^ mask[j & 3]`, from the index `j` on
unfoldable pub mask_from : List ℕ → ℕ → List ℕ → List ℕ
mask_from key j [] = []
mask_from key j (x ∷ xs) = bit_xor x (get_or key (j % 4) 0) ∷ mask_from key (j + 1) xs

-- What is written into `dst`; its length is the result. The payload's length is `plen`.
unfoldable pub ws_encode_frame : ℕ → List ℕ → List ℕ
ws_encode_frame ticks payload =
    frame_header (length payload) ++ (mask_key ticks ++ mask_from (mask_key ticks) 0 payload)

pub record WsFrame : Type 0 where
  pub opcode : ℕ
  pub payload : ℕ  -- its offset in the buffer
  pub plen : ℕ
  pub consumed : ℤ
  pub rbuf : List ℕ  -- the buffer, unmasked in place

-- The results 0, -1 and > 0 of `ws_parse_frame`.
pub data Parsed : Type 0 where
  incomplete protocol_error : Parsed
  parsed : WsFrame → Parsed

-- the payload's length and the header's, unless bytes are missing
pub data LengthField : Type 0 where
  short : LengthField
  field : ℕ → ℕ → LengthField

-- `len = (len << 8) | b[k]` for the `left` bytes from `k` on
unfoldable pub be_length : List ℕ → ℕ → ℕ → ℕ → Option ℕ
be_length b zero k len = some len
be_length b (suc left) k len =
    get_elem? b k >>= λ x. be_length b left (k + 1) (bit_or (len * 2 ^ 8 % size_mod) x)

unfoldable pub length_field : List ℕ → ℕ → ℕ → Option LengthField
length_field b head len =
    let long16 =
      get_elem? b 2 >>= λ b2. get_elem? b 3 >>= λ b3. some (field (bit_or (b2 * 2 ^ 8) b3) 4) in
    let long64 = be_length b 8 2 0 >>= λ n. some (field n 10) in
    if len == 126
    then (if ltb head 4 then some short else long16)
    else if len == 127
    then (if ltb head 10 then some short else long64)
    else some (field len 2)

-- `b[hdr + j] ^= mk[j & 3]` for the `left` bytes from `j` on; the key stands before `hdr`
unfoldable pub unmask : ℕ → ℕ → ℕ → List ℕ → Option (List ℕ)
unmask zero j hdr b = some b
unmask (suc left) j hdr b = get_elem? b (hdr + j) >>= λ x.
    get_elem? b (hdr - 4 + j % 4) >>= λ m. unmask left (j + 1) hdr (set b (hdr + j) (bit_xor x m))

-- from the known header and payload lengths on
unfoldable pub parse_body : List ℕ → ℕ → ℕ → Bool → ℕ → ℕ → Option Parsed
parse_body b head opcode masked hdr len =
    let total = (hdr + len) % size_mod in
    let frame = λ (b' : List ℕ).
      parsed (record {
        opcode = opcode;
        payload = hdr;
        plen = len;
        consumed = to_int total;
        rbuf = b';
      }) in
    let unmasked = unmask len 0 hdr b >>= λ b'. some (frame b') in
    if ltb_ℤ (pos head) (to_int total)
    then some incomplete
    else if ltb ws_recv_buf total
    then some protocol_error
    else if masked
    then unmasked
    else some (frame b)

abbrev pub with_length : List ℕ → ℕ → ℕ → Bool → LengthField → Option Parsed
with_length b head opcode masked short = some incomplete
with_length b head opcode masked (field len hdr) =
    parse_body b head opcode masked (if masked then hdr + 4 else hdr) len

-- `b` is `g_ws.rbuf`, of which the first `head` bytes are filled.
unfoldable pub ws_parse_frame : List ℕ → ℕ → Option Parsed
ws_parse_frame b head =
    let go = get_elem? b 0 >>= λ b0. get_elem? b 1 >>= λ b1. length_field b head (b1 % 128) >>= λ l.
    with_length b head (b0 % 16) ((b1 / 2 ^ 7 % 2) == 1) l in
    if ltb head 2 then some incomplete else go
