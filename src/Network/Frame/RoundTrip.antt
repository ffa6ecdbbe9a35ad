-- ===== src/Network/Frame/RoundTrip.antt =====
-- `ws_parse_frame` reads back what `ws_encode_frame` writes.
use mathlib.Core.List.{append_assoc}
use fury_clash.Prelude.{
  ℕ, zero, suc, ◌+◌, ◌-◌, ◌*◌, ◌/◌, ◌%◌, ◌^◌, ◌≤◌, ◌<◌, ◌≡◌, refl, ◌∙◌, ap, sym, inl, inr, List, [],
  ◌∷◌, ◌++◌, length, get_elem?, get_or, length-append, get_elem?-append_right, take, drop,
  take-append, drop-append, some, arith, bit_or, pos, true, leb, Bool-cases,
}
use fury_clash.Prelude.Bits.{bit_or_fields}
use fury_clash.Network.Frame.{
  mask_key, frame_header, mask_from, ws_encode_frame, WsFrame, parsed, length_field, parse_body,
  ws_parse_frame,
}
use fury_clash.Network.Frame.Mask.{length-mask_from, unmask-mask_from}

length-mask_key : (ticks : ℕ) → length (mask_key ticks) ≡ 4
unfolding mask_key
length-mask_key ticks = refl

mask_key_at :
    (ticks i : ℕ) → i < 4 → get_elem? (mask_key ticks) i ≡ some (get_or (mask_key ticks) i 0)
unfolding mask_key
mask_key_at ticks zero h = refl
mask_key_at ticks (suc zero) h = refl
mask_key_at ticks (suc (suc zero)) h = refl
mask_key_at ticks (suc (suc (suc zero))) h = refl
mask_key_at ticks (suc (suc (suc (suc i)))) h = absurd (omega arith)

or_128 : (n : ℕ) → n < 128 → bit_or 0x80 n ≡ 128 + n
or_128 n h = bit_or_fields 7 1 n h

-- Up to 65535 bytes the header has two or four bytes, and tells the length.
header_small : (n : ℕ) → n ≤ 125 → frame_header n ≡ 0x82 ∷ (128 + n) ∷ []
unfolding frame_header
header_small n h = ground (arith, or_128 n)

header_large :
    (n : ℕ)
    → 125 < n
    → n ≤ 65535
    → frame_header n ≡ 0x82 ∷ 254 ∷ (n / 2 ^ 8 % 2 ^ 8) ∷ (n % 256) ∷ []
unfolding frame_header
header_large n h k = ground arith

-- the parse of a masked frame with a header of which the length field is understood
module _ (ticks : ℕ) (payload rest : List ℕ) (head : ℕ) where
  abbrev buffer : List ℕ → List ℕ
  buffer hd = (hd ++ mask_key ticks) ++ (mask_from (mask_key ticks) 0 payload ++ rest)

  abbrev clear : List ℕ → List ℕ
  clear hd = (hd ++ mask_key ticks) ++ (payload ++ rest)

  abbrev result : List ℕ → WsFrame
  result hd = record {
    opcode = 2;
    payload = length hd + 4;
    plen = length payload;
    consumed = pos (length hd + 4 + length payload);
    rbuf = clear hd;
  }

  key_in :
      (hd : List ℕ) (i : ℕ)
      → i < 4
      → get_elem? (hd ++ mask_key ticks) (length hd + 4 - 4 + i)
        ≡ some (get_or (mask_key ticks) i 0)
  key_in hd i h =
      get_elem?-append_right hd (mask_key ticks) (length hd + 4 - 4 + i) i (omega arith)
      ∙ mask_key_at ticks i h

  parse_body_masked :
      (hd : List ℕ)
      → length hd ≤ 4
      → length payload ≤ 65528
      → length hd + 4 + length payload ≤ head
      → parse_body (buffer hd) head 2 true (length hd + 4) (length payload)
        ≡ some (parsed (result hd))
  unfolding parse_body
  parse_body_masked hd a b c =
      let e =
        unmask-mask_from (mask_key ticks) (hd ++ mask_key ticks) payload rest 0 (length hd + 4)
          (omega (arith, length-append hd (mask_key ticks), length-mask_key ticks)) (key_in hd)
          (omega arith) in
      ground (arith, e)

  -- the frame in the buffer as the receiver finds it
  encode-buffer : ws_encode_frame ticks payload ++ rest ≡ buffer (frame_header (length payload))
  unfolding ws_encode_frame
  encode-buffer =
      append_assoc (frame_header (length payload))
        (mask_key ticks ++ mask_from (mask_key ticks) 0 payload) rest
      ∙ ap (λ t. frame_header (length payload) ++ t)
          (append_assoc (mask_key ticks) (mask_from (mask_key ticks) 0 payload) rest)
      ∙ sym (
          append_assoc (frame_header (length payload)) (mask_key ticks)
            (mask_from (mask_key ticks) 0 payload ++ rest))

  parse_small :
      length payload ≤ 125
      → 6 + length payload ≤ head
      → ws_parse_frame (buffer (0x82 ∷ (128 + length payload) ∷ [])) head
        ≡ some (parsed (result (0x82 ∷ (128 + length payload) ∷ [])))
  unfolding ws_parse_frame length_field
  parse_small a b = ground (arith, parse_body_masked (0x82 ∷ (128 + length payload) ∷ []))

  parse_large :
      125 < length payload
      → length payload ≤ 65528
      → 8 + length payload ≤ head
      → ws_parse_frame
          (buffer (0x82 ∷ 254 ∷ (length payload / 2 ^ 8 % 2 ^ 8) ∷ (length payload % 256) ∷ []))
          head
        ≡ some (
            parsed (
              result (0x82 ∷ 254 ∷ (length payload / 2 ^ 8 % 2 ^ 8) ∷ (length payload % 256) ∷ [])))
  unfolding ws_parse_frame length_field
  parse_large a b c =
      let whole : bit_or (length payload / 2 ^ 8 % 2 ^ 8 * 2 ^ 8) (length payload % 256)
          ≡ length payload =
        omega (
          arith,
          bit_or_fields 8 (length payload / 2 ^ 8 % 2 ^ 8) (length payload % 256) (omega arith),
        ) in
      ground (
        arith,
        whole,
        parse_body_masked
            (0x82 ∷ 254 ∷ (length payload / 2 ^ 8 % 2 ^ 8) ∷ (length payload % 256) ∷ []),
      )

  length-front : (hd : List ℕ) → length (hd ++ mask_key ticks) ≡ length hd + 4
  length-front hd =
      length-append hd (mask_key ticks) ∙ ap (λ n. length hd + n) (length-mask_key ticks)

  payload_of_result :
      (hd : List ℕ) → take (length payload) (drop (length hd + 4) (clear hd)) ≡ payload
  payload_of_result hd =
      rw (← length-front hd, drop-append (hd ++ mask_key ticks) (payload ++ rest))
        (take-append payload rest)

  rest_of_result : (hd : List ℕ) → drop (length hd + 4 + length payload) (clear hd) ≡ rest
  rest_of_result hd =
      let e : length ((hd ++ mask_key ticks) ++ payload) ≡ length hd + 4 + length payload =
        omega (arith, length-append (hd ++ mask_key ticks) payload, length-front hd) in
      rw (← e, ← append_assoc (hd ++ mask_key ticks) payload rest)
        (drop-append ((hd ++ mask_key ticks) ++ payload) rest)

  length-encode :
      length (ws_encode_frame ticks payload)
      ≡ length (frame_header (length payload)) + 4 + length payload
  unfolding ws_encode_frame
  length-encode = omega (
    arith,
    length-append (frame_header (length payload))
        (mask_key ticks ++ mask_from (mask_key ticks) 0 payload),
    length-append (mask_key ticks) (mask_from (mask_key ticks) 0 payload),
    length-mask_key ticks,
    length-mask_from (mask_key ticks) 0 payload,
  )

  parse_buffer :
      length payload ≤ 65528
      → length (ws_encode_frame ticks payload) ≤ head
      → ws_parse_frame (buffer (frame_header (length payload))) head
        ≡ some (parsed (result (frame_header (length payload))))
  parse_buffer a b = elim (Bool-cases (leb (length payload) 125)) [
    | inl small ↦
        let e = header_small (length payload) (ground arith) in
        rw e (parse_small (ground arith) (ground (arith, length-encode, ap (length {A = ℕ}) e)))
    | inr large ↦
        let e = header_large (length payload) (ground arith) (omega arith) in
        rw e (parse_large (ground arith) a (ground (arith, length-encode, ap (length {A = ℕ}) e)))
  ]

-- Decoding undoes encoding: a client frame at the head of the buffer, whatever follows it, parses
-- as one binary frame whose unmasked payload is what was sent; it is consumed whole, and what
-- follows it is left as it was. The payload is at most what fits the buffer of 65536 bytes.
pub ws_parse-encode :
    (ticks : ℕ) (payload rest : List ℕ) (head : ℕ)
    → length payload ≤ 65528
    → length (ws_encode_frame ticks payload) ≤ head
    → (f : WsFrame) × (ws_parse_frame (ws_encode_frame ticks payload ++ rest) head
        ≡ some (parsed f))
      × (f.opcode ≡ 2)
      × (take f.plen (drop f.payload f.rbuf) ≡ payload)
      × (f.consumed ≡ pos (length (ws_encode_frame ticks payload)))
      × (drop (length (ws_encode_frame ticks payload)) f.rbuf ≡ rest)
ws_parse-encode ticks payload rest head a b =
    let hd = frame_header (length payload) in
    (
      result ticks payload rest head hd,
      rw (encode-buffer ticks payload rest head) (parse_buffer ticks payload rest head a b),
      refl,
      payload_of_result ticks payload rest head hd,
      ap pos (sym (length-encode ticks payload rest head)),
      rw (length-encode ticks payload rest head) (rest_of_result ticks payload rest head hd),
    )
