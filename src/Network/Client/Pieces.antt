-- ===== src/Network/Client/Pieces.antt =====
-- TCP hands over a stream of bytes in pieces of any sizes. `net_client_receive` puts the frames
-- together again: here those of the input batches that the relay sends.
pub mod Call
pub mod Arrive
use mathlib.Core.Path.{subst}
use mathlib.Core.List.{append_assoc, append-nil}
use fury_clash.Prelude.{
  ℕ, zero, suc, ◌+◌, ◌-◌, ◌*◌, ◌≤◌, ◌<◌, ◌≡◌, refl, sym, ap, ◌∙◌, ltb, leb, List, [], ◌∷◌, ◌++◌,
  length, length-append, take, drop, take-append, drop-append, get_elem?, get_elem?-append_right,
  Bool, true, false, eqb_ℤ, ltb_ℤ, Bool-cases, inl, inr, Option, some, none, Option-cases, ◌>>=◌,
  All, arith, ℤ, pos, ◌==◌,
}
use fury_clash.Network.Os.{Os, received}
use fury_clash.Network.Frame.{parsed, incomplete, ws_parse_frame}
use fury_clash.Network.Frame.Server.{
  server_header, server_frame, frame_at, ws_parse-server_frame, ws_parse-waits,
}
use fury_clash.Network.Frame.Stream.{stream, Stuck, Split, split}
use fury_clash.Network.Rollback.{Engine, Rollback, confirm_all, rollback_confirm_remote}
use fury_clash.Network.Client.{Session, NetClient, state_code, hs_open}
use fury_clash.Network.Client.Dispatch.{
  dispatch_message, dispatch_type, on_input_batch, batch_entries,
}
use fury_clash.Network.Client.Wire.{
  relayed, relayed_all, IsEntry, batch_entries-relayed, length-relayed,
}
use fury_clash.Network.Client.Receive.{
  on_frame, with_rbuf, slide, slide_off, after_parse, frames_round, frames_loop, read_frames,
  read_upgrade, append_bytes, read_socket, net_client_receive,
}

-- A batch as the relay sends it: the two bytes of its number, and its entries.
pub record Batch : Type 0 where
  pub low : ℕ
  pub high : ℕ
  pub entries : List (ℤ × ℕ)

abbrev pub IsBatch : Batch → Type 0
IsBatch b = All IsEntry b.entries × (length b.entries ≤ 255)

abbrev batch_head : Batch → List ℕ
batch_head b = 0x12 ∷ b.low ∷ b.high ∷ length b.entries ∷ []

abbrev pub batch_payload : Batch → List ℕ
batch_payload b = batch_head b ++ relayed_all b.entries

abbrev pub batch_frame : Batch → List ℕ
batch_frame b = server_frame (batch_payload b)

abbrev pub all_entries : List Batch → List (ℤ × ℕ)
all_entries [] = []
all_entries (b ∷ bs) = b.entries ++ all_entries bs

length-relayed_all : (es : List (ℤ × ℕ)) → length (relayed_all es) ≡ length es * 6
length-relayed_all [] = refl
length-relayed_all (e ∷ es) =
    omega
      (arith, length-append (relayed e) (relayed_all es), length-relayed e, length-relayed_all es)

-- at most 1534 bytes
payload_size : (b : Batch) → length (batch_payload b) ≡ length b.entries * 6 + 4
payload_size b = omega (arith, length-relayed_all b.entries)

module _ (os : Os) (en : Engine) where
  open os use {World, recv}

  abbrev S : Type 0
  S = Session os en

  pub confirm_all-append :
      (es fs : List (ℤ × ℕ)) (r : Rollback en.State)
      → confirm_all en (es ++ fs) r ≡ (confirm_all en es r >>= λ r'. confirm_all en fs r')
  unfolding confirm_all
  confirm_all-append [] fs r = refl
  confirm_all-append ((frame, input) ∷ es) fs r =
      elim (Option-cases (rollback_confirm_remote en frame input r)) [
        | inl e ↦ rw e refl
        | inr (r', e) ↦ rw e (confirm_all-append es fs r')
      ]

  abbrev pub with_ring : Rollback en.State → S → S
  with_ring r s = record s { ring = r }

  -- the frame of a batch confirms its entries
  on_batch :
      (b : Batch) (rest : List ℕ) (s : S) (r : Rollback en.State)
      → IsBatch b
      → (s.client).rbuf ≡ batch_frame b ++ rest
      → confirm_all en b.entries s.ring ≡ some r
      → on_frame os en (frame_at (batch_payload b) (batch_frame b ++ rest)) s ≡ some (with_ring r s)
  unfolding on_frame dispatch_message dispatch_type on_input_batch
  on_batch b rest s r (entries, few) e confirmed =
      let hd = server_header (length (batch_payload b)) in
      let front = hd ++ batch_head b in
      let es = b.entries in
      let size : length front ≡ length hd + 4 = omega (arith, length-append hd (batch_head b)) in
      let flat : (s.client).rbuf ≡ hd ++ (batch_payload b ++ rest) =
        e ∙ append_assoc hd (batch_payload b) rest in
      let buffer : (s.client).rbuf ≡ front ++ (relayed_all es ++ rest) =
        flat ∙ sym (append_assoc hd (batch_head b) (relayed_all es ++ rest)) in
      let type : get_elem? (s.client).rbuf (length hd) ≡ some 0x12 =
        ap (λ l. get_elem? l (length hd)) flat
        ∙ get_elem?-append_right hd (batch_payload b ++ rest) (length hd) 0 (omega arith) in
      let count : get_elem? (s.client).rbuf (length hd + 3) ≡ some (length es) =
        ap (λ l. get_elem? l (length hd + 3)) flat
        ∙ get_elem?-append_right hd (batch_payload b ++ rest) (length hd + 3) 3 (omega arith) in
      let read : batch_entries (s.client).rbuf (length es) (length hd + 4) ≡ some es =
        ap (λ l. batch_entries l (length es) (length hd + 4)) buffer
        ∙ ap (λ n. batch_entries (front ++ (relayed_all es ++ rest)) (length es) n) (sym size)
        ∙ batch_entries-relayed es front rest entries in
      rw (type, count, read, confirmed) (ground (arith, payload_size b))

  -- the session with a buffer of which the first bytes are filled
  abbrev pub at_buf : List ℕ → ℕ → S → S
  at_buf b n s = record s { client = record (s.client) { rbuf = b; rbuf_head = n } }

  -- what lies behind the bytes that are left
  abbrev behind : List ℕ → List ℕ → List ℕ → List ℕ
  behind f p q = drop (length p) (f ++ (p ++ q))

  slid :
      (f p q : List ℕ) (s : S)
      → slide_off os en (length f) (at_buf (f ++ (p ++ q)) (length f + length p) s)
        ≡ at_buf (p ++ behind f p q) (length p) s
  unfolding slide_off slide
  slid f p q s =
      let left : length f + length p - length f ≡ length p = omega arith in
      rw (left, drop-append f (p ++ q), take-append p q) refl

  round :
      (b : Batch) (p q : List ℕ) (fuel : ℕ) (s : S) (r : Rollback en.State)
      → IsBatch b
      → (state_code (s.client).state == 6) ≡ false
      → confirm_all en b.entries s.ring ≡ some r
      → let f = batch_frame b in
        frames_loop os en (suc fuel) (at_buf (f ++ (p ++ q)) (length f + length p) s)
        ≡ frames_loop os en fuel (at_buf (p ++ behind f p q) (length p) (with_ring r s))
  unfolding frames_loop frames_round after_parse with_rbuf
  round b p q fuel s r ok calm confirmed =
      let f = batch_frame b in
      let pay = batch_payload b in
      let n = length f + length p in
      let some_bytes : 0 < length f =
        omega (arith, payload_size b, length-append (server_header (length pay)) pay) in
      let filled : (n == 0) ≡ false = ground arith in
      let parse =
        ws_parse-server_frame pay (p ++ q) n (omega (arith, payload_size b, ok.1)) (omega arith) in
      let handled = on_batch b (p ++ q) (at_buf (f ++ (p ++ q)) n s) r ok refl confirmed in
      let some_eaten : eqb_ℤ (pos (length f)) (pos 0) ≡ false = ground arith in
      let none_owed : ltb_ℤ (pos (length f)) (pos 0) ≡ false = ground arith in
      rw (filled, parse, some_eaten, none_owed, handled, slid f p q (with_ring r s), calm) refl

  -- The loop stops where the next frame is not complete.
  waits :
      (more : List Batch) (part stale : List ℕ) (fuel : ℕ) (s : S)
      → All IsBatch more
      → Stuck batch_frame part more
      → 0 < fuel
      → frames_loop os en fuel (at_buf (part ++ stale) (length part) s)
        ≡ some (at_buf (part ++ stale) (length part) s)
  unfolding frames_loop frames_round after_parse
  waits more part stale zero s ok h some_fuel = absurd (omega (arith, some_fuel))
  waits more [] stale (suc fuel) s ok h some_fuel = refl
  waits [] (x ∷ part) stale (suc fuel) s ok h some_fuel = absurd (omega (arith, ap length h))
  waits (b ∷ bs) (x ∷ part) stale (suc fuel) s ok (y, e, some_left) some_fuel =
      let parse =
        ws_parse-waits (batch_payload b) (x ∷ part) y stale (omega (arith, payload_size b, ok.0.1))
          e some_left in
      let filled : (length (x ∷ part) == 0) ≡ false = ground arith in rw (filled, parse) refl

  pub frame_size :
      (b : Batch)
      → length b.entries ≤ 255
      → (0 < length (batch_frame b)) × (length (batch_frame b) ≤ 1538)
  frame_size b h = elim (Bool-cases (leb (length (batch_payload b)) 125)) [
    | inl small ↦ rw small (omega (arith, payload_size b))
    | inr large ↦ rw large (omega (arith, payload_size b))
  ]

  -- The loop takes every whole frame off the buffer, and leaves the beginning of the next.
  pub drain :
      (whole more : List Batch) (part stale : List ℕ) (fuel : ℕ) (s : S) (r : Rollback en.State)
      → All IsBatch whole
      → All IsBatch more
      → Stuck batch_frame part more
      → (state_code (s.client).state == 6) ≡ false
      → confirm_all en (all_entries whole) s.ring ≡ some r
      → let b = stream batch_frame whole ++ part in
        length b < fuel
        → (stale' : List ℕ) × (frames_loop os en fuel (at_buf (b ++ stale) (length b) s)
            ≡ some (at_buf (part ++ stale') (length part) (with_ring r s)))
  unfolding confirm_all
  drain [] more part stale fuel s r ok oks h calm confirmed room =
      let same : s.ring ≡ r = cc in
      (
        stale,
        waits more part stale fuel s oks h (omega (arith, room))
            ∙ ap (λ t. some (at_buf (part ++ stale) (length part) (with_ring t s))) same,
      )
  drain (b ∷ bs) more part stale zero s r ok oks h calm confirmed room = absurd (
      omega (
        arith,
        (frame_size b ok.0.1).0,
        length-append (batch_frame b ++ stream batch_frame bs) part,
        length-append (batch_frame b) (stream batch_frame bs),
      ))
  drain (b ∷ bs) more part stale (suc fuel) s r ok oks h calm confirmed room =
      let f = batch_frame b in
      let later = stream batch_frame bs in
      let p = later ++ part in
      let one_shorter = append_assoc f later part in
      let size : length ((f ++ later) ++ part) ≡ length f + length p =
        ap length one_shorter ∙ length-append f p in
      let bytes : ((f ++ later) ++ part) ++ stale ≡ f ++ (p ++ stale) =
        ap (λ l. l ++ stale) one_shorter ∙ append_assoc f p stale in
      let parts = sym (confirm_all-append b.entries (all_entries bs) s.ring) ∙ confirmed in
      elim (Option-cases (confirm_all en b.entries s.ring)) [
        | inl n ↦ absurd (let q = rw n at parts in cc)
        | inr (r1, e) ↦
            let (stale', q) =
              drain bs more part (behind f p stale) fuel (with_ring r1 s) r ok.1 oks h calm
                (rw e at parts) (omega (arith, room, size, (frame_size b ok.0.1).0)) in
            (
              stale',
              ap (λ l. frames_loop os en (suc fuel) (at_buf l (length ((f ++ later) ++ part)) s))
                    bytes
                  ∙ ap (λ n. frames_loop os en (suc fuel) (at_buf (f ++ (p ++ stale)) n s)) size
                  ∙ round b p stale fuel s r1 ok.0 calm e
                  ∙ q,
            )
      ]
