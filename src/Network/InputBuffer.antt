-- ===== src/Network/InputBuffer.antt =====
-- network/input_buffer.c: the ring of remote inputs, addressed by the distance from a base frame.
use fury_clash.Prelude.{
  ℕ, ◌+◌, ◌%◌, ◌≡◌, refl, sym, ◌≢◌, ℤ, pos, negsuc, ◌-ℤ◌, ◌==◌, Bool, true, false, List, length,
  replicate, set, get_or, get_or-set_self, get_or-set_ne, Option, none, some, if◌then◌else◌, arith,
}

-- INPUT_BUF_SIZE
abbrev pub input_buf_size : ℕ
input_buf_size = 256

pub record InputBuffer : Type 0 where
  pub inputs : List ℕ
  pub confirmed : List Bool
  pub base_frame : ℤ

unfoldable pub ibuf_init : ℤ → InputBuffer
ibuf_init start_frame = record {
  inputs = replicate input_buf_size 0;
  confirmed = replicate input_buf_size false;
  base_frame = start_frame;
}

-- The remainder of C has the sign of the dividend; `none` is a negative one.
abbrev pub rem_slot : ℤ → Option ℕ
rem_slot (pos n) = some (n % input_buf_size)
rem_slot (negsuc n) = if ((n + 1) % input_buf_size) == 0 then some 0 else none

unfoldable pub ibuf_slot : InputBuffer → ℤ → Option ℕ
ibuf_slot ib frame = rem_slot (frame -ℤ ib.base_frame)

abbrev pub put_at : InputBuffer → ℕ → Option ℕ → InputBuffer
put_at ib input none = ib
put_at ib input (some slot) = record ib {
  inputs = set ib.inputs slot input;
  confirmed = set ib.confirmed slot true;
}

unfoldable pub ibuf_put : ℤ → ℕ → InputBuffer → InputBuffer
ibuf_put frame input ib = put_at ib input (ibuf_slot ib frame)

abbrev pub get_at : InputBuffer → Option ℕ → ℕ
get_at ib none = 0
get_at ib (some slot) = get_or ib.inputs slot 0

unfoldable pub ibuf_get : ℤ → InputBuffer → ℕ
ibuf_get frame ib = get_at ib (ibuf_slot ib frame)

abbrev pub confirmed_at : InputBuffer → Option ℕ → Bool
confirmed_at ib none = false
confirmed_at ib (some slot) = get_or ib.confirmed slot false

unfoldable pub ibuf_is_confirmed : ℤ → InputBuffer → Bool
ibuf_is_confirmed frame ib = confirmed_at ib (ibuf_slot ib frame)

-- both arrays have their size
abbrev pub IsSized : InputBuffer → Type 0
IsSized ib = (length ib.inputs ≡ 256) × (length ib.confirmed ≡ 256)

distance : (b f : ℕ) → pos (b + f) -ℤ pos b ≡ pos f
unfolding ◌-ℤ◌
distance b f = ground arith

slot_from :
    (ib : InputBuffer) (b f : ℕ)
    → ib.base_frame ≡ pos b
    → ibuf_slot ib (pos (b + f)) ≡ some (f % 256)
unfolding ibuf_slot
slot_from ib b f h = rw (h, distance b f) refl

put_from :
    (ib : InputBuffer) (b f input : ℕ)
    → ib.base_frame ≡ pos b
    → ibuf_put (pos (b + f)) input ib ≡ put_at ib input (some (f % 256))
unfolding ibuf_put
put_from ib b f input h = rw (slot_from ib b f h) refl

-- The input put for a frame from the base on is read back, and reads as confirmed, at every frame
-- from the base on at a distance of a multiple of 256 from it, itself included.
pub ibuf_get-put_same :
    (ib : InputBuffer) (b f g input : ℕ)
    → IsSized ib
    → ib.base_frame ≡ pos b
    → g % 256 ≡ f % 256
    → (ibuf_get (pos (b + g)) (ibuf_put (pos (b + f)) input ib) ≡ input)
      × (ibuf_is_confirmed (pos (b + g)) (ibuf_put (pos (b + f)) input ib) ≡ true)
unfolding ibuf_get ibuf_is_confirmed
ibuf_get-put_same ib b f g input (n, m) h e =
    let ib' = put_at ib input (some (f % 256)) in
    rw (put_from ib b f input h, slot_from ib' b g h, e)
      (
        get_or-set_self ib.inputs (f % 256) input 0 (omega (arith, n)),
        get_or-set_self ib.confirmed (f % 256) true false (omega (arith, m)),
      )

-- Every other frame from the base on reads as before.
ibuf_get-put_other :
    (ib : InputBuffer) (b f g input : ℕ)
    → ib.base_frame ≡ pos b
    → g % 256 ≢ f % 256
    → (ibuf_get (pos (b + g)) (ibuf_put (pos (b + f)) input ib) ≡ ibuf_get (pos (b + g)) ib)
      × (ibuf_is_confirmed (pos (b + g)) (ibuf_put (pos (b + f)) input ib)
          ≡ ibuf_is_confirmed (pos (b + g)) ib)
unfolding ibuf_get ibuf_is_confirmed
ibuf_get-put_other ib b f g input h e =
    let ib' = put_at ib input (some (f % 256)) in
    let ne : f % 256 ≢ g % 256 = λ q. e (sym q) in
    rw (put_from ib b f input h, slot_from ib' b g h, slot_from ib b g h)
      (
        get_or-set_ne ib.inputs (f % 256) (g % 256) input 0 ne,
        get_or-set_ne ib.confirmed (f % 256) (g % 256) true false ne,
      )
