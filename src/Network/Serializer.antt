-- ===== src/Network/Serializer.antt =====
-- network/serializer.c. The field `data` is `bytes`, the list of the memory behind it; `none` is an access
-- outside it.
pub mod Wide
use fury_clash.Prelude.{
  ℕ, ◌+◌, ◌*◌, ◌/◌, ◌%◌, ◌^◌, ◌≤◌, ◌<◌, ◌≡◌, refl, ap, ◌∙◌, ltb, bit_or, List, length, length-set,
  set, get_elem?, get_or-set_self, get_or-set_ne, get_elem?-eq-get_or, Option, some, ◌>>=◌,
  if◌then◌else◌, arith,
}
use fury_clash.Prelude.Bits.{bit_or_low}

pub record ByteBuf : Type 0 where
  pub bytes : List ℕ
  pub len : ℕ
  pub cap : ℕ
  pub pos : ℕ

abbrev pub bbuf_init_write : List ℕ → ℕ → ByteBuf
bbuf_init_write buf cap = record { bytes = buf; len = 0; cap = cap; pos = 0 }

abbrev pub bbuf_init_read : List ℕ → ℕ → ByteBuf
bbuf_init_read buf len = record { bytes = buf; len = len; cap = len; pos = 0 }

unfoldable pub bbuf_write_u8 : ℕ → ByteBuf → Option ByteBuf
bbuf_write_u8 v b =
    let stored = get_elem? b.bytes b.len >>= λ old.
    some (record b { bytes = set b.bytes b.len (v % 2 ^ 8); len = b.len + 1 }) in
    if ltb b.len b.cap then stored else some b

unfoldable pub bbuf_write_u16 : ℕ → ByteBuf → Option ByteBuf
bbuf_write_u16 v b = bbuf_write_u8 (v % 2 ^ 8) b >>= λ b1. bbuf_write_u8 (v / 2 ^ 8 % 2 ^ 8) b1

unfoldable pub bbuf_write_u32 : ℕ → ByteBuf → Option ByteBuf
bbuf_write_u32 v b = bbuf_write_u16 (v % 2 ^ 16) b >>= λ b1. bbuf_write_u16 (v / 2 ^ 16 % 2 ^ 16) b1

unfoldable pub bbuf_read_u8 : ByteBuf → Option (ℕ × ByteBuf)
bbuf_read_u8 b =
    let got = get_elem? b.bytes b.pos >>= λ x. some (x, record b { pos = b.pos + 1 }) in
    if ltb b.pos b.len then got else some (0, b)

unfoldable pub bbuf_read_u16 : ByteBuf → Option (ℕ × ByteBuf)
bbuf_read_u16 b = do
  (lo, b1) ← bbuf_read_u8 b
  (hi, b2) ← bbuf_read_u8 b1
  some (bit_or lo (hi * 2 ^ 8) % 2 ^ 16, b2)

unfoldable pub bbuf_read_u32 : ByteBuf → Option (ℕ × ByteBuf)
bbuf_read_u32 b = do
  (lo, b1) ← bbuf_read_u16 b
  (hi, b2) ← bbuf_read_u16 b1
  some (bit_or lo (hi * 2 ^ 16) % 2 ^ 32, b2)

-- room for `n` more bytes, in memory that is as long as the capacity says
abbrev pub HasRoom : ℕ → ByteBuf → Type 0
HasRoom n b = (b.len + n ≤ b.cap) × (b.cap ≤ length b.bytes)

write_u8_room :
    (v : ℕ) (b : ByteBuf)
    → HasRoom 1 b
    → bbuf_write_u8 v b ≡ some (record b { bytes = set b.bytes b.len (v % 256); len = b.len + 1 })
unfolding bbuf_write_u8
write_u8_room v b (h, k) = ground (arith, get_elem?-eq-get_or b.bytes b.len 0 (omega arith))

read_u8_known :
    (b : ByteBuf) (x : ℕ)
    → b.pos < b.len
    → get_elem? b.bytes b.pos ≡ some x
    → bbuf_read_u8 b ≡ some (x, record b { pos = b.pos + 1 })
unfolding bbuf_read_u8
read_u8_known b x h e = ground arith

-- the buffer with the two bytes of `v`
abbrev pub written_16 : ℕ → ByteBuf → ByteBuf
written_16 v b = record b {
  bytes = set (set b.bytes b.len (v % 256 % 256)) (b.len + 1) (v / 256 % 256 % 256);
  len = b.len + 2;
}

pub write_u16_room :
    (v : ℕ) (b : ByteBuf) → HasRoom 2 b → bbuf_write_u16 v b ≡ some (written_16 v b)
unfolding bbuf_write_u16
write_u16_room v b (h, k) =
    let first = write_u8_room (v % 2 ^ 8) b (omega (arith, h), k) in
    let b1 : ByteBuf = record b { bytes = set b.bytes b.len (v % 2 ^ 8 % 256); len = b.len + 1 } in
    let second =
      write_u8_room (v / 2 ^ 8 % 2 ^ 8) b1
        (omega (arith, h), omega (arith, k, length-set b.bytes b.len (v % 2 ^ 8 % 256))) in
    rw (first, second)
      (ap (λ n. some (record b { bytes = (written_16 v b).bytes; len = n })) (omega arith))

pub low_at :
    (v : ℕ) (b : ByteBuf)
    → HasRoom 2 b
    → get_elem? (written_16 v b).bytes b.len ≡ some (v % 256 % 256)
low_at v b (h, k) =
    let l = set b.bytes b.len (v % 256 % 256) in
    let size = length-set b.bytes b.len (v % 256 % 256) in
    get_elem?-eq-get_or (written_16 v b).bytes b.len 0
      (omega (arith, h, k, size, length-set l (b.len + 1) (v / 256 % 256 % 256)))
    ∙ ap some (
        get_or-set_ne l (b.len + 1) b.len (v / 256 % 256 % 256) 0 (λ e. omega (arith, e))
        ∙ get_or-set_self b.bytes b.len (v % 256 % 256) 0 (omega (arith, h, k)))

pub high_at :
    (v : ℕ) (b : ByteBuf)
    → HasRoom 2 b
    → get_elem? (written_16 v b).bytes (b.len + 1) ≡ some (v / 256 % 256 % 256)
high_at v b (h, k) =
    let l = set b.bytes b.len (v % 256 % 256) in
    let size = length-set b.bytes b.len (v % 256 % 256) in
    get_elem?-eq-get_or (written_16 v b).bytes (b.len + 1) 0
      (omega (arith, h, k, size, length-set l (b.len + 1) (v / 256 % 256 % 256)))
    ∙ ap some (get_or-set_self l (b.len + 1) (v / 256 % 256 % 256) 0 (omega (arith, h, k, size)))

pub joined :
    (v : ℕ) → v < 2 ^ 16 → bit_or (v % 256 % 256) (v / 256 % 256 % 256 * 2 ^ 8) % 2 ^ 16 ≡ v
joined v h = omega (arith, bit_or_low 8 (v / 256 % 256 % 256) (v % 256 % 256) (omega arith))

pub read_u16_known :
    (v : ℕ) (b : ByteBuf)
    → v < 2 ^ 16
    → b.pos + 1 < b.len
    → get_elem? b.bytes b.pos ≡ some (v % 256 % 256)
    → get_elem? b.bytes (b.pos + 1) ≡ some (v / 256 % 256 % 256)
    → bbuf_read_u16 b ≡ some (v, record b { pos = b.pos + 2 })
unfolding bbuf_read_u16
read_u16_known v b h room low high =
    let first = read_u8_known b (v % 256 % 256) (omega arith) low in
    let second =
      read_u8_known (record b { pos = b.pos + 1 }) (v / 256 % 256 % 256) (omega arith) high in
    rw (first, second, joined v h) (ap (λ n. some (v, record b { pos = n })) (omega arith))

read_written :
    (v : ℕ) (b : ByteBuf)
    → v < 2 ^ 16
    → HasRoom 2 b
    → bbuf_read_u16 (record (written_16 v b) { pos = b.len })
      ≡ some (v, record (written_16 v b) { pos = b.len + 2 })
read_written v b h room =
    read_u16_known v (record (written_16 v b) { pos = b.len }) h (omega arith) (low_at v b room)
      (high_at v b room)

-- The number that `bbuf_write_u16` stores is the one that `bbuf_read_u16` finds there.
bbuf_read_u16-write :
    (v : ℕ) (b : ByteBuf)
    → v < 2 ^ 16
    → HasRoom 2 b
    → (b' : ByteBuf) × (bbuf_write_u16 v b ≡ some b')
      × (b'.len ≡ b.len + 2)
      × (bbuf_read_u16 (record b' { pos = b.len }) ≡ some (v, record b' { pos = b.len + 2 }))
bbuf_read_u16-write v b h room =
    (written_16 v b, write_u16_room v b room, refl, read_written v b h room)
