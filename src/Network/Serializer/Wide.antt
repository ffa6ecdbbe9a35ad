-- ===== src/Network/Serializer/Wide.antt =====
-- The four bytes of a 32-bit number in network/serializer.c.
use fury_clash.Prelude.{
  ℕ, ◌+◌, ◌*◌, ◌/◌, ◌%◌, ◌^◌, ◌<◌, ◌≡◌, refl, sym, ap, ◌∙◌, bit_or, length, length-set, set,
  get_elem?, get_or-set_ne, get_elem?-eq-get_or, some, arith,
}
use fury_clash.Prelude.Bits.{bit_or_low}
use fury_clash.Network.Serializer.{
  ByteBuf, HasRoom, bbuf_write_u32, bbuf_read_u32, written_16, write_u16_room, low_at, high_at,
  read_u16_known,
}

length-written_16 : (v : ℕ) (b : ByteBuf) → length (written_16 v b).bytes ≡ length b.bytes
length-written_16 v b =
    length-set (set b.bytes b.len (v % 256 % 256)) (b.len + 1) (v / 256 % 256 % 256)
    ∙ length-set b.bytes b.len (v % 256 % 256)

-- the bytes before the end stay
written_16_before :
    (v i : ℕ) (b : ByteBuf)
    → i < b.len
    → i < length b.bytes
    → get_elem? (written_16 v b).bytes i ≡ get_elem? b.bytes i
written_16_before v i b h k =
    let l = set b.bytes b.len (v % 256 % 256) in
    let size = length-written_16 v b in
    get_elem?-eq-get_or (written_16 v b).bytes i 0 (omega (arith, k, size))
    ∙ ap some (
        get_or-set_ne l (b.len + 1) i (v / 256 % 256 % 256) 0 (λ e. omega (arith, e))
        ∙ get_or-set_ne b.bytes b.len i (v % 256 % 256) 0 (λ e. omega (arith, e)))
    ∙ sym (get_elem?-eq-get_or b.bytes i 0 k)

-- the buffer with the four bytes of `v`
abbrev written_32 : ℕ → ByteBuf → ByteBuf
written_32 v b = written_16 (v / 2 ^ 16 % 2 ^ 16) (written_16 (v % 2 ^ 16) b)

later_room : (v : ℕ) (b : ByteBuf) → HasRoom 4 b → HasRoom 2 (written_16 v b)
later_room v b (h, k) = (omega (arith, h), omega (arith, k, length-written_16 v b))

write_u32_room : (v : ℕ) (b : ByteBuf) → HasRoom 4 b → bbuf_write_u32 v b ≡ some (written_32 v b)
unfolding bbuf_write_u32
write_u32_room v b (h, k) =
    rw
      (
        write_u16_room (v % 2 ^ 16) b (omega (arith, h), k),
        write_u16_room (v / 2 ^ 16 % 2 ^ 16) (written_16 (v % 2 ^ 16) b)
            (later_room (v % 2 ^ 16) b (h, k)),
      )
      refl

halves : (v : ℕ) → v < 2 ^ 32 → bit_or (v % 2 ^ 16) (v / 2 ^ 16 % 2 ^ 16 * 2 ^ 16) % 2 ^ 32 ≡ v
halves v h = omega (arith, bit_or_low 16 (v / 2 ^ 16 % 2 ^ 16) (v % 2 ^ 16) (omega arith))

-- A number below 2^32 that `bbuf_write_u32` writes, where there is room for four bytes, is the one
-- that `bbuf_read_u32` reads at the same place, and both advance by four bytes.
pub bbuf_read_u32-write :
    (v : ℕ) (b : ByteBuf)
    → v < 2 ^ 32
    → HasRoom 4 b
    → (b' : ByteBuf) × (bbuf_write_u32 v b ≡ some b')
      × (b'.len ≡ b.len + 4)
      × (bbuf_read_u32 (record b' { pos = b.len }) ≡ some (v, record b' { pos = b.len + 4 }))
unfolding bbuf_read_u32
bbuf_read_u32-write v b h (room, mem) =
    let lo = v % 2 ^ 16 in
    let hi = v / 2 ^ 16 % 2 ^ 16 in
    let b1 = written_16 lo b in
    let c : ByteBuf = record (written_32 v b) { pos = b.len } in
    let fits : HasRoom 2 b = (omega (arith, room), mem) in
    let size = length-written_16 lo b in
    let first =
      read_u16_known lo c (omega arith) (omega arith)
        (written_16_before hi b.len b1 (omega arith) (omega (arith, size, room, mem))
          ∙ low_at lo b fits)
        (written_16_before hi (b.len + 1) b1 (omega arith) (omega (arith, size, room, mem))
          ∙ high_at lo b fits) in
    let second =
      read_u16_known hi (record c { pos = b.len + 2 }) (omega arith) (omega arith)
        (low_at hi b1 (later_room lo b (room, mem)))
        (high_at hi b1 (later_room lo b (room, mem))) in
    let read : bbuf_read_u32 c ≡ some (v, record c { pos = b.len + 4 }) =
      rw (first, second, halves v h) (ap (λ n. some (v, record c { pos = n })) (omega arith)) in
    (written_32 v b, write_u32_room v b (room, mem), omega arith, read)
