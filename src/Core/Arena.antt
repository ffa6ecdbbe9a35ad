-- ===== src/Core/Arena.antt =====
-- core/memory.c: a linear arena. An address is its distance from `base`; size_t has 64 bits.
pub mod Bounds
use fury_clash.Prelude.{
  ℕ, ◌+◌, ◌-◌, ◌%◌, ◌^◌, bit_and, ltb, Bool, true, false, Option, none, some, if◌then◌else◌,
}

-- `mapped` tells whether `base` is not NULL.
pub record Arena : Type 0 where
  pub mapped : Bool
  pub offset : ℕ
  pub capacity : ℕ

-- `got`: whether the `SDL_malloc` gave memory
unfoldable pub arena_init : Bool → ℕ → Arena
arena_init got capacity = record {
  mapped = got;
  offset = 0;
  capacity = if got then capacity else 0;
}

-- `(offset + align - 1) & ~(align - 1)`
unfoldable pub align_up : ℕ → ℕ → ℕ
align_up offset align =
    bit_and ((offset + align + (2 ^ 64 - 1)) % 2 ^ 64)
      (2 ^ 64 - 1 - (align + (2 ^ 64 - 1)) % 2 ^ 64)

-- the address, or NULL
unfoldable pub arena_alloc_aligned : ℕ → ℕ → Arena → Option ℕ × Arena
arena_alloc_aligned size align a =
    let aligned = align_up a.offset align in
    let end = (aligned + size) % 2 ^ 64 in
    if ltb a.capacity end then (none, a) else (some aligned, record a { offset = end })

unfoldable pub arena_alloc : ℕ → Arena → Option ℕ × Arena
arena_alloc size a = arena_alloc_aligned size 8 a

unfoldable pub arena_reset : Arena → Arena
arena_reset a = record a { offset = 0 }

unfoldable pub arena_destroy : Arena → Arena
arena_destroy a = record { mapped = false; offset = 0; capacity = 0 }
