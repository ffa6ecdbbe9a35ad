-- ===== src/Core/Arena/Bounds.antt =====
-- The blocks of an arena lie in it, aligned and apart, unless a size wraps size_t round.
use fury_clash.Prelude.{
  ℕ, ◌+◌, ◌-◌, ◌*◌, ◌/◌, ◌%◌, ◌^◌, ◌≤◌, ◌<◌, ◌≡◌, refl, sym, ap₂, ltb, false, List, [], ◌∷◌, Option,
  none, some, All, if_ind, arith,
}
use mathlib.Core.Path.{subst}
use fury_clash.Prelude.Bits.{bit_and_high}
use fury_clash.Core.Arena.{Arena, align_up, arena_alloc_aligned, arena_alloc}

align_up-eight : (offset : ℕ) → offset + 7 < 2 ^ 64 → align_up offset 8 ≡ (offset + 7) / 8 * 8
unfolding align_up
align_up-eight offset room =
    let top : (offset + 8 + (2 ^ 64 - 1)) % 2 ^ 64 ≡ (offset + 7) / 8 * 2 ^ 3 + (offset + 7) % 8 =
      omega arith in
    let mask : 2 ^ 64 - 1 - (8 + (2 ^ 64 - 1)) % 2 ^ 64 ≡ (2 ^ 61 - 1) * 2 ^ 3 = refl in
    rw (top, mask)
      (bit_and_high 3 61 ((offset + 7) / 8) ((offset + 7) % 8) (omega arith) (omega arith))

-- an arena of at most half of the address space
pub record IsArena (a : Arena) : Type 0 where
  pub within : a.offset ≤ a.capacity
  pub small : a.capacity ≤ 2 ^ 63

-- What is left behind a block of `size` bytes: it starts at `p`, aligned, in the free part.
pub record IsBlock (size : ℕ) (a : Arena) (p : ℕ) (a' : Arena) : Type 0 where
  pub aligned : p % 8 ≡ 0
  pub free : a.offset ≤ p
  pub ends : a'.offset ≡ p + size
  pub below : a'.offset ≤ a'.capacity
  pub same : a'.capacity ≡ a.capacity

abbrev IsAnswer : ℕ → Arena → Option ℕ × Arena → Type 0
IsAnswer size a (none, a') = a' ≡ a
IsAnswer size a (some p, a') = IsBlock size a p a'

-- In an arena of at most 2^63 bytes and for a size of at most 2^63 - 8, `arena_alloc` either fails
-- and changes nothing, or gives a block at a multiple of 8 behind all earlier ones, whose end lies
-- within the capacity and is the new offset.
pub arena_alloc-IsAnswer :
    (size : ℕ) (a : Arena) → IsArena a → size + 8 ≤ 2 ^ 63 → IsAnswer size a (arena_alloc size a)
unfolding arena_alloc arena_alloc_aligned
arena_alloc-IsAnswer size a ok few =
    let p = (a.offset + 7) / 8 * 8 in
    let up = align_up-eight a.offset (omega (arith, ok.within, ok.small)) in
    let flat : (p + size) % 2 ^ 64 ≡ p + size = omega (arith, ok.within, ok.small) in
    rw (up, flat)
      (if_ind (IsAnswer size a) (ltb a.capacity (p + size)) (λ _. refl)
        (λ e. record {
          aligned = omega arith;
          free = omega arith;
          ends = refl;
          below = ground (arith, e);
          same = refl;
        }))

-- the blocks that a list of sizes gets, with their sizes
abbrev after_alloc : (Arena → List (ℕ × ℕ)) → ℕ → Option ℕ × Arena → List (ℕ × ℕ)
after_alloc more size (none, a) = more a
after_alloc more size (some p, a) = (p, size) ∷ more a

abbrev pub blocks : List ℕ → Arena → List (ℕ × ℕ)
blocks [] a = []
blocks (size ∷ sizes) a = after_alloc (blocks sizes) size (arena_alloc size a)

-- one behind the other from `low` on, aligned, and below `high`
abbrev pub AreApart : ℕ → ℕ → List (ℕ × ℕ) → Type 0
AreApart low high [] = Unit
AreApart low high ((p, size) ∷ bs) =
    (low ≤ p) × (p % 8 ≡ 0) × (p + size ≤ high) × AreApart (p + size) high bs

abbrev pub AreFew : List ℕ → Type 0
AreFew sizes = All (λ size. size + 8 ≤ 2 ^ 63) sizes

after_alloc-AreApart :
    (more : Arena → List (ℕ × ℕ))
    → ((a : Arena) → IsArena a → AreApart a.offset a.capacity (more a))
    → (size : ℕ) (a : Arena) → IsArena a
    → (r : Option ℕ × Arena) → IsAnswer size a r
    → AreApart a.offset a.capacity (after_alloc more size r)
after_alloc-AreApart more ih size a ok (none, a') same =
    subst (λ (b : Arena). AreApart a.offset a.capacity (more b)) (sym same) (ih a ok)
after_alloc-AreApart more ih size a ok (some p, a') b =
    let rest = ih a' (record { within = b.below; small = omega (arith, b.same, ok.small) }) in
    (
      b.free,
      b.aligned,
      omega (arith, b.ends, b.below, b.same),
      subst (λ (t : ℕ × ℕ). AreApart t.0 t.1 (more a')) (ap₂ (λ x y. (x, y)) b.ends b.same) rest,
    )

-- Whatever sizes are asked for, up to 2^63 - 8 each, the blocks handed out lie one behind the other
-- in an arena of at most 2^63 bytes, at multiples of 8, without overlap.
pub blocks-AreApart :
    (sizes : List ℕ) (a : Arena)
    → IsArena a
    → AreFew sizes
    → AreApart a.offset a.capacity (blocks sizes a)
blocks-AreApart [] a ok few = tt
blocks-AreApart (size ∷ sizes) a ok (one, few) =
    after_alloc-AreApart (blocks sizes) (λ a' ok'. blocks-AreApart sizes a' ok' few) size a ok
      (arena_alloc size a) (arena_alloc-IsAnswer size a ok one)

-- In an arena of at most 2^63 bytes whose next multiple of 8 lies within the capacity, a request for
-- 2^64 - back bytes, `back` positive and at most that multiple, is granted, and leaves the offset
-- `back` bytes below it.
arena_alloc_wraps :
    (back : ℕ) (a : Arena)
    → IsArena a
    → 0 < back
    → back ≤ (a.offset + 7) / 8 * 8
    → (a.offset + 7) / 8 * 8 ≤ a.capacity
    → (arena_alloc (2 ^ 64 - back) a)
      ≡ (some ((a.offset + 7) / 8 * 8), record a { offset = (a.offset + 7) / 8 * 8 - back })
unfolding arena_alloc arena_alloc_aligned
arena_alloc_wraps back a ok some_back low room =
    let p = (a.offset + 7) / 8 * 8 in
    let up = align_up-eight a.offset (omega (arith, ok.within, ok.small)) in
    let round : (p + (2 ^ 64 - back)) % 2 ^ 64 ≡ p - back =
      omega (arith, ok.within, ok.small, some_back, low, room) in
    let fits : ltb a.capacity (p - back) ≡ false = ground (arith, room) in rw (up, round, fits) refl
