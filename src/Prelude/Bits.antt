-- ===== src/Prelude/Bits.antt =====
-- Binary digits: one equation for the lowest digit of each native operation, and the laws that the
-- sources rely on: disjoint fields add up, exclusive or undoes itself.
use Prim.Native.Nat.{
  ℕ, zero, suc, ◌+◌, ◌-◌, ◌*◌, ◌/◌, ◌%◌, ◌^◌, ◌≤◌, ◌<◌, min, max, bit_and, bit_or, bit_xor, digits,
  differ, bit_and-bitwise, bit_or-bitwise, bit_xor-bitwise,
}
use mathlib.Core.Path.{◌≡◌, refl, ap, ◌∙◌}
use native.Mathlib.Nat.{le_refl, pow-suc}
use native.Mathlib.Decide.{dec_lt}
use native.Mathlib.Omega.{arith}

module _ (after : ℕ → ℕ) (op : ℕ → ℕ → ℕ) where
  -- Fuel beyond the first number is not used.
  one_more_digit : (s x y : ℕ) → x ≤ s → digits after op (suc s) x y ≡ digits after op s x y
  one_more_digit zero zero y enough = refl
  one_more_digit (suc s) zero y enough = refl
  one_more_digit zero (suc x) y enough = absurd (omega arith)
  one_more_digit (suc s) (suc x) y enough =
      ap (λ d. d * 2 + op (suc x % 2) (y % 2)) (one_more_digit s (suc x / 2) (y / 2) (omega arith))

  spare_fuel : (t s x y : ℕ) → x ≤ s → s ≤ t → digits after op t x y ≡ digits after op s x y
  spare_fuel zero s x y enough top =
      let same : 0 ≡ s = omega arith in ap (λ k. digits after op k x y) same
  spare_fuel (suc t) s x y enough top = elim (dec_lt t s) [
    | yes last ↦ let same : suc t ≡ s = omega arith in ap (λ k. digits after op k x y) same
    | no below ↦ one_more_digit t x y (omega arith) ∙ spare_fuel t s x y enough (omega arith)
  ]

  lowest_digit :
      (x y : ℕ)
      → digits after op (suc x) (suc x) y
        ≡ digits after op (suc x / 2) (suc x / 2) (y / 2) * 2 + op (suc x % 2) (y % 2)
  lowest_digit x y =
      ap (λ d. d * 2 + op (suc x % 2) (y % 2))
        (spare_fuel x (suc x / 2) (suc x / 2) (y / 2) (omega arith) (omega arith))

pub bit_xor_step : (x y : ℕ) → bit_xor x y ≡ bit_xor (x / 2) (y / 2) * 2 + differ (x % 2) (y % 2)
bit_xor_step zero y = simp bit_xor-bitwise (omega arith)
bit_xor_step (suc x) y = simp bit_xor-bitwise (lowest_digit (λ rest. rest) differ x y)

pub bit_or_step : (x y : ℕ) → bit_or x y ≡ bit_or (x / 2) (y / 2) * 2 + max (x % 2) (y % 2)
bit_or_step zero y = simp bit_or-bitwise (omega arith)
bit_or_step (suc x) y = simp bit_or-bitwise (lowest_digit (λ rest. rest) max x y)

pub bit_and_step : (x y : ℕ) → bit_and x y ≡ bit_and (x / 2) (y / 2) * 2 + min (x % 2) (y % 2)
bit_and_step zero y = simp bit_and-bitwise (omega arith)
bit_and_step (suc x) y = simp bit_and-bitwise (lowest_digit (λ rest. 0) min x y)

bit_or-zero_fuel : (n a : ℕ) → a ≤ n → bit_or a 0 ≡ a
bit_or-zero_fuel n zero h = refl
bit_or-zero_fuel zero (suc a) h = absurd (omega arith)
bit_or-zero_fuel (suc n) (suc a) h =
    omega (arith, bit_or_step (suc a) 0, bit_or-zero_fuel n (suc a / 2) (omega arith))

differ-zero : (x : ℕ) → differ x 0 ≡ x
differ-zero zero = refl
differ-zero (suc x) = refl

bit_xor-zero_fuel : (n a : ℕ) → a ≤ n → bit_xor a 0 ≡ a
bit_xor-zero_fuel n zero h = refl
bit_xor-zero_fuel zero (suc a) h = absurd (omega arith)
bit_xor-zero_fuel (suc n) (suc a) h = omega (
  arith,
  bit_xor_step (suc a) 0,
  differ-zero (suc a % 2),
  bit_xor-zero_fuel n (suc a / 2) (omega arith),
)

one_up : (m : ℕ) → 1 ≤ 2 ^ m
one_up zero = omega arith
one_up (suc m) = omega (arith, pow-suc 2 m, one_up m)

one_place_up : (high width : ℕ) → high * 2 ^ suc width ≡ high * 2 ^ width + high * 2 ^ width
one_place_up high width =
    let p : high * 2 ^ suc width ≡ high * (2 ^ width * 2) =
      ap (λ (t : ℕ). high * t) (pow-suc 2 width) in
    omega (arith, p)

-- `(high << width) | low` is a sum when `low` fits `width` bits.
pub bit_or_fields :
    (width high low : ℕ) → low < 2 ^ width → bit_or (high * 2 ^ width) low ≡ high * 2 ^ width + low
bit_or_fields zero high low narrow =
    let none : low ≡ 0 = omega arith in
    rw none (omega (arith, bit_or-zero_fuel (high * 1) (high * 1) (le_refl _)))
bit_or_fields (suc width) high low narrow =
    let up = one_place_up high width in
    let half : high * 2 ^ suc width / 2 ≡ high * 2 ^ width = omega (arith, up) in
    let even : high * 2 ^ suc width % 2 ≡ 0 = omega (arith, up) in
    let halves = bit_or_fields width high (low / 2) (omega (arith, narrow, pow-suc 2 width)) in
    rw (bit_or_step (high * 2 ^ suc width) low, half, even, halves) (omega (arith, up))

differ-lt : (x y : ℕ) → x < 2 → y < 2 → differ x y < 2
differ-lt zero y p q = q
differ-lt (suc zero) zero p q = p
differ-lt (suc zero) (suc zero) p q = omega arith
differ-lt (suc zero) (suc (suc y)) p q = absurd (omega arith)
differ-lt (suc (suc x)) y p q = absurd (omega arith)

differ_twice : (x y : ℕ) → x < 2 → y < 2 → differ (differ x y) y ≡ x
differ_twice zero zero p q = refl
differ_twice zero (suc zero) p q = refl
differ_twice zero (suc (suc y)) p q = absurd (omega arith)
differ_twice (suc zero) zero p q = refl
differ_twice (suc zero) (suc zero) p q = refl
differ_twice (suc zero) (suc (suc y)) p q = absurd (omega arith)
differ_twice (suc (suc x)) y p q = absurd (omega arith)

bit_xor_twice_fuel : (n a b : ℕ) → b ≤ n → bit_xor (bit_xor a b) b ≡ a
bit_xor_twice_fuel zero a zero h =
    rw (bit_xor-zero_fuel a a (le_refl a)) (bit_xor-zero_fuel a a (le_refl a))
bit_xor_twice_fuel zero a (suc b) h = absurd (omega arith)
bit_xor_twice_fuel (suc n) a b h =
    let d = differ-lt (a % 2) (b % 2) (omega arith) (omega arith) in
    let half : bit_xor a b / 2 ≡ bit_xor (a / 2) (b / 2) = omega (arith, bit_xor_step a b) in
    let low : bit_xor a b % 2 ≡ differ (a % 2) (b % 2) = omega (arith, bit_xor_step a b) in
    rw
      (
        bit_xor_step (bit_xor a b) b,
        half,
        low,
        bit_xor_twice_fuel n (a / 2) (b / 2) (omega arith),
        differ_twice (a % 2) (b % 2) (omega arith) (omega arith),
      )
      (omega arith)

-- The second mask takes the first one off.
pub bit_xor_twice : (a b : ℕ) → bit_xor (bit_xor a b) b ≡ a
bit_xor_twice a b = bit_xor_twice_fuel b a b (le_refl b)

bit_or_left : (b : ℕ) → bit_or 0 b ≡ b
bit_or_left b = simp bit_or-bitwise (omega arith)

bit_or_comm_fuel : (n a b : ℕ) → a + b ≤ n → bit_or a b ≡ bit_or b a
bit_or_comm_fuel n zero b h = omega (arith, bit_or_left b, bit_or-zero_fuel b b (le_refl b))
bit_or_comm_fuel n (suc a) zero h =
    omega (arith, bit_or_left (suc a), bit_or-zero_fuel (suc a) (suc a) (le_refl (suc a)))
bit_or_comm_fuel zero (suc a) (suc b) h = absurd (omega arith)
bit_or_comm_fuel (suc n) (suc a) (suc b) h =
    rw
      (
        bit_or_step (suc a) (suc b),
        bit_or_step (suc b) (suc a),
        bit_or_comm_fuel n (suc a / 2) (suc b / 2) (omega arith),
      )
      (omega arith)

-- `r | (q << k)` is a sum when `r` fits `k` bits.
pub bit_or_low : (k q r : ℕ) → r < 2 ^ k → bit_or r (q * 2 ^ k) ≡ q * 2 ^ k + r
bit_or_low k q r fits =
    rw (bit_or_comm_fuel (r + q * 2 ^ k) r (q * 2 ^ k) (le_refl _)) (bit_or_fields k q r fits)

-- all ones: the number itself
bit_and_ones : (m x : ℕ) → x < 2 ^ m → bit_and x (2 ^ m - 1) ≡ x
bit_and_ones zero zero h = refl
bit_and_ones zero (suc x) h = absurd (omega arith)
bit_and_ones (suc m) x h =
    let p = pow-suc 2 m in
    let half : (2 ^ suc m - 1) / 2 ≡ 2 ^ m - 1 = omega (arith, p) in
    let odd : (2 ^ suc m - 1) % 2 ≡ 1 = omega (arith, p, one_up m) in
    rw (bit_and_step x (2 ^ suc m - 1), half, odd, bit_and_ones m (x / 2) (omega (arith, p)))
      (omega arith)

-- The mask of the places from `k` on takes the lower ones off.
pub bit_and_high :
    (k m q r : ℕ)
    → q < 2 ^ m
    → r < 2 ^ k
    → bit_and (q * 2 ^ k + r) ((2 ^ m - 1) * 2 ^ k) ≡ q * 2 ^ k
bit_and_high zero m q r qs rs =
    let none : q * 1 + r ≡ q = omega arith in
    let ones : (2 ^ m - 1) * 1 ≡ 2 ^ m - 1 = omega arith in
    rw (none, ones) (bit_and_ones m q qs ∙ omega arith)
bit_and_high (suc k) m q r qs rs =
    let up = one_place_up q k in
    let mask_up = one_place_up (2 ^ m - 1) k in
    let half : (q * 2 ^ suc k + r) / 2 ≡ q * 2 ^ k + r / 2 = omega (arith, up) in
    let mask_half : (2 ^ m - 1) * 2 ^ suc k / 2 ≡ (2 ^ m - 1) * 2 ^ k = omega (arith, mask_up) in
    let even : (2 ^ m - 1) * 2 ^ suc k % 2 ≡ 0 = omega (arith, mask_up) in
    rw
      (
        bit_and_step (q * 2 ^ suc k + r) ((2 ^ m - 1) * 2 ^ suc k),
        half,
        mask_half,
        even,
        bit_and_high k m q (r / 2) qs (omega (arith, rs, pow-suc 2 k)),
      )
      (omega (arith, up))

-- Neither operation makes a number of `n` places longer.
pub bit_or_lt : (n x y : ℕ) → x < 2 ^ n → y < 2 ^ n → bit_or x y < 2 ^ n
bit_or_lt zero x y p q =
    let a : x ≡ 0 = omega arith in let b : y ≡ 0 = omega arith in rw (a, b) (omega arith)
bit_or_lt (suc n) x y p q = omega (
  arith,
  bit_or_step x y,
  pow-suc 2 n,
  bit_or_lt n (x / 2) (y / 2) (omega (arith, pow-suc 2 n)) (omega (arith, pow-suc 2 n)),
)

pub bit_and_lt : (n x y : ℕ) → x < 2 ^ n → bit_and x y < 2 ^ n
bit_and_lt zero zero y p = simp bit_and-bitwise (omega arith)
bit_and_lt zero (suc x) y p = absurd (omega arith)
bit_and_lt (suc n) x y p = omega (
  arith,
  bit_and_step x y,
  pow-suc 2 n,
  bit_and_lt n (x / 2) (y / 2) (omega (arith, pow-suc 2 n)),
)
