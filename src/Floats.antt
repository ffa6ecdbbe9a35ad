-- ===== src/Floats.antt =====
-- The `float` and `double` arithmetic of C. It is the compiler's and the machine's, so it is a
-- parameter of the game logic: a value of `Floats` holds the operations that the sources use.
use fury_clash.Prelude.{ℕ, ◌+◌, ◌-◌, ◌*◌, ◌^◌, ◌≤◌, ℤ, pos, negsuc, Bool, true, false, ◌≡◌}

pub record Floats : Type 1 where
  pub Float : Type 0
  pub Double : Type 0
  -- the constant m / 10 ^ k: `0.3f` is `lit (pos 3) 1`
  pub lit : ℤ → ℕ → Float
  pub of_int : ℤ → Float
  pub double_of_int : ℤ → Double
  pub widen : Float → Double
  pub narrow : Double → Float
  pub add : Float → Float → Float
  pub sub : Float → Float → Float
  pub mul : Float → Float → Float
  pub neg : Float → Float
  pub fabs : Float → Float
  pub flt : Float → Float → Bool
  pub fle : Float → Float → Bool
  pub dadd : Double → Double → Double
  pub dmul : Double → Double → Double
  pub ddiv : Double → Double → Double
  pub div : Float → Float → Float
  pub sqrt : Float → Float
  pub fmax : Float → Float → Float
  pub fmin : Float → Float → Float
  pub dlit : ℤ → ℕ → Double
  pub dsub : Double → Double → Double
  pub dlt : Double → Double → Bool
  pub dle : Double → Double → Bool

-- What the stage limits rely on: no value is below itself (a NaN neither), and the right wall, as
-- a constant, does not lie left of the left one.
pub record IsOrdered (fl : Floats) (left right : fl.Float) : Type 0 where
  pub flt_irrefl : (x : fl.Float) → fl.flt x x ≡ false
  pub walls : fl.flt right left ≡ false

-- Constants with the sign and the scale of the sources.
abbrev pub whole : (fl : Floats) → ℕ → fl.Float
whole fl n = fl.lit (pos n) 0

abbrev pub minus : (fl : Floats) → ℕ → fl.Float
minus fl n = fl.lit (negsuc (n - 1)) 0

-- What IEEE 754 says of the operations: results that a float holds are exact, and rounding keeps the
-- order.
pub record IsIeee (fl : Floats) : Type 0 where
  pub exact_lit : (n : ℕ) → n ≤ 2 ^ 24 → fl.lit (pos n) 0 ≡ fl.of_int (pos n)
  pub exact_sum :
      (m n : ℕ)
      → m + n ≤ 2 ^ 24
      → fl.add (fl.of_int (pos m)) (fl.of_int (pos n)) ≡ fl.of_int (pos (m + n))
  pub exact_difference :
      (m n : ℕ)
      → n ≤ m
      → m ≤ 2 ^ 24
      → fl.sub (fl.of_int (pos m)) (fl.of_int (pos n)) ≡ fl.of_int (pos (m - n))
  pub exact_product :
      (m n : ℕ)
      → m * n ≤ 2 ^ 24
      → fl.mul (fl.of_int (pos m)) (fl.of_int (pos n)) ≡ fl.of_int (pos (m * n))
  pub exact_half :
      (n : ℕ)
      → 2 * n ≤ 2 ^ 24
      → fl.div (fl.of_int (pos (2 * n))) (fl.of_int (pos 2)) ≡ fl.of_int (pos n)
  pub le_of_int : (m n : ℕ) → m ≤ n → fl.fle (fl.of_int (pos m)) (fl.of_int (pos n)) ≡ true
  -- a fraction m / n lies between 0 and 1
  pub fraction :
      (m n : ℕ)
      → m ≤ n
      → 1 ≤ n
      → let q = fl.div (fl.of_int (pos m)) (fl.of_int (pos n)) in
        (fl.fle (fl.of_int (pos 0)) q ≡ true) × (fl.fle q (fl.of_int (pos 1)) ≡ true)
  -- a part of a number lies between 0 and it
  pub part :
      (n : ℕ) (q : fl.Float)
      → n ≤ 2 ^ 24
      → fl.fle (fl.of_int (pos 0)) q ≡ true
      → fl.fle q (fl.of_int (pos 1)) ≡ true
      → let p = fl.mul (fl.of_int (pos n)) q in
        (fl.fle (fl.of_int (pos 0)) p ≡ true) × (fl.fle p (fl.of_int (pos n)) ≡ true)
  -- what is left of m when a part of n is taken off lies between m - n and m
  pub remainder :
      (m n : ℕ) (p : fl.Float)
      → n ≤ m
      → m ≤ 2 ^ 24
      → fl.fle (fl.of_int (pos 0)) p ≡ true
      → fl.fle p (fl.of_int (pos n)) ≡ true
      → let d = fl.sub (fl.of_int (pos m)) p in
        (fl.fle (fl.of_int (pos (m - n))) d ≡ true) × (fl.fle d (fl.of_int (pos m)) ≡ true)
  -- a number and a part of n make at most their sum
  pub sum_part :
      (m n : ℕ) (p : fl.Float)
      → m + n ≤ 2 ^ 24
      → fl.fle (fl.of_int (pos 0)) p ≡ true
      → fl.fle p (fl.of_int (pos n)) ≡ true
      → fl.fle (fl.add (fl.of_int (pos m)) p) (fl.of_int (pos (m + n))) ≡ true
  -- A part that is taken off and put back makes at most what there was: the two roundings are off
  -- by half a unit in the last place of m, and a tie goes to m, whose last bit is 0.
  pub put_back :
      (m n : ℕ) (p : fl.Float)
      → n ≤ m
      → m ≤ 2 ^ 22
      → fl.fle (fl.of_int (pos 0)) p ≡ true
      → fl.fle p (fl.of_int (pos n)) ≡ true
      → fl.fle (fl.add (fl.sub (fl.of_int (pos m)) p) p) (fl.of_int (pos m)) ≡ true
