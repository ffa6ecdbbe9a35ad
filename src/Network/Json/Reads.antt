-- ===== src/Network/Json/Reads.antt =====
-- `json_int` reads back what `%d` prints.
use fury_clash.Prelude.{
  ℕ, zero, suc, ◌+◌, ◌*◌, ◌/◌, ◌%◌, ◌^◌, ◌≤◌, ◌<◌, ◌≡◌, refl, sym, ◌∙◌, ap, if_ind, ℤ, pos, negsuc,
  ◌-ℤ◌, pos_part, neg_part, ◌==◌, Bool, true, false, List, [], ◌∷◌, ◌++◌, some, arith,
  if◌then◌else◌,
}
use mathlib.Core.List.{append_assoc}
use mathlib.Core.Path.{subst}
use native.Mathlib.Nat.{pow-suc}
use native.Mathlib.Decide.{dec_lt}
use fury_clash.Prelude.Text.{after_match, digits_of, print_int, read_digits, int_max, is_digit}
use fury_clash.Network.Json.{quoted_key, skip_blank, read_number, read_signed, json_int}

read_digit :
    (val d m : ℕ) (s : List ℕ)
    → d < 10
    → m ≡ val * 10 + d
    → m ≤ int_max
    → read_digits val ((b'0' + d) ∷ s) ≡ read_digits m s
unfolding read_digits
read_digit val d m s h e k = ground arith

digits_small : (fuel n : ℕ) → n < 10 → digits_of (suc fuel) n ≡ (b'0' + n) ∷ []
unfolding digits_of
digits_small fuel n h = ground arith

digits_big :
    (fuel n : ℕ)
    → 10 ≤ n
    → digits_of (suc fuel) n ≡ digits_of fuel (n / 10) ++ ((b'0' + n % 10) ∷ [])
unfolding digits_of
digits_big fuel n h = ground arith

-- The digits of a number that an `int` holds are read back, whatever follows them.
pub read_digits-digits_of :
    (fuel n : ℕ) (s : List ℕ)
    → n < 10 ^ suc fuel
    → n ≤ int_max
    → read_digits 0 (digits_of (suc fuel) n ++ s) ≡ read_digits n s
read_digits-digits_of zero n s h k =
    rw (digits_small 0 n (omega arith))
      (read_digit 0 n n s (omega arith) (omega arith) (omega arith))
read_digits-digits_of (suc fuel) n s h k = elim (dec_lt n 10) [
  | yes small ↦
      rw (digits_small (suc fuel) n small)
        (read_digit 0 n n s (omega arith) (omega arith) (omega arith))
  | no big ↦
      let ih =
        read_digits-digits_of fuel (n / 10) ((b'0' + n % 10) ∷ s)
          (omega (arith, pow-suc 10 (suc fuel))) (omega arith) in
      let next = read_digit (n / 10) (n % 10) n s (omega arith) (omega arith) (omega arith) in
      rw
        (
          digits_big (suc fuel) n (omega arith),
          append_assoc (digits_of (suc fuel) (n / 10)) ((b'0' + n % 10) ∷ []) s,
        )
        (ih ∙ next)
]

digits_none : (n : ℕ) → digits_of 0 n ≡ []
unfolding digits_of
digits_none n = refl

-- The first digit, and all that the reader looks at before the digits.
digits_head :
    (fuel n : ℕ) (s : List ℕ)
    → (c : ℕ) × (t : List ℕ) × (digits_of (suc fuel) n ++ s ≡ c ∷ t) × (is_digit c ≡ true)
digits_head zero n s = elim (dec_lt n 10) [
  | yes small ↦ (b'0' + n, s, rw (digits_small 0 n small), ground arith)
  | no big ↦
      (b'0' + n % 10, s, rw (digits_big 0 n (omega arith), digits_none (n / 10)), ground arith)
]
digits_head (suc fuel) n s = elim (dec_lt n 10) [
  | yes small ↦ (b'0' + n, s, rw (digits_small (suc fuel) n small), ground arith)
  | no big ↦
      let (c, t, e, d) = digits_head fuel (n / 10) ((b'0' + n % 10) ∷ s) in
      (
        c,
        t,
        rw
            (
              digits_big (suc fuel) n (omega arith),
              append_assoc (digits_of (suc fuel) (n / 10)) ((b'0' + n % 10) ∷ []) s,
            )
            e,
        d,
      )
]

stops_at : (n c : ℕ) (s : List ℕ) → is_digit c ≡ false → read_digits n (c ∷ s) ≡ some n
unfolding read_digits
stops_at n c s k = rw k

digits_read :
    (n c : ℕ) (s : List ℕ)
    → n ≤ int_max
    → is_digit c ≡ false
    → read_digits 0 (digits_of 10 n ++ (c ∷ s)) ≡ some n
digits_read n c s h k = read_digits-digits_of 9 n (c ∷ s) (omega arith) h ∙ stops_at n c s k

read_number-cons :
    (minus : Bool) (def : ℤ) (n c : ℕ) (s : List ℕ)
    → is_digit c ≡ true
    → read_digits 0 (c ∷ s) ≡ some n
    → read_number minus def (c ∷ s) ≡ some (if minus then pos 0 -ℤ pos n else pos n)
read_number-cons minus def n c s d r = rw (d, r)

read_number-digits :
    (minus : Bool) (def : ℤ) (n c : ℕ) (s : List ℕ)
    → n ≤ int_max
    → is_digit c ≡ false
    → read_number minus def (digits_of 10 n ++ (c ∷ s))
      ≡ some (if minus then pos 0 -ℤ pos n else pos n)
read_number-digits minus def n c s h k =
    let (c', t, e, d) = digits_head 9 n (c ∷ s) in
    let read : read_digits 0 (c' ∷ t) ≡ some n =
      subst (λ l. read_digits 0 l ≡ some n) e (digits_read n c s h k) in
    subst (λ l. read_number minus def l ≡ some (if minus then pos 0 -ℤ pos n else pos n)) (sym e)
      (read_number-cons minus def n c' t d read)

skip_blank-cons : (c : ℕ) (s : List ℕ) → is_digit c ≡ true → skip_blank (c ∷ s) ≡ c ∷ s
unfolding skip_blank
skip_blank-cons c s d = ground arith

read_signed-cons :
    (def : ℤ) (c : ℕ) (s : List ℕ)
    → is_digit c ≡ true
    → read_signed def (c ∷ s) ≡ read_number false def (c ∷ s)
read_signed-cons def c s d =
    if_ind (λ r. r ≡ read_number false def (c ∷ s)) (c == b'-') (λ m. ground arith) (λ o. refl)

-- A number without a sign, as the reader takes it behind the key.
read_signed-digits :
    (def : ℤ) (n c : ℕ) (s : List ℕ)
    → n ≤ int_max
    → is_digit c ≡ false
    → read_signed def (skip_blank (digits_of 10 n ++ (c ∷ s))) ≡ some (pos n)
read_signed-digits def n c s h k =
    let (c', t, e, d) = digits_head 9 n (c ∷ s) in
    let whole : read_number false def (c' ∷ t) ≡ some (pos n) =
      subst (λ l. read_number false def l ≡ some (pos n)) e
        (read_number-digits false def n c s h k) in
    subst (λ l. read_signed def (skip_blank l) ≡ some (pos n)) (sym e)
      (rw (skip_blank-cons c' t d) (read_signed-cons def c' t d ∙ whole))

print_pos : (n : ℕ) → print_int (pos n) ≡ digits_of 10 n
unfolding print_int
print_pos n = refl

print_neg : (n : ℕ) → print_int (negsuc n) ≡ b'-' ∷ digits_of 10 (n + 1)
unfolding print_int
print_neg n = refl

skip_minus : (s : List ℕ) → skip_blank (b'-' ∷ s) ≡ b'-' ∷ s
unfolding skip_blank
skip_minus s = refl

-- A number with a minus sign.
read_signed-minus :
    (def : ℤ) (n c : ℕ) (s : List ℕ)
    → n ≤ int_max
    → is_digit c ≡ false
    → read_signed def (skip_blank (b'-' ∷ (digits_of 10 n ++ (c ∷ s)))) ≡ some (pos 0 -ℤ pos n)
read_signed-minus def n c s h k =
    rw (skip_minus (digits_of 10 n ++ (c ∷ s))) (read_number-digits true def n c s h k)

minus_suc : (n : ℕ) → pos 0 -ℤ pos (n + 1) ≡ negsuc n
unfolding ◌-ℤ◌
minus_suc n = ground arith

-- `json_int` returns the integer that `%d` printed behind the first occurrence of the quoted key,
-- for every value of a magnitude up to 2147483647 that no digit follows.
pub json_int-print :
    (json key rest : List ℕ) (def v : ℤ) (c : ℕ)
    → after_match (quoted_key key) json ≡ some (print_int v ++ (c ∷ rest))
    → is_digit c ≡ false
    → pos_part v + neg_part v ≤ int_max
    → json_int json key def ≡ some v
unfolding json_int
json_int-print json key rest def (pos n) c m k h =
    rw (m, print_pos n) (read_signed-digits def n c rest (omega arith) k)
json_int-print json key rest def (negsuc n) c m k h =
    rw (m, print_neg n)
      (read_signed-minus def (n + 1) c rest (omega arith) k ∙ ap some (minus_suc n))
