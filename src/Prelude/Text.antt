-- ===== src/Prelude/Text.antt =====
-- C strings as lists of bytes, without the NUL that ends them.
use Prim.Native.Char.{code}
use Prim.Native.String.{String}
use Prim.Native.Nat.{ℕ, zero, suc, ◌+◌, ◌-◌, ◌*◌, ◌/◌, ◌%◌}
use mathlib.Core.Bool.{Bool, ◌&&◌}
use mathlib.Core.Option.{Option, none, some}
use mathlib.Core.List.{List, [], ◌∷◌, ◌++◌}
use fury_clash.Prelude.Tests.{ltb, leb, ◌==◌, if◌then◌else◌, ◌>>=◌}
use fury_clash.Prelude.Lists.{drop}
use fury_clash.Prelude.Int.{ℤ, pos, negsuc}

-- The bytes of an ASCII text.
abbrev pub codes : String → List ℕ
codes String.[] = []
codes (String.◌∷◌ c s) = code c ∷ codes s

abbrev pub crlf : List ℕ
crlf = 13 ∷ 10 ∷ []

-- What stands behind a prefix (`strncmp`, with the cursor moved past it).
unfoldable pub strip_prefix : List ℕ → List ℕ → Option (List ℕ)
strip_prefix [] s = some s
strip_prefix (p ∷ ps) [] = none
strip_prefix (p ∷ ps) (c ∷ s) = let rest = strip_prefix ps s in if p == c then rest else none

-- `strstr`, with the cursor moved past the match
unfoldable pub after_match : List ℕ → List ℕ → Option (List ℕ)
unfolding strip_prefix
after_match pat [] = strip_prefix pat []
after_match pat (c ∷ s) =
    let later = after_match pat s in
    elim (strip_prefix pat (c ∷ s)) [ some rest ↦ some rest | none ↦ later ]

-- `strchr` as the number of bytes before the match
unfoldable pub index_of : ℕ → List ℕ → Option ℕ
index_of c [] = none
index_of c (x ∷ s) =
    let later = index_of c s >>= λ i. some (suc i) in if x == c then some 0 else later

-- The C string at an offset of a buffer: `none` where no NUL ends it inside the buffer.
unfoldable pub until_nul : List ℕ → Option (List ℕ)
until_nul [] = none
until_nul (c ∷ s) =
    let later = until_nul s >>= λ r. some (c ∷ r) in if c == 0 then some [] else later

unfoldable pub c_string : List ℕ → ℕ → Option (List ℕ)
unfolding until_nul
c_string b off = until_nul (drop off b)

abbrev pub is_digit : ℕ → Bool
is_digit c = leb b'0' c && leb c b'9'

-- The digits of a number in decimal, with as much fuel as digits.
unfoldable pub digits_of : ℕ → ℕ → List ℕ
digits_of zero n = []
digits_of (suc fuel) n =
    let rest = digits_of fuel (n / 10) in
    if ltb n 10 then (b'0' + n) ∷ [] else rest ++ ((b'0' + n % 10) ∷ [])

-- `%d` of an `int`: ten digits are enough.
unfoldable pub print_int : ℤ → List ℕ
unfolding digits_of
print_int (pos n) = digits_of 10 n
print_int (negsuc n) = b'-' ∷ digits_of 10 (n + 1)

-- The largest `int`.
abbrev pub int_max : ℕ
int_max = 2147483647

-- The digit loop of an integer reader: `none` where the `int` overflows.
unfoldable pub read_digits : ℕ → List ℕ → Option ℕ
read_digits val [] = some val
read_digits val (c ∷ s) =
    let next = val * 10 + (c - b'0') in
    let rest = if leb next int_max then read_digits next s else none in
    if is_digit c then rest else some val
