-- ===== src/Network/Json.antt =====
-- `json_int` of network/net_client.c, on the C string that holds the message.
pub mod Reads
use fury_clash.Prelude.{
  ℕ, ◌||◌, Bool, true, false, ℤ, pos, ◌-ℤ◌, ◌==◌, List, [], ◌∷◌, ◌++◌, Option, none, some, ◌>>=◌,
  if◌then◌else◌,
}
use fury_clash.Prelude.Text.{after_match, is_digit, read_digits}

-- `"key":`
abbrev pub quoted_key : List ℕ → List ℕ
quoted_key key = b'"' ∷ (key ++ (b'"' ∷ b':' ∷ []))

unfoldable pub skip_blank : List ℕ → List ℕ
skip_blank [] = []
skip_blank (c ∷ s) = let rest = skip_blank s in if c == b' ' || c == 9 then rest else c ∷ s

-- the digits, if there is one, times the sign
abbrev pub read_number : Bool → ℤ → List ℕ → Option ℤ
read_number minus def [] = some def
read_number minus def (c ∷ s) =
    let value = read_digits 0 (c ∷ s) >>= λ n. some (if minus then pos 0 -ℤ pos n else pos n) in
    if is_digit c then value else some def

-- behind the blanks: an optional sign, then the number
abbrev pub read_signed : ℤ → List ℕ → Option ℤ
read_signed def [] = some def
read_signed def (c ∷ s) =
    if c == b'-' then read_number true def s else read_number false def (c ∷ s)

-- behind the match of `strstr`
abbrev pub read_value : ℤ → Option (List ℕ) → Option ℤ
read_value def none = some def
read_value def (some p) = read_signed def (skip_blank p)

unfoldable pub json_int : List ℕ → List ℕ → ℤ → Option ℤ
json_int json key def = read_value def (after_match (quoted_key key) json)
