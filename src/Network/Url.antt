-- ===== src/Network/Url.antt =====
-- `parse_ws_url` of network/net_client.c. `none` is an overflow inside `atoi`.
use fury_clash.Prelude.{
  ℕ, ◌+◌, ◌-◌, ltb, leb, ◌==◌, Bool, ◌&&◌, ◌||◌, ℤ, pos, ◌-ℤ◌, List, [], ◌∷◌, length, take, drop,
  Option, none, some, ◌>>=◌, if◌then◌else◌,
}
use fury_clash.Prelude.Text.{codes, strip_prefix, index_of, read_digits}

abbrev pub is_space : ℕ → Bool
is_space c = (leb 9 c && leb c 13) || c == b' '

unfoldable pub skip_space : List ℕ → List ℕ
skip_space [] = []
skip_space (c ∷ s) = let rest = skip_space s in if is_space c then rest else c ∷ s

-- behind the blanks: the sign, then the digits, of which there may be none
abbrev pub signed_digits : List ℕ → Option ℤ
signed_digits [] = some (pos 0)
signed_digits (c ∷ s) =
    let minus = read_digits 0 s >>= λ n. some (pos 0 -ℤ pos n) in
    let plus = read_digits 0 s >>= λ n. some (pos n) in
    let bare = read_digits 0 (c ∷ s) >>= λ n. some (pos n) in
    if c == b'-' then minus else if c == b'+' then plus else bare

-- the library's `atoi`, in decimal
unfoldable pub atoi : List ℕ → Option ℤ
atoi s = signed_digits (skip_space s)

-- The result 0, and the result 1 with what is written.
pub data ParsedUrl : Type 0 where
  bad_url : ParsedUrl
  url_parts : List ℕ → ℤ → List ℕ → ParsedUrl

-- `snprintf` of a string into `n` bytes, of which the last is the NUL
abbrev pub fit : ℕ → List ℕ → List ℕ
fit n s = take (n - 1) s

-- the path, from the slash on
abbrev pub path_of : ℕ → Option ℕ → List ℕ → List ℕ
path_of plen none p = fit plen (b'/' ∷ [])
path_of plen (some slash) p = fit plen (drop slash p)

-- where the host ends if no port follows
abbrev pub host_end : Option ℕ → List ℕ → ℕ
host_end none p = length p
host_end (some slash) p = slash

-- `colon && (!slash || colon < slash)`
abbrev pub port_colon : Option ℕ → Option ℕ → Option ℕ
port_colon none slash = none
port_colon (some colon) none = some colon
port_colon (some colon) (some slash) = if ltb colon slash then some colon else none

-- the host ends at `n`, which neither is 0 nor reaches `hlen`
unfoldable pub url_with : ℕ → ℕ → Option ℕ → List ℕ → Option ℕ → Option ParsedUrl
url_with hlen plen slash p (some n) =
    let parts =
      atoi (drop (n + 1) p) >>= λ port. some (url_parts (take n p) port (path_of plen slash p)) in
    if n == 0 || leb hlen n then some bad_url else parts
url_with hlen plen slash p none =
    let n = host_end slash p in
    if n == 0 || leb hlen n
    then some bad_url
    else some (url_parts (take n p) (pos 80) (path_of plen slash p))

-- behind the scheme
abbrev pub url_rest : ℕ → ℕ → Option (List ℕ) → Option ParsedUrl
url_rest hlen plen none = some bad_url
url_rest hlen plen (some p) =
    let slash = index_of b'/' p in url_with hlen plen slash p (port_colon (index_of b':' p) slash)

unfoldable pub parse_ws_url : ℕ → ℕ → List ℕ → Option ParsedUrl
parse_ws_url hlen plen url = url_rest hlen plen (strip_prefix (codes "ws://") url)
