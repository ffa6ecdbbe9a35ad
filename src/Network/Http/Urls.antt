-- ===== src/Network/Http/Urls.antt =====
-- What http_client.c and net_client.c read in the same URL.
use fury_clash.Prelude.{
  ℕ, ◌+◌, ◌≡◌, refl, leb, ◌==◌, ◌||◌, ℤ, pos, List, ◌++◌, drop, take, Bool, true, false, Option,
  none, some, ◌>>=◌, if◌then◌else◌,
}
use fury_clash.Prelude.Text.{codes, strip_prefix, index_of}
use fury_clash.Network.Url.{
  ParsedUrl, bad_url, url_parts, atoi, path_of, host_end, port_colon, url_with, parse_ws_url,
}
use fury_clash.Network.Http.{
  HttpUrl, bad_http_url, http_url, bare_address, address_with, http_parse_ws_url,
}

-- a parsed URL without its path
abbrev pub host_and_port : ParsedUrl → HttpUrl
host_and_port bad_url = bad_http_url
host_and_port (url_parts host port path) = http_url host port

abbrev forget_path : Option ParsedUrl → Option HttpUrl
forget_path o = o >>= λ r. some (host_and_port r)

colon_case :
    (bad : Bool) (port : Option ℤ) (host path : List ℕ)
    → (if bad then some bad_http_url else port >>= λ n. some (http_url host n))
      ≡ forget_path (if bad then some bad_url else port >>= λ n. some (url_parts host n path))
colon_case true port host path = refl
colon_case false none host path = refl
colon_case false (some n) host path = refl

plain_case :
    (bad : Bool) (host path : List ℕ)
    → (if bad then some bad_http_url else some (http_url host (pos 80)))
      ≡ forget_path (if bad then some bad_url else some (url_parts host (pos 80) path))
plain_case true host path = refl
plain_case false host path = refl

address_with-url_with :
    (hlen plen : ℕ) (slash : Option ℕ) (p : List ℕ) (colon : Option ℕ)
    → address_with hlen slash p colon ≡ forget_path (url_with hlen plen slash p colon)
unfolding address_with url_with
address_with-url_with hlen plen slash p (some n) =
    colon_case (n == 0 || leb hlen n) (atoi (drop (n + 1) p)) (take n p) (path_of plen slash p)
address_with-url_with hlen plen slash p none =
    plain_case (host_end slash p == 0 || leb hlen (host_end slash p)) (take (host_end slash p) p)
      (path_of plen slash p)

-- On a ws:// URL, for every host buffer, `http_parse_ws_url` gives what `parse_ws_url` gives, less
-- the path: the same refusals, the same host, the same port, the same overflow.
pub http_parse_ws_url-agrees :
    (hlen plen : ℕ) (p : List ℕ)
    → http_parse_ws_url hlen (codes "ws://" ++ p)
      ≡ (parse_ws_url hlen plen (codes "ws://" ++ p) >>= λ r. some (host_and_port r))
unfolding http_parse_ws_url parse_ws_url bare_address strip_prefix
http_parse_ws_url-agrees hlen plen p =
    address_with-url_with hlen plen (index_of b'/' p) p
      (port_colon (index_of b':' p) (index_of b'/' p))
