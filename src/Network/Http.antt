-- ===== src/Network/Http.antt =====
-- network/http_client.c: the URL of the server and one blocking POST. Its sockets block, so the
-- name lookup, `connect` and `recv` are other calls than those of the WebSocket client.
pub mod Urls
pub mod Totals
use fury_clash.Prelude.{
  ℕ, zero, suc, ◌+◌, ◌-◌, ltb, leb, ◌==◌, ℤ, pos, negsuc, Bool, true, false, ◌||◌, List, [], ◌∷◌,
  ◌++◌, length, take, drop, Option, none, some, ◌>>=◌, if◌then◌else◌,
}
use fury_clash.Prelude.Text.{codes, crlf, strip_prefix, after_match, index_of, print_int}
use fury_clash.Network.Os.{
  Os, SendResult, took, send_blocks, send_fails, RecvResult, received, recv_blocks, recv_fails,
}
use fury_clash.Network.Url.{atoi, fit, host_end, port_colon}

-- `getaddrinfo`, `socket` and a blocking `connect`; the number is the descriptor, which is open
-- where only the `connect` failed.
pub data Dialled : Type 0 where
  no_route : Dialled
  refused joined : ℕ → Dialled

-- What the blocking client asks for. `recv_blocks` stands for EAGAIN and EINTR.
pub record Blocking (os : Os) : Type 0 where
  pub dial_and_wait : List ℕ → List ℕ → os.World → Dialled × os.World
  pub recv_and_wait : ℤ → ℕ → os.World → RecvResult × os.World

-- The result 0, and the result 1 with what is written.
pub data HttpUrl : Type 0 where
  bad_http_url : HttpUrl
  http_url : List ℕ → ℤ → HttpUrl

-- behind ws:// or wss://, or the whole of a bare address
unfoldable pub bare_address : List ℕ → List ℕ
bare_address url = elim (strip_prefix (codes "ws://") url) [
  | some p ↦ p
  | none ↦ elim (strip_prefix (codes "wss://") url) [ some p ↦ p | none ↦ url ]
]

-- the host ends at `n`, which neither is 0 nor reaches `hlen`
unfoldable pub address_with : ℕ → Option ℕ → List ℕ → Option ℕ → Option HttpUrl
address_with hlen slash p (some n) =
    let parts = atoi (drop (n + 1) p) >>= λ port. some (http_url (take n p) port) in
    if n == 0 || leb hlen n then some bad_http_url else parts
address_with hlen slash p none =
    let n = host_end slash p in
    if n == 0 || leb hlen n then some bad_http_url else some (http_url (take n p) (pos 80))

-- `none` is an overflow inside `atoi`.
unfoldable pub http_parse_ws_url : ℕ → List ℕ → Option HttpUrl
http_parse_ws_url hlen url =
    let p = bare_address url in
    let slash = index_of b'/' p in address_with hlen slash p (port_colon (index_of b':' p) slash)

-- the text of the request, before it is cut
unfoldable pub post_request : List ℕ → ℤ → List ℕ → List ℕ → List ℕ
post_request host port path body =
    (codes "POST " ++ (path ++ (codes " HTTP/1.1" ++ crlf)))
    ++ ((codes "Host: " ++ (host ++ (codes ":" ++ (print_int port ++ crlf))))
        ++ ((codes "Content-Type: application/json" ++ crlf)
            ++ ((codes "Content-Length: " ++ (print_int (pos (length body)) ++ crlf))
                ++ ((codes "Connection: close" ++ crlf) ++ (crlf ++ body)))))

-- sizeof(req) and sizeof(resp)
abbrev pub request_size : ℕ
request_size = 2048

abbrev pub response_size : ℕ
response_size = 4096

-- The C string in a buffer with a NUL behind its bytes.
unfoldable pub before_nul : List ℕ → List ℕ
before_nul [] = []
before_nul (c ∷ s) = let rest = before_nul s in if c == 0 then [] else c ∷ rest

-- "HTTP/1.x NNN ": the number behind the first blank
unfoldable pub status_of : List ℕ → Option ℤ
status_of text = elim (after_match (codes "HTTP/") text) [
  | none ↦ some (negsuc 0)
  | some sp ↦ elim (index_of b' ' sp) [ none ↦ some (negsuc 0) | some i ↦ atoi (drop (i + 1) sp) ]
]

-- what is copied to the caller: the bytes behind the empty line, NULs included
unfoldable pub body_of : ℕ → List ℕ → List ℕ
unfolding before_nul
body_of out_size resp = elim (after_match (crlf ++ crlf) (before_nul resp)) [
  | none ↦ []
  | some body ↦ take (out_size - 1) (drop (length (before_nul resp) - length body) resp)
]

-- The result, what the buffer of the caller holds, and the world behind.
pub record Posted (os : Os) : Type 0 where
  pub status : ℤ
  pub out : List ℕ
  pub world : os.World

module _ (os : Os) where
  open os use {World, send}

  abbrev pub after_post_send :
      (List ℕ → World → Bool × World) → List ℕ → SendResult × World → Bool × World
  after_post_send more rest (took zero, w) = (false, w)
  after_post_send more rest (took (suc n), w) = more (drop n rest) w
  after_post_send more rest (send_blocks, w) = (false, w)
  after_post_send more rest (send_fails, w) = (false, w)

  -- `while (sent < req_len)`, over the bytes that are left
  unfoldable pub post_send : ℕ → ℤ → List ℕ → World → Bool × World
  post_send zero fd l w = (false, w)
  post_send (suc fuel) fd [] w = (true, w)
  post_send (suc fuel) fd (x ∷ rest) w =
      after_post_send (λ l w'. post_send fuel fd l w') rest (send fd (x ∷ rest) w)

  module _ (net : Blocking os) where
    open net use {dial_and_wait, recv_and_wait}

    abbrev pub after_post_recv :
        (List ℕ → World → Option (List ℕ × World))
        → List ℕ
        → RecvResult × World
        → Option (List ℕ × World)
    after_post_recv more resp (received [], w) = some (resp, w)
    after_post_recv more resp (received (x ∷ b), w) = more (resp ++ (x ∷ b)) w
    after_post_recv more resp (recv_blocks, w) = more resp w
    after_post_recv more resp (recv_fails, w) = some (resp, w)

    -- `none` where the fuel is not enough
    unfoldable pub post_recv : ℕ → ℤ → List ℕ → World → Option (List ℕ × World)
    post_recv zero fd resp w = none
    post_recv (suc fuel) fd resp w =
        let more =
          after_post_recv (λ r w'. post_recv fuel fd r w') resp
            (recv_and_wait fd (response_size - 1 - length resp) w) in
        if ltb (length resp) (response_size - 1) then more else some (resp, w)

    abbrev pub failed_post : World → Posted os
    failed_post w = record { status = negsuc 0; out = []; world = w }

    -- status and body, behind the `close`
    unfoldable pub read_response : ℕ → ℕ → ℤ → World → Option (Posted os)
    unfolding status_of body_of
    read_response fuel out_size fd w = post_recv fuel fd [] w >>= λ (r : List ℕ × World).
        status_of (before_nul r.0) >>= λ status.
        some (record { status = status; out = body_of out_size r.0; world = os.close fd r.1 })

    abbrev pub after_request : ℕ → ℕ → ℤ → Bool × World → Option (Posted os)
    after_request fuel out_size fd (true, w) = read_response fuel out_size fd w
    after_request fuel out_size fd (false, w) = some (failed_post (os.close fd w))

    -- on an open connection
    unfoldable pub exchange : ℕ → ℕ → List ℕ → ℤ → World → Option (Posted os)
    exchange fuel out_size req fd w =
        if leb request_size (length req)
        then some (failed_post (os.close fd w))
        else after_request fuel out_size fd (post_send (suc (length req)) fd req w)

    abbrev pub after_dial : ℕ → ℕ → List ℕ → Dialled × World → Option (Posted os)
    after_dial fuel out_size req (no_route, w) = some (failed_post w)
    after_dial fuel out_size req (refused fd, w) = some (failed_post (os.close (pos fd) w))
    after_dial fuel out_size req (joined fd, w) = exchange fuel out_size req (pos fd) w

    -- The port is handed over as a string of at most seven characters.
    unfoldable pub http_post : ℕ → List ℕ → ℤ → List ℕ → List ℕ → ℕ → World → Option (Posted os)
    http_post fuel host port path body out_size w =
        after_dial fuel out_size (post_request host port path body)
          (dial_and_wait host (fit 8 (print_int port)) w)
