-- ===== src/Network/Client/Receive.antt =====
-- `net_client_receive` of network/net_client.c, in the steps that it numbers. `none` is an access
-- outside a buffer, as in Network/Frame.antt and Network/Client/Dispatch.antt, or a loop that runs out
-- of fuel.
use fury_clash.Prelude.{
  ℕ, zero, suc, ◌+◌, ◌-◌, leb, ltb_ℤ, eqb_ℤ, ◌==◌, pos, pos_part, Bool, true, false, not, ◌||◌,
  List, [], ◌∷◌, ◌++◌, length, take, drop, Option, none, some, ◌>>=◌, if◌then◌else◌,
}
use fury_clash.Prelude.Text.{crlf, codes, strip_prefix}
use fury_clash.Network.Os.{
  Os, RecvResult, recv_blocks, recv_fails, received, Poll, pending, writable, refused,
}
use fury_clash.Network.Frame.{
  ws_recv_buf, ws_parse_frame, WsFrame, Parsed, incomplete, protocol_error, parsed,
}
use fury_clash.Network.Rollback.{Engine}
use fury_clash.Network.Client.{
  net_waiting, net_error, state_code, hs_http_sent, hs_open, hs_code, is_open, NetClient, Session,
  with_state, send_http_upgrade, send_client_join,
}
use fury_clash.Network.Client.Dispatch.{dispatch_message}

-- The index of the first match of a pattern, as the two search loops find it.
unfoldable pub find_sub : List ℕ → List ℕ → Option ℕ
find_sub pat [] = none
find_sub pat (c ∷ s) =
    let later = find_sub pat s >>= λ i. some (suc i) in
    elim (strip_prefix pat (c ∷ s)) [ some rest ↦ some 0 | none ↦ later ]

-- behind the blank line, and whether "101" stands before it
unfoldable pub header_end : List ℕ → Option ℕ
header_end b = find_sub (crlf ++ crlf) b >>= λ i. some (i + 4)

abbrev pub is_found : Option ℕ → Bool
is_found none = false
is_found (some i) = true

unfoldable pub got_101 : List ℕ → Bool
got_101 headers = is_found (find_sub (codes "101") headers)

-- `memmove` to the front of what stands behind the first `n` bytes, and the new head
unfoldable pub slide : ℕ → NetClient → NetClient
slide n c =
    let leftover = c.rbuf_head - n in
    record c { rbuf = take leftover (drop n c.rbuf) ++ drop leftover c.rbuf; rbuf_head = leftover }

module _ (os : Os) (en : Engine) where
  open os use {World, send, recv, poll}

  -- the pong in answer to a ping of WebSocket
  unfoldable pub ws_pong : Session os en → Session os en
  ws_pong s =
      let (result, w) = send (s.client).fd (0x8A ∷ 0x80 ∷ 0 ∷ 0 ∷ 0 ∷ 0 ∷ []) s.world in
      record s { world = w }

  -- the `switch` on the opcode
  unfoldable pub on_frame : WsFrame → Session os en → Option (Session os en)
  on_frame f s =
      if f.opcode == 1 || f.opcode == 2
      then dispatch_message os en f.payload f.plen s
      else if f.opcode == 8
      then some (with_state os en net_error s)
      else if f.opcode == 9
      then some (ws_pong s)
      else some s

  -- the buffer with the frame unmasked in place
  unfoldable pub with_rbuf : List ℕ → Session os en → Session os en
  with_rbuf b s = record s { client = record (s.client) { rbuf = b } }

  unfoldable pub slide_off : ℕ → Session os en → Session os en
  slide_off n s = record s { client = slide n s.client }

  -- one round of the loop over the frames, with the rounds that follow
  unfoldable pub after_parse :
      (Session os en → Option (Session os en)) → Session os en → Parsed → Option (Session os en)
  after_parse more s incomplete = some s
  after_parse more s protocol_error = some (with_state os en net_error s)
  after_parse more s (parsed f) =
      let handled = on_frame f (with_rbuf f.rbuf s) >>= λ s1.
      let s2 = slide_off (pos_part f.consumed) s1 in
      let next = more s2 in if state_code (s2.client).state == 6 then some s2 else next in
      if eqb_ℤ f.consumed (pos 0)
      then some (with_rbuf f.rbuf s)
      else if ltb_ℤ f.consumed (pos 0)
      then some (with_state os en net_error (with_rbuf f.rbuf s))
      else handled

  -- one turn of the loop over the frames in the buffer, its condition first
  unfoldable pub frames_round :
      (Session os en → Option (Session os en)) → Session os en → Option (Session os en)
  frames_round more s =
      let go = ws_parse_frame (s.client).rbuf (s.client).rbuf_head >>= λ p. after_parse more s p in
      if (s.client).rbuf_head == 0 then some s else go

  -- The loop on fuel; without any it returns nothing. Each turn but the last consumes a byte, so
  -- that more fuel than `rbuf_head` is enough (Network/Client/Moves.antt).
  unfoldable pub frames_loop : ℕ → Session os en → Option (Session os en)
  frames_loop zero s = none
  frames_loop (suc fuel) s = frames_round (λ s2. frames_loop fuel s2) s

  -- step 4
  unfoldable pub read_frames : Session os en → Option (Session os en)
  read_frames s =
      let loop = frames_loop (suc (s.client).rbuf_head) s in
      if is_open (s.client).hs then loop else some s

  -- the headers are dropped, the connection is open and joined
  unfoldable pub opened : ℕ → Session os en → Session os en
  opened end s =
      with_state os en net_waiting (
        send_client_join os en (record s { client = record (slide end s.client) { hs = hs_open } }))

  -- the headers are complete at `end`
  unfoldable pub upgraded : ℕ → Session os en → Option (Session os en)
  upgraded end s =
      let joined = read_frames (opened end s) in
      if got_101 (take end (s.client).rbuf) then joined else some (with_state os en net_error s)

  abbrev pub if_complete : Option ℕ → Session os en → Option (Session os en)
  if_complete none s = some s
  if_complete (some end) s = upgraded end s

  -- step 3
  unfoldable pub read_upgrade : Session os en → Option (Session os en)
  read_upgrade s =
      let done = if_complete (header_end (take (s.client).rbuf_head (s.client).rbuf)) s in
      if hs_code (s.client).hs == 2 then done else read_frames s

  -- `recv` writes behind the head
  unfoldable pub append_bytes : List ℕ → NetClient → NetClient
  append_bytes b c = record c {
    rbuf = take c.rbuf_head c.rbuf ++ (b ++ drop (c.rbuf_head + length b) c.rbuf);
    rbuf_head = c.rbuf_head + length b;
  }

  -- what `recv` returned
  abbrev pub after_recv : RecvResult → Session os en → Option (Session os en)
  after_recv recv_blocks s = some s
  after_recv recv_fails s = some (with_state os en net_error s)
  after_recv (received []) s = some (with_state os en net_error s)
  after_recv (received (x ∷ b)) s =
      read_upgrade (record s { client = append_bytes (x ∷ b) s.client })

  -- step 2
  unfoldable pub read_socket : Session os en → Option (Session os en)
  read_socket s =
      let r = recv (s.client).fd (ws_recv_buf - (s.client).rbuf_head) s.world in
      let got = after_recv r.0 (record s { world = r.1 }) in
      if leb ws_recv_buf (s.client).rbuf_head
      then some (record s { client = record (s.client) { rbuf_head = 0 } })
      else got

  -- what `select` and SO_ERROR said
  abbrev pub after_poll : Poll → Session os en → Session os en
  after_poll pending s = s
  after_poll writable s =
      let asked = send_http_upgrade os en s in
      record asked { client = record (asked.client) { hs = hs_http_sent } }
  after_poll refused s = with_state os en net_error s

  -- step 1
  unfoldable pub await_connect : Session os en → Session os en
  await_connect s = let r = poll (s.client).fd s.world in after_poll r.0 (record s { world = r.1 })

  unfoldable pub net_client_receive : Session os en → Option (Session os en)
  net_client_receive s =
      let waited = await_connect s in
      let read = read_socket s in
      if not (s.client).configured || ltb_ℤ (s.client).fd (pos 0)
      then some s
      else if hs_code (s.client).hs == 1
      then some waited
      else read
