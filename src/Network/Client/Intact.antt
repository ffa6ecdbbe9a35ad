-- ===== src/Network/Client/Intact.antt =====
-- The receive buffer and the ring keep their sizes, and the filled part of the buffer lies in it.
use mathlib.Core.Path.{subst}
use fury_clash.Prelude.{
  ℕ, zero, suc, ◌+◌, ◌-◌, ◌≤◌, ◌≡◌, refl, sym, ap, ◌∙◌, inl, inr, leb, ◌==◌, ltb_ℤ, eqb_ℤ, pos,
  pos_part, not, ◌||◌, List, [], ◌∷◌, ◌++◌, length, length-append, length-take, length-drop, take,
  drop, Option, none, some, Option-cases, if_ind, arith,
}
use fury_clash.Network.Os.{
  Os, IsStream, RecvResult, received, recv_blocks, recv_fails, SendResult, took, send_blocks,
  send_fails, Poll, pending, writable, refused,
}
use fury_clash.Network.Frame.{
  ws_recv_buf, WsFrame, Parsed, incomplete, protocol_error, parsed, ws_parse_frame,
}
use fury_clash.Network.Frame.Size.{ws_parse-size}
use fury_clash.Network.Rollback.{Engine}
use fury_clash.Network.Client.{
  NetClient, NetState, Session, with_state, state_code, is_open, hs_code, hs_open, ws_send,
  send_http_upgrade, upgrade_answer, send_client_join, msg_join, join_json,
}
use fury_clash.Network.Client.Receive.{
  on_frame, with_rbuf, slide, slide_off, after_parse, frames_round, frames_loop, read_frames,
  opened, upgraded, if_complete, read_upgrade, after_recv, read_socket, after_poll, await_connect,
  net_client_receive, got_101, append_bytes,
}
use fury_clash.Network.Client.Loop.{ws_send-Served, on_frame-Served}

-- the receive buffer has its 65536 bytes, of which at most all are filled
abbrev pub IsBuffered : NetClient → Type 0
IsBuffered c = (length c.rbuf ≡ ws_recv_buf) × (c.rbuf_head ≤ ws_recv_buf)

slide-IsBuffered : (n : ℕ) (c : NetClient) → IsBuffered c → IsBuffered (slide n c)
unfolding slide
slide-IsBuffered n c (len, room) =
    let left = c.rbuf_head - n in
    (
      omega (
        arith,
        length-append (take left (drop n c.rbuf)) (drop left c.rbuf),
        length-take left (drop n c.rbuf),
        length-drop n c.rbuf,
        length-drop left c.rbuf,
      ),
      omega arith,
    )

module _ (os : Os) (en : Engine) where
  abbrev S : Type 0
  S = Session os en

  append-IsBuffered :
      (b : List ℕ) (c : NetClient)
      → IsBuffered c
      → length b ≤ ws_recv_buf - c.rbuf_head
      → IsBuffered (append_bytes os en b c)
  unfolding append_bytes
  append-IsBuffered b c (len, room) few = (
    omega (
      arith,
      length-append (take c.rbuf_head c.rbuf) (b ++ drop (c.rbuf_head + length b) c.rbuf),
      length-append b (drop (c.rbuf_head + length b) c.rbuf),
      length-take c.rbuf_head c.rbuf,
      length-drop (c.rbuf_head + length b) c.rbuf,
    ),
    omega arith,
  )

  -- with the ring's 128 entries
  abbrev pub IsIntact : S → Type 0
  IsIntact s = IsBuffered s.client × (length (s.ring).buf ≡ 128)

  pub ws_send-IsIntact :
      (payload : List ℕ) (s : S) → IsIntact s → IsIntact (ws_send os en payload s)
  ws_send-IsIntact payload s ((len, room), ring) =
      let v = ws_send-Served os en payload s in
      ((ap length v.0 ∙ len, subst (λ n. n ≤ ws_recv_buf) (sym v.1) room), v.3 ∙ ring)

  -- a call that may not return
  abbrev Stays : Option S → Type 0
  Stays none = Unit
  Stays (some s) = IsIntact s

  unmasked :
      (f : WsFrame) (s : S)
      → IsIntact s
      → length f.rbuf ≡ length (s.client).rbuf
      → IsIntact (with_rbuf os en f.rbuf s)
  unfolding with_rbuf
  unmasked f s ((len, room), ring) same = ((same ∙ len, room), ring)

  handled :
      (f : WsFrame) (s s1 : S)
      → IsIntact s
      → on_frame os en f s ≡ some s1
      → IsIntact (slide_off os en (pos_part f.consumed) s1)
  unfolding slide_off
  handled f s s1 ((len, room), ring) e =
      let v = on_frame-Served os en f s e in
      (
        slide-IsBuffered (pos_part f.consumed) s1.client
            (ap length v.0 ∙ len, subst (λ n. n ≤ ws_recv_buf) (sym v.1) room),
        v.3 ∙ ring,
      )

  with_state-IsIntact : (st : NetState) (s : S) → IsIntact s → IsIntact (with_state os en st s)
  unfolding with_state
  with_state-IsIntact st s h = h

  after_parse-Stays :
      (more : S → Option S)
      → ((s : S) → IsIntact s → Stays (more s))
      → (s : S) (p : Parsed) → IsIntact s
      → ((f : WsFrame) → p ≡ parsed f → length f.rbuf ≡ length (s.client).rbuf)
      → Stays (after_parse os en more s p)
  unfolding after_parse
  after_parse-Stays more ih s incomplete h k = h
  after_parse-Stays more ih s protocol_error h k = with_state-IsIntact _ s h
  after_parse-Stays more ih s (parsed f) h k =
      let u = unmasked f s h (k f refl) in
      if_ind Stays (eqb_ℤ f.consumed (pos 0)) (λ _. u)
        (λ _.
          if_ind Stays (ltb_ℤ f.consumed (pos 0)) (λ _. with_state-IsIntact _ _ u)
            (λ _. elim (Option-cases (on_frame os en f (with_rbuf os en f.rbuf s))) [
              | inl n ↦ rw n tt
              | inr (s1, e) ↦
                  let s2 = slide_off os en (pos_part f.consumed) s1 in
                  let q = handled f (with_rbuf os en f.rbuf s) s1 u e in
                  rw e (if_ind Stays (state_code (s2.client).state == 6) (λ _. q) (λ _. ih s2 q))
            ]))

  frames_loop-Stays : (fuel : ℕ) (s : S) → IsIntact s → Stays (frames_loop os en fuel s)
  unfolding frames_loop frames_round
  frames_loop-Stays zero s h = tt
  frames_loop-Stays (suc fuel) s h =
      if_ind Stays ((s.client).rbuf_head == 0) (λ _. h)
        (λ _. elim (Option-cases (ws_parse_frame (s.client).rbuf (s.client).rbuf_head)) [
          | inl n ↦ rw n tt
          | inr (p, e) ↦ rw e (
              after_parse-Stays (λ s2. frames_loop os en fuel s2)
                (λ s2 h2. frames_loop-Stays fuel s2 h2) s p h
                (λ f k. ws_parse-size (s.client).rbuf (s.client).rbuf_head (e ∙ ap some k)))
        ])

  read_frames-Stays : (s : S) → IsIntact s → Stays (read_frames os en s)
  unfolding read_frames
  read_frames-Stays s h =
      if_ind Stays (is_open (s.client).hs) (λ _. frames_loop-Stays (suc (s.client).rbuf_head) s h)
        (λ _. h)

  opened-IsIntact : (end : ℕ) (s : S) → IsIntact s → IsIntact (opened os en end s)
  unfolding opened send_client_join with_state
  opened-IsIntact end s (b, ring) =
      let s' : S = record s { client = record (slide end s.client) { hs = hs_open } } in
      ws_send-IsIntact (msg_join ∷ join_json s'.client) s' (slide-IsBuffered end s.client b, ring)

  upgraded-Stays : (end : ℕ) (s : S) → IsIntact s → Stays (upgraded os en end s)
  unfolding upgraded
  upgraded-Stays end s h =
      if_ind Stays (got_101 (take end (s.client).rbuf))
        (λ _. read_frames-Stays (opened os en end s) (opened-IsIntact end s h))
        (λ _. with_state-IsIntact _ s h)

  if_complete-Stays : (end : Option ℕ) (s : S) → IsIntact s → Stays (if_complete os en end s)
  if_complete-Stays none s h = h
  if_complete-Stays (some end) s h = upgraded-Stays end s h

  read_upgrade-Stays : (s : S) → IsIntact s → Stays (read_upgrade os en s)
  unfolding read_upgrade
  read_upgrade-Stays s h =
      if_ind Stays (hs_code (s.client).hs == 2) (λ _. if_complete-Stays _ s h)
        (λ _. read_frames-Stays s h)

  after_recv-Stays :
      (r : RecvResult) (s : S)
      → IsIntact s
      → ((b : List ℕ) → r ≡ received b → length b ≤ ws_recv_buf - (s.client).rbuf_head)
      → Stays (after_recv os en r s)
  after_recv-Stays recv_blocks s h few = h
  after_recv-Stays recv_fails s h few = with_state-IsIntact _ s h
  after_recv-Stays (received []) s h few = with_state-IsIntact _ s h
  after_recv-Stays (received (x ∷ b)) s (buf, ring) few =
      read_upgrade-Stays (record s { client = append_bytes os en (x ∷ b) s.client })
        (append-IsBuffered (x ∷ b) s.client buf (few (x ∷ b) refl), ring)

  read_socket-Stays : IsStream os → (s : S) → IsIntact s → Stays (read_socket os en s)
  unfolding read_socket
  read_socket-Stays stream s h =
      let asked = ws_recv_buf - (s.client).rbuf_head in
      let r = os.recv (s.client).fd asked s.world in
      if_ind Stays (leb ws_recv_buf (s.client).rbuf_head) (λ _. ((h.0.0, omega arith), h.1))
        (λ _.
          after_recv-Stays r.0 (record s { world = r.1 }) h
            (λ b e. stream (s.client).fd asked s.world b e))

  upgrade_answer-IsIntact :
      (r : SendResult) (s : S) → IsIntact s → IsIntact (upgrade_answer os en r s)
  upgrade_answer-IsIntact (took n) s h = h
  upgrade_answer-IsIntact send_blocks s h = with_state-IsIntact _ s h
  upgrade_answer-IsIntact send_fails s h = with_state-IsIntact _ s h

  pub http_upgrade-IsIntact : (s : S) → IsIntact s → IsIntact (send_http_upgrade os en s)
  unfolding send_http_upgrade
  http_upgrade-IsIntact s h = upgrade_answer-IsIntact _ (record s { world = _ }) h

  after_poll-IsIntact : (r : Poll) (s : S) → IsIntact s → IsIntact (after_poll os en r s)
  after_poll-IsIntact pending s h = h
  after_poll-IsIntact writable s h = http_upgrade-IsIntact s h
  after_poll-IsIntact refused s h = with_state-IsIntact _ s h

  receive-Stays : IsStream os → (s : S) → IsIntact s → Stays (net_client_receive os en s)
  unfolding net_client_receive await_connect
  receive-Stays stream s h =
      if_ind Stays (not (s.client).configured || ltb_ℤ (s.client).fd (pos 0)) (λ _. h)
        (λ _.
          if_ind Stays (hs_code (s.client).hs == 1)
            (λ _.
              after_poll-IsIntact (os.poll (s.client).fd s.world).0
                (record s { world = (os.poll (s.client).fd s.world).1 }) h)
            (λ _. read_socket-Stays stream s h))

  -- Whatever bytes arrive, no more than asked for: a call of `net_client_receive` that returns leaves
  -- the receive buffer with its 65536 bytes, the filled part within it, and the ring of rollback.c
  -- with its 128 entries.
  pub net_client_receive-IsIntact :
      (s : S) {s' : S}
      → IsStream os
      → IsIntact s
      → net_client_receive os en s ≡ some s'
      → IsIntact s'
  net_client_receive-IsIntact s stream h e = subst Stays e (receive-Stays stream s h)
