-- ===== src/Network/Client/Moves.antt =====
-- The loop over the frames in the buffer, and what a call of `net_client_receive` does to the state.
use mathlib.Core.Path.{subst}
use fury_clash.Prelude.{
  ℕ, zero, suc, ◌-◌, ◌<◌, ◌≡◌, refl, sym, ap, ◌∙◌, inl, inr, leb, ◌==◌, ltb_ℤ, eqb_ℤ, pos, pos_part,
  not, ◌||◌, [], ◌∷◌, take, Option, none, some, Option-cases, Bool-cases, if_ind, arith,
}
use fury_clash.Network.Os.{
  Os, SendResult, took, send_blocks, send_fails, RecvResult, received, recv_blocks, recv_fails,
  Poll, pending, writable, refused,
}
use fury_clash.Network.Frame.{WsFrame, Parsed, incomplete, protocol_error, parsed, ws_parse_frame}
use fury_clash.Network.Rollback.{Engine}
use fury_clash.Network.Client.{
  Session, with_state, state_code, is_open, hs_code, send_http_upgrade, upgrade_answer,
}
use fury_clash.Network.Client.Receive.{
  on_frame, with_rbuf, slide, slide_off, after_parse, frames_round, frames_loop, read_frames,
  opened, upgraded, if_complete, read_upgrade, after_recv, read_socket, after_poll, await_connect,
  net_client_receive, got_101, append_bytes,
}
use fury_clash.Network.Client.Loop.{Arrives, stays, waits, breaks, Arrives-trans, on_frame-Served}

module _ (os : Os) (en : Engine) where
  abbrev S : Type 0
  S = Session os en

  slid_head :
      (f : WsFrame) (s s1 : S)
      → on_frame os en f (with_rbuf os en f.rbuf s) ≡ some s1
      → ((slide_off os en (pos_part f.consumed) s1).client).rbuf_head
        ≡ (s.client).rbuf_head - pos_part f.consumed
  unfolding slide_off slide with_rbuf
  slid_head f s s1 e =
      ap (λ n. n - pos_part f.consumed) (on_frame-Served os en f (with_rbuf os en f.rbuf s) e).1

  -- Two continuations that agree on shorter buffers give the same round.
  after_parse-agree :
      (more more' : S → Option S) (s : S) (p : Parsed)
      → 0 < (s.client).rbuf_head
      → ((s2 : S) → (s2.client).rbuf_head < (s.client).rbuf_head → more s2 ≡ more' s2)
      → after_parse os en more s p ≡ after_parse os en more' s p
  unfolding after_parse
  after_parse-agree more more' s incomplete h k = refl
  after_parse-agree more more' s protocol_error h k = refl
  after_parse-agree more more' s (parsed f) h k = elim (Bool-cases (eqb_ℤ f.consumed (pos 0))) [
    | inl z ↦ rw z refl
    | inr nz ↦ elim (Bool-cases (ltb_ℤ f.consumed (pos 0))) [
      | inl neg ↦ rw (nz, neg) refl
      | inr up ↦ elim (Option-cases (on_frame os en f (with_rbuf os en f.rbuf s))) [
        | inl n ↦ rw (nz, up, n) refl
        | inr (s1, e) ↦
            let step : 0 < pos_part f.consumed = ground arith in
            let left = slid_head f s s1 e in
            rw
              (
                nz,
                up,
                e,
                k (slide_off os en (pos_part f.consumed) s1) (omega (arith, left, step, h)),
              )
              refl
      ]
    ]
  ]

  -- two continuations that agree on shorter buffers give the same turn
  round :
      (more more' : S → Option S) (s : S)
      → ((s2 : S) → (s2.client).rbuf_head < (s.client).rbuf_head → more s2 ≡ more' s2)
      → frames_round os en more s ≡ frames_round os en more' s
  unfolding frames_round
  round more more' s k = elim (Bool-cases ((s.client).rbuf_head == 0)) [
    | inl z ↦ rw z refl
    | inr nz ↦ elim (Option-cases (ws_parse_frame (s.client).rbuf (s.client).rbuf_head)) [
      | inl n ↦ rw (nz, n) refl
      | inr (p, e) ↦ rw (nz, e) (after_parse-agree more more' s p (ground arith) k)
    ]
  ]

  -- Two functions of a session that both do what one turn says, and then themselves on what is left,
  -- give the same on every buffer shorter than the fuel, as the loop on that fuel does.
  turns :
      (fuel : ℕ) (loop : S → Option S)
      → ((s : S) → loop s ≡ frames_round os en loop s)
      → (s : S) → (s.client).rbuf_head < fuel
      → frames_loop os en fuel s ≡ loop s
  unfolding frames_loop
  turns zero loop law s h = absurd (omega (arith, h))
  turns (suc fuel) loop law s h =
      round (λ s2. frames_loop os en fuel s2) loop s
        (λ s2 lt. turns fuel loop law s2 (omega (arith, lt, h)))
      ∙ sym (law s)

  -- any two amounts of fuel above `rbuf_head` give the same result
  same_fuel :
      (fuel fuel' : ℕ) (s : S)
      → (s.client).rbuf_head < fuel
      → (s.client).rbuf_head < fuel'
      → frames_loop os en fuel s ≡ frames_loop os en fuel' s
  unfolding frames_loop
  same_fuel zero fuel' s h k = absurd (omega (arith, h))
  same_fuel (suc fuel) zero s h k = absurd (omega (arith, k))
  same_fuel (suc fuel) (suc fuel') s h k =
      round (λ s2. frames_loop os en fuel s2) (λ s2. frames_loop os en fuel' s2) s
        (λ s2 lt. same_fuel fuel fuel' s2 (omega (arith, lt, h)) (omega (arith, lt, k)))

  -- the loop on the fuel that `read_frames` gives it
  abbrev pub whole_loop : S → Option S
  whole_loop s = frames_loop os en (suc (s.client).rbuf_head) s

  -- The loop does a turn and then itself on what is left: it never runs out of that fuel.
  pub whole_loop-turn : (s : S) → whole_loop s ≡ frames_round os en whole_loop s
  unfolding frames_loop
  whole_loop-turn s =
      round (λ s2. frames_loop os en (s.client).rbuf_head s2) whole_loop s
        (λ s2 lt. same_fuel (s.client).rbuf_head (suc (s2.client).rbuf_head) s2 lt (omega arith))

  -- The loop over the frames ends, since every turn that goes on consumes a byte: a function `loop`
  -- of a session that does one turn of it and then itself on what is left is determined on every
  -- session by this alone, and the loop on any fuel above `rbuf_head` gives what it gives.
  pub frames_loop_unique :
      (loop : S → Option S)
      → ((s : S) → loop s ≡ frames_round os en loop s)
      → (fuel : ℕ) (s : S) → (s.client).rbuf_head < fuel
      → frames_loop os en fuel s ≡ loop s
  frames_loop_unique loop law fuel s h = turns fuel loop law s h

  -- the state after a call that may not return
  abbrev Moved : S → Option S → Type 0
  Moved s none = Unit
  Moved s (some s') = Arrives (s.client).state (s'.client).state

  Moved-trans :
      (s s' : S) (o : Option S)
      → Arrives (s.client).state (s'.client).state
      → Moved s' o
      → Moved s o
  Moved-trans s s' none p q = tt
  Moved-trans s s' (some s2) p q = Arrives-trans p q

  slide_off-state : (n : ℕ) (s : S) → ((slide_off os en n s).client).state ≡ (s.client).state
  unfolding slide_off slide
  slide_off-state n s = refl

  handled-Arrives :
      (f : WsFrame) (s s1 : S)
      → on_frame os en f (with_rbuf os en f.rbuf s) ≡ some s1
      → Arrives (s.client).state ((slide_off os en (pos_part f.consumed) s1).client).state
  unfolding with_rbuf slide_off slide
  handled-Arrives f s s1 e = (on_frame-Served os en f (with_rbuf os en f.rbuf s) e).2

  after_parse-Moved :
      (more : S → Option S) (s : S) (p : Parsed)
      → ((s2 : S) → Moved s2 (more s2))
      → Moved s (after_parse os en more s p)
  unfolding after_parse with_rbuf with_state
  after_parse-Moved more s incomplete ih = stays
  after_parse-Moved more s protocol_error ih = breaks
  after_parse-Moved more s (parsed f) ih =
      let P = λ (o : Option S). Moved s o in
      if_ind P (eqb_ℤ f.consumed (pos 0)) (λ _. stays)
        (λ _.
          if_ind P (ltb_ℤ f.consumed (pos 0)) (λ _. breaks)
            (λ _. elim (Option-cases (on_frame os en f (with_rbuf os en f.rbuf s))) [
              | inl n ↦ rw n tt
              | inr (s1, e) ↦
                  let s2 = slide_off os en (pos_part f.consumed) s1 in
                  let q = handled-Arrives f s s1 e in
                  rw e (
                    if_ind P (state_code (s2.client).state == 6) (λ _. q)
                      (λ _. Moved-trans s s2 (more s2) q (ih s2)))
            ]))

  frames_loop-Moved : (fuel : ℕ) (s : S) → Moved s (frames_loop os en fuel s)
  unfolding frames_loop frames_round
  frames_loop-Moved zero s = tt
  frames_loop-Moved (suc fuel) s =
      if_ind (λ (o : Option S). Moved s o) ((s.client).rbuf_head == 0) (λ _. stays)
        (λ _. elim (Option-cases (ws_parse_frame (s.client).rbuf (s.client).rbuf_head)) [
          | inl n ↦ rw n tt
          | inr (p, e) ↦ rw e (
              after_parse-Moved (λ s2. frames_loop os en fuel s2) s p
                (λ s2. frames_loop-Moved fuel s2))
        ])

  read_frames-Moved : (s : S) → Moved s (read_frames os en s)
  unfolding read_frames
  read_frames-Moved s =
      if_ind (λ (o : Option S). Moved s o) (is_open (s.client).hs)
        (λ _. frames_loop-Moved (suc (s.client).rbuf_head) s) (λ _. stays)

  opened-Arrives : (end : ℕ) (s : S) → Arrives (s.client).state ((opened os en end s).client).state
  unfolding opened with_state
  opened-Arrives end s = waits

  upgraded-Moved : (end : ℕ) (s : S) → Moved s (upgraded os en end s)
  unfolding upgraded with_state
  upgraded-Moved end s =
      if_ind (λ (o : Option S). Moved s o) (got_101 (take end (s.client).rbuf))
        (λ _.
          Moved-trans s (opened os en end s) (read_frames os en (opened os en end s))
            (opened-Arrives end s) (read_frames-Moved (opened os en end s)))
        (λ _. breaks)

  if_complete-Moved : (end : Option ℕ) (s : S) → Moved s (if_complete os en end s)
  if_complete-Moved none s = stays
  if_complete-Moved (some end) s = upgraded-Moved end s

  read_upgrade-Moved : (s : S) → Moved s (read_upgrade os en s)
  unfolding read_upgrade
  read_upgrade-Moved s =
      if_ind (λ (o : Option S). Moved s o) (hs_code (s.client).hs == 2) (λ _. if_complete-Moved _ s)
        (λ _. read_frames-Moved s)

  after_recv-Moved : (r : RecvResult) (s : S) → Moved s (after_recv os en r s)
  unfolding with_state append_bytes
  after_recv-Moved recv_blocks s = stays
  after_recv-Moved recv_fails s = breaks
  after_recv-Moved (received []) s = breaks
  after_recv-Moved (received (x ∷ b)) s =
      read_upgrade-Moved (record s { client = append_bytes os en (x ∷ b) s.client })

  read_socket-Moved : (s : S) → Moved s (read_socket os en s)
  unfolding read_socket
  read_socket-Moved s =
      if_ind (λ (o : Option S). Moved s o) (leb 65536 (s.client).rbuf_head) (λ _. stays)
        (λ _.
          after_recv-Moved _
            (record s { world = (os.recv (s.client).fd (65536 - (s.client).rbuf_head) s.world).1 }))

  upgrade_sent :
      (r : SendResult) (s : S) → Arrives (s.client).state ((upgrade_answer os en r s).client).state
  unfolding with_state
  upgrade_sent (took n) s = stays
  upgrade_sent send_blocks s = breaks
  upgrade_sent send_fails s = breaks

  await_Arrives :
      (r : Poll) (s : S) → Arrives (s.client).state ((after_poll os en r s).client).state
  unfolding with_state send_http_upgrade
  await_Arrives pending s = stays
  await_Arrives writable s = upgrade_sent _ (record s { world = _ })
  await_Arrives refused s = breaks

  net_client_receive-Moved : (s : S) → Moved s (net_client_receive os en s)
  unfolding net_client_receive await_connect
  net_client_receive-Moved s =
      let P = λ (o : Option S). Moved s o in
      if_ind P (not (s.client).configured || ltb_ℤ (s.client).fd (pos 0)) (λ _. stays)
        (λ _.
          if_ind P (hs_code (s.client).hs == 1)
            (λ _.
              await_Arrives (os.poll (s.client).fd s.world).0
                (record s { world = (os.poll (s.client).fd s.world).1 }))
            (λ _. read_socket-Moved s))

  -- A call of `net_client_receive` leaves the state as it is or takes it to waiting, ready, ended or
  -- error, from whatever state it was in: it starts no fight and ends no error by going idle.
  pub net_client_receive-Arrives :
      (s : S) {s' : S}
      → net_client_receive os en s ≡ some s'
      → Arrives (s.client).state (s'.client).state
  net_client_receive-Arrives s {s'} e = subst (λ o. Moved s o) e (net_client_receive-Moved s)
