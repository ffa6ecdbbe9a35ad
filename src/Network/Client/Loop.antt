-- ===== src/Network/Client/Loop.antt =====
-- The loop over the frames: no handler touches the bytes received, each round consumes one at
-- least, and the buffer is never left.
use fury_clash.Prelude.{
  ℕ, zero, suc, ◌+◌, ◌*◌, ◌≡◌, refl, inl, inr, ltb, leb, ◌==◌, ltb_ℤ, pos, not, ◌||◌, List, [], ◌∷◌,
  length, drop, get_elem?, Option, none, some, Option-cases, if_ind,
}
use mathlib.Core.Path.{subst}
use fury_clash.Network.Os.{Os, SendResult, took, send_blocks, send_fails}
use fury_clash.Network.Frame.{WsFrame, ws_encode_frame}
use fury_clash.Network.Rollback.{Engine, confirm_all}
use fury_clash.Network.Rollback.Entry.{confirm_all-size}
use fury_clash.Network.Client.{
  NetState, net_waiting, net_ready, net_ended, net_error, Session, with_state, after_send,
  send_loop, ws_send, is_open,
}
use fury_clash.Network.Client.Dispatch.{
  message_json, start_info, match_end, batch_entries, on_start, on_input_batch, on_ping,
  on_match_end, on_loadout, dispatch_type, dispatch_message,
}
use fury_clash.Network.Client.Receive.{ws_pong, on_frame}

-- Where what comes in from the server, or a failing socket, may take the state: not to
-- NET_FIGHTING, NET_IDLE or NET_CONNECTING, unless it is there.
pub data Arrives : NetState → NetState → Type 0 where
  stays : {a : NetState} → Arrives a a
  waits : {a : NetState} → Arrives a net_waiting
  starts : {a : NetState} → Arrives a net_ready
  ends : {a : NetState} → Arrives a net_ended
  breaks : {a : NetState} → Arrives a net_error

pub Arrives-trans : {a b c : NetState} → Arrives a b → Arrives b c → Arrives a c
Arrives-trans p stays = p
Arrives-trans p waits = waits
Arrives-trans p starts = starts
Arrives-trans p ends = ends
Arrives-trans p breaks = breaks

module _ (os : Os) (en : Engine) where
  abbrev S : Type 0
  S = Session os en

  -- the bytes received are the same, the state has moved as a message may move it, and the ring
  -- has its size
  abbrev pub Served : S → S → Type 0
  Served s s' =
      ((s'.client).rbuf ≡ (s.client).rbuf)
      × ((s'.client).rbuf_head ≡ (s.client).rbuf_head)
      × Arrives (s.client).state (s'.client).state
      × (length (s'.ring).buf ≡ length (s.ring).buf)

  after_send-Served :
      (more : List ℕ → S → S)
      → ((l : List ℕ) (s : S) → Served s (more l s))
      → (x : ℕ) (rest : List ℕ) (r : SendResult) (s : S)
      → Served s (after_send os en more x rest r s)
  unfolding after_send with_state
  after_send-Served more ih x rest (took zero) s = (refl, refl, breaks, refl)
  after_send-Served more ih x rest (took (suc n)) s = ih (drop n rest) s
  after_send-Served more ih x rest send_blocks s = (refl, refl, stays, refl)
  after_send-Served more ih x rest send_fails s = (refl, refl, breaks, refl)

  send_loop-Served : (fuel : ℕ) (l : List ℕ) (s : S) → Served s (send_loop os en fuel l s)
  unfolding send_loop
  send_loop-Served fuel [] s = (refl, refl, stays, refl)
  send_loop-Served zero (x ∷ rest) s = (refl, refl, stays, refl)
  send_loop-Served (suc fuel) (x ∷ rest) s =
      after_send-Served (λ l s'. send_loop os en fuel l s') (λ l s'. send_loop-Served fuel l s') x
        rest (os.send (s.client).fd (x ∷ rest) s.world).0
        (record s { world = (os.send (s.client).fd (x ∷ rest) s.world).1 })

  pub ws_send-Served : (payload : List ℕ) (s : S) → Served s (ws_send os en payload s)
  unfolding ws_send
  ws_send-Served payload s =
      let frame = ws_encode_frame (os.ticks s.world) payload in
      let stay : Served s s = (refl, refl, stays, refl) in
      if_ind (λ s'. Served s s') (ltb_ℤ (s.client).fd (pos 0) || not (is_open (s.client).hs))
        (λ _. stay)
        (λ _.
          if_ind (λ s'. Served s s') (ltb 4112 (length payload + 16)) (λ _. stay)
            (λ _. send_loop-Served (length frame) frame s))

  -- Whatever a handler returns, it has the bytes received, and its state was arrived at.
  abbrev Keeps : S → Option S → Type 0
  Keeps s none = Unit
  Keeps s (some s') = Served s s'

  on_start-Keeps : (p : ℕ) (s : S) → Keeps s (on_start os en p s)
  unfolding on_start with_state
  on_start-Keeps p s = elim (Option-cases (message_json os en p s)) [
    | inl n ↦ rw n tt
    | inr (json, e) ↦ elim (Option-cases (start_info json (s.client).match_info)) [
      | inl n ↦ rw (e, n) tt
      | inr (info, k) ↦ rw (e, k) (refl, refl, starts, refl)
    ]
  ]

  on_match_end-Keeps : (p : ℕ) (s : S) → Keeps s (on_match_end os en p s)
  unfolding on_match_end with_state
  on_match_end-Keeps p s = elim (Option-cases (message_json os en p s)) [
    | inl n ↦ rw n tt
    | inr (json, e) ↦ elim (Option-cases (match_end json)) [
      | inl n ↦ rw (e, n) tt
      | inr (info, k) ↦ rw (e, k) (refl, refl, ends, refl)
    ]
  ]

  on_input_batch-Keeps : (p plen : ℕ) (s : S) → Keeps s (on_input_batch os en p plen s)
  unfolding on_input_batch
  on_input_batch-Keeps p plen s =
      let P = λ (o : Option S). Keeps s o in
      if_ind P (ltb plen 4) (λ _. (refl, refl, stays, refl))
        (λ _. elim (Option-cases (get_elem? (s.client).rbuf (p + 3))) [
          | inl n ↦ rw n tt
          | inr (count, e) ↦ rw e (
              if_ind P (ltb plen (4 + count * 6)) (λ _. (refl, refl, stays, refl))
                (λ _. elim (Option-cases (batch_entries (s.client).rbuf count (p + 4))) [
                  | inl n ↦ rw n tt
                  | inr (es, k) ↦ elim (Option-cases (confirm_all en es s.ring)) [
                    | inl n ↦ rw (k, n) tt
                    | inr (r, q) ↦ rw (k, q) (refl, refl, stays, confirm_all-size en es s.ring q)
                  ]
                ]))
        ])

  on_loadout-Keeps : (p plen : ℕ) (s : S) → Keeps s (on_loadout os en p plen s)
  unfolding on_loadout
  on_loadout-Keeps p plen s =
      if_ind (λ (o : Option S). Keeps s o) (leb 2 plen)
        (λ _. elim (Option-cases (get_elem? (s.client).rbuf (p + 1))) [
          | inl n ↦ rw n tt
          | inr (x, e) ↦ rw e (refl, refl, stays, refl)
        ])
        (λ _. (refl, refl, stays, refl))

  on_ping-Served : (p plen : ℕ) (s : S) → Served s (on_ping os en p plen s)
  unfolding on_ping
  on_ping-Served p plen s =
      if_ind (λ (s' : S). Served s s') (ltb plen 9) (λ _. (refl, refl, stays, refl))
        (λ _. ws_send-Served _ s)

  dispatch_type-Keeps : (t p plen : ℕ) (s : S) → Keeps s (dispatch_type os en t p plen s)
  unfolding dispatch_type with_state
  dispatch_type-Keeps t p plen s =
      let P = λ (o : Option S). Keeps s o in
      if_ind P (t == 0x10) (λ _. (refl, refl, waits, refl))
        (λ _.
          if_ind P (t == 0x11) (λ _. on_start-Keeps p s)
            (λ _.
              if_ind P (t == 0x12) (λ _. on_input_batch-Keeps p plen s)
                (λ _.
                  if_ind P (t == 0x14) (λ _. on_ping-Served p plen s)
                    (λ _.
                      if_ind P (t == 0x13) (λ _. on_match_end-Keeps p s)
                        (λ _.
                          if_ind P (t == 0x15) (λ _. (refl, refl, breaks, refl))
                            (λ _.
                              if_ind P (t == 0x20) (λ _. on_loadout-Keeps p plen s)
                                (λ _. (refl, refl, stays, refl))))))))

  dispatch_message-Keeps : (p plen : ℕ) (s : S) → Keeps s (dispatch_message os en p plen s)
  unfolding dispatch_message
  dispatch_message-Keeps p plen s =
      if_ind (λ (o : Option S). Keeps s o) (ltb plen 1) (λ _. (refl, refl, stays, refl))
        (λ _. elim (Option-cases (get_elem? (s.client).rbuf p)) [
          | inl n ↦ rw n tt
          | inr (t, e) ↦ rw e (dispatch_type-Keeps t p plen s)
        ])

  on_frame-Keeps : (f : WsFrame) (s : S) → Keeps s (on_frame os en f s)
  unfolding on_frame ws_pong with_state
  on_frame-Keeps f s =
      let P = λ (o : Option S). Keeps s o in
      if_ind P (f.opcode == 1 || f.opcode == 2) (λ _. dispatch_message-Keeps f.payload f.plen s)
        (λ _.
          if_ind P (f.opcode == 8) (λ _. (refl, refl, breaks, refl))
            (λ _.
              if_ind P (f.opcode == 9) (λ _. (refl, refl, stays, refl))
                (λ _. (refl, refl, stays, refl))))

  pub on_frame-Served : (f : WsFrame) (s : S) {s' : S} → on_frame os en f s ≡ some s' → Served s s'
  on_frame-Served f s {s'} e = subst (λ o. Keeps s o) e (on_frame-Keeps f s)
