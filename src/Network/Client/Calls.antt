-- ===== src/Network/Client/Calls.antt =====
-- What the game calls of the client leaves the receive buffer and the ring intact.
use fury_clash.Prelude.{
  ℕ, leb_ℤ, ◌==◌, ℤ, pos, not, ◌&&◌, List, [], length-replicate, Option, none, some, if_ind, OnSome,
  Option-cases, inl, inr, arith,
}
use mathlib.Core.Path.{subst}
use fury_clash.Network.Os.{Os, Opened, no_address, no_socket, connected, in_progress, rejected}
use fury_clash.Network.Url.{ParsedUrl, bad_url, url_parts, parse_ws_url}
use fury_clash.Network.Rollback.{Engine}
use fury_clash.Network.Client.{
  state_code, is_open, Session, with_state, net_client_send_input, net_client_send_loadout,
  net_client_ack_start, net_client_disconnect,
}
use fury_clash.Network.Client.Connect.{
  configured_client, with_url, take_url, start_on, after_open, net_client_configure, with_hs,
  with_fd, open_socket, connect_known, net_client_connect,
}
use fury_clash.Network.Client.Intact.{IsBuffered, IsIntact, ws_send-IsIntact, http_upgrade-IsIntact}

module _ (os : Os) (en : Engine) where
  abbrev S : Type 0
  S = Session os en

  abbrev Good : S → Type 0
  Good s = IsIntact os en s

  configured-IsBuffered :
      (url room id : Option (List ℕ)) (slot : ℤ) → IsBuffered (configured_client url room id slot)
  unfolding configured_client
  configured-IsBuffered url room id slot = (length-replicate {A = ℕ} 65536 0, omega arith)

  with_url-kept : (p : ParsedUrl) (s : S) → Good s → Good (with_url os en p s).1
  unfolding with_state
  with_url-kept bad_url s h = h
  with_url-kept (url_parts host port path) s h = h

  take_url-kept : (url : List ℕ) (s : S) → Good s → OnSome (λ r. Good r.1) (take_url os en url s)
  unfolding take_url
  take_url-kept url s h = elim (Option-cases (parse_ws_url 128 128 url)) [
    | inl n ↦ rw n tt
    | inr (p, e) ↦ rw e (with_url-kept p s h)
  ]

  pub configure-kept :
      (url room id : Option (List ℕ)) (slot : ℤ) (s : S)
      → Good s
      → OnSome Good (net_client_configure os en url room id slot s)
  unfolding net_client_configure
  configure-kept none room id slot s h = (configured-IsBuffered none room id slot, h.1)
  configure-kept (some u) room id slot s h =
      let s' : S = record s { client = configured_client (some u) room id slot } in
      let g = take_url-kept u s' (configured-IsBuffered (some u) room id slot, h.1) in
      elim (Option-cases (take_url os en u s')) [
        | inl n ↦ rw n tt
        | inr (r, e) ↦ rw e (subst (OnSome (λ r. Good r.1)) e g)
      ]

  start_on-kept : (fd : ℕ) (s : S) → Good s → Good (start_on os en fd s)
  unfolding start_on with_state with_fd
  start_on-kept fd s h = h

  after_open-kept : (r : Opened) (s : S) → Good s → Good (after_open os en r s).1
  unfolding with_state with_fd with_hs
  after_open-kept no_address s h = h
  after_open-kept no_socket s h = h
  after_open-kept (connected fd) s h =
      http_upgrade-IsIntact os en (start_on os en fd s) (start_on-kept fd s h)
  after_open-kept (in_progress fd) s h = start_on-kept fd s h
  after_open-kept (rejected fd) s h = start_on-kept fd s h

  connect_known-kept : (s : S) → Good s → Good (connect_known os en s).1
  unfolding connect_known open_socket
  connect_known-kept s h =
      let P = λ (r : ℤ × S). Good r.1 in
      let r = os.dial (s.client).host (s.client).port s.world in
      if_ind P (state_code (s.client).state == 6) (λ _. h)
        (λ _.
          if_ind P (leb_ℤ (pos 0) (s.client).fd) (λ _. h)
            (λ _. after_open-kept r.0 (record s { world = r.1 }) h))

  -- `net_client_connect(NULL)`
  pub connect-kept : (s : S) → Good s → OnSome (λ r. Good r.1) (net_client_connect os en none s)
  unfolding net_client_connect
  connect-kept s h =
      let g = configure-kept none (some []) (some []) (pos 0) s h in
      if_ind (OnSome (λ (r : ℤ × S). Good r.1)) (not (s.client).configured)
        (λ _. elim (Option-cases (net_client_configure os en none (some []) (some []) (pos 0) s)) [
          | inl n ↦ rw n tt
          | inr (s', e) ↦ rw e (connect_known-kept s' (subst (OnSome Good) e g))
        ])
        (λ _. connect_known-kept s h)

  pub send_loadout-kept : (lt : ℤ) (s : S) → Good s → Good (net_client_send_loadout os en lt s)
  unfolding net_client_send_loadout
  send_loadout-kept lt s h =
      if_ind Good (not (is_open (s.client).hs)) (λ _. h) (λ _. ws_send-IsIntact os en _ s h)

  pub send_input-kept :
      (frame : ℤ) (input : ℕ) (s : S) → Good s → Good (net_client_send_input os en frame input s)
  unfolding net_client_send_input
  send_input-kept frame input s h =
      let st = state_code (s.client).state in
      if_ind Good (not (st == 4) && not (st == 3)) (λ _. h)
        (λ _.
          if_ind Good (not (is_open (s.client).hs)) (λ _. h) (λ _. ws_send-IsIntact os en _ s h))

  pub ack_start-kept : (s : S) → Good s → Good (net_client_ack_start os en s)
  unfolding net_client_ack_start with_state
  ack_start-kept s h = if_ind Good (state_code (s.client).state == 3) (λ _. h) (λ _. h)

  pub disconnect-kept : (s : S) → Good s → Good (net_client_disconnect os en s)
  unfolding net_client_disconnect
  disconnect-kept s h = if_ind Good (leb_ℤ (pos 0) (s.client).fd) (λ _. h) (λ _. h)
