-- ===== src/Network/Client/Connect.antt =====
-- `net_client_configure` and `net_client_connect` of network/net_client.c. `none` is an overflow in
-- the port of the URL.
use fury_clash.Prelude.{
  ℕ, leb_ℤ, ◌==◌, ℤ, pos, negsuc, Bool, true, false, not, List, [], ◌∷◌, replicate, Option, none,
  some, ◌>>=◌, if◌then◌else◌,
}
use fury_clash.Network.Os.{Os, Opened, no_address, no_socket, connected, in_progress, rejected}
use fury_clash.Network.Url.{ParsedUrl, bad_url, url_parts, fit, parse_ws_url}
use fury_clash.Network.Frame.{ws_recv_buf}
use fury_clash.Network.Rollback.{Engine}
use fury_clash.Network.Client.{
  net_idle, net_connecting, net_error, state_code, hs_idle, hs_tcp_conn, hs_http_sent, WsHsState,
  NetClient, Session, with_state, send_http_upgrade,
}

-- a string that may be NULL
abbrev pub or_empty : Option (List ℕ) → List ℕ
or_empty none = []
or_empty (some s) = s

-- all zero bytes, then the fields that are set
unfoldable pub configured_client :
    Option (List ℕ) → Option (List ℕ) → Option (List ℕ) → ℤ → NetClient
configured_client url room_id player_id slot = record {
  fd = negsuc 0;
  hs = hs_idle;
  url = fit 256 (or_empty url);
  host = [];
  port = pos 0;
  path = [];
  room = fit 64 (or_empty room_id);
  player_id = fit 64 (or_empty player_id);
  slot = slot;
  configured = true;
  rbuf = replicate ws_recv_buf 0;
  rbuf_head = 0;
  state = net_idle;
  match_info = record { your_slot = pos 0; p1_fighter = pos 0; p2_fighter = pos 0; room_id = [] };
  end_info = record { winner_slot = pos 0; p1_rounds_won = pos 0; p2_rounds_won = pos 0 };
  network_mode = true;
  opponent_loadout = negsuc 0;
}

module _ (os : Os) (en : Engine) where
  open os use {World, dial, close}

  -- the URL's parts in `g_ws`, with the result of `parse_ws_url`
  abbrev pub with_url : ParsedUrl → Session os en → Bool × Session os en
  with_url bad_url s = (false, with_state os en net_error s)
  with_url (url_parts host port path) s =
      (true, record s { client = record (s.client) { host = host; port = port; path = path } })

  unfoldable pub take_url : List ℕ → Session os en → Option (Bool × Session os en)
  take_url url s = parse_ws_url 128 128 url >>= λ p. some (with_url p s)

  unfoldable pub net_client_configure :
      Option (List ℕ)
      → Option (List ℕ)
      → Option (List ℕ)
      → ℤ
      → Session os en
      → Option (Session os en)
  net_client_configure url room_id player_id slot s =
      let s' = record s { client = configured_client url room_id player_id slot } in
      elim url [ none ↦ some s' | some u ↦ take_url u s' >>= λ r. some r.1 ]

  unfoldable pub with_hs : WsHsState → Session os en → Session os en
  with_hs hs s = record s { client = record (s.client) { hs = hs } }

  unfoldable pub with_fd : ℤ → Session os en → Session os en
  with_fd fd s = record s { client = record (s.client) { fd = fd } }

  -- a socket that connects
  unfoldable pub start_on : ℕ → Session os en → Session os en
  start_on fd s = with_state os en net_connecting (with_fd (pos fd) s)

  -- what the DNS lookup, the socket and the connect gave
  abbrev pub after_open : Opened → Session os en → ℤ × Session os en
  after_open no_address s = (pos 0, with_state os en net_error s)
  after_open no_socket s = (pos 0, with_state os en net_error (with_fd (negsuc 0) s))
  after_open (connected fd) s =
      (pos 1, with_hs hs_http_sent (send_http_upgrade os en (start_on fd s)))
  after_open (in_progress fd) s = (pos 1, with_hs hs_tcp_conn (start_on fd s))
  after_open (rejected fd) s = (
    pos 0,
    with_state os en net_error
        (with_fd (negsuc 0) (record (start_on fd s) { world = close (pos fd) s.world })),
  )

  -- from the DNS lookup on
  unfoldable pub open_socket : Session os en → ℤ × Session os en
  open_socket s =
      let r = dial (s.client).host (s.client).port s.world in
      after_open r.0 (record s { world = r.1 })

  -- the URL is known
  unfoldable pub connect_known : Session os en → ℤ × Session os en
  connect_known s =
      let opened = open_socket s in
      if state_code (s.client).state == 6
      then (pos 0, s)
      else if leb_ℤ (pos 0) (s.client).fd
      then (pos 1, s)
      else opened

  -- `url && *url`
  abbrev pub override : Option (List ℕ) → Session os en → Option (Bool × Session os en)
  override none s = some (true, s)
  override (some []) s = some (true, s)
  override (some (c ∷ u)) s = take_url (c ∷ u) s

  unfoldable pub net_client_connect : Option (List ℕ) → Session os en → Option (ℤ × Session os en)
  net_client_connect url s =
      let fresh = net_client_configure url (some []) (some []) (pos 0) s in
      let first = fresh >>= λ s'. some (connect_known s') in
      let again = override url s >>= λ r. some (if r.0 then connect_known r.1 else (pos 0, r.1)) in
      if not (s.client).configured then first else again
