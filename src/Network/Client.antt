-- ===== src/Network/Client.antt =====
-- network/net_client.c: the state `g_ws`, and what is sent. A C string is the list of its bytes.
pub mod Dispatch
pub mod Receive
pub mod Connect
pub mod Wire
pub mod Sending
pub mod Loop
pub mod Moves
pub mod Intact
pub mod Calls
pub mod Opponent
pub mod Pieces
use fury_clash.Prelude.{
  ℕ, zero, suc, ◌+◌, ◌-◌, ◌/◌, ◌%◌, ◌^◌, ℤ, pos, negsuc, ltb_ℤ, leb_ℤ, ltb, leb, ◌==◌, Bool, true,
  false, not, ◌&&◌, ◌||◌, List, [], ◌∷◌, ◌++◌, length, drop, Option, none, some, ◌>>=◌,
  if◌then◌else◌,
}
use fury_clash.Prelude.Text.{crlf, codes, print_int}
use fury_clash.Network.Os.{Os, SendResult, took, send_blocks, send_fails}
use fury_clash.Network.Frame.{u8, u32, ws_encode_frame}
use fury_clash.Network.Rollback.{Engine, Rollback}

pub data NetState : Type 0 where
  net_idle net_connecting net_waiting net_ready net_fighting net_ended net_error : NetState

-- the enumeration's numbers
abbrev pub state_code : NetState → ℕ
state_code net_idle = 0
state_code net_connecting = 1
state_code net_waiting = 2
state_code net_ready = 3
state_code net_fighting = 4
state_code net_ended = 5
state_code net_error = 6

pub data WsHsState : Type 0 where
  hs_idle hs_tcp_conn hs_http_sent hs_open hs_closed : WsHsState

abbrev pub hs_code : WsHsState → ℕ
hs_code hs_idle = 0
hs_code hs_tcp_conn = 1
hs_code hs_http_sent = 2
hs_code hs_open = 3
hs_code hs_closed = 4

abbrev pub is_open : WsHsState → Bool
is_open hs = hs_code hs == 3

pub record NetMatchInfo : Type 0 where
  pub your_slot : ℤ
  pub p1_fighter : ℤ
  pub p2_fighter : ℤ
  pub room_id : List ℕ

pub record NetEndInfo : Type 0 where
  pub winner_slot : ℤ
  pub p1_rounds_won : ℤ
  pub p2_rounds_won : ℤ

-- `g_ws` without `stats`, which only `net_client_configure` writes.
pub record NetClient : Type 0 where
  pub fd : ℤ
  pub hs : WsHsState
  pub url : List ℕ
  pub host : List ℕ
  pub port : ℤ
  pub path : List ℕ
  pub room : List ℕ  -- room_id
  pub player_id : List ℕ
  pub slot : ℤ
  pub configured : Bool
  pub rbuf : List ℕ
  pub rbuf_head : ℕ
  pub state : NetState
  pub match_info : NetMatchInfo
  pub end_info : NetEndInfo
  pub network_mode : Bool
  pub opponent_loadout : ℤ

-- The bits of an `int`, as the cast `(uint32_t)` gives them.
abbrev pub bits32 : ℤ → ℕ
bits32 (pos n) = u32 n
bits32 (negsuc n) = 2 ^ 32 - 1 - u32 n

-- WS_SEND_BUF + 16
abbrev pub send_room : ℕ
send_room = 4112

abbrev pub msg_join : ℕ
msg_join = 0x01

abbrev pub msg_input : ℕ
msg_input = 0x02

abbrev pub msg_pong : ℕ
msg_pong = 0x03

abbrev pub msg_loadout : ℕ
msg_loadout = 0x04

unfoldable pub upgrade_request : NetClient → List ℕ
unfolding print_int
upgrade_request c =
    codes "GET "
    ++ (c.path
        ++ (codes " HTTP/1.1"
            ++ (crlf
                ++ (codes "Host: "
                    ++ (c.host
                        ++ (codes ":"
                            ++ (print_int c.port
                                ++ (crlf
                                    ++ (codes "Upgrade: websocket"
                                        ++ (crlf
                                            ++ (codes "Connection: Upgrade"
                                                ++ (crlf
                                                    ++ (codes
                                                          "Sec-WebSocket-Key: dGhlIHNhbXBsZSBub25jZQ=="
                                                        ++ (crlf
                                                            ++ (codes "Sec-WebSocket-Version: 13"
                                                            ++ (crlf ++ crlf))))))))))))))))

unfoldable pub join_json : NetClient → List ℕ
join_json c =
    codes "{\"roomId\":\""
    ++ (c.room
        ++ (codes "\",\"playerId\":\""
            ++ (c.player_id
                ++ (codes "\",\"token\":\"dev\",\"slot\":" ++ (print_int c.slot ++ codes "}")))))

-- the nine bytes of a CLIENT_INPUT
unfoldable pub input_message : ℤ → ℕ → List ℕ
input_message frame input =
    let f = bits32 frame in
    let seq = f % 2 ^ 16 in
    msg_input
    ∷ seq % 256
    ∷ u8 (seq / 2 ^ 8)
    ∷ f % 256
    ∷ f / 2 ^ 8 % 256
    ∷ f / 2 ^ 16 % 256
    ∷ f / 2 ^ 24 % 256
    ∷ input % 256
    ∷ u8 (input / 2 ^ 8)
    ∷ []

module _ (os : Os) (en : Engine) where
  open os use {World, send, close, ticks}

  -- `g_ws`, the outside world and the ring of rollback.c
  pub record Session : Type 0 where
    pub client : NetClient
    pub world : World
    pub ring : Rollback en.State

  unfoldable pub with_state : NetState → Session → Session
  with_state st s = record s { client = record (s.client) { state = st } }

  -- one round of the loop of `ws_send`, of which `x ∷ rest` is left to send
  unfoldable pub after_send :
      (List ℕ → Session → Session) → ℕ → List ℕ → SendResult → Session → Session
  after_send more x rest (took zero) s = with_state net_error s
  after_send more x rest (took (suc n)) s = more (drop n rest) s
  after_send more x rest send_blocks s = s
  after_send more x rest send_fails s = with_state net_error s

  -- The loop of `ws_send` over what is left of the frame. Each round but the last takes a byte, so
  -- that the frame's length is enough fuel.
  unfoldable pub send_loop : ℕ → List ℕ → Session → Session
  send_loop fuel [] s = s
  send_loop zero (x ∷ rest) s = s
  send_loop (suc fuel) (x ∷ rest) s =
      let r = send (s.client).fd (x ∷ rest) s.world in
      after_send (λ l s'. send_loop fuel l s') x rest r.0 (record s { world = r.1 })

  unfoldable pub ws_send : List ℕ → Session → Session
  ws_send payload s =
      let frame = ws_encode_frame (ticks s.world) payload in
      let sent = send_loop (length frame) frame s in
      if ltb_ℤ (s.client).fd (pos 0) || not (is_open (s.client).hs)
      then s
      else if ltb send_room (length payload + 16)
      then s
      else sent

  -- one `send`, of which only an error counts
  abbrev pub upgrade_answer : SendResult → Session → Session
  upgrade_answer (took n) s = s
  upgrade_answer send_blocks s = with_state net_error s
  upgrade_answer send_fails s = with_state net_error s

  unfoldable pub send_http_upgrade : Session → Session
  send_http_upgrade s =
      let r = send (s.client).fd (upgrade_request s.client) s.world in
      upgrade_answer r.0 (record s { world = r.1 })

  unfoldable pub send_client_join : Session → Session
  send_client_join s = ws_send (msg_join ∷ join_json s.client) s

  unfoldable pub net_client_send_input : ℤ → ℕ → Session → Session
  net_client_send_input frame input s =
      let st = state_code (s.client).state in
      let sent = ws_send (input_message frame input) s in
      if not (st == 4) && not (st == 3) then s else if not (is_open (s.client).hs) then s else sent

  unfoldable pub net_client_send_loadout : ℤ → Session → Session
  net_client_send_loadout loadout s =
      let sent = ws_send (msg_loadout ∷ bits32 loadout % 256 ∷ []) s in
      if not (is_open (s.client).hs) then s else sent

  unfoldable pub net_client_ack_start : Session → Session
  net_client_ack_start s = if state_code (s.client).state == 3 then with_state net_fighting s else s

  unfoldable pub close_frame : List ℕ
  close_frame = 0x88 ∷ 0x80 ∷ 0 ∷ 0 ∷ 0 ∷ 0 ∷ []

  -- `net_client_shutdown` is the same.
  unfoldable pub net_client_disconnect : Session → Session
  net_client_disconnect s =
      let (result, w) = send (s.client).fd close_frame s.world in
      let closed = record s {
        client = record (s.client) { fd = negsuc 0; hs = hs_closed; state = net_idle };
        world = close (s.client).fd w;
      } in
      if leb_ℤ (pos 0) (s.client).fd
      then closed
      else record s { client = record (s.client) { hs = hs_closed; state = net_idle } }

  unfoldable pub net_client_is_connected : Session → Bool
  net_client_is_connected s = let st = state_code (s.client).state in leb 2 st && leb st 4
