-- ===== src/Network/Client/Dispatch.antt =====
-- `dispatch_message` of network/net_client.c. The payload lies in `rbuf` from an offset on; `none`
-- is an access outside a buffer, or a number in a message that an `int` does not hold.
use fury_clash.Prelude.{
  ℕ, zero, suc, ◌+◌, ◌*◌, ◌^◌, ltb, leb, ◌==◌, bit_or, ℤ, pos, negsuc, List, [], ◌∷◌, take, drop,
  get_elem?, Option, none, some, ◌>>=◌, if◌then◌else◌,
}
use fury_clash.Prelude.Text.{codes, after_match, index_of, c_string}
use fury_clash.Network.Json.{json_int}
use fury_clash.Network.Os.{Os}
use fury_clash.Network.Frame.{to_int}
use fury_clash.Network.Rollback.{Engine, confirm_all}
use fury_clash.Network.Client.{
  net_waiting, net_ready, net_ended, net_error, NetMatchInfo, NetEndInfo, Session, with_state,
  ws_send, msg_pong,
}

-- the room's name, of which 63 bytes are kept; `old` stays where there is none
abbrev pub room_until : List ℕ → List ℕ → Option ℕ → List ℕ
room_until old ri none = old
room_until old ri (some n) = take (if ltb 63 n then 63 else n) ri

abbrev pub room_behind : List ℕ → Option (List ℕ) → List ℕ
room_behind old none = old
room_behind old (some ri) = room_until old ri (index_of b'"' ri)

unfoldable pub start_info : List ℕ → NetMatchInfo → Option NetMatchInfo
start_info json old = do
  slot ← json_int json (codes "yourSlot") (pos 0)
  p1 ← json_int json (codes "p1Fighter") (pos 0)
  p2 ← json_int json (codes "p2Fighter") (pos 1)
  some (record {
    your_slot = slot;
    p1_fighter = p1;
    p2_fighter = p2;
    room_id = room_behind old.room_id (after_match (codes "\"roomId\":\"") json);
  })

unfoldable pub match_end : List ℕ → Option NetEndInfo
match_end json = do
  winner ← json_int json (codes "winnerSlot") (negsuc 0)
  p1 ← json_int json (codes "p1RoundsWon") (pos 0)
  p2 ← json_int json (codes "p2RoundsWon") (pos 0)
  some (record { winner_slot = winner; p1_rounds_won = p1; p2_rounds_won = p2 })

-- the entry of a batch at an offset: the frame in four bytes, the input in two
unfoldable pub batch_entry : List ℕ → ℕ → Option (ℤ × ℕ)
batch_entry b p = do
  f0 ← get_elem? b p
  f1 ← get_elem? b (p + 1)
  f2 ← get_elem? b (p + 2)
  f3 ← get_elem? b (p + 3)
  i0 ← get_elem? b (p + 4)
  i1 ← get_elem? b (p + 5)
  some (
    to_int (bit_or (bit_or (bit_or f0 (f1 * 2 ^ 8)) (f2 * 2 ^ 16)) (f3 * 2 ^ 24)),
    bit_or i0 (i1 * 2 ^ 8),
  )

unfoldable pub batch_entries : List ℕ → ℕ → ℕ → Option (List (ℤ × ℕ))
batch_entries b zero p = some []
batch_entries b (suc count) p =
    batch_entry b p >>= λ e. batch_entries b count (p + 6) >>= λ es. some (e ∷ es)

module _ (os : Os) (en : Engine) where
  -- the JSON behind the type byte
  unfoldable pub message_json : ℕ → Session os en → Option (List ℕ)
  message_json payload s = c_string (s.client).rbuf (payload + 1)

  unfoldable pub on_start : ℕ → Session os en → Option (Session os en)
  on_start payload s = do
    json ← message_json payload s
    info ← start_info json (s.client).match_info
    some
        (with_state os en net_ready (record s { client = record (s.client) { match_info = info } }))

  unfoldable pub on_input_batch : ℕ → ℕ → Session os en → Option (Session os en)
  on_input_batch payload plen s =
      let entries = get_elem? (s.client).rbuf (payload + 3) >>= λ count.
      let confirmed = batch_entries (s.client).rbuf count (payload + 4) >>= λ es.
      confirm_all en es s.ring >>= λ r. some (record s { ring = r }) in
      if ltb plen (4 + count * 6) then some s else confirmed in
      if ltb plen 4 then some s else entries

  unfoldable pub on_ping : ℕ → ℕ → Session os en → Session os en
  on_ping payload plen s =
      let answered = ws_send os en (msg_pong ∷ take 8 (drop (payload + 1) (s.client).rbuf)) s in
      if ltb plen 9 then s else answered

  unfoldable pub on_match_end : ℕ → Session os en → Option (Session os en)
  on_match_end payload s = do
    json ← message_json payload s
    info ← match_end json
    some (with_state os en net_ended (record s { client = record (s.client) { end_info = info } }))

  unfoldable pub on_loadout : ℕ → ℕ → Session os en → Option (Session os en)
  on_loadout payload plen s =
      let read = get_elem? (s.client).rbuf (payload + 1) >>= λ x.
      some (record s { client = record (s.client) { opponent_loadout = pos x } }) in
      if leb 2 plen then read else some s

  -- the `switch` on the type; MSG_RECONNECT, MSG_DISCONNECT and the rest only log
  unfoldable pub dispatch_type : ℕ → ℕ → ℕ → Session os en → Option (Session os en)
  dispatch_type type payload plen s =
      if type == 0x10
      then some (with_state os en net_waiting s)
      else if type == 0x11
      then on_start payload s
      else if type == 0x12
      then on_input_batch payload plen s
      else if type == 0x14
      then some (on_ping payload plen s)
      else if type == 0x13
      then on_match_end payload s
      else if type == 0x15
      then some (with_state os en net_error s)
      else if type == 0x20
      then on_loadout payload plen s
      else some s

  unfoldable pub dispatch_message : ℕ → ℕ → Session os en → Option (Session os en)
  dispatch_message payload plen s =
      let dispatched =
        get_elem? (s.client).rbuf payload >>= λ type. dispatch_type type payload plen s in
      if ltb plen 1 then some s else dispatched
