-- ===== src/Lobby.antt =====
-- The lobby of main.c: its text fields and its keyboard, over the WebSocket client. Calls of SDL
-- that show or hide the on-screen keyboard are left out. `none` is that of `net_client_configure`.
pub mod Fields
pub mod Create
pub mod Touch
pub mod Codes
pub mod Kept
use fury_clash.Prelude.{
  ℕ, ◌+◌, ◌-◌, ltb, leb, ◌==◌, ℤ, pos, Bool, true, false, not, ◌&&◌, ◌||◌, List, [], ◌∷◌, ◌++◌,
  length, take, map, Option, none, some, ◌>>=◌, if◌then◌else◌,
}
use fury_clash.Prelude.Text.{codes}
use fury_clash.Network.Os.{Os}
use fury_clash.Network.Rollback.{Engine}
use fury_clash.Network.Client.{Session, net_client_disconnect, net_client_send_loadout}
use fury_clash.Network.Client.Connect.{net_client_configure, net_client_connect}

pub data LobbySubState : Type 0 where
  ls_setup ls_role ls_creating ls_show_code ls_enter_code ls_waiting ls_loadout ls_ready :
      LobbySubState

pub data LobbyField : Type 0 where
  lf_server lf_code : LobbyField

-- `g_lobby`; a text is the list of its bytes.
pub record Lobby : Type 0 where
  pub sub : LobbySubState
  pub server_url : List ℕ
  pub room_code : List ℕ
  pub code_input : List ℕ
  pub is_p1 : Bool
  pub my_loadout : ℤ
  pub loadout_sent : Bool
  pub local_mode : Bool
  pub active_field : LobbyField
  pub pending_text_input : Bool
  pub error_msg : List ℕ

-- The keys that the code names, and any other.
pub data Key : Type 0 where
  key_backspace key_return key_kp_enter key_escape key_1 key_2 key_3 key_f key_r key_space
        key_other :
      Key

-- FC_IOS_SERVER_URL where the build does not set another
abbrev pub default_url : List ℕ
default_url = codes "ws://192.168.1.100:3002"

unfoldable pub lobby_init : Lobby
lobby_init = record {
  sub = ls_setup;
  server_url = default_url;
  room_code = [];
  code_input = [];
  is_p1 = false;
  my_loadout = pos 0;
  loadout_sent = false;
  local_mode = false;
  active_field = lf_server;
  pending_text_input = false;
  error_msg = [];
}

unfoldable pub lobby_field_append : List ℕ → ℕ → List ℕ → List ℕ
lobby_field_append buf maxlen text =
    if ltb (length buf + length text) (maxlen - 1) then buf ++ text else buf

unfoldable pub lobby_field_backspace : List ℕ → List ℕ
lobby_field_backspace buf = take (length buf - 1) buf

-- a lower-case letter in upper case
abbrev pub to_upper : ℕ → ℕ
to_upper c = if leb b'a' c && leb c b'z' then c - 32 else c

-- at most 15 bytes of the text
unfoldable pub upper_text : List ℕ → List ℕ
upper_text text = map to_upper (take 15 text)

abbrev pub text_in : LobbySubState → List ℕ → Lobby → Lobby
text_in ls_setup text l = record l { server_url = lobby_field_append l.server_url 128 text }
text_in ls_enter_code text l =
    if ltb (length l.code_input) 6
    then record l { code_input = lobby_field_append l.code_input 8 (upper_text text) }
    else l
text_in _ text l = l

unfoldable pub lobby_handle_text_input : List ℕ → Lobby → Lobby
lobby_handle_text_input text l = text_in l.sub text l

-- backspace in the field of the screen
abbrev pub backspace_in : LobbySubState → Lobby → Lobby
backspace_in ls_setup l = record l { server_url = lobby_field_backspace l.server_url }
backspace_in ls_enter_code l = record l { code_input = lobby_field_backspace l.code_input }
backspace_in _ l = l

-- `server_url[0]`
abbrev pub is_empty : List ℕ → Bool
is_empty [] = true
is_empty (c ∷ s) = false

-- the shortcuts of the role screen
abbrev pub role_key : LobbySubState → Key → Lobby → Lobby
role_key ls_role key_1 l = record l { sub = ls_creating }
role_key ls_role key_2 l = record l { sub = ls_enter_code; active_field = lf_code }
role_key ls_role key_3 l = record l { local_mode = true; sub = ls_loadout }
role_key _ _ l = l

-- `my_loadout == 0`
abbrev pub is_unset : ℤ → Bool
is_unset (pos n) = n == 0
is_unset _ = false

module _ (os : Os) (en : Engine) where
  abbrev Net : Type 0
  Net = Session os en

  unfoldable pub lobby_join_room : Lobby × Net → Option (Lobby × Net)
  lobby_join_room (l, s) =
      let player_id = take 15 (l.code_input ++ codes "P2") in
      let room_code = take 7 l.code_input in
      let joined =
        net_client_configure os en (some l.server_url) (some room_code) (some player_id) (pos 1) s
        >>= λ s1. net_client_connect os en none s1 >>= λ r. some (
          record l { room_code = room_code; is_p1 = false; sub = ls_waiting; error_msg = [] },
          r.1,
        ) in
      if is_empty l.code_input then some (l, s) else joined

  -- return or enter
  abbrev pub enter_in : LobbySubState → Lobby × Net → Option (Lobby × Net)
  enter_in ls_setup (l, s) =
      some ((if is_empty l.server_url then l else record l { sub = ls_role }), s)
  enter_in ls_enter_code p = lobby_join_room p
  enter_in _ p = some p

  abbrev pub escape_in : LobbySubState → Lobby × Net → Lobby × Net
  escape_in ls_enter_code (l, s) = (record l { sub = ls_role }, s)
  escape_in ls_role (l, s) = (record l { sub = ls_setup }, s)
  escape_in ls_show_code (l, s) = (record l { sub = ls_role }, net_client_disconnect os en s)
  escape_in ls_waiting (l, s) = (record l { sub = ls_role }, net_client_disconnect os en s)
  escape_in _ p = p

  -- a loadout chosen with a key: it is sent unless the play is local
  unfoldable pub choose_loadout : ℤ → Lobby × Net → Lobby × Net
  choose_loadout lt (l, s) =
      if is_unset l.my_loadout
      then (if l.local_mode then (record l { my_loadout = lt }, s) else (
        record l { my_loadout = lt; loadout_sent = true },
        net_client_send_loadout os en lt s,
      ))
      else (l, s)

  abbrev pub loadout_key : LobbySubState → Key → Lobby × Net → Lobby × Net
  loadout_key ls_loadout key_f p = if p.0.loadout_sent then p else choose_loadout (pos 1) p
  loadout_key ls_loadout key_r p = if p.0.loadout_sent then p else choose_loadout (pos 2) p
  loadout_key _ _ p = p

  -- backspace, enter and escape
  abbrev pub edit_key : Key → Lobby × Net → Option (Lobby × Net)
  edit_key key_backspace (l, s) = some (backspace_in l.sub l, s)
  edit_key key_return (l, s) = enter_in l.sub (l, s)
  edit_key key_kp_enter (l, s) = enter_in l.sub (l, s)
  edit_key key_escape (l, s) = some (escape_in l.sub (l, s))
  edit_key _ p = some p

  unfoldable pub lobby_handle_key : Key → Lobby × Net → Option (Lobby × Net)
  lobby_handle_key key p = edit_key key p >>= λ q.
      let l = role_key q.0.sub key q.0 in some (loadout_key l.sub key (l, q.1))
