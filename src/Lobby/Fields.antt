-- ===== src/Lobby/Fields.antt =====
-- The text fields stay inside their buffers.
use fury_clash.Prelude.{ℕ, ◌+◌, ◌-◌, ◌≤◌, ltb, List, length, length-append, if_ind, arith}
use fury_clash.Lobby.{
  Lobby, LobbySubState, ls_setup, ls_role, ls_creating, ls_show_code, ls_enter_code, ls_waiting,
  ls_loadout, ls_ready, lobby_field_append, upper_text, text_in, lobby_handle_text_input,
}

append-le :
    (buf text : List ℕ) (maxlen : ℕ)
    → length buf + 2 ≤ maxlen
    → length (lobby_field_append buf maxlen text) + 2 ≤ maxlen
unfolding lobby_field_append
append-le buf text maxlen h =
    if_ind (λ (b : List ℕ). length b + 2 ≤ maxlen) (ltb (length buf + length text) (maxlen - 1))
      (λ t. ground (arith, length-append buf text)) (λ _. h)

-- Both fields leave room for the NUL
abbrev pub HasFields : Lobby → Type 0
HasFields l = (length l.server_url + 2 ≤ 128) × (length l.code_input + 2 ≤ 8)

text_in-HasFields :
    (sub : LobbySubState) (text : List ℕ) (l : Lobby) → HasFields l → HasFields (text_in sub text l)
text_in-HasFields ls_setup text l (u, c) = (append-le l.server_url text 128 u, c)
text_in-HasFields ls_enter_code text l (u, c) =
    if_ind HasFields (ltb (length l.code_input) 6)
      (λ _. (u, append-le l.code_input (upper_text text) 8 c)) (λ _. (u, c))
text_in-HasFields ls_role text l h = h
text_in-HasFields ls_creating text l h = h
text_in-HasFields ls_show_code text l h = h
text_in-HasFields ls_waiting text l h = h
text_in-HasFields ls_loadout text l h = h
text_in-HasFields ls_ready text l h = h

-- Typed or pasted text of any length, on any screen, leaves the server's URL at most 126 bytes long
-- and the code at most 6, so that both fit their buffers with the NUL.
pub lobby_handle_text_input-HasFields :
    (text : List ℕ) (l : Lobby) → HasFields l → HasFields (lobby_handle_text_input text l)
unfolding lobby_handle_text_input
lobby_handle_text_input-HasFields text l h = text_in-HasFields l.sub text l h
