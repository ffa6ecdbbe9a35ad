-- ===== src/Lobby/Touch.antt =====
-- `lobby_handle_touch` of main.c. The calls that stop the on-screen keyboard are left out.
use fury_clash.Prelude.{ℕ, ℤ, pos, Bool, true, ◌&&◌, Option, some, ◌>>=◌, if◌then◌else◌}
use fury_clash.Floats.{Floats}
use fury_clash.Network.Os.{Os}
use fury_clash.Network.Rollback.{Engine}
use fury_clash.Network.Client.{Session, net_client_send_loadout}
use fury_clash.Lobby.{
  Lobby, LobbySubState, ls_setup, ls_role, ls_creating, ls_enter_code, ls_loadout, lf_server,
  lf_code, is_empty, lobby_join_room,
}

module _ (fl : Floats) where
  open fl use {Float, fle, of_int}

  -- `tx >= x0 && tx <= x1 && ty >= y0 && ty <= y1`
  unfoldable pub inside : ℕ → ℕ → ℕ → ℕ → Float → Float → Bool
  inside x0 x1 y0 y1 tx ty =
      (fle (of_int (pos x0)) tx && fle tx (of_int (pos x1)))
      && (fle (of_int (pos y0)) ty && fle ty (of_int (pos y1)))

  -- the URL field and the Next button
  unfoldable pub setup_touch : Float → Float → Lobby → Lobby
  setup_touch tx ty l =
      if inside 160 1120 220 290 tx ty
      then record l { active_field = lf_server; pending_text_input = true }
      else if inside 490 790 380 450 tx ty
      then (if is_empty l.server_url then l else record l { sub = ls_role })
      else l

  unfoldable pub create_button : Float → Float → Lobby → Lobby
  create_button tx ty l = if inside 100 440 300 390 tx ty then record l { sub = ls_creating } else l

  unfoldable pub join_button : Float → Float → Lobby → Lobby
  join_button tx ty l =
      if inside 480 820 300 390 tx ty
      then record l { sub = ls_enter_code; active_field = lf_code; pending_text_input = true }
      else l

  unfoldable pub local_button : Float → Float → Lobby → Lobby
  local_button tx ty l =
      if inside 860 1180 300 390 tx ty then record l { local_mode = true; sub = ls_loadout } else l

  unfoldable pub role_touch : Float → Float → Lobby → Lobby
  role_touch tx ty l = local_button tx ty (join_button tx ty (create_button tx ty l))

  module _ (os : Os) (en : Engine) where
    abbrev Net : Type 0
    Net = Session os en

    abbrev pub back_button : Float → Float → Lobby × Net → Lobby × Net
    back_button tx ty (l, s) =
        ((if inside 120 320 390 460 tx ty then record l { sub = ls_role } else l), s)

    unfoldable pub code_touch : Float → Float → Lobby × Net → Option (Lobby × Net)
    code_touch tx ty (l, s) =
        let joined = lobby_join_room os en (l, s) in
        let pressed = (if inside 480 800 390 460 tx ty then joined else some (l, s)) >>= λ p.
        some (back_button tx ty p) in
        if inside 340 940 270 340 tx ty
        then some (record l { active_field = lf_code; pending_text_input = true }, s)
        else pressed

    -- a press of a loadout button; unlike a key it may change a loadout that is not sent
    unfoldable pub pick_loadout : ℤ → Lobby × Net → Lobby × Net
    pick_loadout lt (l, s) =
        if l.loadout_sent
        then (l, s)
        else if l.local_mode
        then (record l { my_loadout = lt }, s)
        else (record l { my_loadout = lt; loadout_sent = true }, net_client_send_loadout os en lt s)

    unfoldable pub fire_button : Float → Float → Lobby × Net → Lobby × Net
    fire_button tx ty p = if inside 160 540 260 390 tx ty then pick_loadout (pos 1) p else p

    unfoldable pub frost_button : Float → Float → Lobby × Net → Lobby × Net
    frost_button tx ty p = if inside 740 1120 260 390 tx ty then pick_loadout (pos 2) p else p

    -- what is pressed on a screen
    abbrev pub touch_in : Float → Float → LobbySubState → Lobby × Net → Option (Lobby × Net)
    touch_in tx ty ls_setup (l, s) = some (setup_touch tx ty l, s)
    touch_in tx ty ls_role (l, s) = some (role_touch tx ty l, s)
    touch_in tx ty ls_enter_code p = code_touch tx ty p
    touch_in tx ty ls_loadout p = some (frost_button tx ty (fire_button tx ty p))
    touch_in tx ty _ p = some p

    unfoldable pub lobby_handle_touch : Float → Float → Lobby × Net → Option (Lobby × Net)
    lobby_handle_touch tx ty (l, s) = touch_in tx ty l.sub (l, s)
