-- ===== src/Render/Lobby.antt =====
-- `draw_field`, `draw_button` and `render_lobby` of main.c. The time of SDL_GetTicks, which a screen
-- asks for once at most, is an argument.
use fury_clash.Prelude.{
  ℕ, ◌+◌, ◌/◌, ◌%◌, ◌==◌, ltb_ℤ, eqb_ℤ, ℤ, pos, Bool, true, false, not, ◌&&◌, List, [], ◌∷◌, ◌++◌,
  length, take, if◌then◌else◌,
}
use fury_clash.Prelude.Text.{codes}
use fury_clash.Floats.{Floats, whole}
use fury_clash.Network.Client.{NetState, state_code}
use fury_clash.Lobby.{
  Lobby, LobbySubState, ls_setup, ls_role, ls_creating, ls_show_code, ls_enter_code, ls_waiting,
  ls_loadout, ls_ready, LobbyField, lf_server, lf_code, is_empty,
}
use fury_clash.Render.{Draw, color, fill, outline, text, rect, text_at, dots, dot_count}

-- `g_lobby.active_field == LF_SERVER`
abbrev pub in_server : LobbyField → Bool
in_server lf_server = true
in_server lf_code = false

-- `(ticks / period) % 2`
abbrev pub blinks : ℕ → ℕ → Bool
blinks period ticks = not ((ticks / period % 2) == 0)

-- `g_lobby.sub > LS_ROLE`
abbrev pub past_role : LobbySubState → Bool
past_role ls_setup = false
past_role ls_role = false
past_role _ = true

module _ (fl : Floats) where
  open fl use {Float, lit, of_int, add, sub, mul}

  unfoldable pub draw_field : ℕ → ℕ → ℕ → ℕ → List ℕ → List ℕ → Bool → ℕ → List (Draw Float)
  draw_field x y w h label value active ticks =
      let left = add (of_int (pos x)) (of_int (pos 10)) in
      let cursor = if active && blinks 500 ticks then codes "|" else [] in
      color (if active then 60 else 30) (if active then 90 else 50) (if active then 180 else 100)
        255
      ∷ fill (rect fl x y w h)
      ∷ color (if active then 160 else 80) (if active then 200 else 120) 255 255
      ∷ outline (rect fl x y w h)
      ∷ color 180 180 180 255
      ∷ text left (add (of_int (pos y)) (of_int (pos 8))) label
      ∷ color 255 255 255 255
      ∷ text left (add (of_int (pos y)) (of_int (pos 28))) (value ++ cursor)
      ∷ []

  unfoldable pub draw_button : ℕ → ℕ → ℕ → ℕ → List ℕ → ℕ × ℕ × ℕ → List (Draw Float)
  draw_button x y w h label (r, g, b) =
      let lw = mul (of_int (pos (length label))) (whole fl 8) in
      let half = lit (pos 5) 1 in
      color r g b 255
      ∷ fill (rect fl x y w h)
      ∷ color 255 255 255 255
      ∷ text (add (of_int (pos x)) (mul (sub (of_int (pos w)) lw) half))
          (sub (add (of_int (pos y)) (mul (of_int (pos h)) half)) (of_int (pos 4))) label
      ∷ []

  unfoldable pub render_setup : ℕ → Lobby → List (Draw Float)
  render_setup ticks l =
      color 200 200 200 255
      ∷ text_at fl 160 200 (codes "Server URL:")
      ∷ (draw_field 160 220 960 70 [] l.server_url (in_server l.active_field) ticks
          ++ (color 160 160 160 255
              ∷ text_at fl 160 305 (codes "e.g.  ws://192.168.1.100:3002")
              ∷ draw_button 490 380 300 70 (codes "Next  ->") (50, 120, 200)))

  unfoldable pub render_role : Lobby → List (Draw Float)
  render_role l =
      color 200 200 200 255
      ∷ text_at fl 420 220 (codes "Choose your role:")
      ∷ (draw_button 100 300 340 90 (codes "Create Room  (P1)") (40, 100, 200)
          ++ (draw_button 480 300 340 90 (codes "Join Room   (P2)") (200, 80, 60)
              ++ (draw_button 860 300 320 90 (codes "Local Play") (50, 140, 60)
                  ++ (color 140 140 140 255
                      ∷ text_at fl 160 430 (codes "Server: " ++ l.server_url)
                      ∷ []))))

  unfoldable pub render_creating : ℕ → List (Draw Float)
  render_creating ticks =
      color 200 200 200 255
      ∷ text_at fl 480 340 (codes "Creating room" ++ dots (dot_count 300 ticks) 3)
      ∷ []

  -- the characters of the room code from the `i`-th on
  unfoldable pub draw_code : ℕ → List ℕ → List (Draw Float)
  draw_code i [] = []
  draw_code i (c ∷ cs) =
      text (add (whole fl 370) (mul (of_int (pos i)) (whole fl 90))) (whole fl 286) (c ∷ [])
      ∷ draw_code (i + 1) cs

  -- what the connection of P1 is waiting for
  unfoldable pub code_status : NetState → ℕ → List (Draw Float)
  code_status ns ticks =
      if state_code ns == 2
      then text_at fl 390 400 (codes "Waiting for P2" ++ dots (dot_count 400 ticks) 3) ∷ []
      else if state_code ns == 6
      then color 255 80 80 255 ∷ text_at fl 400 400 (codes "Connection error") ∷ []
      else text_at fl 430 400 (codes "Connecting...") ∷ []

  unfoldable pub render_show_code : NetState → ℕ → Lobby → List (Draw Float)
  render_show_code ns ticks l =
      color 200 200 200 255
      ∷ text_at fl 350 200 (codes "Share this code with P2:")
      ∷ color 30 60 120 255
      ∷ fill (rect fl 280 240 720 120)
      ∷ color 100 180 255 255
      ∷ outline (rect fl 280 240 720 120)
      ∷ color 255 255 100 255
      ∷ (draw_code 0 (take 6 l.room_code) ++ (color 160 200 160 255 ∷ code_status ns ticks))

  unfoldable pub render_enter_code : ℕ → Lobby → List (Draw Float)
  render_enter_code ticks l =
      color 200 200 200 255
      ∷ text_at fl 350 230 (codes "Enter the room code:")
      ∷ (draw_field 340 270 600 70 [] l.code_input (not (in_server l.active_field)) ticks
          ++ (draw_button 480 390 320 70 (codes "Join") (200, 80, 60)
              ++ draw_button 120 390 200 70 (codes "Back") (60, 60, 80)))

  unfoldable pub render_waiting : NetState → List (Draw Float)
  render_waiting ns =
      let failed = state_code ns == 6 in
      let line =
        if failed
        then codes "Connection failed! Press ESC."
        else if state_code ns == 2
        then codes "Waiting for P1 to start..."
        else codes "Connecting..." in
      color 200 200 200 255
      ∷ text_at fl 380 340 line
      ∷ (if failed then color 255 80 80 255 ∷ [] else [])

  -- the name of a loadout as the opponent's choice shows it
  abbrev pub loadout_name : ℤ → List ℕ
  loadout_name lt =
      if eqb_ℤ lt (pos 1)
      then codes "Fire Pack"
      else if eqb_ℤ lt (pos 2)
      then codes "Frost Pack"
      else codes "None"

  unfoldable pub draw_pick : Lobby → List (Draw Float)
  draw_pick l =
      let pick = if eqb_ℤ l.my_loadout (pos 1) then codes "Fire Pack" else codes "Frost Pack" in
      if eqb_ℤ l.my_loadout (pos 0)
      then []
      else color 100 220 100 255 ∷ text_at fl 440 430 (codes "Your pick: " ++ pick) ∷ []

  unfoldable pub draw_opponent : ℤ → Lobby → List (Draw Float)
  draw_opponent opp l =
      if l.local_mode
      then []
      else if ltb_ℤ opp (pos 0)
      then color 160 160 160 255 ∷ text_at fl 410 480 (codes "Waiting for opponent...") ∷ []
      else color 100 220 100 255
        ∷ text_at fl 410 480 (codes "Opponent: " ++ (loadout_name opp ++ codes " - Starting!"))
        ∷ []

  unfoldable pub draw_local : Lobby → List (Draw Float)
  draw_local l =
      if l.local_mode && not (eqb_ℤ l.my_loadout (pos 0))
      then color 200 200 100 255 ∷ text_at fl 400 480 (codes "Loadout selected! Starting...") ∷ []
      else []

  unfoldable pub render_loadout : ℤ → Lobby → List (Draw Float)
  render_loadout opp l =
      let fire_picked = eqb_ℤ l.my_loadout (pos 1) in
      let frost_picked = eqb_ℤ l.my_loadout (pos 2) in
      color 200 200 200 255
      ∷ text_at fl 390 190 (codes "Pick your pre-match loadout:")
      ∷ color (if fire_picked then 255 else 180) (if fire_picked then 120 else 60) 20 255
      ∷ fill (rect fl 160 260 380 130)
      ∷ color 255 200 80 255
      ∷ outline (rect fl 160 260 380 130)
      ∷ color 255 255 255 255
      ∷ text_at fl 250 300 (codes "FIRE PACK")
      ∷ color 255 180 80 255
      ∷ text_at fl 186 330 (codes "+20% damage dealt")
      ∷ color (if frost_picked then 80 else 40) (if frost_picked then 180 else 100)
          (if frost_picked then 255 else 180) 255
      ∷ fill (rect fl 740 260 380 130)
      ∷ color 80 220 255 255
      ∷ outline (rect fl 740 260 380 130)
      ∷ color 255 255 255 255
      ∷ text_at fl 820 300 (codes "FROST PACK")
      ∷ color 140 220 255 255
      ∷ text_at fl 760 330 (codes "+20 max HP")
      ∷ (draw_pick l ++ (draw_opponent opp l ++ draw_local l))

  -- the screen of the lobby; `opp` is `net_client_get_opponent_loadout`
  abbrev pub render_sub : NetState → ℤ → ℕ → LobbySubState → Lobby → List (Draw Float)
  render_sub ns opp ticks ls_setup l = render_setup ticks l
  render_sub ns opp ticks ls_role l = render_role l
  render_sub ns opp ticks ls_creating l = render_creating ticks
  render_sub ns opp ticks ls_show_code l = render_show_code ns ticks l
  render_sub ns opp ticks ls_enter_code l = render_enter_code ticks l
  render_sub ns opp ticks ls_waiting l = render_waiting ns
  render_sub ns opp ticks ls_loadout l = render_loadout opp l
  render_sub ns opp ticks ls_ready l =
      color 100 255 100 255 ∷ text_at fl 510 340 (codes "FIGHT!") ∷ []

  unfoldable pub draw_heading : Lobby → List (Draw Float)
  draw_heading l =
      color 220 180 255 255
      ∷ text_at fl 520 40 (codes "FURY CLASH")
      ∷ color 140 140 180 255
      ∷ text_at fl 490 65 (codes "LOBBY")
      ∷ (if is_empty l.error_msg
          then []
          else color 255 80 80 255 ∷ text_at fl 160 120 l.error_msg ∷ [])

  unfoldable pub draw_url : Lobby → List (Draw Float)
  draw_url l =
      if past_role l.sub
      then color 80 80 100 255
        ∷ text (whole fl 20) (sub (of_int (pos 720)) (whole fl 24)) l.server_url
        ∷ []
      else []

  unfoldable pub render_lobby : NetState → ℤ → ℕ → Lobby → List (Draw Float)
  render_lobby ns opp ticks l =
      color 12 12 30 255
      ∷ fill (rect fl 0 0 1280 720)
      ∷ (draw_heading l ++ (render_sub ns opp ticks l.sub l ++ draw_url l))
