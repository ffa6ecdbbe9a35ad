-- ===== src/Render/Screens.antt =====
-- `render_title`, `render_searching` and `render_results` of main.c, and the drawing of a frame. The
-- time of SDL_GetTicks and the digits that `%.0f` gives for the ping are arguments.
use fury_clash.Prelude.{ℕ, leb, ◌==◌, eqb_ℤ, ℤ, negsuc, List, [], ◌∷◌, ◌++◌, if◌then◌else◌}
use fury_clash.Prelude.Text.{codes, print_int}
use fury_clash.Floats.{Floats}
use fury_clash.Gameplay.Simulation.{SimState}
use fury_clash.Core.StateMachine.{
  GameState, gs_title, gs_lobby, gs_match_search, gs_fight, gs_training, gs_results,
}
use fury_clash.Network.Client.{NetState, state_code, NetClient}
use fury_clash.Lobby.{Lobby}
use fury_clash.Render.{
  Draw, color, fill, outline, rect, text_at, dots, dot_count, View, renderer_begin, renderer_end,
}
use fury_clash.Render.Lobby.{blinks, render_lobby}
use fury_clash.Render.Stage.{simulation_render}

-- the verdict on the screen of the player in a slot
unfoldable pub verdict : ℤ → ℤ → List ℕ
verdict winner slot =
    if eqb_ℤ winner (negsuc 0)
    then codes "DRAW!"
    else if eqb_ℤ winner slot
    then codes "YOU WIN!"
    else codes "YOU LOSE!"

module _ (fl : Floats) where
  open fl use {Float}

  unfoldable pub render_title : ℕ → List (Draw Float)
  render_title ticks =
      color 60 20 80 220
      ∷ fill (rect fl 340 270 600 90)
      ∷ color 200 100 255 255
      ∷ outline (rect fl 340 270 600 90)
      ∷ color 255 255 255 255
      ∷ text_at fl 460 306 (codes "FURY  CLASH")
      ∷ (if blinks 500 ticks
          then color 200 200 200 255 ∷ text_at fl 440 420 (codes "Press ENTER to play") ∷ []
          else [])

  abbrev pub search_line : NetState → List ℕ
  search_line ns =
      if state_code ns == 6
      then codes "Connection failed!  Press ESC to go back."
      else if state_code ns == 2
      then codes "Waiting for opponent..."
      else codes "Connecting..."

  unfoldable pub render_searching : NetState → List ℕ → ℕ → List (Draw Float)
  render_searching ns ping ticks =
      color 10 20 60 220
      ∷ fill (rect fl 240 280 800 160)
      ∷ color 80 120 255 255
      ∷ outline (rect fl 240 280 800 160)
      ∷ color 255 255 255 255
      ∷ text_at fl 300 320 (search_line ns)
      ∷ ((if state_code ns == 6 then [] else text_at fl 300 360 (dots (dot_count 300 ticks) 4) ∷ [])
          ++ (if leb 2 (state_code ns)
              then color 150 200 150 255
                ∷ text_at fl 300 390 (codes "Ping: " ++ (ping ++ codes " ms"))
                ∷ []
              else []))

  -- what the results say of the match
  unfoldable pub result_lines : NetClient → ℤ → List (Draw Float)
  result_lines c slot =
      let rounds_1 = print_int (c.end_info).p1_rounds_won in
      let rounds_2 = print_int (c.end_info).p2_rounds_won in
      if c.network_mode
      then text_at fl 400 310 (verdict (c.end_info).winner_slot slot)
        ∷ text_at fl 350 360
            (codes "P1 Rounds: " ++ (rounds_1 ++ (codes "    P2 Rounds: " ++ rounds_2)))
        ∷ []
      else text_at fl 400 310 (codes "MATCH OVER") ∷ []

  unfoldable pub render_results : NetClient → ℤ → ℕ → List (Draw Float)
  render_results c slot ticks =
      color 40 20 20 220
      ∷ fill (rect fl 290 270 700 180)
      ∷ color 255 180 50 255
      ∷ outline (rect fl 290 270 700 180)
      ∷ color 255 255 255 255
      ∷ (result_lines c slot
          ++ (if blinks 600 ticks
              then color 200 200 200 255 ∷ text_at fl 430 410 (codes "Press ENTER to continue") ∷ []
              else []))

  -- what the drawing of a screen reads of the program
  pub record Shown : Type 0 where
    pub lobby : Lobby
    pub client : NetClient
    pub local_slot : ℤ
    pub sim : SimState Float
    pub view : View Float
    pub ping : List ℕ
    pub ticks : ℕ

  unfoldable pub render_screen : GameState → Shown → List (Draw Float)
  render_screen gs_lobby a =
      render_lobby fl (a.client).state (a.client).opponent_loadout a.ticks a.lobby
  render_screen gs_title a = render_title a.ticks
  render_screen gs_match_search a = render_searching (a.client).state a.ping a.ticks
  render_screen gs_fight a = simulation_render fl a.view a.sim
  render_screen gs_training a = simulation_render fl a.view a.sim
  render_screen gs_results a = render_results a.client a.local_slot a.ticks
  render_screen _ a = []

  unfoldable pub render_frame : GameState → Shown → List (Draw Float)
  render_frame s a = renderer_begin fl ++ (render_screen s a ++ renderer_end fl)
