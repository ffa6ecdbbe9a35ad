-- ===== src/Render.antt =====
-- What the game draws. The calls of SDL on its renderer are recorded in their order as a list of
-- `Draw`; render/renderer.c is here, without the creation of the SDL renderer.
pub mod Hud
pub mod Stage
pub mod Lobby
pub mod Screens
pub mod Buttons
pub mod Bars
use fury_clash.Prelude.{
  ℕ, ◌+◌, ◌/◌, ◌%◌, ◌^◌, ltb, ℤ, pos, List, [], ◌∷◌, replicate, ◌++◌, drop, if◌then◌else◌,
}
use fury_clash.Floats.{Floats, whole}
use fury_clash.Gameplay.Types.{Rect}

-- SDL_SetRenderDrawColor, SDL_RenderClear, SDL_RenderPresent, SDL_RenderFillRect, SDL_RenderRect
-- and SDL_RenderDebugTextFormat with the text that it has formatted
pub data Draw (F : Type 0) : Type 0 where
  color : ℕ → ℕ → ℕ → ℕ → Draw F
  clear present : Draw F
  fill outline : Rect F → Draw F
  text : F → F → List ℕ → Draw F

-- the rectangles that are filled
abbrev pub fills : {F : Type 0} → List (Draw F) → List (Rect F)
fills [] = []
fills (fill r ∷ ds) = r ∷ fills ds
fills (_ ∷ ds) = fills ds

-- `(int)(SDL_GetTicks() / period) % 4` dots, where the loop writes that many; a negative int has none
abbrev pub dot_count : ℕ → ℕ → ℕ
dot_count period ticks = let n = ticks / period % 2 ^ 32 in if ltb n (2 ^ 31) then n % 4 else 0

-- a text of blanks with dots from its first byte on
abbrev pub dots : ℕ → ℕ → List ℕ
dots n width = replicate n b'.' ++ drop n (replicate width b' ')

-- `g_cam_x`, `g_cam_y` and `g_cam_zoom`
pub record View (F : Type 0) : Type 0 where
  pub cam_x : F
  pub cam_y : F
  pub cam_zoom : F

module _ (fl : Floats) where
  open fl use {Float, of_int, add, sub, mul, div}

  abbrev pub rect : ℕ → ℕ → ℕ → ℕ → Rect Float
  rect x y w h = record {
    x = of_int (pos x);
    y = of_int (pos y);
    w = of_int (pos w);
    h = of_int (pos h);
  }

  abbrev pub text_at : ℕ → ℕ → List ℕ → Draw Float
  text_at x y s = text (whole fl x) (whole fl y) s

  abbrev pub initial_view : View Float
  initial_view = record {
    cam_x = div (of_int (pos 1280)) (whole fl 2);
    cam_y = div (of_int (pos 720)) (whole fl 2);
    cam_zoom = whole fl 1;
  }

  unfoldable pub renderer_begin : List (Draw Float)
  renderer_begin = color 10 10 18 255 ∷ clear ∷ []

  unfoldable pub renderer_end : List (Draw Float)
  renderer_end = present ∷ []

  unfoldable pub renderer_set_camera : Float → Float → Float → View Float
  renderer_set_camera cx cy zoom = record { cam_x = cx; cam_y = cy; cam_zoom = zoom }

  unfoldable pub renderer_world_to_screen : View Float → Float → Float → Float × Float
  renderer_world_to_screen v wx wy =
      let hw = div (of_int (pos 1280)) (whole fl 2) in
      let hh = div (of_int (pos 720)) (whole fl 2) in
      (add (mul (sub wx v.cam_x) v.cam_zoom) hw, add (mul (sub wy v.cam_y) v.cam_zoom) hh)
