-- ===== src/Render/Hud.antt =====
-- render/hud.c. The digits of the timer, which are formatted and not drawn, are left out.
use fury_clash.Prelude.{ℕ, ℤ, pos, Bool, true, false, List, [], ◌∷◌, ◌++◌, if◌then◌else◌}
use fury_clash.Floats.{Floats, whole}
use fury_clash.Gameplay.Types.{Fighter, Rect}
use fury_clash.Render.{Draw, color, fill, outline}

module _ (fl : Floats) where
  open fl use {Float, of_int, add, sub, mul, div}

  -- the rectangle of a bar of some width and height
  abbrev pub strip : Float → Float → Float → ℕ → Rect Float
  strip x y w h = record { x = x; y = y; w = w; h = of_int (pos h) }

  unfoldable pub draw_health_bar : Float → Float → Float → ℤ → ℤ → Bool → List (Draw Float)
  draw_health_bar x y w hp max_hp flip =
      let ratio = div (of_int hp) (of_int max_hp) in
      let bar_w = mul w ratio in
      let bar = if flip then strip (sub (add x w) bar_w) y bar_w 18 else strip x y bar_w 18 in
      color 40 0 0 255
      ∷ fill (strip x y w 18)
      ∷ color 60 200 60 255
      ∷ fill bar
      ∷ color 200 200 200 200
      ∷ outline (strip x y w 18)
      ∷ []

  unfoldable pub draw_super_meter : Float → Float → Float → Float → List (Draw Float)
  draw_super_meter x y w meter =
      color 20 20 60 255
      ∷ fill (strip x y w 8)
      ∷ color 80 120 255 255
      ∷ fill (strip x y (mul w meter) 8)
      ∷ []

  abbrev pub margin : Float
  margin = whole fl 20

  -- `FC_GAME_W / 2.0f - margin * 2.0f - 30.0f`
  abbrev pub bar_width : Float
  bar_width =
      sub (sub (div (of_int (pos 1280)) (whole fl 2)) (mul margin (whole fl 2))) (whole fl 30)

  -- `FC_GAME_W - margin - bar_w`
  abbrev pub right_bar : Float
  right_bar = sub (sub (of_int (pos 1280)) margin) bar_width

  unfoldable pub hud_render : Fighter Float → Fighter Float → List (Draw Float)
  hud_render p1 p2 =
      draw_health_bar margin margin bar_width p1.health p1.max_health false
      ++ (draw_super_meter margin (add margin (of_int (pos 22))) bar_width p1.super_meter
          ++ (draw_health_bar right_bar margin bar_width p2.health p2.max_health true
              ++ draw_super_meter right_bar (add margin (of_int (pos 22))) bar_width
                  p2.super_meter))
