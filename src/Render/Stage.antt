-- ===== src/Render/Stage.antt =====
-- `simulation_render` of gameplay/simulation.c.
use fury_clash.Prelude.{ℕ, List, [], ◌∷◌, ◌++◌}
use fury_clash.Floats.{Floats, whole}
use fury_clash.Gameplay.Types.{Fighter, Rect, ground_y, stage_left, stage_right}
use fury_clash.Gameplay.Simulation.{SimState}
use fury_clash.Render.{Draw, color, fill, outline, View, renderer_world_to_screen}
use fury_clash.Render.Hud.{hud_render}

module _ (fl : Floats) where
  open fl use {Float, add, sub}

  -- the line that the fighters stand on
  unfoldable pub draw_floor : View Float → List (Draw Float)
  draw_floor v =
      let (lx, ly) = renderer_world_to_screen fl v (stage_left fl) (ground_y fl) in
      let (rx, ry) = renderer_world_to_screen fl v (stage_right fl) (ground_y fl) in
      color 60 50 40 255 ∷ fill (record { x = lx; y = ly; w = sub rx lx; h = whole fl 8 }) ∷ []

  -- the fighter's hurtbox on the screen
  unfoldable pub fighter_box : View Float → Fighter Float → Rect Float
  fighter_box v f =
      let left = add f.x (f.hurtbox).x in
      let top = add f.y (f.hurtbox).y in
      let (sx, sy) = renderer_world_to_screen fl v left top in
      let (ex, ey) =
        renderer_world_to_screen fl v (add left (f.hurtbox).w) (add top (f.hurtbox).h) in
      record { x = sx; y = sy; w = sub ex sx; h = sub ey sy }

  -- with the fighter's colour in the table `pal`
  unfoldable pub draw_fighter : View Float → Fighter Float → ℕ × ℕ × ℕ → List (Draw Float)
  draw_fighter v f (r, g, b) =
      color r g b 200
      ∷ fill (fighter_box v f)
      ∷ color 220 220 220 255
      ∷ outline (fighter_box v f)
      ∷ []

  unfoldable pub simulation_render : View Float → SimState Float → List (Draw Float)
  simulation_render v s =
      draw_floor v
      ++ (draw_fighter v s.p1 (80, 140, 255)
          ++ (draw_fighter v s.p2 (255, 80, 80) ++ hud_render fl s.p1 s.p2))
