-- ===== src/Render/Bars.antt =====
-- The bars of the HUD over whole fights.
use fury_clash.Prelude.{ℕ, ◌≡◌, refl, ℤ, pos, negsuc, ◌≤ℤ◌, true, List, [], ◌∷◌, arith}
use fury_clash.Floats.{Floats, IsIeee, whole}
use fury_clash.Gameplay.Types.{Fighter, Rect, LoadoutType}
use fury_clash.Gameplay.Fighter.Sound.{IsSound}
use fury_clash.Gameplay.Simulation.{simulation_init}
use fury_clash.Gameplay.Simulation.Runs.{run, fight-IsSound}
use fury_clash.Gameplay.Simulation.Meters.{IsDrawable, fight-IsDrawable}
use fury_clash.Render.{fills, rect}
use fury_clash.Render.Hud.{
  strip, margin, bar_width, right_bar, draw_health_bar, draw_super_meter, hud_render,
}

module _ (fl : Floats) where
  open fl use {Float, of_int, add, sub, mul, div, fle}

  abbrev Le : Float → Float → Type 0
  Le a b = fle a b ≡ true

  -- a bar of the height of its frame, whose left edge is not left of the frame's, and whose right
  -- edge is not right of the frame's
  pub record IsWithin (bar frame : Rect Float) : Type 0 where
    pub level : bar.y ≡ frame.y
    pub height : bar.h ≡ frame.h
    pub begins : Le frame.x bar.x
    pub ends : Le (add bar.x bar.w) (add frame.x frame.w)
    pub grows : Le (of_int (pos 0)) bar.w
    pub fits : Le bar.w frame.w

  module _ (ieee : IsIeee fl) where
    open ieee use {
      exact_lit, exact_sum, exact_difference, exact_product, exact_half, le_of_int, fraction, part,
      remainder, sum_part, put_back,
    }

    margin_20 : margin fl ≡ of_int (pos 20)
    margin_20 = exact_lit 20 (omega arith)

    bar_width_570 : bar_width fl ≡ of_int (pos 570)
    bar_width_570 = rw (
      exact_lit 2 (omega arith),
      exact_lit 20 (omega arith),
      exact_lit 30 (omega arith),
      exact_half 640 (omega arith),
      exact_product 20 2 (omega arith),
      exact_difference 640 40 (omega arith) (omega arith),
      exact_difference 600 30 (omega arith) (omega arith),
      bar_width,
      margin,
    )

    right_bar_690 : right_bar fl ≡ of_int (pos 690)
    right_bar_690 = rw (
      bar_width_570,
      margin_20,
      exact_difference 1280 20 (omega arith) (omega arith),
      exact_difference 1260 570 (omega arith) (omega arith),
      right_bar,
    )

    -- the part of 570 that a health is of its maximum
    shown_bounds :
        (h m : ℤ)
        → pos 0 ≤ℤ h
        → h ≤ℤ m
        → pos 1 ≤ℤ m
        → let w = mul (of_int (pos 570)) (div (of_int h) (of_int m)) in
          Le (of_int (pos 0)) w × Le w (of_int (pos 570))
    shown_bounds (pos a) (pos b) h le one =
        let q = fraction a b (omega arith) (omega arith) in part 570 _ (omega arith) q.0 q.1
    shown_bounds (pos a) (negsuc b) h le one = absurd (omega arith)
    shown_bounds (negsuc a) m h le one = absurd (omega arith)

    abbrev shown : Fighter Float → Float
    shown f = mul (of_int (pos 570)) (div (of_int f.health) (of_int f.max_health))

    -- the health bars of P1 and P2
    abbrev left_bar : Fighter Float → Rect Float
    left_bar f = strip fl (of_int (pos 20)) (of_int (pos 20)) (shown f) 18

    abbrev turned_bar : Fighter Float → Rect Float
    turned_bar f = strip fl (sub (of_int (pos 1260)) (shown f)) (of_int (pos 20)) (shown f) 18

    left-IsWithin :
        (f : Fighter Float)
        → IsSound f
        → IsDrawable fl f
        → IsWithin (left_bar f) (rect fl 20 20 570 18)
    left-IsWithin f v d =
        let b = shown_bounds f.health f.max_health v.alive v.capped d.1 in
        record {
          level = refl;
          height = refl;
          begins = le_of_int 20 20 (omega arith);
          ends =
              rw (exact_sum 20 570 (omega arith)) (sum_part 20 570 (shown f) (omega arith) b.0 b.1);
          grows = b.0;
          fits = b.1;
        }

    turned-IsWithin :
        (f : Fighter Float)
        → IsSound f
        → IsDrawable fl f
        → IsWithin (turned_bar f) (rect fl 690 20 570 18)
    turned-IsWithin f v d =
        let b = shown_bounds f.health f.max_health v.alive v.capped d.1 in
        let r = remainder 1260 570 (shown f) (omega arith) (omega arith) b.0 b.1 in
        record {
          level = refl;
          height = refl;
          begins = r.0;
          ends =
              rw (exact_sum 690 570 (omega arith))
                (put_back 1260 570 (shown f) (omega arith) (omega arith) b.0 b.1);
          grows = b.0;
          fits = b.1;
        }

    hud_fills :
        (p1 p2 : Fighter Float)
        → p1.super_meter ≡ whole fl 0
        → p2.super_meter ≡ whole fl 0
        → fills (hud_render fl p1 p2)
          ≡ rect fl 20 20 570 18
            ∷ left_bar p1
            ∷ rect fl 20 42 570 8
            ∷ rect fl 20 42 0 8
            ∷ rect fl 690 20 570 18
            ∷ turned_bar p2
            ∷ rect fl 690 42 570 8
            ∷ rect fl 690 42 0 8
            ∷ []
    unfolding hud_render draw_health_bar draw_super_meter
    hud_fills p1 p2 e1 e2 = rw (
      e1,
      e2,
      right_bar_690,
      bar_width_570,
      margin_20,
      exact_lit 0 (omega arith),
      exact_sum 20 22 (omega arith),
      exact_sum 690 570 (omega arith),
      exact_product 570 0 (omega arith),
    )

    -- In every fight, with any characters, loadouts and inputs, the HUD fills eight rectangles: for
    -- each player the frame of the health bar, the health bar from edge to edge within it, the frame
    -- of the meter, and a meter of width 0.
    pub hud-IsWithin :
        (c1 c2 : ℤ) (l1 l2 : LoadoutType) (ins : List (ℕ × ℕ))
        → let s = run fl (simulation_init fl c1 c2 l1 l2) ins in
          (b1 b2 : Rect Float) × (fills (hud_render fl s.p1 s.p2)
            ≡ rect fl 20 20 570 18
              ∷ b1
              ∷ rect fl 20 42 570 8
              ∷ rect fl 20 42 0 8
              ∷ rect fl 690 20 570 18
              ∷ b2
              ∷ rect fl 690 42 570 8
              ∷ rect fl 690 42 0 8
              ∷ [])
          × IsWithin b1 (rect fl 20 20 570 18)
          × IsWithin b2 (rect fl 690 20 570 18)
    hud-IsWithin c1 c2 l1 l2 ins =
        let s = run fl (simulation_init fl c1 c2 l1 l2) ins in
        let v = fight-IsSound fl c1 c2 l1 l2 ins in
        let d = fight-IsDrawable fl c1 c2 l1 l2 ins in
        (
          left_bar s.p1,
          turned_bar s.p2,
          hud_fills s.p1 s.p2 d.0.0 d.1.0,
          left-IsWithin s.p1 v.0 d.0,
          turned-IsWithin s.p2 v.1 d.1,
        )
