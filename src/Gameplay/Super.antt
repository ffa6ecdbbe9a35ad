-- ===== src/Gameplay/Super.antt =====
-- gameplay/super.c: the meter of a fighter.
use fury_clash.Prelude.{ℤ, pos, Bool, if◌then◌else◌}
use fury_clash.Floats.{Floats, whole}
use fury_clash.Gameplay.Types.{Fighter}

module _ (fl : Floats) where
  open fl use {Float, lit, of_int, add, sub, mul, flt, fle}

  -- FC_SUPER_COST
  abbrev pub super_cost : Float
  super_cost = whole fl 1

  unfoldable pub super_build_meter : ℤ → ℤ → Fighter Float → Fighter Float
  super_build_meter dealt received f =
      let m =
        add (add f.super_meter (mul (of_int dealt) (lit (pos 5) 4)))
          (mul (of_int received) (lit (pos 1) 3)) in
      record f { super_meter = if flt (whole fl 1) m then whole fl 1 else m }

  unfoldable pub super_can_activate : Fighter Float → Bool
  super_can_activate f = fle super_cost f.super_meter

  unfoldable pub super_activate : Fighter Float → Fighter Float
  super_activate f =
      let m = sub f.super_meter super_cost in
      record f { super_meter = if flt m (whole fl 0) then whole fl 0 else m }
