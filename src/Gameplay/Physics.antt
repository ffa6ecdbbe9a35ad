-- ===== src/Gameplay/Physics.antt =====
-- gameplay/physics.c
use fury_clash.Prelude.{pos, negsuc, ◌&&◌, if◌then◌else◌}
use fury_clash.Floats.{Floats, whole}
use fury_clash.Gameplay.Types.{
  Fighter, idle, is_jumping, gravity, ground_y, stage_left, stage_right, tick_dt,
}

module _ (fl : Floats) where
  open fl use {Float, lit, widen, narrow, add, sub, mul, fabs, flt, fle, dadd, dmul}

  -- The sum is in `double`: FC_TICK_DT is one.
  unfoldable pub physics_apply_gravity : Fighter Float → Fighter Float
  physics_apply_gravity f =
      if flt f.y (ground_y fl)
      then record f { vy = narrow (dadd (widen f.vy) (dmul (widen (gravity fl)) (tick_dt fl))) }
      else f

  unfoldable pub land : Fighter Float → Fighter Float
  land f =
      let g = record f { y = ground_y fl; vy = whole fl 0 } in
      if is_jumping g.state then record g { state = idle; state_frame = 0; vx = whole fl 0 } else g

  unfoldable pub physics_move : Fighter Float → Fighter Float
  physics_move f =
      let g = record f {
        x = add f.x (mul f.vx (narrow (tick_dt fl)));
        y = add f.y (mul f.vy (narrow (tick_dt fl)));
      } in
      if fle (ground_y fl) g.y then land g else g

  unfoldable pub clamp_x : Float → Float
  clamp_x x =
      let l = if flt x (stage_left fl) then stage_left fl else x in
      if flt (stage_right fl) l then stage_right fl else l

  unfoldable pub physics_clamp_to_stage : Fighter Float → Fighter Float
  physics_clamp_to_stage f = record f { x = clamp_x f.x }

  unfoldable pub physics_push_apart : Fighter Float → Fighter Float → Fighter Float × Fighter Float
  physics_push_apart p1 p2 =
      let overlap_threshold = whole fl 60 in
      let dx = sub p2.x p1.x in
      let dist = fabs dx in
      if flt dist overlap_threshold && flt (lit (pos 1) 1) dist
      then (let push = mul (sub overlap_threshold dist) (lit (pos 5) 1) in
          let dir = if flt (whole fl 0) dx then lit (pos 10) 1 else lit (negsuc 9) 1 in
          (
            physics_clamp_to_stage (record p1 { x = sub p1.x (mul push dir) }),
            physics_clamp_to_stage (record p2 { x = add p2.x (mul push dir) }),
          ))
      else (p1, p2)
