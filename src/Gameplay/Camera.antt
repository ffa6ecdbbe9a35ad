-- ===== src/Gameplay/Camera.antt =====
-- render/camera.c: what the camera looks at. The results of `rand` are arguments.
use fury_clash.Prelude.{ℕ, ◌%◌, ℤ, pos, ◌-ℤ◌, ltb_ℤ, if◌then◌else◌}
use fury_clash.Floats.{Floats, whole}
use fury_clash.Gameplay.Types.{Fighter}

pub record Camera (F : Type 0) : Type 0 where
  pub x : F
  pub y : F
  pub zoom : F
  pub shake_x : F
  pub shake_y : F
  pub freeze_frames : ℤ

module _ (fl : Floats) where
  open fl use {Float, lit, of_int, add, sub, mul, div, fabs, fmin, fmax}

  unfoldable pub camera_init : Camera Float
  camera_init = record {
    x = div (of_int (pos 1280)) (whole fl 2);
    y = div (of_int (pos 720)) (whole fl 2);
    zoom = whole fl 1;
    shake_x = whole fl 0;
    shake_y = whole fl 0;
    freeze_frames = pos 0;
  }

  -- between FC_CAM_ZOOM_MIN and FC_CAM_ZOOM_MAX
  abbrev pub target_zoom : Float → Float
  target_zoom dist = fmax (lit (pos 7) 1) (fmin (whole fl 1) (div (whole fl 500) dist))

  unfoldable pub camera_update : Fighter Float → Fighter Float → Camera Float → Camera Float
  camera_update p1 p2 cam =
      let cx = div (add p1.x p2.x) (whole fl 2) in
      let cy = sub (div (add p1.y p2.y) (whole fl 2)) (whole fl 30) in
      let zoom = target_zoom (fabs (sub p1.x p2.x)) in
      if ltb_ℤ (pos 0) cam.freeze_frames
      then record cam { freeze_frames = cam.freeze_frames -ℤ pos 1 }
      else record cam {
        x = add cam.x (mul (sub cx cam.x) (lit (pos 1) 1));
        y = add cam.y (mul (sub cy cam.y) (lit (pos 1) 1));
        zoom = add cam.zoom (mul (sub zoom cam.zoom) (lit (pos 8) 2));
        shake_x = mul cam.shake_x (lit (pos 85) 2);
        shake_y = mul cam.shake_y (lit (pos 85) 2);
      }

  -- `((float)(r % 200 - 100) / 100.0f) * intensity`
  abbrev pub shake_of : ℕ → Float → Float
  shake_of r intensity = mul (div (of_int (pos (r % 200) -ℤ pos 100)) (whole fl 100)) intensity

  unfoldable pub camera_add_shake : ℕ → ℕ → Float → Camera Float → Camera Float
  camera_add_shake r1 r2 intensity cam = record cam {
    shake_x = add cam.shake_x (shake_of r1 intensity);
    shake_y = add cam.shake_y (shake_of r2 intensity);
  }

  unfoldable pub camera_trigger_freeze : ℤ → Camera Float → Camera Float
  camera_trigger_freeze frames cam = record cam { freeze_frames = frames }
