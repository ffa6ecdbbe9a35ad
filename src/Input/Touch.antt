-- ===== src/Input/Touch.antt =====
-- input/input_touch.c: the layout of the virtual controller and its joystick. No code sets the bits
-- of the virtual buttons.
use fury_clash.Prelude.{ℕ, ◌==◌, pos, Bool, true, false, not, ◌&&◌, if◌then◌else◌}
use fury_clash.Floats.{Floats, whole}
use fury_clash.Gameplay.Types.{Rect}
use fury_clash.Input.Bits.{input_up, input_down, input_left, input_right, clear, or_if}

-- the fields that the code writes
pub record TouchLayout (F : Type 0) : Type 0 where
  pub screen_w : F
  pub screen_h : F
  pub dpi_scale : F
  pub is_tablet : Bool
  pub button_radius : F
  pub joystick_radius : F
  pub viewport : Rect F
  pub joystick_zone : Rect F
  pub button_zone : Rect F

-- `g_layout`, the bits, and the joystick: its finger, its anchor, whether it is held
pub record TouchState (F : Type 0) : Type 0 where
  pub layout : TouchLayout F
  pub bits : ℕ
  pub joy_finger : ℕ
  pub joy_ax : F
  pub joy_ay : F
  pub joy_active : Bool

-- A finger's number, and where it is as a share of the screen.
pub data FingerEvent (F : Type 0) : Type 0 where
  finger_down finger_motion finger_up : ℕ → F → F → FingerEvent F

-- UP, DOWN, LEFT and RIGHT
abbrev pub directions : ℕ
directions = 15

module _ (fl : Floats) where
  open fl use {Float, lit, add, sub, mul, div, sqrt, flt, fle}

  abbrev pub zero_area : Rect Float
  zero_area = record { x = whole fl 0; y = whole fl 0; w = whole fl 0; h = whole fl 0 }

  -- all zero bytes
  unfoldable pub touch_start : TouchState Float
  touch_start = record {
    layout = record {
      screen_w = whole fl 0;
      screen_h = whole fl 0;
      dpi_scale = whole fl 0;
      is_tablet = false;
      button_radius = whole fl 0;
      joystick_radius = whole fl 0;
      viewport = zero_area;
      joystick_zone = zero_area;
      button_zone = zero_area;
    };
    bits = 0;
    joy_finger = 0;
    joy_ax = whole fl 0;
    joy_ay = whole fl 0;
    joy_active = false;
  }

  abbrev pub radius_of : Float → Bool → Float
  radius_of dpi is_tablet =
      let r = if flt (whole fl 2) dpi then whole fl 38 else whole fl 32 in
      if is_tablet then mul r (lit (pos 12) 1) else r

  abbrev pub aspect : Float
  aspect = div (whole fl 16) (whole fl 9)

  -- the width and the height of the picture
  abbrev pub view_size : Float → Float → Float × Float
  view_size w h =
      let limit = mul h (lit (pos 65) 2) in
      if flt limit (div w aspect) then (mul limit aspect, limit) else (w, div w aspect)

  unfoldable pub input_touch_layout :
      Float → Float → Float → Bool → TouchLayout Float → TouchLayout Float
  input_touch_layout w h dpi is_tablet old =
      let (vw, vh) = view_size w h in
      let ctrl_h = sub h vh in
      let zone_w = mul w (lit (pos 4) 1) in
      record old {
        screen_w = w;
        screen_h = h;
        dpi_scale = dpi;
        is_tablet = is_tablet;
        button_radius = radius_of dpi is_tablet;
        joystick_radius = mul (radius_of dpi is_tablet) (lit (pos 25) 1);
        viewport = record { x = div (sub w vw) (whole fl 2); y = whole fl 0; w = vw; h = vh };
        joystick_zone = record { x = whole fl 0; y = vh; w = zone_w; h = ctrl_h };
        button_zone = record { x = mul w (lit (pos 6) 1); y = vh; w = zone_w; h = ctrl_h };
      }

  -- the direction of a stick away from the dead zone
  unfoldable pub stick_bits : Float → Float → ℕ → ℕ
  stick_bits ndx ndy bits =
      let half = lit (pos 5) 1 in
      or_if (flt half ndx) input_right (
        or_if (flt ndx (fl.neg half)) input_left
          (or_if (flt half ndy) input_down (or_if (flt ndy (fl.neg half)) input_up bits)))

  unfoldable pub process_joystick : Float → Float → TouchState Float → TouchState Float
  process_joystick cx cy t =
      let dx = sub cx t.joy_ax in
      let dy = sub cy t.joy_ay in
      let len = sqrt (add (mul dx dx) (mul dy dy)) in
      let rest = clear directions t.bits in
      record t {
        bits = if flt (whole fl 10) len then stick_bits (div dx len) (div dy len) rest else rest;
      }

  abbrev pub in_zone : Rect Float → Float → Float → Bool
  in_zone z x y = (fle z.x x && fle x (add z.x z.w)) && (fle z.y y && fle y (add z.y z.h))

  -- the joystick is held by this finger
  abbrev pub holds : ℕ → TouchState Float → Bool
  holds finger t = t.joy_active && finger == t.joy_finger

  unfoldable pub input_touch_event : FingerEvent Float → TouchState Float → TouchState Float
  input_touch_event (finger_down finger x y) t =
      let fx = mul x (t.layout).screen_w in
      let fy = mul y (t.layout).screen_h in
      if not t.joy_active && in_zone (t.layout).joystick_zone fx fy
      then record t { joy_finger = finger; joy_ax = fx; joy_ay = fy; joy_active = true }
      else t
  input_touch_event (finger_motion finger x y) t =
      if holds finger t
      then process_joystick (mul x (t.layout).screen_w) (mul y (t.layout).screen_h) t
      else t
  input_touch_event (finger_up finger x y) t =
      if holds finger t then record t { joy_active = false; bits = clear directions t.bits } else t
