-- ===== src/Input/Laws.antt =====
-- Which bits the devices can ever report.
use fury_clash.Prelude.{
  ℕ, ◌<◌, ◌^◌, bit_or, Bool, true, false, not, ◌&&◌, Option, none, some, if_ind, if◌then◌else◌,
  arith,
}
use fury_clash.Prelude.Bits.{bit_or_lt, bit_and_lt}
use fury_clash.Floats.{Floats, whole}
use fury_clash.Input.Bits.{
  input_up, input_down, input_left, input_right, input_light_punch, input_heavy_punch,
  input_light_kick, input_heavy_kick, input_special1, input_special2, input_super, input_grab,
  clear, or_if,
}
use fury_clash.Input.Keyboard.{
  Keycode, k_up, k_w, k_down, k_s, k_left, k_a, k_right, k_d, k_u, k_i, k_j, k_k, k_o, k_p, k_l,
  k_h, k_other, bit_of, set_bit, input_keyboard_event,
}
use fury_clash.Input.Gamepad.{Pad, PadButton, pad_bits, input_gamepad_read}
use fury_clash.Input.Touch.{
  TouchState, FingerEvent, finger_down, finger_motion, finger_up, stick_bits, process_joystick,
  input_touch_event, touch_start, in_zone, holds,
}
use fury_clash.Input.{
  InputEvent, key_down, key_up, pad_event, finger, other_event, Devices, input_init,
  input_handle_event, input_tick,
}

clear-lt : (n mask x : ℕ) → x < 2 ^ n → clear mask x < 2 ^ n
unfolding clear
clear-lt n mask x h = bit_and_lt n x _ h

or_if-lt : (n bit : ℕ) (test : Bool) (x : ℕ) → bit < 2 ^ n → x < 2 ^ n → or_if test bit x < 2 ^ n
unfolding or_if
or_if-lt n bit true x b h = bit_or_lt n x bit h b
or_if-lt n bit false x b h = h

abbrev IsBit : Option ℕ → Type 0
IsBit none = Unit
IsBit (some bit) = bit < 2 ^ 12

bit_of-IsBit : (key : Keycode) → IsBit (bit_of key)
bit_of-IsBit k_up = omega arith
bit_of-IsBit k_w = omega arith
bit_of-IsBit k_down = omega arith
bit_of-IsBit k_s = omega arith
bit_of-IsBit k_left = omega arith
bit_of-IsBit k_a = omega arith
bit_of-IsBit k_right = omega arith
bit_of-IsBit k_d = omega arith
bit_of-IsBit k_u = omega arith
bit_of-IsBit k_i = omega arith
bit_of-IsBit k_j = omega arith
bit_of-IsBit k_k = omega arith
bit_of-IsBit k_o = omega arith
bit_of-IsBit k_p = omega arith
bit_of-IsBit k_l = omega arith
bit_of-IsBit k_h = omega arith
bit_of-IsBit k_other = tt

set_with-lt :
    (o : Option ℕ) (pressed : Bool) (x : ℕ)
    → IsBit o
    → x < 2 ^ 12
    → (elim o [ none ↦ x | some bit ↦ if pressed then bit_or x bit else clear bit x ]) < 2 ^ 12
set_with-lt none pressed x b h = h
set_with-lt (some bit) true x b h = bit_or_lt 12 x bit h b
set_with-lt (some bit) false x b h = clear-lt 12 bit x h

keyboard-lt :
    (key : Keycode) (pressed : Bool) (x : ℕ)
    → x < 2 ^ 12
    → input_keyboard_event key pressed x < 2 ^ 12
unfolding input_keyboard_event set_bit
keyboard-lt key pressed x h = set_with-lt (bit_of key) pressed x (bit_of-IsBit key) h

pad_bits-lt : (held : PadButton → Bool) → pad_bits held < 2 ^ 12
unfolding pad_bits
pad_bits-lt held = or_if-lt 12 input_grab _ _ (omega arith) (
    or_if-lt 12 input_super _ _ (omega arith) (
      or_if-lt 12 input_special2 _ _ (omega arith) (
        or_if-lt 12 input_special1 _ _ (omega arith) (
          or_if-lt 12 input_heavy_kick _ _ (omega arith) (
            or_if-lt 12 input_light_kick _ _ (omega arith) (
              or_if-lt 12 input_heavy_punch _ _ (omega arith) (
                or_if-lt 12 input_light_punch _ _ (omega arith) (
                  or_if-lt 12 input_right _ _ (omega arith) (
                    or_if-lt 12 input_left _ _ (omega arith) (
                      or_if-lt 12 input_down _ _ (omega arith)
                        (or_if-lt 12 input_up _ _ (omega arith) (omega arith))))))))))))

read-lt :
    (held : PadButton → Bool) (p : Pad) (o : Option ℕ)
    → (elim o as (λ _. ℕ × Pad) [
      | none ↦ (0, p)
      | some id ↦ (pad_bits held, record p { bits = pad_bits held })
    ]).0
      < 2 ^ 12
read-lt held p none = omega arith
read-lt held p (some id) = pad_bits-lt held

pad_read-lt : (held : PadButton → Bool) (p : Pad) → (input_gamepad_read held p).0 < 2 ^ 12
unfolding input_gamepad_read
pad_read-lt held p = read-lt held p p.id

module _ (fl : Floats) where
  open fl use {Float, add, sub, mul, div, sqrt, flt}

  stick_bits-lt : (x y : Float) (bits : ℕ) → bits < 2 ^ 4 → stick_bits fl x y bits < 2 ^ 4
  unfolding stick_bits
  stick_bits-lt x y bits h = or_if-lt 4 input_right _ _ (omega arith) (
      or_if-lt 4 input_left _ _ (omega arith)
        (or_if-lt 4 input_down _ _ (omega arith) (or_if-lt 4 input_up _ _ (omega arith) h)))

  joystick-lt :
      (x y : Float) (t : TouchState Float)
      → t.bits < 2 ^ 4
      → (process_joystick fl x y t).bits < 2 ^ 4
  unfolding process_joystick
  joystick-lt x y t h =
      let dx = sub x t.joy_ax in
      let dy = sub y t.joy_ay in
      let len = sqrt (add (mul dx dx) (mul dy dy)) in
      let rest = clear-lt 4 15 t.bits h in
      if_ind (λ (b : ℕ). b < 2 ^ 4) (flt (whole fl 10) len)
        (λ _. stick_bits-lt (div dx len) (div dy len) (clear 15 t.bits) rest) (λ _. rest)

  touch-lt :
      (ev : FingerEvent Float) (t : TouchState Float)
      → t.bits < 2 ^ 4
      → (input_touch_event fl ev t).bits < 2 ^ 4
  unfolding input_touch_event
  touch-lt (finger_down id x y) t h =
      if_ind (λ (u : TouchState Float). u.bits < 2 ^ 4)
        (not t.joy_active
          && in_zone fl (t.layout).joystick_zone (mul x (t.layout).screen_w)
              (mul y (t.layout).screen_h))
        (λ _. h) (λ _. h)
  touch-lt (finger_motion id x y) t h =
      if_ind (λ (u : TouchState Float). u.bits < 2 ^ 4) (holds fl id t)
        (λ _. joystick-lt (mul x (t.layout).screen_w) (mul y (t.layout).screen_h) t h) (λ _. h)
  touch-lt (finger_up id x y) t h =
      if_ind (λ (u : TouchState Float). u.bits < 2 ^ 4) (holds fl id t)
        (λ _. clear-lt 4 15 t.bits h) (λ _. h)

  -- the keyboard in 12 bits, the touch screen in the four directions
  pub record AreInputs (d : Devices Float) : Type 0 where
    pub keys_fit : d.keys < 2 ^ 12
    pub touch_fits : (d.touch).bits < 2 ^ 4
    pub current_fits : d.current < 2 ^ 12

  pub event-AreInputs :
      (ev : InputEvent Float) (d : Devices Float)
      → AreInputs d
      → AreInputs (input_handle_event fl ev d)
  unfolding input_handle_event
  event-AreInputs (key_down key) d ok = record {
    keys_fit = keyboard-lt key true d.keys ok.keys_fit;
    touch_fits = ok.touch_fits;
    current_fits = ok.current_fits;
  }
  event-AreInputs (key_up key) d ok = record {
    keys_fit = keyboard-lt key false d.keys ok.keys_fit;
    touch_fits = ok.touch_fits;
    current_fits = ok.current_fits;
  }
  event-AreInputs (pad_event ev) d ok = record {
    keys_fit = ok.keys_fit;
    touch_fits = ok.touch_fits;
    current_fits = ok.current_fits;
  }
  event-AreInputs (finger ev) d ok = record {
    keys_fit = ok.keys_fit;
    touch_fits = touch-lt ev d.touch ok.touch_fits;
    current_fits = ok.current_fits;
  }
  event-AreInputs other_event d ok = ok

  pub tick-AreInputs :
      (held : PadButton → Bool) (d : Devices Float) → AreInputs d → AreInputs (input_tick fl held d)
  unfolding input_tick
  tick-AreInputs held d ok = record {
    keys_fit = ok.keys_fit;
    touch_fits = ok.touch_fits;
    current_fits =
        bit_or_lt 12 _ _ (bit_or_lt 12 _ _ ok.keys_fit (pad_read-lt held d.pad))
          (omega (arith, ok.touch_fits));
  }

  -- What the devices have seen since the start: events, and readings once per tick.
  pub data Reachable (first : Option ℕ) : Devices Float → Type 0 where
    begun : Reachable first (input_init fl first)
    event :
        {d : Devices Float} (ev : InputEvent Float)
        → Reachable first d
        → Reachable first (input_handle_event fl ev d)
    ticked :
        {d : Devices Float} (held : PadButton → Bool)
        → Reachable first d
        → Reachable first (input_tick fl held d)

  -- After any events and readings the input of the local player has only the twelve bits of
  -- protocol.h, and the touch screen sets none but the four directions.
  pub devices_reach : (first : Option ℕ) (d : Devices Float) → Reachable first d → AreInputs d
  unfolding input_init touch_start
  devices_reach first _ begun = record {
    keys_fit = omega arith;
    touch_fits = omega arith;
    current_fits = omega arith;
  }
  devices_reach first _ (event {d = d} ev r) = event-AreInputs ev d (devices_reach first d r)
  devices_reach first _ (ticked {d = d} held r) = tick-AreInputs held d (devices_reach first d r)
