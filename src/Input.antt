-- ===== src/Input.antt =====
-- input/input.c: the three devices, whose bits are read together once per tick.
pub mod Bits
pub mod Keyboard
pub mod Gamepad
pub mod Touch
pub mod Laws
use fury_clash.Prelude.{ℕ, bit_or, Option, Bool, true, false}
use fury_clash.Floats.{Floats}
use Keyboard.{Keycode, input_keyboard_event}
use Gamepad.{Pad, PadButton, PadEvent, input_gamepad_init, input_gamepad_event, input_gamepad_read}
use Touch.{TouchState, FingerEvent, touch_start, input_touch_event}

-- An SDL event, as far as a device reads it.
pub data InputEvent (F : Type 0) : Type 0 where
  key_down key_up : Keycode → InputEvent F
  pad_event : PadEvent → InputEvent F
  finger : FingerEvent F → InputEvent F
  other_event : InputEvent F

-- The state of the three files, with `g_current`.
pub record Devices (F : Type 0) : Type 0 where
  pub keys : ℕ
  pub pad : Pad
  pub touch : TouchState F
  pub current : ℕ

module _ (fl : Floats) where
  open fl use {Float}

  unfoldable pub input_init : Option ℕ → Devices Float
  input_init first = record {
    keys = 0;
    pad = input_gamepad_init first;
    touch = touch_start fl;
    current = 0;
  }

  -- each device takes its own events only
  unfoldable pub input_handle_event : InputEvent Float → Devices Float → Devices Float
  input_handle_event (key_down key) d = record d { keys = input_keyboard_event key true d.keys }
  input_handle_event (key_up key) d = record d { keys = input_keyboard_event key false d.keys }
  input_handle_event (pad_event ev) d = record d { pad = input_gamepad_event ev d.pad }
  input_handle_event (finger ev) d = record d { touch = input_touch_event fl ev d.touch }
  input_handle_event other_event d = d

  -- `held` tells the buttons that SDL reports as pressed.
  unfoldable pub input_tick : (PadButton → Bool) → Devices Float → Devices Float
  input_tick held d =
      let pad = input_gamepad_read held d.pad in
      record d { pad = pad.1; current = bit_or (bit_or d.keys pad.0) (d.touch).bits }

  unfoldable pub input_get_local : Devices Float → ℕ
  input_get_local d = d.current
