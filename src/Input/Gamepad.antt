-- ===== src/Input/Gamepad.antt =====
-- input/input_gamepad.c: at most one gamepad, opened when it is there.
use fury_clash.Prelude.{ℕ, ◌==◌, Bool, Option, none, some, if◌then◌else◌}
use fury_clash.Input.Bits.{
  input_up, input_down, input_left, input_right, input_light_punch, input_heavy_punch,
  input_light_kick, input_heavy_kick, input_special1, input_special2, input_super, input_grab,
  or_if,
}

pub data PadButton : Type 0 where
  dpad_up dpad_down dpad_left dpad_right south east west north right_shoulder left_shoulder start
        back :
      PadButton

-- The joystick that came or went; one that came opens or, with `none`, fails to.
pub data PadEvent : Type 0 where
  gamepad_added : Option ℕ → PadEvent
  gamepad_removed : ℕ → PadEvent

-- `g_pad` by its joystick, and the bits of the last reading
pub record Pad : Type 0 where
  pub id : Option ℕ
  pub bits : ℕ

-- `first`: the first gamepad that is there, if it opens
unfoldable pub input_gamepad_init : Option ℕ → Pad
input_gamepad_init first = record { id = first; bits = 0 }

abbrev pub removed : ℕ → Option ℕ → Option ℕ
removed which none = none
removed which (some id) = if id == which then none else some id

abbrev pub added : Option ℕ → Option ℕ → Option ℕ
added opened none = opened
added opened (some id) = some id

unfoldable pub input_gamepad_event : PadEvent → Pad → Pad
input_gamepad_event (gamepad_added opened) p = record p { id = added opened p.id }
input_gamepad_event (gamepad_removed which) p = record p { id = removed which p.id }

-- the bits of the buttons held, from 0 on
unfoldable pub pad_bits : (PadButton → Bool) → ℕ
pad_bits held =
    let moves = or_if (held dpad_right) input_right (
      or_if (held dpad_left) input_left
        (or_if (held dpad_down) input_down (or_if (held dpad_up) input_up 0))) in
    let attacks = or_if (held north) input_heavy_kick (
      or_if (held west) input_light_kick
        (or_if (held east) input_heavy_punch (or_if (held south) input_light_punch moves))) in
    or_if (held back) input_grab (
      or_if (held start) input_super (
        or_if (held left_shoulder) input_special2
          (or_if (held right_shoulder) input_special1 attacks)))

-- without a gamepad 0, and the old bits stay
unfoldable pub input_gamepad_read : (PadButton → Bool) → Pad → ℕ × Pad
input_gamepad_read held p = elim p.id [
  | none ↦ (0, p)
  | some id ↦ (pad_bits held, record p { bits = pad_bits held })
]
