-- ===== src/Input/Keyboard.antt =====
-- input/input_keyboard.c: the bits of the keys that are down.
use fury_clash.Prelude.{ℕ, bit_or, Bool, Option, none, some, if◌then◌else◌}
use fury_clash.Input.Bits.{
  input_up, input_down, input_left, input_right, input_light_punch, input_heavy_punch,
  input_light_kick, input_heavy_kick, input_special1, input_special2, input_super, input_grab,
  clear,
}

-- The keys that the code names, and any other.
pub data Keycode : Type 0 where
  k_up k_w k_down k_s k_left k_a k_right k_d k_u k_i k_j k_k k_o k_p k_l k_h k_other : Keycode

-- the `switch` on the key
abbrev pub bit_of : Keycode → Option ℕ
bit_of k_up = some input_up
bit_of k_w = some input_up
bit_of k_down = some input_down
bit_of k_s = some input_down
bit_of k_left = some input_left
bit_of k_a = some input_left
bit_of k_right = some input_right
bit_of k_d = some input_right
bit_of k_u = some input_light_punch
bit_of k_i = some input_heavy_punch
bit_of k_j = some input_light_kick
bit_of k_k = some input_heavy_kick
bit_of k_o = some input_special1
bit_of k_p = some input_special2
bit_of k_l = some input_super
bit_of k_h = some input_grab
bit_of k_other = none

unfoldable pub set_bit : Keycode → Bool → ℕ → ℕ
set_bit key pressed state = elim (bit_of key) [
  | none ↦ state
  | some bit ↦ if pressed then bit_or state bit else clear bit state
]

-- a key that went down or up
unfoldable pub input_keyboard_event : Keycode → Bool → ℕ → ℕ
input_keyboard_event key pressed state = set_bit key pressed state
