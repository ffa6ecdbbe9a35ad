-- ===== src/Input/Bits.antt =====
-- The input bits of network/protocol.h, and what the devices do with them.
use fury_clash.Prelude.{ℕ, ◌-◌, bit_and, bit_or, Bool, if◌then◌else◌}

abbrev pub input_up : ℕ
input_up = 1

abbrev pub input_down : ℕ
input_down = 2

abbrev pub input_left : ℕ
input_left = 4

abbrev pub input_right : ℕ
input_right = 8

abbrev pub input_light_punch : ℕ
input_light_punch = 16

abbrev pub input_heavy_punch : ℕ
input_heavy_punch = 32

abbrev pub input_light_kick : ℕ
input_light_kick = 64

abbrev pub input_heavy_kick : ℕ
input_heavy_kick = 128

abbrev pub input_special1 : ℕ
input_special1 = 256

abbrev pub input_special2 : ℕ
input_special2 = 512

abbrev pub input_super : ℕ
input_super = 1024

abbrev pub input_grab : ℕ
input_grab = 2048

-- `state &= ~mask` on 16 bits
unfoldable pub clear : ℕ → ℕ → ℕ
clear mask state = bit_and state (65535 - mask)

-- `if (test) state |= bit;`
unfoldable pub or_if : Bool → ℕ → ℕ → ℕ
or_if test bit state = if test then bit_or state bit else state
