-- ===== src/Dac.antt =====
-- `src/ad5680.rs`: the 18-bit converter that sets the output current of a channel.
pub mod Frame
pub mod Driver
use thermostat.Prelude.{ℕ, ◌*◌, ◌/◌, ◌%◌, ◌^◌, min, List, [], ◌∷◌}

-- `MAX_VALUE`
abbrev pub max_value : ℕ
max_value = 0x3ffff

-- The bytes that `Dac::set` sends for a value: `value >> 14`, `value >> 6` and `value << 2`, each
-- cut to a byte.
unfoldable pub frame : ℕ → List ℕ
frame v =
    let value = min v max_value in
    ((value / 2 ^ 14) % 256) ∷ ((value / 2 ^ 6) % 256) ∷ ((value * 4) % 256) ∷ []
