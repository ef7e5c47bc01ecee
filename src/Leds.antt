-- ===== src/Leds.antt =====
-- `src/leds.rs`: the three LEDs. A `Led` is the level of its pin, whose errors are ignored.
use thermostat.Prelude.{Bool, true, false}

pub record Leds : Type 0 where
  pub r1 : Bool
  pub g3 : Bool
  pub g4 : Bool

-- `Leds::new` of the levels that the pins have as outputs.
unfoldable pub new : Bool → Bool → Bool → Leds
new r1 g3 g4 = record { r1 = r1; g3 = g3; g4 = g4 }

-- `Led::on`
abbrev pub turn_on : Bool → Bool
turn_on led = true

-- `Led::off`
abbrev pub turn_off : Bool → Bool
turn_off led = false
