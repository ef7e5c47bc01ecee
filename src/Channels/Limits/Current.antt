-- ===== src/Channels/Limits/Current.antt =====
-- What the DAC of a channel carries, written apart from `set_i` and `set_dac` of `src/channels.rs`.
use thermostat.Prelude.{ℕ, ◌≡◌, refl, min}
use thermostat.Platform.{Platform}
use thermostat.Command.{Polarity, normal, reversed}
use thermostat.Dac.Frame.{decode, decode-frame}
use thermostat.Channels.{Board, Channel}
use thermostat.Channels.Output.{sign, control_voltage}
use thermostat.Channels.Limits.{voltage_for, dac_word, driven}

module _ ⦃p : Platform⦄ where
  open p use {F64, lit, of_u32, add, mul, div, neg, to_u32}

  -- The voltage for a current: ten times what falls off at 0.05 ohm, above the reference, or below
  -- it where the polarity is reversed.
  abbrev pub drive_voltage : Polarity → F64 → F64 → F64
  drive_voltage normal amps reference =
      add (mul (mul (mul (lit 10 1) amps) (lit 100 1)) (lit 5 2)) reference
  drive_voltage reversed amps reference =
      add (mul (mul (mul (neg (lit 10 1)) amps) (lit 100 1)) (lit 5 2)) reference

  -- The code of 18 bits for a voltage, of which 3 V is the full scale.
  abbrev pub dac_code : F64 → ℕ
  dac_code volts = min (to_u32 (mul (div volts (lit 30 1)) (of_u32 0x3ffff))) 0x3ffff

  module _ ⦃b : Board⦄ where
    drive_voltage-control_voltage :
        (q : Polarity) (amps reference : F64)
        → control_voltage (sign q) amps reference ≡ drive_voltage q amps reference
    drive_voltage-control_voltage normal amps reference = refl
    drive_voltage-control_voltage reversed amps reference = refl

    -- The DAC of the channel holds the code for the current that the state has, under its polarity
    -- and its reference.
    abbrev pub Carries : Channel → Type 0
    Carries c =
        (c.state.dac_value ≡ drive_voltage c.state.polarity c.state.i_set c.vref_meas)
        × (decode c.dac ≡ dac_code c.state.dac_value)

    pub driven-Carries : (c : Channel) (x : F64) → Carries (driven c x)
    driven-Carries c x = (
      drive_voltage-control_voltage c.state.polarity _ c.vref_meas,
      (decode-frame (dac_word (voltage_for c x))).0,
    )
