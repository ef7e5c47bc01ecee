-- ===== src/Channels/Limits/Pins.antt =====
-- What the limit pins of a channel carry, written apart from `set_max_v`, `set_max_i_pos` and
-- `set_max_i_neg` of `src/channels.rs`, and what becomes of a limit that is asked for.
use thermostat.Prelude.{ℕ, ◌≡◌, refl, ap, ◌∙◌, true, min}
use thermostat.Platform.{Platform, nought, ◌≼◌}
use thermostat.Platform.Laws.{IsLawful}
use thermostat.Command.{PwmPin, Polarity, normal, reversed}
use thermostat.ChannelState.{OutputLimits}
use thermostat.Channels.{Board, Duties}
use thermostat.Channels.Output.{limited_to, pos_pin, neg_pin, current_duty, cpu_adc_vref}
use thermostat.Config.View.{with_pin, pin_value}

module _ ⦃p : Platform⦄ where
  open p use {F64, lit, mul, div, lt}

  -- The share of 3.3 V that stands for a voltage, and for a current through 0.05 ohm.
  abbrev pub volt_duty : F64 → F64
  volt_duty volts = div (div volts (lit 40 1)) (lit 33 1)

  abbrev pub amp_duty : F64 → F64
  amp_duty amps = div (mul (lit 100 1) (mul amps (lit 5 2))) (lit 33 1)

  -- A limit that is asked for is taken: it lies between zero and the largest one, and is the one
  -- asked for where that is strictly between them.
  abbrev pub Takes : F64 → F64 → F64 → Type 0
  Takes top asked x =
      (nought ≼ x) × (x ≼ top) × (lt nought asked ≡ true → lt asked top ≡ true → x ≡ asked)

  module _ ⦃b : Board⦄ where
    -- The value of a pin for a duty, of its own full scale.
    abbrev pub pin_code : ℕ → PwmPin → F64 → ℕ
    pin_code i pin duty = min (p.to_u16 (mul duty (p.of_u32 (b.max_duty i pin)))) (b.max_duty i pin)

    -- The pins carry the limits; a reversed polarity exchanges those of the currents.
    abbrev pub PinsCarry : ℕ → Polarity → OutputLimits → Duties → Type 0
    PinsCarry i normal l d =
        (d.max_v ≡ pin_code i PwmPin.max_v (volt_duty l.max_v))
        × (d.max_i_pos ≡ pin_code i PwmPin.max_i_pos (amp_duty l.max_i_pos))
        × (d.max_i_neg ≡ pin_code i PwmPin.max_i_neg (amp_duty l.max_i_neg))
    PinsCarry i reversed l d =
        (d.max_v ≡ pin_code i PwmPin.max_v (volt_duty l.max_v))
        × (d.max_i_neg ≡ pin_code i PwmPin.max_i_neg (amp_duty l.max_i_pos))
        × (d.max_i_pos ≡ pin_code i PwmPin.max_i_pos (amp_duty l.max_i_neg))

    -- The pin of the voltage, and then those of the currents under a polarity.
    abbrev pub with_volt : ℕ → OutputLimits → Duties → Duties
    with_volt i l d =
        with_pin PwmPin.max_v (pin_value i PwmPin.max_v (div (div l.max_v (lit 40 1)) cpu_adc_vref))
          d

    abbrev pub with_amps : ℕ → Polarity → F64 → F64 → Duties → Duties
    with_amps i q pos neg d =
        with_pin (neg_pin q) (pin_value i (neg_pin q) (current_duty neg))
          (with_pin (pos_pin q) (pin_value i (pos_pin q) (current_duty pos)) d)

    pub with_amps-PinsCarry :
        (i : ℕ) (q : Polarity) (l : OutputLimits) (d : Duties)
        → PinsCarry i q l (with_amps i q l.max_i_pos l.max_i_neg (with_volt i l d))
    with_amps-PinsCarry i normal l d = (refl, refl, refl)
    with_amps-PinsCarry i reversed l d = (refl, refl, refl)

    -- What was set under another polarity before does not matter.
    pub with_amps-again :
        (i : ℕ) (before q : Polarity) (pos neg : F64) (l : OutputLimits) (d : Duties)
        → PinsCarry i q l
            (with_amps i q l.max_i_pos l.max_i_neg (with_amps i before pos neg (with_volt i l d)))
    with_amps-again i normal normal pos neg l d = (refl, refl, refl)
    with_amps-again i normal reversed pos neg l d = (refl, refl, refl)
    with_amps-again i reversed normal pos neg l d = (refl, refl, refl)
    with_amps-again i reversed reversed pos neg l d = (refl, refl, refl)

    module _ (laws : IsLawful) where
      open laws use {
        num_of_le, min-le_right, le-max_right, max-le, min_of_lt, max_of_lt, lit_nonneg,
      }

      limited_to_inside :
          (top x : F64) → lt nought x ≡ true → lt x top ≡ true → limited_to top x ≡ x
      limited_to_inside top x above below =
          ap (λ y. p.maximum y nought) (min_of_lt x top below) ∙ max_of_lt x nought above

      -- What was cut, or taken, is taken when it is cut again.
      pub limited_to-Takes :
          (m k : ℕ) (asked : F64) → Takes (lit m k) asked (limited_to (lit m k) asked)
      limited_to-Takes m k asked =
          let order = lit_nonneg m k in
          let nums = num_of_le nought (lit m k) order in
          (
            le-max_right (p.minimum asked (lit m k)) nought nums.0,
            max-le (p.minimum asked (lit m k)) nought (lit m k)
                (min-le_right asked (lit m k) nums.1) order,
            limited_to_inside (lit m k) asked,
          )

      pub limited_to-Takes_again :
          (m k : ℕ) (asked x : F64)
          → Takes (lit m k) asked x
          → Takes (lit m k) asked (limited_to (lit m k) x)
      limited_to-Takes_again m k asked x (_, _, same) =
          let (low, high, _) = limited_to-Takes m k x in
          (
            low,
            high,
            (λ above below.
                ap (limited_to (lit m k)) (same above below)
                ∙ limited_to_inside (lit m k) asked above below),
          )
