-- ===== src/Ad7172/Adc/Inputs.antt =====
-- The settings of a channel that `setup_channel` of `src/ad7172/adc.rs` writes, and the calibrations,
-- against the getters of `src/ad7172/regs.rs`.
use thermostat.Prelude.{
  ℕ, ◌/◌, ◌%◌, ◌^◌, ◌<◌, ◌≡◌, ap, ◌∙◌, Bool, true, List, [], ◌∷◌, arith, length,
}
use thermostat.Ad7172.Codes.{
  Input, ain0, ain1, ain2, ain3, ain4, temperature_pos, temperature_neg, analog_supply_pos,
  analog_supply_neg, ref_pos, ref_neg, invalid_input, input_code, input_of_u8,
  input_of_u8-input_code,
}
use thermostat.Ad7172.Regs.{BitField, data24}
use thermostat.Ad7172.Adc.{with_inputs}
use thermostat.Ad7172.Regs.Fields.{set_data24, enabled_of, setup_of, a_in_pos, a_in_neg}

-- The number that is set in `Offset` or `Gain` is read back, cut to 24 bits.
data24-set_data24 :
    (value : ℕ) (r : List ℕ) → length r ≡ 3 → data24 (set_data24 value r) ≡ value % 2 ^ 24
data24-set_data24 value [] h = absurd (omega arith)
data24-set_data24 value (a ∷ []) h = absurd (omega arith)
data24-set_data24 value (a ∷ b ∷ []) h = absurd (omega arith)
data24-set_data24 value (a ∷ b ∷ c ∷ r) h = omega arith

-- What the documentation of `bit_field` says of the fields of the channel register: a field that is
-- set is read back, and the others keep what they hold.
pub record ChannelFields ⦃f : BitField⦄ : Type 0 where
  pub enabled_same : (x : ℕ) (b : Bool) → f.get_bit (f.set_bit x 7 b) 7 ≡ b
  pub enabled_pos : (x v : ℕ) → v < 4 → f.get_bit (f.set_bits x 0 1 v) 7 ≡ f.get_bit x 7
  pub setup_same : (x v : ℕ) → v < 4 → f.get_bits (f.set_bits x 4 5 v) 4 5 ≡ v
  pub setup_enabled : (x : ℕ) (b : Bool) → f.get_bits (f.set_bit x 7 b) 4 5 ≡ f.get_bits x 4 5
  pub setup_pos : (x v : ℕ) → v < 4 → f.get_bits (f.set_bits x 0 1 v) 4 5 ≡ f.get_bits x 4 5
  pub high_same : (x v : ℕ) → v < 4 → f.get_bits (f.set_bits x 0 1 v) 0 1 ≡ v
  pub low_same : (x v : ℕ) → v < 8 → f.get_bits (f.set_bits x 5 7 v) 5 7 ≡ v
  pub low_neg : (x v : ℕ) → v < 32 → f.get_bits (f.set_bits x 0 4 v) 5 7 ≡ f.get_bits x 5 7
  pub neg_same : (x v : ℕ) → v < 32 → f.get_bits (f.set_bits x 0 4 v) 0 4 ≡ v

input_code_lt : (i : Input) → input_code i < 32
unfolding input_code
input_code_lt ain0 = omega arith
input_code_lt ain1 = omega arith
input_code_lt ain2 = omega arith
input_code_lt ain3 = omega arith
input_code_lt ain4 = omega arith
input_code_lt temperature_pos = omega arith
input_code_lt temperature_neg = omega arith
input_code_lt analog_supply_pos = omega arith
input_code_lt analog_supply_neg = omega arith
input_code_lt ref_pos = omega arith
input_code_lt ref_neg = omega arith
input_code_lt invalid_input = omega arith

module _ ⦃f : BitField⦄ where
  -- The four settings that a channel register holds.
  abbrev pub channel_settings : List ℕ → Bool × ℕ × Input × Input
  channel_settings r = (enabled_of r, setup_of r, a_in_pos r, a_in_neg r)

module _ ⦃f : BitField⦄ (laws : ChannelFields) where
  -- The register of a channel after `setup_channel`, whatever it held before, with the documented
  -- behaviour of bit fields and an index that fits: the channel is enabled, uses the setup of the
  -- index, and its two inputs are read back as the ones asked for.
  pub channel_settings-with_inputs :
      (index : ℕ) (in_pos in_neg : Input) (r : List ℕ)
      → index < 4
      → length r ≡ 2
      → channel_settings (with_inputs index in_pos in_neg r) ≡ (true, index, in_pos, in_neg)
  channel_settings-with_inputs index in_pos in_neg [] small h = absurd (omega arith)
  channel_settings-with_inputs index in_pos in_neg (x ∷ []) small h = absurd (omega arith)
  channel_settings-with_inputs index in_pos in_neg (x ∷ y ∷ r) small h =
      let high : input_code in_pos / 8 < 4 = omega (arith, input_code_lt in_pos) in
      let low : input_code in_pos % 8 < 8 = omega arith in
      let neg : input_code in_neg < 32 = input_code_lt in_neg in
      let x₁ = f.set_bits x 4 5 index in
      let x₂ = f.set_bit x₁ 7 true in
      let y₁ = f.set_bits y 5 7 (input_code in_pos % 8) in
      rw
        (
          laws.enabled_pos x₂ (input_code in_pos / 8) high,
          laws.enabled_same x₁ true,
          laws.setup_pos x₂ (input_code in_pos / 8) high,
          laws.setup_enabled x₁ true,
          laws.setup_same x index small,
          laws.high_same x₂ (input_code in_pos / 8) high,
          laws.low_neg y₁ (input_code in_neg) neg,
          laws.low_same y (input_code in_pos % 8) low,
          laws.neg_same y₁ (input_code in_neg) neg,
        )
        (ap (λ q. (true, index, q, input_of_u8 (input_code in_neg)))
            (ap input_of_u8 (omega arith) ∙ input_of_u8-input_code in_pos)
          ∙ ap (λ q. (true, index, in_pos, q)) (input_of_u8-input_code in_neg))
