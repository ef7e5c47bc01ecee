-- ===== src/Channels/Calibrate.antt =====
-- `calibrate_dac_value` of `src/channels.rs`: the search for the DAC value that meets the reference.
pub mod Readings
pub mod Search
pub mod Return
use thermostat.Prelude.{ℕ, zero, suc, ◌+◌, ◌-◌, ◌/◌, ◌^◌, ltb, if◌then◌else◌}
use thermostat.Platform.{Platform, nought}
use thermostat.Dac.{max_value}
use thermostat.Channels.{Board, dac_vfb, M, pure, ◌>>=◌, ◌>>◌, modify_channel}
use thermostat.Channels.Output.{write_dac, set_dac, dac_out_v_max}
use thermostat.Channels.Sense.{adc_read, get_center}

module _ ⦃p : Platform⦄ ⦃b : Board⦄ where
  open p use {F64, lit, of_u32, add, sub, mul, div, lt}

  -- The reference voltage, summed up over so many samples.
  unfoldable pub sum_center : ℕ → ℕ → F64 → M F64
  sum_center i zero sum = pure sum
  sum_center i (suc n) sum = do x ← get_center i; sum_center i n (add sum x)

  -- `start_value` and `best_error`
  pub record Best : Type 0 where
    pub start_value : ℕ
    pub best_error : F64

  -- How many values `(start..=MAX_VALUE).step_by(step)` has.
  abbrev pub count : ℕ → ℕ → ℕ
  count start step = if ltb max_value start then 0 else (max_value - start) / step + 1

  -- The voltage that a value stands for.
  abbrev pub vref_for : ℕ → F64
  vref_for value = mul (div (of_u32 value) (of_u32 max_value)) dac_out_v_max

  -- The inner loop, over so many values from one on; an output above the target ends it.
  unfoldable pub scan : ℕ → F64 → ℕ → ℕ → ℕ → Best → M Best
  unfolding write_dac adc_read modify_channel
  scan i target step zero value best = pure best
  scan i target step (suc n) value best = do
    write_dac i value
    feedback ← adc_read i dac_vfb 64
    let error = sub target feedback
    if lt error nought
        then pure best
        else if lt error best.best_error
        then (do
          modify_channel i (λ c. record c { vref_meas = vref_for value })
          scan i target step n (value + step) (record { start_value = value; best_error = error }))
        else scan i target step n (value + step) best

  -- The outer loop, over the steps from 2^(n + 4) down to 2^5.
  unfoldable pub search : ℕ → F64 → ℕ → Best → M Best
  unfolding scan
  search i target zero best = pure best
  search i target (suc n) best = do
    let step = 2 ^ (n + 5)
    best' ← scan i target step (count best.start_value step) best.start_value best
    search i target n best'

  -- `Channels::calibrate_dac_value`
  unfoldable pub calibrate_dac_value : ℕ → M (Unit {0})
  unfolding sum_center search set_dac
  calibrate_dac_value i = do
    sum ← sum_center i 50 nought
    search i (div sum (lit 500 1)) 13 (record { start_value = 1; best_error = lit 1000 1 })
    set_dac i nought
    pure tt
