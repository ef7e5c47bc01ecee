-- ===== src/Channels/Isolation/Measures.antt =====
-- The measurements and the calibration of one channel.
use thermostat.Prelude.{ℕ, zero, suc, ◌+◌, ◌^◌, ◌%◌, ◌==◌, ◌≡◌, refl, Bool, true, false}
use mathlib.Core.Path.{subst}
use thermostat.Platform.{Platform, nought}
use thermostat.Command.{CenterPoint}
use thermostat.Command
use thermostat.Channels.{
  Board, Channels, PinsAdcReadTarget, dac_vfb, vref, i_tec, v_tec, pure, panic, get_channel,
  modify_channel, get_state,
}
use thermostat.Channels.Output.{write_dac, set_dac}
use thermostat.Channels.Sense.{accumulate, average, sample_of, adc_read, center_of, get_center}
use thermostat.Channels.Calibrate.{sum_center, Best, scan, search, calibrate_dac_value}
use thermostat.Channels.Isolation.{
  After, beside, IsLocal, IsLocal->>=, IsLocal-pure, IsLocal-get_channel, IsLocal-modify_channel,
  IsLocal-get_state,
}
use thermostat.Channels.Isolation.Outputs.{
  IsLocal->>, IsLocal-if, IsLocal-write_dac, IsLocal-set_dac,
}

module _ ⦃p : Platform⦄ ⦃b : Board⦄ where
  open p use {F64, lt}

  beside_env : (i : ℕ) (s : Channels) (e : b.Env) → beside i (record s { env = e }) ≡ beside i s
  beside_env zero s e = refl
  beside_env (suc i) s e = refl

  IsLocal-accumulate :
      (i : ℕ) (target : PinsAdcReadTarget) (n sample : ℕ) → IsLocal i (accumulate i target n sample)
  unfolding accumulate
  IsLocal-accumulate i target zero sample s = refl
  IsLocal-accumulate i target (suc n) sample s =
      let (x, e) = b.convert s.env i target in
      subst
        (λ t.
          After (λ s'. beside i s' ≡ t)
            (accumulate i target n ((sample + x) % 2 ^ 32) (record s { env = e })))
        (beside_env i s e)
        (IsLocal-accumulate i target n ((sample + x) % 2 ^ 32) (record s { env = e }))

  IsLocal-average : (i : ℕ) (target : PinsAdcReadTarget) (n : ℕ) → IsLocal i (average i target n)
  unfolding average
  IsLocal-average i target n =
      IsLocal->>= i (accumulate i target n 0) _ (IsLocal-accumulate i target n 0)
        λ sample. IsLocal-if i (n == 0) panic _ (λ s. tt) (λ s. refl)

  IsLocal-sample_of :
      (i : ℕ) (target : PinsAdcReadTarget) (analog : Bool) (n : ℕ)
      → IsLocal i (sample_of i target analog n)
  unfolding sample_of
  IsLocal-sample_of i vref false n = λ s. refl
  IsLocal-sample_of i vref true n = IsLocal-average i vref n
  IsLocal-sample_of i dac_vfb analog n = IsLocal-average i dac_vfb n
  IsLocal-sample_of i i_tec analog n = IsLocal-average i i_tec n
  IsLocal-sample_of i v_tec analog n = IsLocal-average i v_tec n

  IsLocal-adc_read : (i : ℕ) (target : PinsAdcReadTarget) (n : ℕ) → IsLocal i (adc_read i target n)
  unfolding adc_read
  IsLocal-adc_read i target n = IsLocal->>= i (get_channel i) _ (IsLocal-get_channel i) λ c.
      IsLocal->>= i (sample_of i target c.vref_analog n) _
        (IsLocal-sample_of i target c.vref_analog n) λ x s. refl

  IsLocal-center_of : (i : ℕ) (c : CenterPoint) → IsLocal i (center_of i c)
  unfolding center_of
  IsLocal-center_of i Command.vref = IsLocal-adc_read i vref 8
  IsLocal-center_of i (Command.override v) = λ s. refl

  IsLocal-get_center : (i : ℕ) → IsLocal i (get_center i)
  unfolding get_center
  IsLocal-get_center i =
      IsLocal->>= i (get_state i) _ (IsLocal-get_state i) λ st. IsLocal-center_of i st.center

  IsLocal-sum_center : (i n : ℕ) (sum : F64) → IsLocal i (sum_center i n sum)
  unfolding sum_center
  IsLocal-sum_center i zero sum = IsLocal-pure i sum
  IsLocal-sum_center i (suc n) sum =
      IsLocal->>= i (get_center i) _ (IsLocal-get_center i)
        λ x. IsLocal-sum_center i n (p.add sum x)

  IsLocal-scan :
      (i : ℕ) (target : F64) (step n value : ℕ) (best : Best)
      → IsLocal i (scan i target step n value best)
  unfolding scan
  IsLocal-scan i target step zero value best = IsLocal-pure i best
  IsLocal-scan i target step (suc n) value best =
      IsLocal->> i (write_dac i value) _ (IsLocal-write_dac i value) (
        IsLocal->>= i (adc_read i dac_vfb 64) _ (IsLocal-adc_read i dac_vfb 64) λ feedback.
          IsLocal-if i (lt (p.sub target feedback) nought) _ _ (λ s. refl)
            (IsLocal-if i (lt (p.sub target feedback) best.best_error) _ _
              (IsLocal->> i (modify_channel i _) _ (IsLocal-modify_channel i _)
                (IsLocal-scan i target step n (value + step) _))
              (IsLocal-scan i target step n (value + step) best)))

  IsLocal-search : (i : ℕ) (target : F64) (n : ℕ) (best : Best) → IsLocal i (search i target n best)
  unfolding search
  IsLocal-search i target zero best = IsLocal-pure i best
  IsLocal-search i target (suc n) best =
      IsLocal->>= i (scan i target (2 ^ (n + 5)) _ best.start_value best) _
        (IsLocal-scan i target (2 ^ (n + 5)) _ best.start_value best)
        λ best'. IsLocal-search i target n best'

  -- The calibration of one channel.
  pub IsLocal-calibrate_dac_value : (i : ℕ) → IsLocal i (calibrate_dac_value i)
  unfolding calibrate_dac_value
  IsLocal-calibrate_dac_value i =
      let first : Best = record { start_value = 1; best_error = p.lit 1000 1 } in
      IsLocal->>= i (sum_center i 50 nought) _ (IsLocal-sum_center i 50 nought) λ sum.
        let target = p.div sum (p.lit 500 1) in
        IsLocal->> i (search i target 13 first) _ (IsLocal-search i target 13 first)
          (IsLocal->> i (set_dac i nought) (pure tt) (IsLocal-set_dac i nought) (IsLocal-pure i tt))
