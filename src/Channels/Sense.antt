-- ===== src/Channels/Sense.antt =====
-- The readings of `src/channels.rs` through the processor's own converter.
use thermostat.Prelude.{
  ℕ, zero, suc, ◌+◌, ◌/◌, ◌%◌, ◌^◌, Bool, true, false, some, ◌==◌, if◌then◌else◌,
}
use thermostat.Platform.{Platform}
use thermostat.Command.{CenterPoint, Polarity}
use thermostat.Command
use thermostat.Channels.{
  Board, PinsAdcReadTarget, vref, dac_vfb, i_tec, v_tec, M, pure, panic, ◌>>=◌, get_channel,
  get_state,
}

module _ ⦃p : Platform⦄ ⦃b : Board⦄ where
  open p use {F64, lit, of_u32, of_millivolt, sub, mul, div, neg, widen}

  -- `sample += convert(pin) as u32`, so many times.
  unfoldable pub accumulate : ℕ → PinsAdcReadTarget → ℕ → ℕ → M ℕ
  accumulate i target zero sample s = some (sample, s)
  accumulate i target (suc n) sample s =
      let (x, e) = b.convert s.env i target in
      accumulate i target n ((sample + x) % 2 ^ 32) (record s { env = e })

  -- The average of the samples; a division by zero panics.
  unfoldable pub average : ℕ → PinsAdcReadTarget → ℕ → M ℕ
  unfolding accumulate
  average i target avg_pt = do
    sample ← accumulate i target avg_pt 0
    if avg_pt == 0 then panic else pure (sample / avg_pt)

  -- The arms of the `match` on the target: a reference pin that cannot be read counts as 2048.
  unfoldable pub sample_of : ℕ → PinsAdcReadTarget → Bool → ℕ → M ℕ
  unfolding average
  sample_of i vref false avg_pt = pure 2048
  sample_of i vref true avg_pt = average i vref avg_pt
  sample_of i dac_vfb analog avg_pt = average i dac_vfb avg_pt
  sample_of i i_tec analog avg_pt = average i i_tec avg_pt
  sample_of i v_tec analog avg_pt = average i v_tec avg_pt

  -- `Channels::adc_read`, in volt
  unfoldable pub adc_read : ℕ → PinsAdcReadTarget → ℕ → M F64
  unfolding get_channel sample_of
  adc_read i target avg_pt = do
    c ← get_channel i
    sample ← sample_of i target c.vref_analog avg_pt
    pure (of_millivolt (of_u32 (b.to_millivolts (sample % 2 ^ 16))))

  unfoldable pub center_of : ℕ → CenterPoint → M F64
  unfolding adc_read
  center_of i Command.vref = adc_read i vref 8
  center_of i (Command.override v) = pure (widen v)

  -- `Channels::get_center`
  unfoldable pub get_center : ℕ → M F64
  unfolding center_of get_state
  get_center i = do st ← get_state i; center_of i st.center

  abbrev pub signed : Polarity → F64 → F64
  signed Command.normal x = x
  signed Command.reversed x = neg x

  -- `Channels::get_tec_i`
  unfoldable pub get_tec_i : ℕ → M F64
  unfolding adc_read get_state
  get_tec_i i = do
    itec ← adc_read i i_tec 16
    ref ← adc_read i vref 16
    st ← get_state i
    pure (signed st.polarity (div (sub itec ref) (lit 4 1)))

  -- `Channels::get_tec_v`
  unfoldable pub get_tec_v : ℕ → M F64
  unfolding adc_read
  get_tec_v i = do v ← adc_read i v_tec 16; pure (mul (sub v (lit 15 1)) (lit 40 1))

  -- The comparison of `max_by`: the later of two that do not compare as greater is kept.
  abbrev pub larger : F64 → F64 → F64
  larger x y = if p.lt y x then x else y

  -- `Channels::current_abs_max_tec_i`
  unfoldable pub current_abs_max_tec_i : M F64
  unfolding get_tec_i
  current_abs_max_tec_i = do x ← get_tec_i 0; y ← get_tec_i 1; pure (larger (p.abs x) (p.abs y))
