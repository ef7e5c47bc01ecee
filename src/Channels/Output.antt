-- ===== src/Channels/Output.antt =====
-- The outputs of `src/channels.rs`: the current set by the DAC, the limits set by PWM, and the
-- shutdown pins.
use thermostat.Prelude.{ℕ, zero, suc, min, Bool, true, false, Option, none, some, if◌then◌else◌}
use thermostat.Platform.{Platform, nought}
use thermostat.Command.{Polarity, normal, reversed, PwmPin, i_set, max_i_pos, max_i_neg, max_v}
use thermostat.Dac.{frame}
use thermostat.Dac
use thermostat.Channels.{
  Board, Duties, M, pure, ◌>>=◌, ◌>>◌, with_env, unwrap_ok, get_channel, modify_channel,
  modify_state, get_state,
}

abbrev pub same_polarity : Polarity → Polarity → Bool
same_polarity normal normal = true
same_polarity reversed reversed = true
same_polarity _ _ = false

module _ ⦃p : Platform⦄ ⦃b : Board⦄ where
  open p use {F64, lit, of_u32, add, sub, mul, div, neg, minimum, maximum, to_u32, to_u16}

  -- `MAX_TEC_I`, `MAX_TEC_V`, `DAC_OUT_V_MAX`, `R_SENSE`, `CPU_ADC_VREF`
  abbrev pub max_tec_i : F64
  max_tec_i = lit 20 1

  abbrev pub max_tec_v : F64
  max_tec_v = lit 43 1

  abbrev pub dac_out_v_max : F64
  dac_out_v_max = lit 30 1

  abbrev pub r_sense : F64
  r_sense = lit 5 2

  abbrev pub cpu_adc_vref : F64
  cpu_adc_vref = lit 33 1

  abbrev pub ten : F64
  ten = lit 100 1

  -- `dac.set(value).unwrap()`
  unfoldable pub write_dac : ℕ → ℕ → M (Unit {0})
  unfolding get_channel modify_channel
  write_dac i value = do
    _ ← get_channel i
    sent ← with_env (λ e. b.dac_transfer e i (frame value))
    unwrap_ok sent
    modify_channel i (λ c. record c { dac = frame value })

  -- `Channels::set_dac`
  unfoldable pub set_dac : ℕ → F64 → M F64
  unfolding write_dac modify_state
  set_dac i voltage = do
    write_dac i (to_u32 (mul (div voltage dac_out_v_max) (of_u32 Dac.max_value)))
    modify_state i (λ st. record st { dac_value = voltage })
    pure voltage

  abbrev pub sign : Polarity → F64
  sign normal = lit 10 1
  sign reversed = neg (lit 10 1)

  -- `i_set.min(MAX_TEC_I).max(-MAX_TEC_I)`
  abbrev pub limited : F64 → F64
  limited x = maximum (minimum x max_tec_i) (neg max_tec_i)

  -- The voltage at the DAC for a current.
  abbrev pub control_voltage : F64 → F64 → F64 → F64
  control_voltage negate current center = add (mul (mul (mul negate current) ten) r_sense) center

  -- `Channels::set_i`
  unfoldable pub set_i : ℕ → F64 → M F64
  unfolding set_dac modify_state get_channel
  set_i i requested = do
    let current = limited requested
    modify_state i (λ st. record st { i_set = current })
    c ← get_channel i
    let negate = sign c.state.polarity
    voltage ← set_dac i (control_voltage negate current c.vref_meas)
    pure (div (mul negate (sub voltage c.vref_meas)) (mul ten r_sense))

  -- `Channels::power_up`
  unfoldable pub power_up : ℕ → M (Unit {0})
  unfolding modify_channel
  power_up i = modify_channel i (λ c. record c { shdn = true })

  -- `Channels::power_down`
  unfoldable pub power_down : ℕ → M (Unit {0})
  unfolding modify_channel
  power_down i = modify_channel i (λ c. record c { shdn = false })

  abbrev pub put_duty : PwmPin → ℕ → Duties → Option Duties
  put_duty i_set v d = none
  put_duty max_i_pos v d = some (record d { max_i_pos = v })
  put_duty max_i_neg v d = some (record d { max_i_neg = v })
  put_duty max_v v d = some (record d { max_v = v })

  -- The register value of `set` in `set_pwm`: `((duty * max) as u16).min(max)`
  abbrev pub duty_value : ℕ → F64 → ℕ
  duty_value top duty = min (to_u16 (mul duty (of_u32 top))) top

  unfoldable pub put_pwm : ℕ → PwmPin → ℕ → M (Unit {0})
  put_pwm zero pin v s = elim (put_duty pin v s.pwm0) [
    | none ↦ none
    | some d ↦ some (tt, record s { pwm0 = d })
  ]
  put_pwm (suc zero) pin v s = elim (put_duty pin v s.pwm1) [
    | none ↦ none
    | some d ↦ some (tt, record s { pwm1 = d })
  ]
  put_pwm (suc (suc i)) pin v s = none

  -- `Channels::set_pwm`
  unfoldable pub set_pwm : ℕ → PwmPin → F64 → M F64
  unfolding put_pwm
  set_pwm i pin duty = do
    let top = b.max_duty i pin
    let value = duty_value top duty
    put_pwm i pin value
    pure (div (of_u32 value) (of_u32 top))

  abbrev pub limited_to : F64 → F64 → F64
  limited_to top x = maximum (minimum x top) nought

  -- `Channels::set_max_v`
  unfoldable pub set_max_v : ℕ → F64 → M (F64 × F64)
  unfolding modify_state set_pwm
  set_max_v i requested = do
    let top = limited_to max_tec_v requested
    modify_state i (λ st. record st { output_limits = record (st.output_limits) { max_v = top } })
    duty ← set_pwm i max_v (div (div top (lit 40 1)) cpu_adc_vref)
    pure (mul (lit 40 1) (mul duty cpu_adc_vref), max_tec_v)

  -- The duty cycle for a current limit, and the limit that a duty cycle makes.
  abbrev pub current_duty : F64 → F64
  current_duty top = div (mul ten (mul top r_sense)) cpu_adc_vref

  abbrev pub duty_current : F64 → F64
  duty_current duty = div (div (mul duty cpu_adc_vref) ten) r_sense

  abbrev pub pos_pin : Polarity → PwmPin
  pos_pin normal = max_i_pos
  pos_pin reversed = max_i_neg

  abbrev pub neg_pin : Polarity → PwmPin
  neg_pin normal = max_i_neg
  neg_pin reversed = max_i_pos

  -- `Channels::set_max_i_pos`
  unfoldable pub set_max_i_pos : ℕ → F64 → M (F64 × F64)
  unfolding get_state modify_state set_pwm
  set_max_i_pos i requested = do
    st ← get_state i
    let top = limited_to max_tec_i requested
    modify_state i
        (λ st. record st { output_limits = record (st.output_limits) { max_i_pos = top } })
    duty ← set_pwm i (pos_pin st.polarity) (current_duty top)
    pure (duty_current duty, max_tec_i)

  -- `Channels::set_max_i_neg`
  unfoldable pub set_max_i_neg : ℕ → F64 → M (F64 × F64)
  unfolding get_state modify_state set_pwm
  set_max_i_neg i requested = do
    st ← get_state i
    let top = limited_to max_tec_i requested
    modify_state i
        (λ st. record st { output_limits = record (st.output_limits) { max_i_neg = top } })
    duty ← set_pwm i (neg_pin st.polarity) (current_duty top)
    pure (duty_current duty, max_tec_i)

  -- `Channels::set_polarity`
  unfoldable pub set_polarity : ℕ → Polarity → M (Unit {0})
  unfolding get_state modify_state set_i set_max_i_pos set_max_i_neg
  set_polarity i polarity = do
    st ← get_state i
    if same_polarity st.polarity polarity then pure tt else (do
      modify_state i (λ st. record st { polarity = polarity })
      _ ← set_i i st.i_set
      _ ← set_max_i_pos i (st.output_limits.max_i_pos)
      _ ← set_max_i_neg i (st.output_limits.max_i_neg)
      pure tt)
