-- ===== src/ChannelState/Readings.antt =====
-- What a converter reading does to a channel's state: `update` and `update_pid` of
-- `src/channel_state.rs`.
use thermostat.Prelude.{ℕ, ◌≡◌, ◌≢◌, refl, ◌⊎◌, none, some, arith, ◌==◌, inl, inr, Bool-cases}
use thermostat.Platform.{Platform, ◌≼◌, IsNan}
use thermostat.Platform.Laws.{IsLawful}
use thermostat.Pid.{Controller}
use thermostat.Pid.Bounds.{lower, upper, IsWithin, update_bounds}
use thermostat.Pid.Recurrence.{output_of, next, update_run}
use thermostat.Pid.Latch.{update_latched}
use thermostat.ChannelState.{
  ChannelState, max_value, update, update_pid, get_temperature, sens_of, temperature_of, with_pid,
}
use thermostat.Ad7172.Filter.{convert_data}

module _ ⦃p : Platform⦄ where
  open p use {F64}

  -- The reading of an unplugged thermistor makes no temperature, so the PID makes no output and keeps
  -- its state.
  pub unplugged :
      (s : ChannelState) (now : ℕ)
      → update_pid (update s now max_value) ≡ some (none, update s now max_value)
  unfolding update_pid update get_temperature
  unplugged s now = refl

  get_temperature-some :
      (s : ChannelState) (now reading : ℕ)
      → reading ≢ max_value
      → (t : F64) × (get_temperature (update s now reading) ≡ some t)
  unfolding get_temperature update
  get_temperature-some s now reading h = elim (Bool-cases (reading == max_value)) [
    | inl e ↦ absurd (ground arith)
    | inr e ↦ (
      temperature_of s.bp (sens_of (convert_data s.adc_calibration reading)),
      rw (e, get_temperature) refl,
    )
  ]

  -- Any other reading makes a temperature. If the PID limits are ordered the PID makes an output,
  -- within them or NaN, and nothing of the channel but the PID changes.
  pub update_pid_reading :
      (laws : IsLawful) (s : ChannelState) (now reading : ℕ)
      → reading ≢ max_value
      → lower s.pid ≼ upper s.pid
      → (y : F64) × (c : Controller) × (update_pid (update s now reading)
          ≡ some (some y, record (update s now reading) { pid = c }))
        × (IsWithin s.pid y ⊎ IsNan y)
        × (c.y1 ≡ y)
        × (c.parameters ≡ s.pid.parameters)
  unfolding update_pid update with_pid
  update_pid_reading laws s now reading h ordered =
      let (t, has) = get_temperature-some s now reading h in
      let (y, c, steps, bound) = update_bounds laws s.pid (p.to_celsius t) ordered in
      (y, c, rw (has, update_pid) (rw (steps.0, with_pid) refl), ground arith, steps.1, steps.4)

  -- A reading below full scale makes a temperature, and if the PID limits are ordered the PID takes
  -- one step by its law; nothing of the channel but the PID changes.
  pub update_pid_run :
      (s : ChannelState) (now reading : ℕ)
      → reading ≢ max_value
      → lower s.pid ≼ upper s.pid
      → (t : F64) × (get_temperature (update s now reading) ≡ some t)
        × (update_pid (update s now reading)
            ≡ some (
              some (output_of s.pid (p.to_celsius t)),
              record (update s now reading) { pid = next s.pid (p.to_celsius t) },
            ))
  unfolding update_pid update with_pid
  update_pid_run s now reading h ordered =
      let (t, has) = get_temperature-some s now reading h in
      (t, has, rw (has, update_pid) (rw (update_run s.pid (p.to_celsius t) ordered, with_pid) refl))

  -- With a NaN in its history the PID makes NaN of any reading of a thermistor, and keeps it.
  pub update_pid_latched :
      (laws : IsLawful) (s : ChannelState) (now reading : ℕ)
      → reading ≢ max_value
      → lower s.pid ≼ upper s.pid
      → IsNan s.pid.y1
      → (y : F64) × (c : Controller) × (update_pid (update s now reading)
          ≡ some (some y, record (update s now reading) { pid = c }))
        × IsNan y
        × IsNan c.y1
        × (c.parameters ≡ s.pid.parameters)
  unfolding update_pid update with_pid
  update_pid_latched laws s now reading h ordered n =
      let (t, has) = get_temperature-some s now reading h in
      let (y, c, e, nan, latched, same) = update_latched laws s.pid (p.to_celsius t) ordered n in
      (y, c, rw (has, update_pid) (rw (e, with_pid) refl), nan, latched, same)
