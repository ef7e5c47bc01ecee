-- ===== src/Channels/Control/Reading.antt =====
-- What `poll_adc` of `src/channels.rs` does with one reading, by the reading and the PID switch.
use native.Mathlib.Decide.{ℕ_discrete}
use thermostat.Prelude.{ℕ, ◌≡◌, ◌≢◌, refl, ap, ◌∙◌, ◌⊎◌, true, false, Option, none, some}
use thermostat.Platform.{Platform, IsNan, ◌≼◌}
use thermostat.Platform.Laws.{IsLawful}
use thermostat.Pid.{Controller}
use thermostat.Pid.Bounds.{lower, upper, IsWithin}
use thermostat.ChannelState
use thermostat.ChannelState.{ChannelState, max_value}
use thermostat.ChannelState.Readings.{
  unplugged, update_pid_reading, update_pid_run, update_pid_latched,
}
use thermostat.Channels.{Board, Channel, Channels, channel_at, ◌>>=◌}
use thermostat.Channels.Output.{set_i, power_up, max_tec_i, limited}
use thermostat.Channels.Control.{drive, process}
use thermostat.Pid.Recurrence.{output_of, next, output_of_range}
use thermostat.Channels.Limits.Current.{Carries, driven-Carries}
use thermostat.Channels.Limits.{driven}
use thermostat.Channels.Limits.Safety.{
  BusWorks, IsSafe, sets_current, limited-IsSafe, limited_nan, channel_at-with_channel,
}
use thermostat.Channels.Control.Loop.{with_state, process_run, power_up_run, power_down_run}

module _ ⦃p : Platform⦄ ⦃b : Board⦄ where
  -- `process` returns, with the channel `c'` at the index.
  abbrev pub Leaves : ℕ → ℕ → ℕ → Channels → Channel → Type 0
  Leaves instant i reading s c' =
      (s' : Channels) × (process instant i reading s ≡ some (tt, s')) × (channel_at i s' ≡ some c')

  -- A full-scale reading, that of an unplugged thermistor, powers an engaged channel down; its
  -- current, its DAC and its PID stay as they are.
  pub process_unplugged :
      (instant i : ℕ) (s : Channels) (c : Channel)
      → channel_at i s ≡ some c
      → c.state.pid_engaged ≡ true
      → (c' : Channel) × Leaves instant i max_value s c'
        × (c'.shdn ≡ false)
        × (c'.state.i_set ≡ c.state.i_set)
        × (c'.dac ≡ c.dac)
        × (c'.state.pid ≡ c.state.pid)
  unfolding drive ChannelState.update
  process_unplugged instant i s c has on =
      let st = ChannelState.update c.state instant max_value in
      let c₁ = record c { state = st } in
      let s₁ = with_state i c st s in
      let (s', down, has') = power_down_run i s₁ c₁ (channel_at-with_channel i c c₁ s s has) in
      (
        record c₁ { shdn = false },
        (
          s',
          process_run instant i max_value none st s c has (unplugged c.state instant)
              ∙ ap (λ e. drive i none e s₁) on
              ∙ down,
          has',
        ),
        refl,
        refl,
        refl,
        refl,
      )

  drive_idle : (i : ℕ) (o : Option p.F64) (s : Channels) → drive i o false s ≡ some (tt, s)
  unfolding drive
  drive_idle i none s = refl
  drive_idle i (some y) s = refl

  -- `process` returns with the outputs and the switch of the channel as they were.
  abbrev pub LeavesOutputs : ℕ → ℕ → ℕ → Channels → Channel → Type 0
  LeavesOutputs instant i reading s c =
      (c' : Channel) × Leaves instant i reading s c'
      × (c'.shdn ≡ c.shdn)
      × (c'.state.i_set ≡ c.state.i_set)
      × (c'.dac ≡ c.dac)
      × (c'.state.pid_engaged ≡ c.state.pid_engaged)

  idle_run :
      (instant i reading : ℕ) (s : Channels) (c : Channel) (o : Option p.F64) (ctl : Controller)
      → channel_at i s ≡ some c
      → c.state.pid_engaged ≡ false
      → ChannelState.update_pid (ChannelState.update c.state instant reading)
        ≡ some (o, record (ChannelState.update c.state instant reading) { pid = ctl })
      → LeavesOutputs instant i reading s c
  unfolding ChannelState.update
  idle_run instant i reading s c o ctl has idle e =
      let st = record (ChannelState.update c.state instant reading) { pid = ctl } in
      let c₁ = record c { state = st } in
      (
        c₁,
        (
          with_state i c st s,
          process_run instant i reading o st s c has e
              ∙ ap (λ k. drive i o k (with_state i c st s)) idle
              ∙ drive_idle i o (with_state i c st s),
          channel_at-with_channel i c c₁ s s has,
        ),
        refl,
        refl,
        refl,
        refl,
      )

  -- With lawful arithmetic and ordered PID limits, a reading of a channel that is not engaged,
  -- whatever its value, leaves the current, the DAC, the power pin and the switch as they are.
  pub process_idle :
      (laws : IsLawful) (instant i reading : ℕ) (s : Channels) (c : Channel)
      → channel_at i s ≡ some c
      → c.state.pid_engaged ≡ false
      → lower c.state.pid ≼ upper c.state.pid
      → LeavesOutputs instant i reading s c
  process_idle laws instant i reading s c has idle ordered = elim (ℕ_discrete reading max_value) [
    | yes e ↦
        idle_run instant i reading s c none (ChannelState.update c.state instant reading).pid has
          idle (rw e (unplugged c.state instant))
    | no n ↦
        let (y, ctl, run, _, _, _) = update_pid_reading laws c.state instant reading n ordered in
        idle_run instant i reading s c (some y) ctl has idle run
  ]

  driven_up :
      (i : ℕ) (y r : p.F64) (s₁ s₂ s₃ : Channels)
      → set_i i y s₁ ≡ some (r, s₂)
      → power_up i s₂ ≡ some (tt, s₃)
      → drive i (some y) true s₁ ≡ some (tt, s₃)
  unfolding drive
  driven_up i y r s₁ s₂ s₃ set up = rw (set, ◌>>=◌) up

  module _ (laws : IsLawful) (works : BusWorks) where
    -- After an engaged step: the current, the DAC that carries it, the power pin, the switch and the
    -- PID of the channel.
    abbrev pub Drives : p.F64 → Channel → Controller → Channel → Type 0
    Drives y c ctl c' =
        IsSafe c'.state.i_set
        × (c'.state.i_set ≡ limited y)
        × (c'.shdn ≡ true)
        × (c'.state.pid_engaged ≡ true)
        × (c'.state.pid ≡ ctl)
        × Carries c'

    engaged_run :
        (instant i reading : ℕ) (s : Channels) (c : Channel) (y : p.F64) (ctl : Controller)
        → channel_at i s ≡ some c
        → c.state.pid_engaged ≡ true
        → ChannelState.update_pid (ChannelState.update c.state instant reading)
          ≡ some (some y, record (ChannelState.update c.state instant reading) { pid = ctl })
        → (c' : Channel) × Leaves instant i reading s c' × Drives y c ctl c'
    unfolding drive ChannelState.update
    engaged_run instant i reading s c y ctl has on e =
        let st = record (ChannelState.update c.state instant reading) { pid = ctl } in
        let c₁ = record c { state = st } in
        let s₁ = with_state i c st s in
        let has₁ = channel_at-with_channel i c c₁ s s has in
        let (r, s₂, set, has₂, _, _, _, _, _, _, _) = sets_current laws works i y s₁ c₁ has₁ in
        let (s₃, up, has₃) = power_up_run i s₂ (driven c₁ y) has₂ in
        (
          record (driven c₁ y) { shdn = true },
          (
            s₃,
            process_run instant i reading (some y) st s c has e
                ∙ ap (λ k. drive i (some y) k s₁) on
                ∙ driven_up i y r s₁ s₂ s₃ set up,
            has₃,
          ),
          (limited-IsSafe laws y, refl, refl, on, refl, driven-Carries c₁ y),
        )

    -- With lawful arithmetic and a DAC bus that works, an engaged channel with ordered PID limits
    -- is driven by every reading below full scale. The reading makes a temperature, and the PID
    -- takes one step with it: its output is the recurrence of its last output, its target and the
    -- last three temperatures, clipped to its limits, and is within them or NaN; its history moves
    -- on by one and its settings stay. The current is that output cut to -2 A and 2 A, the DAC
    -- holds the code for that current, the channel is powered up and stays engaged.
    pub process_engaged :
        (instant i reading : ℕ) (s : Channels) (c : Channel)
        → channel_at i s ≡ some c
        → c.state.pid_engaged ≡ true
        → reading ≢ max_value
        → lower c.state.pid ≼ upper c.state.pid
        → (t : p.F64) × (c' : Channel) × Leaves instant i reading s c'
          × (ChannelState.get_temperature (ChannelState.update c.state instant reading) ≡ some t)
          × (let x = p.to_celsius t in
              let y = output_of c.state.pid x in
              Drives y c (next c.state.pid x) c' × (IsWithin c.state.pid y ⊎ IsNan y))
    process_engaged instant i reading s c has on plugged ordered =
        let (t, hot, e) = update_pid_run c.state instant reading plugged ordered in
        let x = p.to_celsius t in
        let y = output_of c.state.pid x in
        let (c', leaves, drives) =
          engaged_run instant i reading s c y (next c.state.pid x) has on e in
        (t, c', leaves, hot, (drives, output_of_range laws c.state.pid x ordered))

    -- With lawful arithmetic, a DAC bus that works and ordered PID limits: when the last PID
    -- output of an engaged channel is NaN, every reading below full scale sets the largest
    -- positive current, on the DAC as well, and powers the channel up, and the last PID output is
    -- NaN again.
    pub process_latched :
        (instant i reading : ℕ) (s : Channels) (c : Channel)
        → channel_at i s ≡ some c
        → c.state.pid_engaged ≡ true
        → reading ≢ max_value
        → lower c.state.pid ≼ upper c.state.pid
        → IsNan c.state.pid.y1
        → (c' : Channel) × Leaves instant i reading s c'
          × (c'.state.i_set ≡ max_tec_i)
          × Carries c'
          × (c'.shdn ≡ true)
          × (c'.state.pid_engaged ≡ true)
          × IsNan c'.state.pid.y1
          × (c'.state.pid.parameters ≡ c.state.pid.parameters)
    process_latched instant i reading s c has on plugged ordered nan =
        let (y, ctl, e, out, kept, same) =
          update_pid_latched laws c.state instant reading plugged ordered nan in
        let (c', leaves, drives) = engaged_run instant i reading s c y ctl has on e in
        let (safe, set, up, still, pid, carries) = drives in
        (
          c',
          leaves,
          set ∙ limited_nan laws y out,
          carries,
          up,
          still,
          ap (λ (k : Controller). p.le k.y1 k.y1) pid ∙ kept,
          ap (λ (k : Controller). k.parameters) pid ∙ same,
        )
