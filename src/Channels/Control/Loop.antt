-- ===== src/Channels/Control/Loop.antt =====
-- The control loop of `src/channels.rs` for one reading of one channel: what the outputs do.
use mathlib.Core.Path.{subst}
use mathlib.Core.Option.{some-injective}
use thermostat.Prelude.{ℕ, zero, suc, ◌≡◌, refl, true, false, Option, some, arith}
use thermostat.Platform.{Platform}
use thermostat.ChannelState
use thermostat.ChannelState.{ChannelState, max_value}
use thermostat.Channels.{Board, Channel, Channels, channel_at, ◌>>=◌}
use thermostat.Channels.Output.{power_up, power_down}
use thermostat.Channels.Control.{drive, process}
use thermostat.Channels.Limits.{with_channel}

module _ ⦃p : Platform⦄ ⦃b : Board⦄ where
  -- The state after the reading and the PID step, before anything is driven.
  abbrev pub with_state : ℕ → Channel → ChannelState → Channels → Channels
  with_state i c st s = with_channel i (record c { state = st }) s

  abbrev Processes : ℕ → ℕ → ℕ → Option p.F64 → ChannelState → Channels → Channel → Type 0
  Processes instant i reading output st s c =
      ChannelState.update_pid (ChannelState.update c.state instant reading) ≡ some (output, st)
      → process instant i reading s ≡ drive i output st.pid_engaged (with_state i c st s)

  process0 :
      (instant reading : ℕ) (output : Option p.F64) (st : ChannelState) (s : Channels)
      → Processes instant 0 reading output st s s.channel0
  unfolding process
  process0 instant reading output st s e = rw (e, ◌>>=◌) refl

  process1 :
      (instant reading : ℕ) (output : Option p.F64) (st : ChannelState) (s : Channels)
      → Processes instant 1 reading output st s s.channel1
  unfolding process
  process1 instant reading output st s e = rw (e, ◌>>=◌) refl

  pub process_run :
      (instant i reading : ℕ) (output : Option p.F64) (st : ChannelState) (s : Channels)
      (c : Channel)
      → channel_at i s ≡ some c
      → Processes instant i reading output st s c
  unfolding channel_at
  process_run instant zero reading output st s c h =
      subst (Processes instant 0 reading output st s) (some-injective _ _ h)
        (process0 instant reading output st s)
  process_run instant (suc zero) reading output st s c h =
      subst (Processes instant 1 reading output st s) (some-injective _ _ h)
        (process1 instant reading output st s)
  process_run instant (suc (suc i)) reading output st s c h = absurd (cc)

  pub power_up_with :
      (i : ℕ) (s : Channels) (c : Channel)
      → channel_at i s ≡ some c
      → let c' = record c { shdn = true } in
        (power_up i s ≡ some (tt, with_channel i c' s))
        × (channel_at i (with_channel i c' s) ≡ some c')
  unfolding power_up channel_at
  power_up_with zero s c h = (ground arith, refl)
  power_up_with (suc zero) s c h = (ground arith, refl)
  power_up_with (suc (suc i)) s c h = absurd (cc)

  pub power_up_run :
      (i : ℕ) (s : Channels) (c : Channel)
      → channel_at i s ≡ some c
      → (s' : Channels) × (power_up i s ≡ some (tt, s'))
        × (channel_at i s' ≡ some (record c { shdn = true }))
  power_up_run i s c h =
      let (run, has) = power_up_with i s c h in
      (with_channel i (record c { shdn = true }) s, run, has)

  pub power_down_run :
      (i : ℕ) (s : Channels) (c : Channel)
      → channel_at i s ≡ some c
      → (s' : Channels) × (power_down i s ≡ some (tt, s'))
        × (channel_at i s' ≡ some (record c { shdn = false }))
  unfolding power_down channel_at
  power_down_run zero s c h =
      (record s { channel0 = record c { shdn = false } }, ground arith, refl)
  power_down_run (suc zero) s c h =
      (record s { channel1 = record c { shdn = false } }, ground arith, refl)
  power_down_run (suc (suc i)) s c h = absurd (cc)
