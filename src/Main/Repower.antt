-- ===== src/Main/Repower.antt =====
-- A command to reset and the reading that comes after it.
use thermostat.Prelude.{ℕ, zero, suc, ◌≡◌, ◌≢◌, refl, ap, some, true, false, ok}
use mathlib.Core.Option
use thermostat.Platform.{Platform, ◌≼◌}
use thermostat.Platform.Laws.{IsLawful}
use thermostat.Command.{Command}
use thermostat.HwRev.{HwRev}
use thermostat.ChannelState.{max_value}
use thermostat.Pid.Bounds.{lower, upper}
use thermostat.Channels.{Board, Channel, Channels, channel_at, ◌>>=◌, ◌>>◌}
use thermostat.Channels.Control.{poll_adc, process}
use thermostat.Channels.Limits.Safety.{BusWorks}
use thermostat.Channels.Control.Reading.{process_engaged}
use thermostat.Handler.{Host, World, reset}
use thermostat.Handler.Commands.Dispatch.{handle_command}
use thermostat.Handler.Commands.Effects.{reset_powers_down}

module _ ⦃p : Platform⦄ ⦃b : Board⦄ where
  -- Both channels off.
  abbrev off : Channel → Channel
  off c = record c { shdn = false }

  abbrev down : Channels → Channels
  down s = record s { channel0 = off s.channel0; channel1 = off s.channel1 }

  channel_at-down :
      (i : ℕ) (s : Channels) (c : Channel) (env : b.Env)
      → channel_at i s ≡ some c
      → channel_at i (record (down s) { env = env }) ≡ some (off c)
  unfolding channel_at
  channel_at-down zero s c env e = ap (Option.map off) e
  channel_at-down (suc zero) s c env e = ap (Option.map off) e
  channel_at-down (suc (suc i)) s c env e = absurd (cc)

  -- A reading of a channel, through the converter.
  poll_adc_run :
      (now i reading : ℕ) (s s' : Channels) (e₁ e₂ : b.Env)
      → b.data_ready s.env ≡ (some (some i), e₁)
      → b.read_data e₁ ≡ (some reading, e₂)
      → process now i reading (record s { env = e₂ }) ≡ some (tt, s')
      → poll_adc now s ≡ some (some i, s')
  unfolding poll_adc
  poll_adc_run now i reading s s' e₁ e₂ ready read run =
      rw ready (rw read (rw (◌>>=◌, ◌>>◌, run) refl))

  module _ ⦃h : Host⦄ (hwrev : HwRev) (laws : IsLawful) (works : BusWorks) where
    -- With lawful arithmetic and a DAC bus that works: `reset` powers a channel down whose PID is
    -- engaged and has ordered limits, but leaves it engaged, and when the converter has a reading of
    -- it below full scale, the next poll of the converter powers the channel up again.
    pub reset_powers_up :
        (w : World) (i : ℕ) (c : Channel) (now reading : ℕ) (e₁ e₂ : b.Env)
        → channel_at i w.channels ≡ some c
        → c.state.pid_engaged ≡ true
        → lower c.state.pid ≼ upper c.state.pid
        → b.data_ready w.channels.env ≡ (some (some i), e₁)
        → b.read_data e₁ ≡ (some reading, e₂)
        → reading ≢ max_value
        → (w' : World) × (s : Channels) × (c' : Channel) × (handle_command hwrev Command.reset w
            ≡ some (ok reset, w'))
          × (channel_at i w'.channels ≡ some (off c))
          × (poll_adc now w'.channels ≡ some (some i, s))
          × (channel_at i s ≡ some c')
          × (c'.shdn ≡ true)
    reset_powers_up w i c now reading e₁ e₂ has on ordered ready read plugged =
        let s₁ = record (down w.channels) { env = e₂ } in
        let has₁ = channel_at-down i w.channels c w.channels.env has in
        let (t, c', (s, run, has'), hot, ((safe, set, up, still, same, carries), range)) =
          process_engaged laws works now i reading s₁ (off c)
            (channel_at-down i w.channels c e₂ has) on plugged ordered in
        (
          record w { channels = down w.channels },
          s,
          c',
          (reset_powers_down hwrev w).0,
          has₁,
          poll_adc_run now i reading (down w.channels) s e₁ e₂ ready read run,
          has',
          up,
        )
