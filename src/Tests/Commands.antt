-- ===== src/Tests/Commands.antt =====
-- Filters, configurations and commands at concrete inputs.
use thermostat.Prelude.{ℕ, ◌⊎◌, ◌≡◌, refl, true, false, some, [], ◌∷◌, ◌++◌, pos, ok}
use thermostat.Tests.Model.Numbers.{num, fixed, fixed-IsLawful, fixed-lt_irrefl, fixed-lt_trans}
use thermostat.Tests.Model.Devices.{
  bench, bench-BusWorks, bench-FilterWorks, disk, idle_channel, idle, world_of, rev_2_2,
}
use thermostat.Command.{Command, PwmPin, reversed}
use thermostat.Ad7172.Filter.{PostFilter, f25sps, closest}
use thermostat.Ad7172.Filter.Closest.{IsNearest, closest-IsNearest}
use thermostat.Channels.{Channel, Channels, channel_at}
use thermostat.Platform.{nought}
use thermostat.Channels.Calibrate.{calibrate_dac_value, vref_for}
use thermostat.Channels.Calibrate.Search.{IsWord}
use thermostat.Channels.Calibrate.Return.{off_frame, calibrate_dac_value_lem}
use thermostat.Channels.Output.{limited, max_tec_i}
use thermostat.Channels.Limits.Safety.{IsSafe}
use thermostat.Config.{ChannelConfig, config_of}
use thermostat.Config.Shows.{Shows}
use thermostat.Channels.Limits.Current.{Carries}
use thermostat.Handler.{handled, reset, World, done}
use thermostat.Handler.Commands.Dispatch.{handle_command}
use thermostat.Handler.Commands.Effects.{
  Answers, reset_powers_down, set_output-i_set, set_post_filter_lem,
}

abbrev world : World
world = world_of idle

closest-IsNearest_example :
    (f : PostFilter) × (closest (num (pos 21000)) ≡ some (some f)) × IsNearest (num (pos 21000)) f
closest-IsNearest_example = closest-IsNearest fixed-lt_irrefl fixed-lt_trans (num (pos 21000))

-- The configuration of a channel that drives, with limits and a filter.
abbrev stored : ChannelConfig
stored = record (config_of idle_channel.state (some f25sps)) {
  i_set = num (pos 1000);
  polarity = reversed;
  output_limits = record {
    max_v = num (pos 4000);
    max_i_pos = num (pos 1500);
    max_i_neg = num (pos 9000);
  };
}

set_output-i_set_example :
    (c' : Channel) × Answers rev_2_2 1
      (Command.set_output 1 PwmPin.i_set (num (pos 5000)))
      done
      world
      c'
    × (c'.state.pid_engaged ≡ false)
    × (c'.state.i_set ≡ limited (num (pos 5000)))
    × IsSafe c'.state.i_set
    × (fixed.lt (fixed.neg max_tec_i) (num (pos 5000)) ≡ true
        → fixed.lt (num (pos 5000)) max_tec_i ≡ true
        → c'.state.i_set ≡ num (pos 5000))
    × Carries c'
    × (c'.state.polarity ≡ idle_channel.state.polarity)
    × (c'.vref_meas ≡ idle_channel.vref_meas)
    × (c'.shdn ≡ true)
    × (c'.state.pid ≡ idle_channel.state.pid)
unfolding channel_at
set_output-i_set_example =
    set_output-i_set rev_2_2 fixed-IsLawful bench-BusWorks 1 (num (pos 5000)) world idle_channel
      refl

set_post_filter_lem_example :
    (f : PostFilter) × IsNearest (num (pos 21000)) f
    × (w' : World) × (handle_command rev_2_2
          (Command.set_post_filter 0 (some (num (pos 21000))))
          world
        ≡ some (ok handled, w'))
    × (w'.channels.env ≡ (bench.set_postfilter world.channels.env 0 (some f)).1)
    × (w'.sent ≡ world.sent ++ done ∷ [])
set_post_filter_lem_example =
    set_post_filter_lem rev_2_2 fixed-lt_irrefl fixed-lt_trans bench-FilterWorks 0 (num (pos 21000))
      world

reset_powers_down_example :
    let off = λ (c : Channel). record c { shdn = false } in
    let down = record (world.channels) {
      channel0 = off world.channels.channel0;
      channel1 = off world.channels.channel1;
    } in
    (handle_command rev_2_2 Command.reset world ≡ some (ok reset, record world { channels = down }))
    × (handle_command rev_2_2 Command.dfu world
        ≡ some (ok reset, record world { channels = down; dfu_trigger = true }))
reset_powers_down_example = reset_powers_down rev_2_2 world

calibrate_dac_value_lem_example :
    (s' : Channels) × (c' : Channel) × (calibrate_dac_value 1 idle ≡ some (tt, s'))
    × (channel_at 1 s' ≡ some c')
    × (c'.state ≡ record (idle_channel.state) { dac_value = nought })
    × (c'.dac ≡ off_frame)
    × (c'.shdn ≡ idle_channel.shdn)
    × (c'.vref_analog ≡ idle_channel.vref_analog)
    × ((c'.vref_meas ≡ idle_channel.vref_meas) ⊎ ((v : ℕ) × IsWord v × (c'.vref_meas ≡ vref_for v)))
unfolding channel_at
calibrate_dac_value_lem_example = calibrate_dac_value_lem bench-BusWorks 1 idle idle_channel refl
