-- ===== src/Tests/Control.antt =====
-- The PID, the control loop, the fan and the filters at concrete inputs.
use thermostat.Prelude.{
  ◌≤◌, ◌≡◌, ◌⊎◌, ◌↔◌, refl, true, false, none, some, List, [], ◌∷◌, ◌&&◌, All, arith, pos, ok,
}
use thermostat.Tests.Model.Numbers.{Fixed, nan, num, fixed, fixed-IsLawful}
use thermostat.Tests.Model.Devices.{
  bench, bench-BusWorks, idle_channel, channels_of, idle, fan_pin, rev_2_2, world_of, disk,
}
use thermostat.Platform.{IsNan}
use thermostat.Pid.{Controller, unclipped, update, new_controller, default_parameters}
use thermostat.Pid.Bounds.{IsWithin, Steps, lower, upper, update_bounds, update-panics_iff}
use thermostat.Pid.Latch.{run, run_latched}
use thermostat.ChannelState
use thermostat.ChannelState.{max_value, new_state}
use thermostat.Command.{Command}
use thermostat.Channels.Control.{poll_adc}
use thermostat.Handler.{World, reset}
use thermostat.Handler.Commands.Dispatch.{handle_command}
use thermostat.Main.Repower.{reset_powers_up}
use thermostat.Channels.{Channel, Channels, channel_at, new_channel}
use thermostat.Channels.Output.{max_tec_i}
use thermostat.Channels.Limits.Safety.{IsSafe, SetsCurrent, set_i-IsSafe}
use thermostat.Channels.Control.Reading.{
  Leaves, LeavesOutputs, Drives, process_unplugged, process_idle, process_engaged, process_latched,
}
use thermostat.Dac.{max_value as dac_max}
use thermostat.Dac.Frame.{decode}
use thermostat.Channels.Limits.Current.{Carries}
use thermostat.Pid.Recurrence.{output_of, next}
use thermostat.Fan
use thermostat.Fan.{FanCtrl, FanPin, cycle, curve_pwm}
use mathlib.Core.Path.{subst}
use mathlib.Core.Option.{some-injective}
use thermostat.HwRev.{settings}
use thermostat.Fan.Duty.{cycle_lem, SetPwm, IsValid}

abbrev warm : Controller
unfolding new_controller default_parameters
warm = record (new_controller default_parameters) { target = num (pos 25000) }

update_bounds_example :
    (y : Fixed) × (c' : Controller) × Steps warm (num (pos 20000)) y c'
    × (IsWithin warm y
        ⊎ (IsNan (unclipped warm (num (pos 20000))) × (y ≡ unclipped warm (num (pos 20000)))))
unfolding new_controller default_parameters
update_bounds_example = update_bounds fixed-IsLawful warm (num (pos 20000)) refl

update-panics_iff_example : (update warm nan ≡ none) ↔ (fixed.le (lower warm) (upper warm) ≡ false)
update-panics_iff_example = update-panics_iff warm nan

abbrev latched : Controller
unfolding new_controller default_parameters
latched = record (new_controller default_parameters) { y1 = nan }

run_latched_example :
    (ys : List Fixed) × (c' : Controller) × (run latched (num (pos 1) ∷ num (pos 2) ∷ [])
      ≡ some (ys, c'))
    × All IsNan ys
    × IsNan c'.y1
unfolding new_controller default_parameters
run_latched_example = run_latched fixed-IsLawful latched (num (pos 1) ∷ num (pos 2) ∷ []) refl refl

set_i-IsSafe_example :
    (c' : Channel) × SetsCurrent fixed-IsLawful 1 (num (pos 7000)) idle idle_channel c'
    × IsSafe c'.state.i_set
    × (fixed.lt (fixed.neg max_tec_i) (num (pos 7000)) ≡ true
        → fixed.lt (num (pos 7000)) max_tec_i ≡ true
        → c'.state.i_set ≡ num (pos 7000))
    × Carries c'
    × (decode c'.dac ≤ dac_max)
unfolding channel_at
set_i-IsSafe_example =
    set_i-IsSafe fixed-IsLawful bench-BusWorks 1 (num (pos 7000)) idle idle_channel refl

abbrev engaged : Channel
unfolding new_channel new_state
engaged = record idle_channel { state = record (idle_channel.state) { pid_engaged = true } }

abbrev latched_channel : Channel
unfolding new_channel new_state new_controller default_parameters
latched_channel = record idle_channel {
  state = record (idle_channel.state) { pid_engaged = true; pid = latched };
}

process_unplugged_example :
    (c' : Channel) × Leaves 40 0 max_value (channels_of engaged) c'
    × (c'.shdn ≡ false)
    × (c'.state.i_set ≡ engaged.state.i_set)
    × (c'.dac ≡ engaged.dac)
    × (c'.state.pid ≡ engaged.state.pid)
unfolding channel_at new_channel new_state
process_unplugged_example = process_unplugged 40 0 (channels_of engaged) engaged refl refl

process_idle_example : LeavesOutputs 40 0 0x300000 idle idle_channel
unfolding channel_at new_channel new_state new_controller default_parameters
process_idle_example = process_idle fixed-IsLawful 40 0 0x300000 idle idle_channel refl refl refl

process_engaged_example :
    (t : Fixed) × (c' : Channel) × Leaves 40 0 0x300000 (channels_of engaged) c'
    × (ChannelState.get_temperature (ChannelState.update engaged.state 40 0x300000) ≡ some t)
    × (let x = fixed.to_celsius t in
        let y = output_of engaged.state.pid x in
        Drives fixed-IsLawful bench-BusWorks y engaged (next engaged.state.pid x) c'
        × (IsWithin engaged.state.pid y ⊎ IsNan y))
unfolding channel_at new_channel new_state new_controller default_parameters
process_engaged_example =
    process_engaged fixed-IsLawful bench-BusWorks 40 0 0x300000 (channels_of engaged) engaged refl
      refl (omega arith) refl

process_latched_example :
    (c' : Channel) × Leaves 40 0 0x300000 (channels_of latched_channel) c'
    × (c'.state.i_set ≡ max_tec_i)
    × Carries c'
    × (c'.shdn ≡ true)
    × (c'.state.pid_engaged ≡ true)
    × IsNan c'.state.pid.y1
    × (c'.state.pid.parameters ≡ latched_channel.state.pid.parameters)
unfolding channel_at new_channel new_state new_controller default_parameters
process_latched_example =
    process_latched fixed-IsLawful bench-BusWorks 40 0 0x300000 (channels_of latched_channel)
      latched_channel refl refl (omega arith) refl refl

abbrev working : World
working = world_of (channels_of engaged)

reset_powers_up_example :
    (w' : World) × (s : Channels) × (c' : Channel) × (handle_command rev_2_2 Command.reset working
      ≡ some (ok reset, w'))
    × (channel_at 0 w'.channels ≡ some (record engaged { shdn = false }))
    × (poll_adc 40 w'.channels ≡ some (some 0, s))
    × (channel_at 0 s ≡ some c')
    × (c'.shdn ≡ true)
unfolding channel_at new_channel new_state new_controller default_parameters
reset_powers_up_example =
    reset_powers_up rev_2_2 fixed-IsLawful bench-BusWorks working 0 engaged 40 0x300000
      working.channels.env working.channels.env refl refl refl refl refl (omega arith)

abbrev fan : FanCtrl
unfolding Fan.new settings
fan = record (Fan.new (some fan_pin) (settings rev_2_2)) { fan_auto = true }

fan-IsValid : IsValid fan
unfolding Fan.new settings
fan-IsValid = record {
  enabled = λ on. absurd (cc);
  in_scale =
      λ pin e. subst (λ (q : FanPin). q.duty ≤ q.max_duty) (some-injective _ _ e) (omega arith);
}

cycle_lem_example :
    let f₁ = record fan { abs_max_tec_i = fixed.narrow (num (pos 1500)) } in
    IsValid (cycle (num (pos 1500)) fan)
    × ((fan.fan_auto && fan.hw_settings.fan_available) ≡ true
        → SetPwm (curve_pwm f₁) f₁ (cycle (num (pos 1500)) fan))
    × ((fan.fan_auto && fan.hw_settings.fan_available) ≡ false → cycle (num (pos 1500)) fan ≡ f₁)
cycle_lem_example = cycle_lem (num (pos 1500)) fan fan-IsValid
