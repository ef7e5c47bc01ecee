-- ===== src/Handler/Commands.antt =====
-- The handlers of `src/command_handler.rs`, and `handle_command`.
pub mod Dispatch
pub mod Effects
pub mod Storage
pub mod Isolation
use thermostat.Prelude.{
  ℕ, zero, suc, Bool, true, false, not, Option, none, some, List, [], ◌∷◌, Result, ok, err, ◌==◌,
  if◌then◌else◌,
}
use thermostat.Platform.{Platform}
use thermostat.Command.{
  Ipv4Config, ShowCommand, PidParameter, BpParameter, PwmPin, Polarity, CenterPoint,
}
use thermostat.Ad7172.Filter.{PostFilter, closest}
use thermostat.Pid
use thermostat.Pid.{Controller}
use thermostat.ChannelState.{ChannelState, BParameters}
use thermostat.Channels
use thermostat.Channels.{Board, get_state, modify_state}
use thermostat.Channels.Output
use thermostat.Channels.Output.{
  set_i, set_max_v, set_max_i_pos, set_max_i_neg, power_up, power_down,
}
use thermostat.Channels.Control.{set_postfilter}
use thermostat.Config
use thermostat.Config.{ChannelConfig}
use thermostat.Fan
use thermostat.Fan.{FanCtrl}
use thermostat.HwRev.{HwRev}
use thermostat.Report.{
  Payload, hw_rev_summary, all_reports, all_pids, all_outputs, all_post_filters, all_b_parameters,
  fan_payload,
}
use thermostat.Handler.{
  Outcome, handled, close_socket, reset, new_ipv4, Error, report, post_filter_rate, flash, Host,
  Reply, done, json, net_config, no_fan, no_full_pwm, no_filter, not_found, debug_error, World, H,
  pure, fail, ◌>>=◌, ◌>>◌, on_channels, on_fan, send, gets, send_json,
}

module _ ⦃p : Platform⦄ ⦃b : Board⦄ ⦃h : Host⦄ where
  open p use {F64, F32, narrow, of_celsius}

  -- `show_report`, `show_pid`, `show_output`, `show_b_parameter`, `show_post_filter`, `show_ipv4`
  unfoldable pub show : ShowCommand → H Outcome
  show ShowCommand.input = do x ← on_channels all_reports; send_json x
  show ShowCommand.pid = do x ← on_channels all_pids; send_json x
  show ShowCommand.output = do x ← on_channels all_outputs; send_json x
  show ShowCommand.b_parameter = do x ← on_channels all_b_parameters; send_json x
  show ShowCommand.post_filter = do x ← on_channels all_post_filters; send_json x
  show ShowCommand.ipv4 = do c ← gets (λ w. w.ipv4_config); send (net_config c); pure handled

  unfoldable pub engage_pid : ℕ → H Outcome
  engage_pid i = do
    on_channels (modify_state i (λ st. record st { pid_engaged = true }))
    send done
    pure handled

  unfoldable pub set_polarity : ℕ → Polarity → H Outcome
  set_polarity i q = do on_channels (Output.set_polarity i q); send done; pure handled

  -- `ISet`: the PID is switched off before the current is set and the channel is powered up.
  unfoldable pub set_i_output : ℕ → F64 → Channels.M (Unit {0})
  set_i_output i value =
      Channels.◌>>◌ (modify_state i (λ st. record st { pid_engaged = false }))
        (Channels.◌>>=◌ (set_i i value) (λ _. power_up i))

  unfoldable pub write_output : ℕ → PwmPin → F64 → H (Unit {0})
  write_output i PwmPin.i_set value = on_channels (set_i_output i value)
  write_output i PwmPin.max_v value = do _ ← on_channels (set_max_v i value); pure tt
  write_output i PwmPin.max_i_pos value = do _ ← on_channels (set_max_i_pos i value); pure tt
  write_output i PwmPin.max_i_neg value = do _ ← on_channels (set_max_i_neg i value); pure tt

  unfoldable pub set_output : ℕ → PwmPin → F64 → H Outcome
  set_output i pin value = do write_output i pin value; send done; pure handled

  unfoldable pub set_center_point : ℕ → CenterPoint → H Outcome
  set_center_point i center = do
    st ← on_channels (get_state i)
    on_channels (modify_state i (λ st. record st { center = center }))
    if st.pid_engaged then pure tt else (do _ ← on_channels (set_i i st.i_set); pure tt)
    send done
    pure handled

  -- The assignment of `set_pid`
  unfoldable pub assign_pid : PidParameter → F64 → Controller → Controller
  assign_pid PidParameter.target v c = record c { target = v }
  assign_pid PidParameter.kp v c = record c { parameters = record (c.parameters) { kp = narrow v } }
  assign_pid PidParameter.ki v c = record c { parameters = record (c.parameters) { ki = narrow v } }
  assign_pid PidParameter.kd v c = record c { parameters = record (c.parameters) { kd = narrow v } }
  assign_pid PidParameter.output_min v c = record c {
    parameters = record (c.parameters) { output_min = narrow v };
  }
  assign_pid PidParameter.output_max v c = record c {
    parameters = record (c.parameters) { output_max = narrow v };
  }

  unfoldable pub set_pid : ℕ → PidParameter → F64 → H Outcome
  set_pid i parameter v = do
    on_channels (modify_state i (λ st. record st { pid = assign_pid parameter v st.pid }))
    send done
    pure handled

  -- The assignment of `set_b_parameter`
  unfoldable pub assign_bp : BpParameter → F64 → BParameters → BParameters
  assign_bp BpParameter.t0 v ps = record ps { t0 = of_celsius v }
  assign_bp BpParameter.b v ps = record ps { b = v }
  assign_bp BpParameter.r0 v ps = record ps { r0 = v }

  unfoldable pub set_b_parameter : ℕ → BpParameter → F64 → H Outcome
  set_b_parameter i parameter v = do
    on_channels (modify_state i (λ st. record st { bp = assign_bp parameter v st.bp }))
    send done
    pure handled

  unfoldable pub reset_post_filter : ℕ → H Outcome
  reset_post_filter i = do on_channels (set_postfilter i none); send done; pure handled

  -- The `match` on the filter that was found.
  unfoldable pub use_filter : ℕ → Option PostFilter → H Outcome
  use_filter i (some f) = do on_channels (set_postfilter i (some f)); send done; pure handled
  use_filter i none = do send no_filter; fail post_filter_rate

  unfoldable pub set_post_filter : ℕ → F32 → H Outcome
  unfolding use_filter
  set_post_filter i rate w = elim (closest rate) [ none ↦ none | some found ↦ use_filter i found w ]

  -- `channel.is_none() || channel == Some(c)`
  abbrev pub selects : Option ℕ → ℕ → Bool
  selects none c = true
  selects (some i) c = i == c

  unfoldable pub load_result : ℕ → Result (Option ChannelConfig) h.Fault → H (Unit {0})
  load_result c (ok (some cfg)) = do on_channels (Config.apply cfg c); send done
  load_result c (ok none) = send not_found
  load_result c (err e) = do send debug_error; fail flash

  unfoldable pub load_one : Option ℕ → ℕ → H (Unit {0})
  load_one channel c =
      if selects channel c
      then (do r ← gets (λ w. h.read_config w.store c); load_result c r)
      else pure tt

  unfoldable pub load_channel : Option ℕ → H Outcome
  load_channel channel = do load_one channel 0; load_one channel 1; pure handled

  unfoldable pub write_store : ℕ → ChannelConfig → H (Result (Unit {0}) h.Fault)
  write_store c cfg w =
      let (r, store) = h.write_config w.store c cfg in some (ok r, record w { store = store })

  unfoldable pub save_result : Result (Unit {0}) h.Fault → H (Unit {0})
  save_result (ok _) = send done
  save_result (err e) = do send debug_error; fail flash

  unfoldable pub save_one : Option ℕ → ℕ → H (Unit {0})
  unfolding write_store
  save_one channel c =
      if selects channel c
      then (do cfg ← on_channels (Config.new c); r ← write_store c cfg; save_result r)
      else pure tt

  unfoldable pub save_channel : Option ℕ → H Outcome
  save_channel channel = do save_one channel 0; save_one channel 1; pure handled

  -- A failure to save is logged and passed over.
  unfoldable pub set_ipv4 : Ipv4Config → H Outcome
  set_ipv4 config w =
      let (_, store) = h.write_ipv4 w.store config in
      (do send done; pure (new_ipv4 config)) (record w { store = store })

  power_down_all : H (Unit {0})
  power_down_all = do on_channels (power_down 0); on_channels (power_down 1)

  -- `Handler::reset`
  unfoldable pub reset_all : H Outcome
  unfolding power_down_all
  reset_all = do power_down_all; pure reset

  unfoldable pub dfu : H Outcome
  unfolding power_down_all
  dfu = do power_down_all; λ w. some (ok tt, record w { dfu_trigger = true }); pure reset

  -- The answer to a fan command, by whether the hardware is meant for PWM.
  abbrev fan_reply : FanCtrl → Reply
  fan_reply f = if Fan.fan_pwm_recommended f then done else no_full_pwm

  with_fan : (FanCtrl → FanCtrl) → H Outcome
  with_fan act = do
    f ← gets (λ w. w.fan_ctrl)
    if Fan.fan_available f
        then (do on_fan act; f' ← gets (λ w. w.fan_ctrl); send (fan_reply f'); pure handled)
        else (do send no_fan; pure handled)

  unfoldable pub set_fan : ℕ → H Outcome
  unfolding with_fan
  set_fan pwm = with_fan (λ f. (Fan.set_pwm pwm (Fan.set_auto_mode false f)).1)

  unfoldable pub fan_auto : H Outcome
  unfolding with_fan
  fan_auto = with_fan (Fan.set_auto_mode true)

  unfoldable pub show_fan : H Outcome
  show_fan = do f ← gets (λ w. w.fan_ctrl); send_json (fan_payload f)

  unfoldable pub fan_curve : F32 → F32 → F32 → H Outcome
  fan_curve a c d = do on_fan (Fan.set_curve a c d); send done; pure handled

  unfoldable pub fan_defaults : H Outcome
  fan_defaults = do on_fan Fan.restore_defaults; send done; pure handled

  unfoldable pub show_hwrev : HwRev → H Outcome
  show_hwrev r = send_json (hw_rev_summary r)
