-- ===== src/Handler/Commands/Dispatch.antt =====
-- `Handler::handle_command` of `src/command_handler.rs`.
use thermostat.Prelude.{none, some}
use thermostat.Platform.{Platform}
use thermostat.Command.{Command}
use thermostat.Channels.{Board}
use thermostat.HwRev.{HwRev}
use thermostat.Handler.{Outcome, close_socket, Host, H, pure}
use thermostat.Handler.Commands.{
  show, engage_pid, set_polarity, set_output, set_center_point, set_pid, set_b_parameter,
  reset_post_filter, set_post_filter, load_channel, save_channel, set_ipv4, reset_all, dfu, set_fan,
  show_fan, fan_auto, fan_curve, fan_defaults, show_hwrev,
}

module _ ⦃p : Platform⦄ ⦃b : Board⦄ ⦃h : Host⦄ (hwrev : HwRev) where
  unfoldable pub handle_command : Command → H Outcome
  handle_command Command.quit = pure close_socket
  handle_command (Command.show what) = show what
  handle_command (Command.output_pid i) = engage_pid i
  handle_command (Command.output_polarity i q) = set_polarity i q
  handle_command (Command.set_output i pin v) = set_output i pin v
  handle_command (Command.set_center i c) = set_center_point i c
  handle_command (Command.set_pid i parameter v) = set_pid i parameter v
  handle_command (Command.set_b_parameter i parameter v) = set_b_parameter i parameter v
  handle_command (Command.set_post_filter i none) = reset_post_filter i
  handle_command (Command.set_post_filter i (some rate)) = set_post_filter i rate
  handle_command (Command.load i) = load_channel i
  handle_command (Command.save i) = save_channel i
  handle_command (Command.set_ipv4 config) = set_ipv4 config
  handle_command Command.reset = reset_all
  handle_command Command.dfu = dfu
  handle_command (Command.fan_set pwm) = set_fan pwm
  handle_command Command.show_fan = show_fan
  handle_command Command.fan_auto = fan_auto
  handle_command (Command.fan_curve a c d) = fan_curve a c d
  handle_command Command.fan_curve_defaults = fan_defaults
  handle_command Command.show_hw_rev = show_hwrev hwrev
