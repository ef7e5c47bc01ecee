-- ===== src/Tests/Units.antt =====
-- The tests of `src/command_parser.rs`: its lines with the commands that it expects, read by the model.
use thermostat.Prelude.{
  ℕ, suc, ◌≡◌, refl, none, some, List, [], ◌∷◌, ok, ◌==◌, if◌then◌else◌, bytes,
}
use thermostat.Command.{
  Command, ShowCommand, PidParameter, BpParameter, PwmPin, Polarity, CenterPoint,
}
use thermostat.Nom.Documented.{documented}
use thermostat.Parse.{FloatText, decimal_from, end, whitespace, channel, unsigned, parse_u32, float}
use thermostat.Parse.Channel.{
  report, output, output_setting, output_pid, output_polarity, pwm_setup, center_point, pid,
  pid_parameter, b_parameter, b_parameter_parameter, postfilter, filter_setting,
}
use thermostat.Parse.System.{
  load, save, maybe_channel, ipv4, ipv4_setting, ipv4_addr, fan, fan_setting, fan_curve,
  curve_setting,
}
use thermostat.Parse.Line.{command, parsed, parse}
use thermostat.Tests.Model.Numbers.{fixed}

-- The digits of a text without its dot, and how many come after the dot.
abbrev drop_dot : List ℕ → List ℕ
drop_dot [] = []
drop_dot (c ∷ cs) = if c == b'.' then cs else c ∷ drop_dot cs

abbrev size : List ℕ → ℕ
size [] = 0
size (c ∷ cs) = suc (size cs)

abbrev decimals : List ℕ → ℕ
decimals [] = 0
decimals (c ∷ cs) = if c == b'.' then size cs else decimals cs

-- Reads decimal fractions.
instance abbrev decimal_text : FloatText
decimal_text = record {
  from_str_radix = λ cs. some (fixed.lit (decimal_from 0 (drop_dot cs)) (decimals cs));
}

-- Each line is read as its command.
abbrev All : List (List ℕ × Command) → Type 0
All [] = Unit
All ((line, expected) ∷ rest) = (parse line ≡ ok expected) × All rest

-- `parse_quit` to `parse_report`
abbrev storage_tests : List (List ℕ × Command)
storage_tests =
    (bytes "quit", Command.quit)
    ∷ (bytes "load", Command.load none)
    ∷ (bytes "load 0", Command.load (some 0))
    ∷ (bytes "save", Command.save none)
    ∷ (bytes "save 0", Command.save (some 0))
    ∷ (bytes "ipv4", Command.show ShowCommand.ipv4)
    ∷ (
      bytes "ipv4 192.168.1.26/24",
      Command.set_ipv4
          (record { address = 192 ∷ 168 ∷ 1 ∷ 26 ∷ []; mask_len = 24; gateway = none }),
    )
    ∷ (
      bytes "ipv4 10.42.0.126/8 10.1.0.1",
      Command.set_ipv4 (record {
        address = 10 ∷ 42 ∷ 0 ∷ 126 ∷ [];
        mask_len = 8;
        gateway = some (10 ∷ 1 ∷ 0 ∷ 1 ∷ []);
      }),
    )
    ∷ (bytes "report", Command.show ShowCommand.input)
    ∷ []

storage_tests_pass : All storage_tests
unfolding parse parsed command load save maybe_channel ipv4 ipv4_setting ipv4_addr unsigned
    parse_u32 report output output_setting output_pid output_polarity pwm_setup center_point pid
    pid_parameter b_parameter b_parameter_parameter postfilter filter_setting fan fan_setting
    fan_curve curve_setting whitespace channel float end
storage_tests_pass = (refl, (refl, (refl, (refl, (refl, (refl, (refl, (refl, (refl, tt)))))))))

-- `parse_output_i_set` to `parse_b_parameter_set`
abbrev output_tests : List (List ℕ × Command)
output_tests =
    (bytes "output 1 i_set 16383", Command.set_output 1 PwmPin.i_set (fixed.lit 16383 0))
    ∷ (bytes "output 0 polarity reversed", Command.output_polarity 0 Polarity.reversed)
    ∷ (bytes "output 0 pid", Command.output_pid 0)
    ∷ (bytes "output 0 max_i_pos 7", Command.set_output 0 PwmPin.max_i_pos (fixed.lit 7 0))
    ∷ (bytes "output 0 max_i_neg 128", Command.set_output 0 PwmPin.max_i_neg (fixed.lit 128 0))
    ∷ (bytes "output 0 max_v 32768", Command.set_output 0 PwmPin.max_v (fixed.lit 32768 0))
    ∷ (bytes "pid", Command.show ShowCommand.pid)
    ∷ (bytes "pid 0 target 36.5", Command.set_pid 0 PidParameter.target (fixed.lit 365 1))
    ∷ (bytes "b-p", Command.show ShowCommand.b_parameter)
    ∷ (bytes "b-p 1 t0 23.05", Command.set_b_parameter 1 BpParameter.t0 (fixed.lit 2305 2))
    ∷ []

output_tests_pass : All output_tests
unfolding parse parsed command load save maybe_channel ipv4 ipv4_setting ipv4_addr unsigned
    parse_u32 report output output_setting output_pid output_polarity pwm_setup center_point pid
    pid_parameter b_parameter b_parameter_parameter postfilter filter_setting fan fan_setting
    fan_curve curve_setting whitespace channel float end
output_tests_pass =
    (refl, (refl, (refl, (refl, (refl, (refl, (refl, (refl, (refl, (refl, tt))))))))))

-- `parse_postfilter` to `parse_hwrev`
abbrev other_tests : List (List ℕ × Command)
other_tests =
    (bytes "postfilter", Command.show ShowCommand.post_filter)
    ∷ (bytes "postfilter 1 off", Command.set_post_filter 1 none)
    ∷ (bytes "postfilter 0 rate 21", Command.set_post_filter 0 (some (fixed.lit 21 0)))
    ∷ (bytes "center 0 1.5", Command.set_center 0 (CenterPoint.override (fixed.lit 15 1)))
    ∷ (bytes "center 1 vref", Command.set_center 1 CenterPoint.vref)
    ∷ (bytes "fan", Command.show_fan)
    ∷ (bytes "fan 42", Command.fan_set 42)
    ∷ (bytes "fan auto", Command.fan_auto)
    ∷ (
      bytes "fcurve 1.2 3.4 5.6",
      Command.fan_curve (fixed.lit 12 1) (fixed.lit 34 1) (fixed.lit 56 1),
    )
    ∷ (bytes "fcurve default", Command.fan_curve_defaults)
    ∷ (bytes "hwrev", Command.show_hw_rev)
    ∷ []

other_tests_pass : All other_tests
unfolding parse parsed command load save maybe_channel ipv4 ipv4_setting ipv4_addr unsigned
    parse_u32 report output output_setting output_pid output_polarity pwm_setup center_point pid
    pid_parameter b_parameter b_parameter_parameter postfilter filter_setting fan fan_setting
    fan_curve curve_setting whitespace channel float end
other_tests_pass =
    (refl, (refl, (refl, (refl, (refl, (refl, (refl, (refl, (refl, (refl, (refl, tt)))))))))))
