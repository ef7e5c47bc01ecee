-- ===== src/Tests/Parser.antt =====
-- The command parser on concrete lines, with the documented `nom`.
use thermostat.Prelude.{◌≡◌, refl, none, some, [], ◌∷◌, ok, err, bytes, pos}
use thermostat.Command.{Command, PidParameter, PwmPin, Polarity}
use thermostat.Nom.Documented.{documented, documented-IsDocumented}
use thermostat.Parse.{Error, float, end, whitespace, channel, unsigned, parse_u32}
use thermostat.Parse.Channel.{
  report, pwm_setup, output_pid, output_polarity, output_setting, output, center_point,
  pid_parameter, pid,
}
use thermostat.Parse.System.{load, save, ipv4_addr, ipv4_setting, ipv4}
use thermostat.Parse.Line.{command, parsed, parse}
use thermostat.Parse.Safety.{parse-Fits}
use thermostat.Parse.Safety.Ranges.{Fits}
use thermostat.Parse.Syntax
use thermostat.Parse.Syntax.Meaning.{meaning}
use thermostat.Parse.Syntax.{Line, print}
use thermostat.Parse.Words.{Side}
use thermostat.Parse.Syntax.Complete.{parse-print}
use thermostat.Tests.Model.Text.{whole}
use thermostat.Tests.Model.Numbers.{num, fixed}

abbrev pub minimum : Line
minimum =
    Syntax.pid 0 Side.first 0 PidParameter.output_min 1
      (record { signs = 2; number = record { first = b'3'; others = b'0' ∷ [] } })

parse-print_example : parse ⦃n = documented⦄ (print minimum) ≡ meaning minimum
parse-print_example = parse-print documented documented-IsDocumented minimum (refl, (refl, tt))

-- Lines of the tests of `src/command_parser.rs`, and some that it refuses.
ipv4_line :
    parse (bytes "ipv4 192.168.1.26/24 192.168.1.1")
    ≡ ok (
        Command.set_ipv4 (record {
          address = 192 ∷ 168 ∷ 1 ∷ 26 ∷ [];
          mask_len = 24;
          gateway = some (192 ∷ 168 ∷ 1 ∷ 1 ∷ []);
        }))
unfolding parse parsed command load save ipv4 ipv4_setting ipv4_addr unsigned parse_u32 whitespace
    end
ipv4_line = refl

pin_line :
    parse (bytes "output 1 i_set 2") ≡ ok (Command.set_output 1 PwmPin.i_set (num (pos 2000)))
unfolding parse parsed command load save ipv4 report output output_setting output_pid
    output_polarity pwm_setup whitespace channel float end
pin_line = refl

polarity_line :
    parse (bytes "output 0 polarity reversed") ≡ ok (Command.output_polarity 0 Polarity.reversed)
unfolding parse parsed command load save ipv4 report output output_setting output_pid
    output_polarity pwm_setup whitespace channel float end
polarity_line = refl

-- A blank after the value is left over.
blank_line : parse (bytes "output 1 i_set 2 ") ≡ err (Error.unexpected_input 32)
unfolding parse parsed command load save ipv4 report output output_setting output_pid
    output_polarity pwm_setup whitespace channel float end
blank_line = refl

-- The numbers of an address are cut to bytes.
cut_line :
    parse (bytes "ipv4 256.1.1.1/300")
    ≡ ok (Command.set_ipv4 (record { address = 0 ∷ 1 ∷ 1 ∷ 1 ∷ []; mask_len = 44; gateway = none }))
unfolding parse parsed command load save ipv4 ipv4_setting ipv4_addr unsigned parse_u32 whitespace
    end
cut_line = refl

-- There are two channels.
third_channel : parse (bytes "pid 2 kp 1") ≡ err (Error.unexpected_input 50)
unfolding parse parsed command load save ipv4 report output center_point pid pid_parameter
    whitespace channel float end
third_channel = refl

-- An address and a mask that are out of range.
parse-Fits_example : Fits (parse (bytes "ipv4 256.1.1.1/300"))
parse-Fits_example = parse-Fits documented-IsDocumented (bytes "ipv4 256.1.1.1/300")
