-- ===== src/Parse/Safety.antt =====
-- What `Command::parse` of `src/command_parser.rs` makes of any bytes.
pub mod Rules
pub mod Ranges
pub mod Channel
pub mod System
use mathlib.Core.Path.{subst}
use thermostat.Prelude.{
  ℕ, ◌%◌, ◌^◌, ◌<◌, ◌≡◌, refl, sym, Option, none, some, List, [], ◌∷◌, Result, ok, err, length,
  bytes, String, arith,
}
use thermostat.Platform.{Platform}
use thermostat.Command.{Command, ShowCommand, Ipv4Config, PwmPin, CenterPoint}
use thermostat.Nom.{Nom, Parser, IResult, done, failed, incomplete, failure, ◌>>=◌, ◌>>◌, pure}
use thermostat.Nom.Documented.{IsDocumented}
use thermostat.Parse.{
  Error, FloatText, Outcome, map_ok, and_then, end, whitespace, channel, unsigned, float,
}
use thermostat.Parse.Channel.{
  report, pin_command, output_pid, output_polarity, pwm_setup, output_setting, output, center_point,
  pid_parameter, pid, b_parameter_parameter, b_parameter, filter_setting, postfilter,
}
use thermostat.Parse.System.{
  octets, or_zero, net_config, maybe_channel, load, save, ipv4_addr, ipv4_setting, ipv4,
  fan_setting, fan, curve_of, curve_setting, fan_curve,
}
use thermostat.Parse.Line.{command, parsed, parse}
use thermostat.Parse.Safety.Rules.{
  Of, Gives, Gives->>=, Gives-skip, Gives-pure, Gives-alt, Gives-map, Gives-value, Gives-preceded,
  AllGive, Gives-before_end, Gives-channel, IsU32, Gives-unsigned,
}
use thermostat.Parse.Safety.Ranges.{
  IsAddress, IsGateway, IsChannel, InRange, Fits, Fits-map_ok, IsOctets, octets-IsOctets, IsVia,
  map_ok-IsVia, net_config-Fits, or_zero_lt,
}
use thermostat.Parse.Safety.Channel.{
  Gives-report, Gives-output, Gives-center_point, Gives-pid, Gives-b_parameter, Gives-postfilter,
}
use thermostat.Parse.Safety.System.{Gives-load, Gives-save, Gives-ipv4, Gives-fan, Gives-fan_curve}

module _ ⦃p : Platform⦄ ⦃n : Nom⦄ ⦃f : FloatText⦄ (laws : IsDocumented n) where
  Gives-command : Gives Fits command
  unfolding command
  Gives-command = Gives-alt laws Fits _ _ (Gives-value laws Fits (ok Command.quit) _ tt) (
    Gives-load laws,
    (
      Gives-save laws,
      (
        Gives-value laws Fits (ok Command.reset) _ tt,
        (
          Gives-ipv4 laws,
          (
            Gives-map laws InRange Fits report ok (Gives-report laws) (λ cmd h. h),
            (
              Gives-output laws,
              (
                Gives-center_point laws,
                (
                  Gives-pid laws,
                  (
                    Gives-b_parameter laws,
                    (
                      Gives-postfilter laws,
                      (
                        Gives-value laws Fits (ok Command.dfu) _ tt,
                        (
                          Gives-fan laws,
                          (
                            Gives-fan_curve laws,
                            (Gives-value laws Fits (ok Command.show_hw_rev) _ tt, tt),
                          ),
                        ),
                      ),
                    ),
                  ),
                ),
              ),
            ),
          ),
        ),
      ),
    ),
  )

  parsed-Fits : (r : IResult Outcome) → Of Fits r → Fits (parsed r)
  unfolding parsed
  parsed-Fits (done [] r) h = h
  parsed-Fits (done (c ∷ rest) r) h = tt
  parsed-Fits (failed k) h = tt
  parsed-Fits incomplete h = tt
  parsed-Fits (failure k) h = tt

  -- With a `nom` that does what it documents: whatever bytes a line has, a command that is read from
  -- it names channel 0 or 1 or none, its addresses are four bytes, its mask length is a byte, and
  -- a number for the fan has 32 bits.
  pub parse-Fits : (input : List ℕ) → Fits (parse input)
  unfolding parse
  parse-Fits input = parsed-Fits (command input) (Gives-command.on input)
