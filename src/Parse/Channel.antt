-- ===== src/Parse/Channel.antt =====
-- `src/command_parser.rs`: the commands that set a channel, after their first word.
use thermostat.Prelude.{ℕ, none, some, [], ◌∷◌, Result, ok, err, bytes, String}
use thermostat.Platform.{Platform}
use thermostat.Command.{
  Command, CenterPoint, ShowCommand, PidParameter, BpParameter, PwmPin, Polarity,
}
use thermostat.Nom.{Parser, Nom, ◌>>=◌, ◌>>◌, pure}
use thermostat.Parse.{
  Error, FloatText, Outcome, map_ok, end, whitespace, channel, before_end, float,
}

module _ ⦃n : Nom⦄ ⦃p : Platform⦄ ⦃f : FloatText⦄ where
  unfoldable pub report : Parser Command
  report = n.preceded (n.tag (bytes "report")) (n.value (Command.show ShowCommand.input) end)

  -- One pin of `pwm_setup`.
  abbrev pub pin_value : String → PwmPin → Parser (Result (PwmPin × p.F64) Error)
  pin_value word pin =
      n.map (n.preceded (n.tag (bytes word)) (n.preceded whitespace float)) (map_ok (λ v. (pin, v)))

  unfoldable pub pwm_setup : Parser (Result (PwmPin × p.F64) Error)
  pwm_setup = n.alt (pin_value "i_set" PwmPin.i_set) (
      pin_value "max_i_pos" PwmPin.max_i_pos
      ∷ pin_value "max_i_neg" PwmPin.max_i_neg
      ∷ pin_value "max_v" PwmPin.max_v
      ∷ [])

  unfoldable pub output_pid : Parser (Unit {0})
  output_pid = n.value tt (n.tag (bytes "pid"))

  unfoldable pub output_polarity : Parser Polarity
  output_polarity = n.preceded (n.tag (bytes "polarity")) (
      n.preceded whitespace (
        n.alt (n.value Polarity.normal (n.tag (bytes "normal")))
          (n.value Polarity.reversed (n.tag (bytes "reversed")) ∷ [])))

  -- The `match` on a pin and its value.
  abbrev pub pin_command : ℕ → Result (PwmPin × p.F64) Error → Outcome
  pin_command i (ok (pin, v)) = ok (Command.set_output i pin v)
  pin_command i (err e) = err e

  -- The three closures of `output` after the channel.
  unfoldable pub output_setting : ℕ → Parser Outcome
  output_setting i =
      n.alt (do output_pid; pure (ok (Command.output_pid i)))
        ((do q ← output_polarity; pure (ok (Command.output_polarity i q)))
          ∷ (do r ← pwm_setup; pure (pin_command i r))
          ∷ [])

  unfoldable pub output : Parser Outcome
  output = do
    n.tag (bytes "output")
    n.alt (do whitespace; i ← channel; whitespace; r ← output_setting i; before_end r)
        (n.value (ok (Command.show ShowCommand.output)) end ∷ [])

  unfoldable pub center_point : Parser Outcome
  center_point = do
    n.tag (bytes "center")
    whitespace
    i ← channel
    whitespace
    center ←
        n.alt (n.value (ok CenterPoint.vref) (n.tag (bytes "vref")))
          ((do v ← float; pure (map_ok (λ x. CenterPoint.override (p.narrow x)) v)) ∷ [])
    before_end (map_ok (Command.set_center i) center)

  unfoldable pub pid_parameter : Parser Outcome
  pid_parameter = do
    i ← channel
    whitespace
    parameter ← n.alt (n.value PidParameter.target (n.tag (bytes "target"))) (
        n.value PidParameter.kp (n.tag (bytes "kp"))
        ∷ n.value PidParameter.ki (n.tag (bytes "ki"))
        ∷ n.value PidParameter.kd (n.tag (bytes "kd"))
        ∷ n.value PidParameter.output_min (n.tag (bytes "output_min"))
        ∷ n.value PidParameter.output_max (n.tag (bytes "output_max"))
        ∷ [])
    whitespace
    v ← float
    pure (map_ok (Command.set_pid i parameter) v)

  unfoldable pub pid : Parser Outcome
  pid = do
    n.tag (bytes "pid")
    n.alt (n.preceded whitespace pid_parameter)
        (n.value (ok (Command.show ShowCommand.pid)) end ∷ [])

  unfoldable pub b_parameter_parameter : Parser Outcome
  b_parameter_parameter = do
    i ← channel
    whitespace
    parameter ← n.alt (n.value BpParameter.t0 (n.tag (bytes "t0"))) (
        n.value BpParameter.b (n.tag (bytes "b"))
        ∷ n.value BpParameter.r0 (n.tag (bytes "r0"))
        ∷ [])
    whitespace
    v ← float
    pure (map_ok (Command.set_b_parameter i parameter) v)

  unfoldable pub b_parameter : Parser Outcome
  b_parameter = do
    n.tag (bytes "b-p")
    n.alt (n.preceded whitespace b_parameter_parameter)
        (n.value (ok (Command.show ShowCommand.b_parameter)) end ∷ [])

  -- The closure of `postfilter` after the blanks.
  unfoldable pub filter_setting : Parser Outcome
  filter_setting = do
    i ← channel
    whitespace
    n.alt (n.value (ok (Command.set_post_filter i none)) (n.tag (bytes "off"))) (
        (do
          n.tag (bytes "rate")
          whitespace
          rate ← float
          pure (map_ok (λ x. Command.set_post_filter i (some (p.narrow x))) rate))
        ∷ [])

  unfoldable pub postfilter : Parser Outcome
  postfilter = do
    n.tag (bytes "postfilter")
    n.alt (n.preceded whitespace filter_setting)
        (n.value (ok (Command.show ShowCommand.post_filter)) end ∷ [])
