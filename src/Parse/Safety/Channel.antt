-- ===== src/Parse/Safety/Channel.antt =====
-- The ranges that the parsers of Parse/Channel give.
use thermostat.Prelude.{ℕ, ◌<◌, none, some, Result, ok, err, bytes}
use thermostat.Platform.{Platform}
use thermostat.Command.{Command, ShowCommand, PwmPin}
use thermostat.Nom.{Nom, Parser, ◌>>=◌, ◌>>◌, pure}
use thermostat.Nom.Documented.{IsDocumented}
use thermostat.Parse.{Error, FloatText, map_ok, end, whitespace, channel, float}
use thermostat.Parse.Channel.{
  report, pin_command, output_pid, output_polarity, pwm_setup, output_setting, output, center_point,
  pid_parameter, pid, b_parameter_parameter, b_parameter, filter_setting, postfilter,
}
use thermostat.Parse.Safety.Rules.{
  Gives, Gives->>=, Gives-skip, Gives-pure, Gives-alt, Gives-value, Gives-preceded,
  Gives-before_end, Gives-channel,
}
use thermostat.Parse.Safety.Ranges.{InRange, Fits, Fits-map_ok}

module _ ⦃p : Platform⦄ ⦃n : Nom⦄ ⦃f : FloatText⦄ (laws : IsDocumented n) where
  Fits-pin_command : (i : ℕ) (r : Result (PwmPin × p.F64) Error) → i < 2 → Fits (pin_command i r)
  Fits-pin_command i (ok (pin, v)) small = small
  Fits-pin_command i (err e) small = tt

  pub Gives-report : Gives InRange report
  unfolding report
  Gives-report =
      Gives-preceded laws InRange (n.tag (bytes "report")) _
        (Gives-value laws InRange (Command.show ShowCommand.input) end tt)

  Gives-output_setting : (i : ℕ) → i < 2 → Gives Fits (output_setting i)
  unfolding output_setting
  Gives-output_setting i small =
      Gives-alt laws Fits _ _ (Gives-skip Fits output_pid _ λ _. Gives-pure Fits _ small) (
        Gives-skip Fits output_polarity _
            λ q. Gives-pure Fits (ok (Command.output_polarity i q)) small,
        (Gives-skip Fits pwm_setup _ λ r. Gives-pure Fits _ (Fits-pin_command i r small), tt),
      )

  pub Gives-output : Gives Fits output
  unfolding output
  Gives-output = Gives-skip Fits (n.tag (bytes "output")) _ λ _.
      Gives-alt laws Fits _ _
        (Gives-skip Fits whitespace _ λ _.
          Gives->>= (λ i. i < 2) Fits channel _ (Gives-channel laws)
            λ i small. Gives-skip Fits whitespace _ λ _.
              Gives->>= Fits Fits (output_setting i) _ (Gives-output_setting i small)
                λ r fits. Gives-before_end laws Fits r fits)
        (Gives-value laws Fits (ok (Command.show ShowCommand.output)) end tt, tt)

  pub Gives-center_point : Gives Fits center_point
  unfolding center_point
  Gives-center_point = Gives-skip Fits (n.tag (bytes "center")) _ λ _.
      Gives-skip Fits whitespace _ λ _.
        Gives->>= (λ i. i < 2) Fits channel _ (Gives-channel laws)
          λ i small. Gives-skip Fits whitespace _ λ _. Gives-skip Fits (n.alt _ _) _ λ center.
            Gives-before_end laws Fits _ (Fits-map_ok (Command.set_center i) center (λ _. small))

  -- A setting of a channel with a number.
  Gives-setting :
      {A : Type 0} (names : Parser A) (set : ℕ → A → p.F64 → Command)
      → ((i : ℕ) (a : A) (v : p.F64) → i < 2 → InRange (set i a v))
      → Gives Fits
          (do i ← channel; whitespace; a ← names; whitespace; v ← float; pure (map_ok (set i a) v))
  Gives-setting names set fits =
      Gives->>= (λ i. i < 2) Fits channel _ (Gives-channel laws)
        λ i small. Gives-skip Fits whitespace _ λ _. Gives-skip Fits names _ λ a.
          Gives-skip Fits whitespace _ λ _.
            Gives-skip Fits float _
              λ v. Gives-pure Fits _ (Fits-map_ok (set i a) v (λ x. fits i a x small))

  pub Gives-pid : Gives Fits pid
  unfolding pid pid_parameter
  Gives-pid = Gives-skip Fits (n.tag (bytes "pid")) _ λ _.
      Gives-alt laws Fits _ _
        (Gives-preceded laws Fits whitespace _
          (Gives-setting (n.alt _ _) Command.set_pid (λ i a v small. small)))
        (Gives-value laws Fits (ok (Command.show ShowCommand.pid)) end tt, tt)

  pub Gives-b_parameter : Gives Fits b_parameter
  unfolding b_parameter b_parameter_parameter
  Gives-b_parameter = Gives-skip Fits (n.tag (bytes "b-p")) _ λ _.
      Gives-alt laws Fits _ _
        (Gives-preceded laws Fits whitespace _
          (Gives-setting (n.alt _ _) Command.set_b_parameter (λ i a v small. small)))
        (Gives-value laws Fits (ok (Command.show ShowCommand.b_parameter)) end tt, tt)

  pub Gives-postfilter : Gives Fits postfilter
  unfolding postfilter filter_setting
  Gives-postfilter = Gives-skip Fits (n.tag (bytes "postfilter")) _ λ _.
      Gives-alt laws Fits _ _
        (Gives-preceded laws Fits whitespace _ (
          Gives->>= (λ i. i < 2) Fits channel _ (Gives-channel laws)
            λ i small. Gives-skip Fits whitespace _ λ _.
              Gives-alt laws Fits _ _
                (Gives-value laws Fits (ok (Command.set_post_filter i none)) (n.tag (bytes "off"))
                  small)
                (
                  Gives-skip Fits (n.tag (bytes "rate")) _ λ _. Gives-skip Fits whitespace _ λ _.
                      Gives-skip Fits float _ λ rate. Gives-pure Fits _ (
                        Fits-map_ok (λ x. Command.set_post_filter i (some (p.narrow x))) rate
                          (λ _. small)),
                  tt,
                )))
        (Gives-value laws Fits (ok (Command.show ShowCommand.post_filter)) end tt, tt)
