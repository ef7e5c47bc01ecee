-- ===== src/Parse/Syntax/Settings.antt =====
-- What `src/command_parser.rs` makes of the lines that set a channel.
use thermostat.Prelude.{
  ℕ, ◌≡◌, refl, ap, ◌∙◌, none, some, List, [], ◌++◌, Result, ok, err, bytes, ◌==◌,
}
use thermostat.Platform.{Platform}
use thermostat.Nom.{done, ◌>>=◌}
use thermostat.Nom.Documented.{documented}
use thermostat.Command
use thermostat.Command.{Command, Polarity, PwmPin, PidParameter, BpParameter}
use thermostat.Parse.{Error, FloatText, end, map_ok, Outcome, before_end}
use thermostat.Parse.Channel.{
  output, output_setting, output_pid, output_polarity, pwm_setup, pin_command, center_point, pid,
  pid_parameter, b_parameter, b_parameter_parameter, postfilter, filter_setting,
}
use thermostat.Parse.Syntax.{on_side, IsDecimal, decimal}
use thermostat.Parse.Words.{
  Side, index, gap, Decimal, text_of, polarity_word, pin_word, pid_word, bp_word,
}
use thermostat.Parse.Syntax.Tokens.{StopsAt, whitespace-gap, side_read, at_then, at_alt}
use thermostat.Parse.Syntax.Decimals.{
  text-stops, decimal-tag_end, map_ok-map_ok, number-end, number_read, float-end,
}

module _ ⦃p : Platform⦄ ⦃f : FloatText⦄ where
  output_polarity_read :
      (k : ℕ) (q : Polarity)
      → output_polarity (bytes "polarity" ++ (gap k ++ polarity_word q)) ≡ done [] q
  unfolding output_polarity
  output_polarity_read k Polarity.normal = at_then _ (whitespace-gap k (bytes "normal") refl)
  output_polarity_read k Polarity.reversed = at_then _ (whitespace-gap k (bytes "reversed") refl)

  pwm_setup_read :
      (pin : PwmPin) (k : ℕ) (x : Decimal)
      → IsDecimal x
      → pwm_setup (pin_word pin ++ (gap k ++ text_of x))
        ≡ done [] (map_ok (λ v. (pin, v)) (decimal x))
  unfolding pwm_setup
  pwm_setup_read PwmPin.i_set k x h = at_alt _ (at_then _ (number_read k x h))
  pwm_setup_read PwmPin.max_i_pos k x h = at_alt _ (at_then _ (number_read k x h))
  pwm_setup_read PwmPin.max_i_neg k x h = at_alt _ (at_then _ (number_read k x h))
  pwm_setup_read PwmPin.max_v k x h = at_then _ (number_read k x h)

  -- A line of `output` from what its setting makes of the words behind the channel.
  output_read :
      (g h : ℕ) (i : Side) (words : List ℕ) (r : Outcome)
      → StopsAt (λ c. c == b' ') words
      → output_setting (index i) words ≡ done [] r
      → output (bytes "output" ++ on_side g i h words) ≡ done [] r
  unfolding output end
  output_read g h i words r s e =
      at_alt _ (side_read (λ j. output_setting j >>= before_end) g h i words s)
      ∙ at_alt _ (at_then _ e)

  pub output_pid_line :
      (g h : ℕ) (i : Side)
      → output (bytes "output" ++ on_side g i h (bytes "pid"))
        ≡ done [] (ok (Command.output_pid (index i)))
  unfolding output_setting output_pid
  output_pid_line g h i = output_read g h i (bytes "pid") _ refl refl

  pub output_polarity_line :
      (g h k : ℕ) (i : Side) (q : Polarity)
      → output (bytes "output" ++ on_side g i h (bytes "polarity" ++ (gap k ++ polarity_word q)))
        ≡ done [] (ok (Command.output_polarity (index i) q))
  unfolding output_setting output_pid
  output_polarity_line g h k i q =
      output_read g h i (bytes "polarity" ++ (gap k ++ polarity_word q)) _ refl
        (at_alt _ (at_then _ (output_polarity_read k q)))

  pin_command-map :
      (i : ℕ) (pin : PwmPin) (v : Result p.F64 Error)
      → pin_command i (map_ok (λ x. (pin, x)) v) ≡ map_ok (Command.set_output i pin) v
  pin_command-map i pin (ok v) = refl
  pin_command-map i pin (err e) = refl

  pub output_pin_line :
      (g h k : ℕ) (i : Side) (pin : PwmPin) (x : Decimal)
      → IsDecimal x
      → output (bytes "output" ++ on_side g i h (pin_word pin ++ (gap k ++ text_of x)))
        ≡ done [] (map_ok (Command.set_output (index i) pin) (decimal x))
  unfolding output_setting output_pid output_polarity
  output_pin_line g h k i pin x d =
      output_read g h i (pin_word pin ++ (gap k ++ text_of x)) _ (stops pin) (setting pin)
    where
      stops : (pin : PwmPin) → StopsAt (λ c. c == b' ') (pin_word pin ++ (gap k ++ text_of x))
      stops PwmPin.i_set = refl
      stops PwmPin.max_i_pos = refl
      stops PwmPin.max_i_neg = refl
      stops PwmPin.max_v = refl

      setting :
          (pin : PwmPin)
          → output_setting (index i) (pin_word pin ++ (gap k ++ text_of x))
            ≡ done [] (map_ok (Command.set_output (index i) pin) (decimal x))
      setting PwmPin.i_set =
          at_then _ (pwm_setup_read PwmPin.i_set k x d)
          ∙ ap (done []) (pin_command-map (index i) PwmPin.i_set (decimal x))
      setting PwmPin.max_i_pos =
          at_then _ (pwm_setup_read PwmPin.max_i_pos k x d)
          ∙ ap (done []) (pin_command-map (index i) PwmPin.max_i_pos (decimal x))
      setting PwmPin.max_i_neg =
          at_then _ (pwm_setup_read PwmPin.max_i_neg k x d)
          ∙ ap (done []) (pin_command-map (index i) PwmPin.max_i_neg (decimal x))
      setting PwmPin.max_v =
          at_then _ (pwm_setup_read PwmPin.max_v k x d)
          ∙ ap (done []) (pin_command-map (index i) PwmPin.max_v (decimal x))

  pub center_vref_line :
      (g h : ℕ) (i : Side)
      → center_point (bytes "center" ++ on_side g i h (bytes "vref"))
        ≡ done [] (ok (Command.set_center (index i) Command.vref))
  unfolding center_point end
  center_vref_line g h i = side_read _ g h i (bytes "vref") refl

  pub center_line :
      (g h : ℕ) (i : Side) (x : Decimal)
      → IsDecimal x
      → center_point (bytes "center" ++ on_side g i h (text_of x))
        ≡ done []
            (map_ok (λ v. Command.set_center (index i) (Command.override (p.narrow v))) (decimal x))
  unfolding center_point end
  center_line g h i x d =
      side_read _ g h i (text_of x) (text-stops x d)
      ∙ at_then _ (at_alt _ (at_then _ (decimal-tag_end b'v' (bytes "ref") x refl d)))
      ∙ at_then _ (at_then _ (float-end x d))
      ∙ ap (done []) (map_ok-map_ok _ _ (decimal x))

  pub pid_line :
      (g h k : ℕ) (i : Side) (parameter : PidParameter) (x : Decimal)
      → IsDecimal x
      → pid (bytes "pid" ++ on_side g i h (pid_word parameter ++ (gap k ++ text_of x)))
        ≡ done [] (map_ok (Command.set_pid (index i) parameter) (decimal x))
  unfolding pid pid_parameter
  pid_line g h k i PidParameter.target x d =
      at_alt _ (side_read _ g h i (bytes "target" ++ (gap k ++ text_of x)) refl)
      ∙ at_alt _ (number-end _ k x d)
  pid_line g h k i PidParameter.kp x d =
      at_alt _ (side_read _ g h i (bytes "kp" ++ (gap k ++ text_of x)) refl)
      ∙ at_alt _ (number-end _ k x d)
  pid_line g h k i PidParameter.ki x d =
      at_alt _ (side_read _ g h i (bytes "ki" ++ (gap k ++ text_of x)) refl)
      ∙ at_alt _ (number-end _ k x d)
  pid_line g h k i PidParameter.kd x d =
      at_alt _ (side_read _ g h i (bytes "kd" ++ (gap k ++ text_of x)) refl)
      ∙ at_alt _ (number-end _ k x d)
  pid_line g h k i PidParameter.output_min x d =
      at_alt _ (side_read _ g h i (bytes "output_min" ++ (gap k ++ text_of x)) refl)
      ∙ at_alt _ (number-end _ k x d)
  pid_line g h k i PidParameter.output_max x d =
      at_alt _ (side_read _ g h i (bytes "output_max" ++ (gap k ++ text_of x)) refl)
      ∙ at_alt _ (number-end _ k x d)

  pub b_parameter_line :
      (g h k : ℕ) (i : Side) (parameter : BpParameter) (x : Decimal)
      → IsDecimal x
      → b_parameter (bytes "b-p" ++ on_side g i h (bp_word parameter ++ (gap k ++ text_of x)))
        ≡ done [] (map_ok (Command.set_b_parameter (index i) parameter) (decimal x))
  unfolding b_parameter b_parameter_parameter
  b_parameter_line g h k i BpParameter.t0 x d =
      at_alt _ (side_read _ g h i (bytes "t0" ++ (gap k ++ text_of x)) refl)
      ∙ at_alt _ (number-end _ k x d)
  b_parameter_line g h k i BpParameter.b x d =
      at_alt _ (side_read _ g h i (bytes "b" ++ (gap k ++ text_of x)) refl)
      ∙ at_alt _ (number-end _ k x d)
  b_parameter_line g h k i BpParameter.r0 x d =
      at_alt _ (side_read _ g h i (bytes "r0" ++ (gap k ++ text_of x)) refl)
      ∙ at_alt _ (number-end _ k x d)

  pub filter_off_line :
      (g h : ℕ) (i : Side)
      → postfilter (bytes "postfilter" ++ on_side g i h (bytes "off"))
        ≡ done [] (ok (Command.set_post_filter (index i) none))
  unfolding postfilter filter_setting
  filter_off_line g h i = at_alt _ (side_read _ g h i (bytes "off") refl)

  pub filter_rate_line :
      (g h k : ℕ) (i : Side) (x : Decimal)
      → IsDecimal x
      → postfilter (bytes "postfilter" ++ on_side g i h (bytes "rate" ++ (gap k ++ text_of x)))
        ≡ done [] (map_ok (λ v. Command.set_post_filter (index i) (some (p.narrow v))) (decimal x))
  unfolding postfilter filter_setting
  filter_rate_line g h k i x d =
      at_alt _ (side_read _ g h i (bytes "rate" ++ (gap k ++ text_of x)) refl)
      ∙ at_alt _ (number-end _ k x d)
