-- ===== src/Parse/Syntax/Complete.antt =====
-- `Command::parse` of `src/command_parser.rs` reads every line of the language as what it stands for.
use mathlib.Core.Path.{subst}
use thermostat.Prelude.{ℕ, ◌≡◌, refl, sym, ap, ◌∙◌, List, [], Result, ok, err}
use thermostat.Platform.{Platform}
use thermostat.Nom.{Nom}
use thermostat.Nom.Documented.{documented, IsDocumented, documented-path}
use thermostat.Command.{ShowCommand}
use thermostat.Parse.{Error, FloatText}
use thermostat.Parse.Channel.{report, output, center_point, pid, b_parameter, postfilter}
use thermostat.Parse.System.{load, save, ipv4, fan, fan_curve, curve_of}
use thermostat.Parse.Line.{command, parse, parsed}
use thermostat.Parse.Syntax
use thermostat.Parse.Syntax.Meaning.{meaning, reading_of-meaning}
use thermostat.Parse.Syntax.{Line, print, reading_of, IsLine, decimal, curve_meaning}
use thermostat.Parse.Words.{IsTrail}
use thermostat.Parse.Syntax.Tokens.{at_alt, at_then}
use thermostat.Parse.Syntax.Settings.{
  output_pid_line, output_polarity_line, output_pin_line, center_vref_line, center_line, pid_line,
  b_parameter_line, filter_off_line, filter_rate_line,
}
use thermostat.Parse.Syntax.Bare.{
  report_line, bare_output_line, bare_pid_line, bare_b_parameter_line, bare_filter_line,
  bare_ipv4_line,
}
use thermostat.Parse.Syntax.Services.{
  load_line, load_one_line, save_line, save_one_line, net_line, net_via_line, fan_trail_line,
  fan_auto_line, fan_set_line, curve_default_line, curve_line, curve_of-alone,
}

module _ ⦃p : Platform⦄ ⦃f : FloatText⦄ where
  parsed-curve_of : (a b c : Result p.F64 Error) → parsed (curve_of a b c []) ≡ curve_meaning a b c
  unfolding parsed
  parsed-curve_of (ok a) (ok b) (ok c) = refl
  parsed-curve_of (ok a) (ok b) (err c) = refl
  parsed-curve_of (ok a) (err b) c = refl
  parsed-curve_of (err a) b c = refl

  parse-show :
      (what : ShowCommand) (t : List ℕ)
      → IsTrail t
      → parse (print (Syntax.show what t)) ≡ reading_of (Syntax.show what t)
  unfolding parse parsed command print reading_of load save ipv4 report output center_point pid
      b_parameter postfilter fan fan_curve
  parse-show ShowCommand.input t h = ap parsed (at_alt _ (at_then _ (report_line t h)))
  parse-show ShowCommand.output t h = ap parsed (at_alt _ (bare_output_line t h))
  parse-show ShowCommand.pid t h = ap parsed (at_alt _ (bare_pid_line t h))
  parse-show ShowCommand.b_parameter t h = ap parsed (at_alt _ (bare_b_parameter_line t h))
  parse-show ShowCommand.post_filter t h = ap parsed (at_alt _ (bare_filter_line t h))
  parse-show ShowCommand.ipv4 t h = ap parsed (at_alt _ (bare_ipv4_line t h))

  parse-documented : (l : Line) → IsLine l → parse (print l) ≡ reading_of l
  unfolding parse parsed command print reading_of load save ipv4 report output center_point pid
      b_parameter postfilter fan fan_curve
  parse-documented Syntax.quit h = refl
  parse-documented Syntax.reset h = refl
  parse-documented Syntax.dfu h = refl
  parse-documented Syntax.hwrev h = refl
  parse-documented (Syntax.show what t) h = parse-show what t h
  parse-documented (Syntax.load t) h = ap parsed (at_alt _ (load_line t h))
  parse-documented (Syntax.save t) h = ap parsed (at_alt _ (save_line t h))
  parse-documented (Syntax.show_fan t) h = ap parsed (at_alt _ (fan_trail_line t h))
  parse-documented (Syntax.load_one g i t) h = ap parsed (at_alt _ (load_one_line g i t h))
  parse-documented (Syntax.save_one g i t) h = ap parsed (at_alt _ (save_one_line g i t h))
  parse-documented (Syntax.output_pid g i j) h = ap parsed (at_alt _ (output_pid_line g j i))
  parse-documented (Syntax.output_polarity g i j k q) h =
      ap parsed (at_alt _ (output_polarity_line g j k i q))
  parse-documented (Syntax.output g i j pin k x) h =
      ap parsed (at_alt _ (output_pin_line g j k i pin x h))
  parse-documented (Syntax.center_vref g i j) h = ap parsed (at_alt _ (center_vref_line g j i))
  parse-documented (Syntax.center g i j x) h = ap parsed (at_alt _ (center_line g j i x h))
  parse-documented (Syntax.pid g i j parameter k x) h =
      ap parsed (at_alt _ (pid_line g j k i parameter x h))
  parse-documented (Syntax.b_parameter g i j parameter k x) h =
      ap parsed (at_alt _ (b_parameter_line g j k i parameter x h))
  parse-documented (Syntax.filter_off g i j) h = ap parsed (at_alt _ (filter_off_line g j i))
  parse-documented (Syntax.filter_rate g i j k x) h =
      ap parsed (at_alt _ (filter_rate_line g j k i x h))
  parse-documented (Syntax.net g a m t) (ha, hm, h) =
      ap parsed (at_alt _ (net_line g a m t ha hm h))
  parse-documented (Syntax.net_via g a m j b) (ha, hm, hb) =
      ap parsed (at_alt _ (net_via_line g a m j b ha hm hb))
  parse-documented (Syntax.fan_auto g) h = ap parsed (at_alt _ (fan_auto_line g))
  parse-documented (Syntax.fan_set g n) h = ap parsed (at_alt _ (fan_set_line g n h))
  parse-documented (Syntax.curve_default g) h = ap parsed (at_alt _ (curve_default_line g))
  parse-documented (Syntax.curve g x j y k z) (hx, hy, hz) =
      ap parsed (at_alt _ (curve_line g j k x y z hx hy hz))
      ∙ ap parsed (curve_of-alone (decimal x) (decimal y) (decimal z) _)
      ∙ parsed-curve_of (decimal x) (decimal y) (decimal z)

  -- With a `nom` that does what it documents: every line of the language is read as what it stands
  -- for. A number that cannot be read makes an error of the line, but for the duty of the fan, of
  -- which a number of more than 32 bits stands for zero.
  pub parse-print :
      (n : Nom) → IsDocumented n → (l : Line) → IsLine l → parse ⦃n = n⦄ (print l) ≡ meaning l
  parse-print n laws l h =
      subst (λ m. parse ⦃n = m⦄ (print l) ≡ meaning l) (sym (documented-path n laws))
        (parse-documented l h ∙ reading_of-meaning l)
