-- ===== src/Parse/Syntax/Bare.antt =====
-- The lines of one word that show something.
use thermostat.Prelude.{ℕ, ◌≡◌, List, [], ◌++◌, ok, bytes}
use thermostat.Platform.{Platform}
use thermostat.Nom.{done}
use thermostat.Nom.Documented.{documented}
use thermostat.Command.{Command, ShowCommand}
use thermostat.Parse.{FloatText, unsigned, channel}
use thermostat.Parse.Channel.{
  report, output, pid, pid_parameter, b_parameter, b_parameter_parameter, postfilter,
  filter_setting,
}
use thermostat.Parse.System.{ipv4_addr, ipv4_setting, ipv4}
use thermostat.Parse.Words.{IsTrail}
use thermostat.Parse.Syntax.Tokens.{at_then}
use thermostat.Parse.Syntax.Trails.{
  Fails, Fails->>=, end-trail, channel-trail, unsigned-trail, bare_read,
}

module _ ⦃p : Platform⦄ ⦃f : FloatText⦄ where
  pub report_line :
      (t : List ℕ)
      → IsTrail t
      → report (bytes "report" ++ t) ≡ done [] (Command.show ShowCommand.input)
  unfolding report
  report_line t h = at_then _ (end-trail t h)

  pub bare_output_line :
      (t : List ℕ)
      → IsTrail t
      → output (bytes "output" ++ t) ≡ done [] (ok (Command.show ShowCommand.output))
  unfolding output
  bare_output_line t h = bare_read _ _ t (λ t' h'. Fails->>= channel _ t' (channel-trail t' h')) h

  pub bare_pid_line :
      (t : List ℕ)
      → IsTrail t
      → pid (bytes "pid" ++ t) ≡ done [] (ok (Command.show ShowCommand.pid))
  unfolding pid pid_parameter
  bare_pid_line t h = bare_read _ _ t (λ t' h'. Fails->>= channel _ t' (channel-trail t' h')) h

  pub bare_b_parameter_line :
      (t : List ℕ)
      → IsTrail t
      → b_parameter (bytes "b-p" ++ t) ≡ done [] (ok (Command.show ShowCommand.b_parameter))
  unfolding b_parameter b_parameter_parameter
  bare_b_parameter_line t h =
      bare_read _ _ t (λ t' h'. Fails->>= channel _ t' (channel-trail t' h')) h

  pub bare_filter_line :
      (t : List ℕ)
      → IsTrail t
      → postfilter (bytes "postfilter" ++ t) ≡ done [] (ok (Command.show ShowCommand.post_filter))
  unfolding postfilter filter_setting
  bare_filter_line t h = bare_read _ _ t (λ t' h'. Fails->>= channel _ t' (channel-trail t' h')) h

  pub addressless : (t : List ℕ) → IsTrail t → Fails ipv4_addr t
  unfolding ipv4_addr
  addressless t h = Fails->>= unsigned _ t (unsigned-trail t h)

  pub bare_ipv4_line :
      (t : List ℕ)
      → IsTrail t
      → ipv4 (bytes "ipv4" ++ t) ≡ done [] (ok (Command.show ShowCommand.ipv4))
  unfolding ipv4 ipv4_setting
  bare_ipv4_line t h = bare_read _ _ t (λ t' h'. Fails->>= ipv4_addr _ t' (addressless t' h')) h
