-- ===== src/Parse/Line.antt =====
-- `command` and `Command::parse` of `src/command_parser.rs`.
use thermostat.Prelude.{ℕ, List, [], ◌∷◌, ok, err, bytes, String}
use thermostat.Platform.{Platform}
use thermostat.Command.{Command}
use thermostat.Nom.{IResult, done, Parser, Nom}
use thermostat.Parse.{Error, FloatText, Outcome}
use thermostat.Parse.Channel.{report, output, center_point, pid, b_parameter, postfilter}
use thermostat.Parse.System.{load, save, ipv4, fan, fan_curve}

module _ ⦃n : Nom⦄ ⦃p : Platform⦄ ⦃f : FloatText⦄ where
  -- A command of one word.
  abbrev pub word : String → Command → Parser Outcome
  word w c = n.value (ok c) (n.tag (bytes w))

  unfoldable pub command : Parser Outcome
  command = n.alt (word "quit" Command.quit) (
      load
      ∷ save
      ∷ word "reset" Command.reset
      ∷ ipv4
      ∷ n.map report ok
      ∷ output
      ∷ center_point
      ∷ pid
      ∷ b_parameter
      ∷ postfilter
      ∷ word "dfu" Command.dfu
      ∷ fan
      ∷ fan_curve
      ∷ word "hwrev" Command.show_hw_rev
      ∷ [])

  -- The `match` of `Command::parse`: what is left over is an error.
  unfoldable pub parsed : IResult Outcome → Outcome
  parsed (done [] r) = r
  parsed (done (c ∷ rest) r) = err (Error.unexpected_input c)
  parsed (IResult.failed k) = err (Error.parser k)
  parsed IResult.incomplete = err Error.incomplete
  parsed (IResult.failure k) = err (Error.parser k)

  -- `Command::parse`
  unfoldable pub parse : List ℕ → Outcome
  unfolding parsed
  parse input = parsed (command input)
