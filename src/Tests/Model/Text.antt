-- ===== src/Tests/Model/Text.antt =====
-- Numbers of a command line, read as whole numbers.
use thermostat.Prelude.{ℕ, ◌*◌, Bool, true, false, none, some, List, [], ◌∷◌, if◌then◌else◌, pos}
use thermostat.Nom.Documented.{digit}
use thermostat.Parse.{FloatText, decimal_from}
use thermostat.Tests.Model.Numbers.{num, fixed}

-- Reads whole numbers.
abbrev all_digits : List ℕ → Bool
all_digits [] = true
all_digits (c ∷ cs) = let rest = all_digits cs in if digit c then rest else false

instance abbrev pub whole : FloatText
whole = record {
  from_str_radix =
      λ cs. if all_digits cs then some (num (pos (decimal_from 0 cs * 1000))) else none;
}
