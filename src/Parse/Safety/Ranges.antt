-- ===== src/Parse/Safety/Ranges.antt =====
-- The ranges of the numbers of a command, and what is made of results of parsers.
use thermostat.Prelude.{
  ℕ, ◌^◌, ◌<◌, ◌≡◌, refl, Option, none, some, List, [], ◌∷◌, Result, ok, err, length, arith,
}
use thermostat.Platform.{Platform}
use thermostat.Command.{Command}
use thermostat.Parse.{Error, Outcome, map_ok}
use thermostat.Parse.System.{octets, or_zero, net_config}
use thermostat.Parse.Safety.Rules.{IsU32}

abbrev pub AreBytes : List ℕ → Type 0
AreBytes [] = Unit
AreBytes (x ∷ xs) = (x < 2 ^ 8) × AreBytes xs

-- Four bytes.
abbrev pub IsAddress : List ℕ → Type 0
IsAddress l = (length l ≡ 4) × AreBytes l

abbrev pub IsGateway : Option (List ℕ) → Type 0
IsGateway none = Unit
IsGateway (some l) = IsAddress l

abbrev pub IsChannel : Option ℕ → Type 0
IsChannel none = Unit
IsChannel (some i) = i < 2

module _ ⦃p : Platform⦄ where
  -- The numbers of a command have the ranges of their types, and a channel is 0 or 1.
  abbrev pub InRange : Command → Type 0
  InRange (Command.load i) = IsChannel i
  InRange (Command.save i) = IsChannel i
  InRange (Command.set_output i pin v) = i < 2
  InRange (Command.output_pid i) = i < 2
  InRange (Command.output_polarity i q) = i < 2
  InRange (Command.set_center i c) = i < 2
  InRange (Command.set_pid i parameter v) = i < 2
  InRange (Command.set_b_parameter i parameter v) = i < 2
  InRange (Command.set_post_filter i rate) = i < 2
  InRange (Command.set_ipv4 config) =
      IsAddress config.address × (config.mask_len < 2 ^ 8) × IsGateway config.gateway
  InRange (Command.fan_set pwm) = pwm < 2 ^ 32
  InRange Command.quit = Unit
  InRange Command.reset = Unit
  InRange (Command.show what) = Unit
  InRange Command.dfu = Unit
  InRange Command.fan_auto = Unit
  InRange Command.show_fan = Unit
  InRange (Command.fan_curve a c d) = Unit
  InRange Command.fan_curve_defaults = Unit
  InRange Command.show_hw_rev = Unit

  abbrev pub Fits : Outcome → Type 0
  Fits (ok cmd) = InRange cmd
  Fits (err e) = Unit

  pub Fits-map_ok :
      {A : Type 0} (f : A → Command) (r : Result A Error)
      → ((a : A) → InRange (f a))
      → Fits (map_ok f r)
  Fits-map_ok f (ok a) h = h a
  Fits-map_ok f (err e) h = tt

  abbrev pub IsOctets : Result (List ℕ) Error → Type 0
  IsOctets (ok l) = IsAddress l
  IsOctets (err e) = Unit

  pub octets-IsOctets : (a b c d : Result ℕ Error) → IsOctets (octets a b c d)
  octets-IsOctets (ok a) (ok b) (ok c) (ok d) =
      (refl, (omega arith, (omega arith, (omega arith, (omega arith, tt)))))
  octets-IsOctets (ok a) (ok b) (ok c) (err d) = tt
  octets-IsOctets (ok a) (ok b) (err c) d = tt
  octets-IsOctets (ok a) (err b) c d = tt
  octets-IsOctets (err a) b c d = tt

  abbrev pub IsVia : Result (Option (List ℕ)) Error → Type 0
  IsVia (ok g) = IsGateway g
  IsVia (err e) = Unit

  pub map_ok-IsVia : (g : Result (List ℕ) Error) → IsOctets g → IsVia (map_ok some g)
  map_ok-IsVia (ok g) h = h
  map_ok-IsVia (err e) h = tt

  pub net_config-Fits :
      (a : Result (List ℕ) Error) (m : Result ℕ Error) (g : Result (Option (List ℕ)) Error)
      → IsOctets a
      → IsVia g
      → Fits (net_config a m g)
  net_config-Fits (ok a) (ok m) (ok g) h k = (h, omega arith, k)
  net_config-Fits (ok a) (ok m) (err g) h k = tt
  net_config-Fits (ok a) (err m) g h k = tt
  net_config-Fits (err a) m g h k = tt

  pub or_zero_lt : (v : Result ℕ Error) → IsU32 v → or_zero v < 2 ^ 32
  or_zero_lt (ok v) h = h
  or_zero_lt (err e) h = omega arith
