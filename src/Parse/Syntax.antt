-- ===== src/Parse/Syntax.antt =====
-- The language of command lines that README.md describes: the forms of a line, the bytes of each, and
-- what the functions of the parser that handle numbers make of it.
pub mod Tokens
pub mod Trails
pub mod Decimals
pub mod Settings
pub mod Bare
pub mod Services
pub mod Meaning
pub mod Complete
use thermostat.Prelude.{
  ℕ, suc, ◌+◌, ◌≡◌, Bool, true, false, ◌||◌, Option, none, some, List, [], ◌∷◌, ◌++◌, Result, ok,
  err, ltb, leb, ◌&&◌, ◌==◌, replicate, All, bytes,
}
use thermostat.Platform.{Platform}
use thermostat.Command
use thermostat.Command.{
  Command, CenterPoint, ShowCommand, PidParameter, BpParameter, PwmPin, Polarity,
}
use thermostat.Nom.Documented.{digit, mem}
use thermostat.Parse.{Error, FloatText, Outcome, map_ok, and_then, parse_u32, signed_float}
use thermostat.Parse.System.{octets, net_config, or_zero}
use thermostat.Parse.Words.{
  Digits, digits_of, float_byte, Consists, Decimal, text_of, gap, IsTrail, Side, side_byte, index,
  Address, address_text, pin_word, polarity_word, pid_word, bp_word, show_word, first, second,
}

-- The lines. A number stands for the gap before the next word, a list for what trails.
pub data Line : Type 0 where
  quit reset dfu hwrev : Line
  show : ShowCommand → List ℕ → Line
  load save show_fan : List ℕ → Line
  load_one save_one : ℕ → Side → List ℕ → Line
  output_pid : ℕ → Side → ℕ → Line
  output_polarity : ℕ → Side → ℕ → ℕ → Polarity → Line
  output : ℕ → Side → ℕ → PwmPin → ℕ → Decimal → Line
  center_vref : ℕ → Side → ℕ → Line
  center : ℕ → Side → ℕ → Decimal → Line
  pid : ℕ → Side → ℕ → PidParameter → ℕ → Decimal → Line
  b_parameter : ℕ → Side → ℕ → BpParameter → ℕ → Decimal → Line
  filter_off : ℕ → Side → ℕ → Line
  filter_rate : ℕ → Side → ℕ → ℕ → Decimal → Line
  net : ℕ → Address → Digits → List ℕ → Line
  net_via : ℕ → Address → Digits → ℕ → Address → Line
  fan_auto : ℕ → Line
  fan_set : ℕ → Digits → Line
  curve_default : ℕ → Line
  curve : ℕ → Decimal → ℕ → Decimal → ℕ → Decimal → Line

-- A channel between two gaps, before a rest.
abbrev pub on_side : ℕ → Side → ℕ → List ℕ → List ℕ
on_side g i h rest = gap g ++ (side_byte i ∷ (gap h ++ rest))

unfoldable pub print : Line → List ℕ
print quit = bytes "quit"
print reset = bytes "reset"
print dfu = bytes "dfu"
print hwrev = bytes "hwrev"
print (show what t) = show_word what ++ t
print (load t) = bytes "load" ++ t
print (save t) = bytes "save" ++ t
print (show_fan t) = bytes "fan" ++ t
print (load_one g i t) = bytes "load" ++ (gap g ++ (side_byte i ∷ t))
print (save_one g i t) = bytes "save" ++ (gap g ++ (side_byte i ∷ t))
print (output_pid g i h) = bytes "output" ++ on_side g i h (bytes "pid")
print (output_polarity g i h k q) =
    bytes "output" ++ on_side g i h (bytes "polarity" ++ (gap k ++ polarity_word q))
print (output g i h pin k x) =
    bytes "output" ++ on_side g i h (pin_word pin ++ (gap k ++ text_of x))
print (center_vref g i h) = bytes "center" ++ on_side g i h (bytes "vref")
print (center g i h x) = bytes "center" ++ on_side g i h (text_of x)
print (pid g i h parameter k x) =
    bytes "pid" ++ on_side g i h (pid_word parameter ++ (gap k ++ text_of x))
print (b_parameter g i h parameter k x) =
    bytes "b-p" ++ on_side g i h (bp_word parameter ++ (gap k ++ text_of x))
print (filter_off g i h) = bytes "postfilter" ++ on_side g i h (bytes "off")
print (filter_rate g i h k x) =
    bytes "postfilter" ++ on_side g i h (bytes "rate" ++ (gap k ++ text_of x))
print (net g a m t) = bytes "ipv4" ++ (gap g ++ address_text a (b'/' ∷ (digits_of m ++ t)))
print (net_via g a m h b) =
    bytes "ipv4" ++ (gap g ++ address_text a (b'/' ∷ (digits_of m ++ (gap h ++ address_text b []))))
print (fan_auto g) = bytes "fan" ++ (gap g ++ bytes "auto")
print (fan_set g n) = bytes "fan" ++ (gap g ++ digits_of n)
print (curve_default g) = bytes "fcurve" ++ (gap g ++ bytes "default")
print (curve g x h y k z) =
    bytes "fcurve" ++ (gap g ++ (text_of x ++ (gap h ++ (text_of y ++ (gap k ++ text_of z)))))

-- What the README leaves to the reader: digits are digits, and only blanks trail.
abbrev pub IsAddress : Address → Type 0
IsAddress x = Consists digit x.a × Consists digit x.b × Consists digit x.c × Consists digit x.d

abbrev pub IsDecimal : Decimal → Type 0
IsDecimal x = Consists float_byte x.number

abbrev pub IsLine : Line → Type 0
IsLine (show what t) = IsTrail t
IsLine (load t) = IsTrail t
IsLine (save t) = IsTrail t
IsLine (show_fan t) = IsTrail t
IsLine (load_one g i t) = IsTrail t
IsLine (save_one g i t) = IsTrail t
IsLine (output g i h pin k x) = IsDecimal x
IsLine (center g i h x) = IsDecimal x
IsLine (pid g i h parameter k x) = IsDecimal x
IsLine (b_parameter g i h parameter k x) = IsDecimal x
IsLine (filter_rate g i h k x) = IsDecimal x
IsLine (net g a m t) = IsAddress a × Consists digit m × IsTrail t
IsLine (net_via g a m h b) = IsAddress a × Consists digit m × IsAddress b
IsLine (fan_set g n) = Consists digit n
IsLine (curve g x h y k z) = IsDecimal x × IsDecimal y × IsDecimal z
IsLine _ = Unit

-- The number that digits stand for, if it has 32 bits.
abbrev pub number : Digits → Result ℕ Error
number d = parse_u32 (digits_of d)

abbrev pub address : Address → Result (List ℕ) Error
address x = octets (number x.a) (number x.b) (number x.c) (number x.d)

module _ ⦃p : Platform⦄ ⦃f : FloatText⦄ where
  -- The number that a decimal text stands for: one minus sign or many make it negative.
  abbrev pub decimal : Decimal → Result p.F64 Error
  decimal x = signed_float (ltb 0 x.signs) (f.from_str_radix (digits_of x.number))

  -- Three numbers, or the one error for a curve.
  abbrev pub curve_meaning : Result p.F64 Error → Result p.F64 Error → Result p.F64 Error → Outcome
  curve_meaning (ok a) (ok b) (ok c) = ok (Command.fan_curve (p.narrow a) (p.narrow b) (p.narrow c))
  curve_meaning _ _ _ = err Error.incomplete

  unfoldable pub reading_of : Line → Outcome
  reading_of quit = ok Command.quit
  reading_of reset = ok Command.reset
  reading_of dfu = ok Command.dfu
  reading_of hwrev = ok Command.show_hw_rev
  reading_of (show what t) = ok (Command.show what)
  reading_of (load t) = ok (Command.load none)
  reading_of (save t) = ok (Command.save none)
  reading_of (show_fan t) = ok Command.show_fan
  reading_of (load_one g i t) = ok (Command.load (some (index i)))
  reading_of (save_one g i t) = ok (Command.save (some (index i)))
  reading_of (output_pid g i h) = ok (Command.output_pid (index i))
  reading_of (output_polarity g i h k q) = ok (Command.output_polarity (index i) q)
  reading_of (output g i h pin k x) = map_ok (Command.set_output (index i) pin) (decimal x)
  reading_of (center_vref g i h) = ok (Command.set_center (index i) CenterPoint.vref)
  reading_of (center g i h x) =
      map_ok (λ v. Command.set_center (index i) (CenterPoint.override (p.narrow v))) (decimal x)
  reading_of (pid g i h parameter k x) = map_ok (Command.set_pid (index i) parameter) (decimal x)
  reading_of (b_parameter g i h parameter k x) =
      map_ok (Command.set_b_parameter (index i) parameter) (decimal x)
  reading_of (filter_off g i h) = ok (Command.set_post_filter (index i) none)
  reading_of (filter_rate g i h k x) =
      map_ok (λ v. Command.set_post_filter (index i) (some (p.narrow v))) (decimal x)
  reading_of (net g a m t) = net_config (address a) (number m) (ok none)
  reading_of (net_via g a m h b) = net_config (address a) (number m) (map_ok some (address b))
  reading_of (fan_auto g) = ok Command.fan_auto
  reading_of (fan_set g n) = ok (Command.fan_set (or_zero (number n)))
  reading_of (curve_default g) = ok Command.fan_curve_defaults
  reading_of (curve g x h y k z) = curve_meaning (decimal x) (decimal y) (decimal z)
