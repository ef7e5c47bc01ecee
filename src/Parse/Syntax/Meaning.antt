-- ===== src/Parse/Syntax/Meaning.antt =====
-- What each line of the language of README.md stands for. Nothing of the parser is used but the types
-- of commands and errors and the crate that reads decimal numbers.
use thermostat.Prelude.{
  ℕ, zero, suc, ◌+◌, ◌-◌, ◌*◌, ◌%◌, ◌^◌, ◌≡◌, refl, ap, ◌∙◌, Bool, true, false, ◌&&◌, Option, none,
  some, List, [], ◌∷◌, Result, ok, err, ltb, arith, if◌then◌else◌,
}
use thermostat.Platform.{Platform}
use thermostat.Command.{Command, CenterPoint, Ipv4Config}
use thermostat.Parse.{Error, FloatText, Outcome, map_ok, decimal_from, parse_u32, signed_float}
use thermostat.Parse.System.{octets, net_config, or_zero}
use thermostat.Parse.Syntax
use thermostat.Parse.Syntax.{Line, number, address, decimal, curve_meaning, reading_of}
use thermostat.Parse.Words.{Digits, digits_of, Decimal, Address, index}

-- The number that decimal digits spell, by their places, and whether it has 32 bits.
abbrev pub place : List ℕ → ℕ
place [] = 1
place (d ∷ ds) = 10 * place ds

abbrev pub value : List ℕ → ℕ
value [] = 0
value (d ∷ ds) = (d - b'0') * place ds + value ds

abbrev pub fits : Digits → Bool
fits d = ltb (value (digits_of d)) (2 ^ 32)

-- The last eight bits of a number.
abbrev pub octet : Digits → ℕ
octet d = value (digits_of d) % 256

abbrev pub octets_of : Address → List ℕ
octets_of x = octet x.a ∷ octet x.b ∷ octet x.c ∷ octet x.d ∷ []

abbrev pub address_fits : Address → Bool
address_fits x = fits x.a && fits x.b && fits x.c && fits x.d

module _ ⦃p : Platform⦄ where
  -- A configuration, if every number of the line has 32 bits.
  abbrev pub configures : Bool → Ipv4Config → Outcome
  configures true config = ok (Command.set_ipv4 config)
  configures false config = err Error.parse_int

  -- One minus sign or many make a number negative.
  abbrev pub signed : ℕ → Option p.F64 → Option p.F64
  signed n none = none
  signed zero (some v) = some v
  signed (suc n) (some v) = some (p.neg v)

  -- A command with a number, if there is one.
  abbrev pub with_real : (p.F64 → Command) → Option p.F64 → Outcome
  with_real k none = err Error.parse_float
  with_real k (some v) = ok (k v)

  abbrev pub with_curve : Option p.F64 → Option p.F64 → Option p.F64 → Outcome
  with_curve (some a) (some b) (some c) =
      ok (Command.fan_curve (p.narrow a) (p.narrow b) (p.narrow c))
  with_curve _ _ _ = err Error.incomplete

  module _ ⦃f : FloatText⦄ where
    abbrev pub real : Decimal → Option p.F64
    real x = signed x.signs (f.from_str_radix (digits_of x.number))

    unfoldable pub meaning : Line → Outcome
    meaning Syntax.quit = ok Command.quit
    meaning Syntax.reset = ok Command.reset
    meaning Syntax.dfu = ok Command.dfu
    meaning Syntax.hwrev = ok Command.show_hw_rev
    meaning (Syntax.show what t) = ok (Command.show what)
    meaning (Syntax.load t) = ok (Command.load none)
    meaning (Syntax.save t) = ok (Command.save none)
    meaning (Syntax.show_fan t) = ok Command.show_fan
    meaning (Syntax.load_one g i t) = ok (Command.load (some (index i)))
    meaning (Syntax.save_one g i t) = ok (Command.save (some (index i)))
    meaning (Syntax.output_pid g i h) = ok (Command.output_pid (index i))
    meaning (Syntax.output_polarity g i h k q) = ok (Command.output_polarity (index i) q)
    meaning (Syntax.output g i h pin k x) = with_real (Command.set_output (index i) pin) (real x)
    meaning (Syntax.center_vref g i h) = ok (Command.set_center (index i) CenterPoint.vref)
    meaning (Syntax.center g i h x) =
        with_real (λ v. Command.set_center (index i) (CenterPoint.override (p.narrow v))) (real x)
    meaning (Syntax.pid g i h parameter k x) =
        with_real (Command.set_pid (index i) parameter) (real x)
    meaning (Syntax.b_parameter g i h parameter k x) =
        with_real (Command.set_b_parameter (index i) parameter) (real x)
    meaning (Syntax.filter_off g i h) = ok (Command.set_post_filter (index i) none)
    meaning (Syntax.filter_rate g i h k x) =
        with_real (λ v. Command.set_post_filter (index i) (some (p.narrow v))) (real x)
    meaning (Syntax.net g a m t) =
        configures (address_fits a && fits m)
          (record { address = octets_of a; mask_len = octet m; gateway = none })
    meaning (Syntax.net_via g a m h b) =
        configures (address_fits a && fits m && address_fits b)
          (record { address = octets_of a; mask_len = octet m; gateway = some (octets_of b) })
    meaning (Syntax.fan_auto g) = ok Command.fan_auto
    meaning (Syntax.fan_set g n) = ok (Command.fan_set (if fits n then value (digits_of n) else 0))
    meaning (Syntax.curve_default g) = ok Command.fan_curve_defaults
    meaning (Syntax.curve g x h y k z) = with_curve (real x) (real y) (real z)

-- Digits are read from the left to the number that their places make.
carry : (acc e u v : ℕ) → (acc * 10 + e) * u + v ≡ acc * (10 * u) + (e * u + v)
carry acc e u v = grind arith

decimal_from-value : (acc : ℕ) (ds : List ℕ) → decimal_from acc ds ≡ acc * place ds + value ds
decimal_from-value acc [] = omega arith
decimal_from-value acc (d ∷ ds) =
    decimal_from-value (acc * 10 + (d - b'0')) ds ∙ carry acc (d - b'0') (place ds) (value ds)

abbrev check : Bool → ℕ → Result ℕ Error
check b v = if b then ok v else err Error.parse_int

number-check : (d : Digits) → number d ≡ check (fits d) (value (digits_of d))
unfolding parse_u32
number-check d =
    let ds = digits_of d in
    ap (λ v. check (ltb v (2 ^ 32)) v) (decimal_from-value 0 ds ∙ omega arith)

or_zero-check : (b : Bool) (v : ℕ) → or_zero (check b v) ≡ (if b then v else 0)
or_zero-check true v = refl
or_zero-check false v = refl

abbrev check_list : Bool → List ℕ → Result (List ℕ) Error
check_list b v = if b then ok v else err Error.parse_int

octets-check :
    (a b c d : Bool) (w x y z : ℕ)
    → octets (check a w) (check b x) (check c y) (check d z)
      ≡ check_list (a && b && c && d) (w % 256 ∷ x % 256 ∷ y % 256 ∷ z % 256 ∷ [])
octets-check true true true true w x y z = refl
octets-check true true true false w x y z = refl
octets-check true true false d w x y z = refl
octets-check true false c d w x y z = refl
octets-check false b c d w x y z = refl

address-check : (x : Address) → address x ≡ check_list (address_fits x) (octets_of x)
address-check x =
    rw (number-check x.a, number-check x.b, number-check x.c, number-check x.d)
      (octets-check (fits x.a) (fits x.b) (fits x.c) (fits x.d) _ _ _ _)

module _ ⦃p : Platform⦄ where
  net_config-none :
      (b m : Bool) (a : List ℕ) (v : ℕ)
      → net_config (check_list b a) (check m v) (ok none)
        ≡ configures (b && m) (record { address = a; mask_len = v % 256; gateway = none })
  net_config-none true true a v = refl
  net_config-none true false a v = refl
  net_config-none false m a v = refl

  net_config-some :
      (b m g : Bool) (a : List ℕ) (v : ℕ) (via : List ℕ)
      → net_config (check_list b a) (check m v) (map_ok some (check_list g via))
        ≡ configures (b && m && g) (record { address = a; mask_len = v % 256; gateway = some via })
  net_config-some true true true a v via = refl
  net_config-some true true false a v via = refl
  net_config-some true false g a v via = refl
  net_config-some false m g a v via = refl

  abbrev result_of : Option p.F64 → Result p.F64 Error
  result_of none = err Error.parse_float
  result_of (some v) = ok v

  above : (n : ℕ) → ltb 0 (suc n) ≡ true
  above n = ground arith

  signed_float-signed :
      (n : ℕ) (o : Option p.F64) → signed_float (ltb 0 n) o ≡ result_of (signed n o)
  signed_float-signed zero none = refl
  signed_float-signed (suc n) none = refl
  signed_float-signed zero (some v) = refl
  signed_float-signed (suc n) (some v) = ap (λ b. signed_float b (some v)) (above n)

  map_ok-result_of :
      (k : p.F64 → Command) (o : Option p.F64) → map_ok k (result_of o) ≡ with_real k o
  map_ok-result_of k none = refl
  map_ok-result_of k (some v) = refl

  module _ ⦃f : FloatText⦄ where
    curve_meaning-result_of :
        (a b c : Option p.F64)
        → curve_meaning (result_of a) (result_of b) (result_of c) ≡ with_curve a b c
    curve_meaning-result_of (some a) (some b) (some c) = refl
    curve_meaning-result_of (some a) (some b) none = refl
    curve_meaning-result_of (some a) none c = refl
    curve_meaning-result_of none b c = refl

    decimal-real : (x : Decimal) → decimal x ≡ result_of (real x)
    decimal-real x = signed_float-signed x.signs (f.from_str_radix (digits_of x.number))

    map_ok-decimal :
        (k : p.F64 → Command) (x : Decimal) → map_ok k (decimal x) ≡ with_real k (real x)
    map_ok-decimal k x = ap (map_ok k) (decimal-real x) ∙ map_ok-result_of k (real x)

    -- What the functions of the parser make of a line is what it stands for.
    pub reading_of-meaning : (l : Line) → reading_of l ≡ meaning l
    unfolding reading_of meaning
    reading_of-meaning (Syntax.output g i h pin k x) =
        map_ok-decimal (Command.set_output (index i) pin) x
    reading_of-meaning (Syntax.center g i h x) =
        map_ok-decimal (λ v. Command.set_center (index i) (CenterPoint.override (p.narrow v))) x
    reading_of-meaning (Syntax.pid g i h parameter k x) =
        map_ok-decimal (Command.set_pid (index i) parameter) x
    reading_of-meaning (Syntax.b_parameter g i h parameter k x) =
        map_ok-decimal (Command.set_b_parameter (index i) parameter) x
    reading_of-meaning (Syntax.filter_rate g i h k x) =
        map_ok-decimal (λ v. Command.set_post_filter (index i) (some (p.narrow v))) x
    reading_of-meaning (Syntax.net g a m t) =
        rw (address-check a, number-check m)
          (net_config-none (address_fits a) (fits m) (octets_of a) (value (digits_of m)))
    reading_of-meaning (Syntax.net_via g a m h b) =
        rw (address-check a, number-check m, address-check b)
          (net_config-some (address_fits a) (fits m) (address_fits b) (octets_of a)
            (value (digits_of m)) (octets_of b))
    reading_of-meaning (Syntax.fan_set g n) =
        ap (λ v. ok (Command.fan_set v))
          (ap or_zero (number-check n) ∙ or_zero-check (fits n) (value (digits_of n)))
    reading_of-meaning (Syntax.curve g x h y k z) =
        rw (decimal-real x, decimal-real y, decimal-real z)
          (curve_meaning-result_of (real x) (real y) (real z))
    reading_of-meaning Syntax.quit = refl
    reading_of-meaning Syntax.reset = refl
    reading_of-meaning Syntax.dfu = refl
    reading_of-meaning Syntax.hwrev = refl
    reading_of-meaning (Syntax.show what t) = refl
    reading_of-meaning (Syntax.load t) = refl
    reading_of-meaning (Syntax.save t) = refl
    reading_of-meaning (Syntax.show_fan t) = refl
    reading_of-meaning (Syntax.load_one g i t) = refl
    reading_of-meaning (Syntax.save_one g i t) = refl
    reading_of-meaning (Syntax.output_pid g i h) = refl
    reading_of-meaning (Syntax.output_polarity g i h k q) = refl
    reading_of-meaning (Syntax.center_vref g i h) = refl
    reading_of-meaning (Syntax.filter_off g i h) = refl
    reading_of-meaning (Syntax.fan_auto g) = refl
    reading_of-meaning (Syntax.curve_default g) = refl
