-- ===== src/Parse.antt =====
-- `src/command_parser.rs`: the errors, and the parsers of blanks, numbers and channels, over `nom`.
pub mod Channel
pub mod System
pub mod Line
pub mod Words
pub mod Syntax
pub mod Safety
use thermostat.Prelude.{
  ℕ, ◌+◌, ◌-◌, ◌*◌, ◌^◌, Bool, true, false, ◌||◌, Option, none, some, List, [], ◌∷◌, Result, ok,
  err, ltb, ◌==◌, if◌then◌else◌, bytes,
}
use thermostat.Platform.{Platform}
use thermostat.Command.{Command}
use thermostat.Nom.{ErrorKind, done, Parser, Nom, ◌>>=◌, ◌>>◌, pure}

-- `Error`. The payloads of `Utf8` and `ParseInt` are dropped; `Utf8` is never made, since the bytes
-- that are read as text are digits and dots.
pub data Error : Type 0 where
  parser : ErrorKind → Error
  incomplete : Error
  unexpected_input : ℕ → Error
  utf8 parse_int parse_float : Error

-- `Result::map`, and the `?` of a closure that returns a `Result`.
abbrev pub map_ok : {A B : Type 0} → (A → B) → Result A Error → Result B Error
map_ok f (ok a) = ok (f a)
map_ok f (err e) = err e

abbrev pub and_then : {A B : Type 0} → Result A Error → (A → Result B Error) → Result B Error
and_then (ok a) f = f a
and_then (err e) f = err e

-- The number that decimal digits spell.
abbrev pub decimal_from : ℕ → List ℕ → ℕ
decimal_from acc [] = acc
decimal_from acc (d ∷ ds) = decimal_from (acc * 10 + (d - 0x30)) ds

-- `parse::<u32>` of digits, at least one.
unfoldable pub parse_u32 : List ℕ → Result ℕ Error
parse_u32 ds = let v = decimal_from 0 ds in if ltb v (2 ^ 32) then ok v else err parse_int

-- `f64::from_str_radix` of the crate `num_traits` at radix 10.
pub record FloatText ⦃p : Platform⦄ : Type 0 where
  pub from_str_radix : List ℕ → Option p.F64

module _ ⦃p : Platform⦄ where
  -- `Result<Command, Error>`
  abbrev pub Outcome : Type 0
  Outcome = Result Command Error

  -- What `float` makes of the digits after a sign.
  abbrev pub signed_float : Bool → Option p.F64 → Result p.F64 Error
  signed_float negative none = err parse_float
  signed_float true (some v) = ok (p.neg v)
  signed_float false (some v) = ok v

abbrev pub is_some : {A : Type 0} → Option A → Bool
is_some none = false
is_some (some a) = true

-- The accumulator of a fold that keeps nothing.
abbrev pub no_result : {A : Type 0} → Unit {0} → A → Unit {0}
no_result _ _ = tt

module _ ⦃n : Nom⦄ where
  unfoldable pub end : Parser (Unit {0})
  end = n.complete (n.fold_many0 (n.one_of (bytes "\r\n\t ")) tt no_result)

  unfoldable pub whitespace : Parser (Unit {0})
  whitespace = n.fold_many1 (n.char b' ') tt no_result

  unfoldable pub unsigned : Parser (Result ℕ Error)
  unfolding parse_u32
  unsigned = do digits ← n.take_while1 n.is_digit; pure (parse_u32 digits)

  unfoldable pub channel : Parser ℕ
  channel = n.map (n.one_of (bytes "01")) (λ c. c - b'0')

  -- `end(input)?; Ok((input, a))`: the blanks are looked at and stay in the input.
  abbrev pub before_end : {A : Type 0} → A → Parser A
  before_end a input = (do end; λ _. done input a) input

  module _ ⦃p : Platform⦄ ⦃f : FloatText⦄ where
    unfoldable pub float : Parser (Result p.F64 Error)
    float = do
      sign ← n.opt (n.is_a (bytes "-"))
      digits ← n.take_while1 (λ c. n.is_digit c || c == b'.')
      pure (signed_float (is_some sign) (f.from_str_radix digits))
