-- ===== src/Parse/Syntax/Tokens.antt =====
-- What the small parsers of `src/command_parser.rs` make of the tokens of a line.
use thermostat.Prelude.{
  ℕ, zero, suc, ◌+◌, ◌≤◌, ◌≡◌, refl, ap, ◌∙◌, Bool, true, false, Option, none, some, List, [], ◌∷◌,
  ◌++◌, Result, arith, ltb, ◌==◌, length, length-append, length-replicate, replicate, All, bytes,
}
use mathlib.Core.List.{append_assoc}
use thermostat.Platform.{Platform}
use thermostat.Nom.{ErrorKind, IResult, done, Parser, ◌>>=◌, then_on, pure}
use thermostat.Nom.Documented.{documented, digit, mem, span, many, some_of, or_else, opt_result}
use thermostat.Parse.{
  Error, FloatText, whitespace, unsigned, float, channel, no_result, parse_u32, signed_float,
  is_some,
}
use thermostat.Parse.Syntax.{number, decimal, IsDecimal, first, second, on_side}
use thermostat.Parse.Words.{
  Digits, digits_of, Consists, Decimal, text_of, gap, float_byte, Side, side_byte, index,
}

-- The next byte, if there is one, fails a test.
abbrev pub StopsAt : (ℕ → Bool) → List ℕ → Type 0
StopsAt test [] = Unit
StopsAt test (c ∷ rest) = test c ≡ false

pub lt_next : (n : ℕ) → ltb n (suc n) ≡ true
lt_next n = ground arith

many-gap :
    (n g : ℕ) (rest : List ℕ)
    → g + length rest ≤ n
    → StopsAt (λ c. c == b' ') rest
    → many n (documented.char b' ') tt no_result (replicate g b' ' ++ rest) ≡ done rest tt
many-gap zero zero [] h s = refl
many-gap (suc n) zero [] h s = refl
many-gap (suc n) zero (c ∷ rest) h s = rw (s, many) refl
many-gap zero zero (c ∷ rest) h s = absurd (omega arith)
many-gap zero (suc g) rest h s = absurd (omega arith)
many-gap (suc n) (suc g) rest h s =
    rw (lt_next (length (replicate g b' ' ++ rest)), many) (many-gap n g rest (omega arith) s)

-- A gap is read whole.
pub whitespace-gap :
    (g : ℕ) (rest : List ℕ)
    → StopsAt (λ c. c == b' ') rest
    → whitespace (gap g ++ rest) ≡ done rest tt
unfolding whitespace
whitespace-gap g rest s =
    many-gap _ g rest
      (omega (arith, length-append (replicate g b' ') rest, length-replicate {A = ℕ} g 32)) s

-- The longest run of bytes that pass a test.
span-run :
    (test : ℕ → Bool) (ds rest : List ℕ)
    → All (λ c. test c ≡ true) ds
    → StopsAt test rest
    → span test (ds ++ rest) ≡ (ds, rest)
span-run test [] [] a s = refl
span-run test [] (c ∷ rest) a s = rw s refl
span-run test (d ∷ ds) rest (h, a) s = rw h (ap (λ q. (d ∷ q.0, q.1)) (span-run test ds rest a s))

pub bind-done :
    {A B : Type 0} (p : Parser A) (f : A → Parser B) (input rest : List ℕ) (a : A)
    → p input ≡ done rest a
    → (p >>= f) input ≡ f a rest
bind-done p f input rest a e = ap (λ r. then_on r f) e

-- A result in front of `?` or of the other alternatives.
pub at_then :
    {A B : Type 0} {r r' : IResult A} (f : A → Parser B) → r ≡ r' → then_on r f ≡ then_on r' f
at_then f e = ap (λ r. then_on r f) e

pub at_alt :
    {A : Type 0} {r r' : IResult A} (other : IResult A)
    → r ≡ r'
    → or_else r other ≡ or_else r' other
at_alt other e = ap (λ r. or_else r other) e

take_while1-run :
    (test : ℕ → Bool) (d : Digits) (rest : List ℕ)
    → Consists test d
    → StopsAt test rest
    → documented.take_while1 test (digits_of d ++ rest) ≡ done rest (digits_of d)
take_while1-run test d rest h s =
    ap (some_of ErrorKind.take_while1) (span-run test (digits_of d) rest h s)

pub unsigned-digits :
    (d : Digits) (rest : List ℕ)
    → Consists digit d
    → StopsAt digit rest
    → unsigned (digits_of d ++ rest) ≡ done rest (number d)
unfolding unsigned
unsigned-digits d rest h s =
    bind-done (documented.take_while1 digit) (λ ds. pure (parse_u32 ds)) (digits_of d ++ rest) rest
      (digits_of d) (take_while1-run digit d rest h s)

abbrev minus : ℕ → Bool
minus c = mem c (bytes "-")

-- The signs before a number.
abbrev signs_of : ℕ → Option (List ℕ)
signs_of zero = none
signs_of (suc n) = some (b'-' ∷ replicate n b'-')

is_some-signs_of : (n : ℕ) → is_some (signs_of n) ≡ ltb 0 n
is_some-signs_of zero = refl
is_some-signs_of (suc n) = ground arith

float_byte-minus : (c : ℕ) → float_byte c ≡ true → minus c ≡ false
float_byte-minus c h = ground arith

minus-run : (n : ℕ) → All (λ c. minus c ≡ true) (replicate n b'-')
minus-run zero = tt
minus-run (suc n) = (refl, minus-run n)

opt-signs :
    (n : ℕ) (d : Digits) (rest : List ℕ)
    → float_byte d.first ≡ true
    → documented.opt (documented.is_a (bytes "-")) (replicate n b'-' ++ (digits_of d ++ rest))
      ≡ done (digits_of d ++ rest) (signs_of n)
opt-signs zero d rest h =
    ap (λ q. opt_result (digits_of d ++ rest) (some_of ErrorKind.is_a q))
      (span-run minus [] (digits_of d ++ rest) tt (float_byte-minus d.first h))
opt-signs (suc n) d rest h =
    ap
      (λ q. opt_result (replicate (suc n) b'-' ++ (digits_of d ++ rest)) (some_of ErrorKind.is_a q))
      (span-run minus (replicate (suc n) b'-') (digits_of d ++ rest) (minus-run (suc n))
        (float_byte-minus d.first h))

module _ ⦃p : Platform⦄ ⦃f : FloatText⦄ where
  after_sign : Option (List ℕ) → Parser (Result p.F64 Error)
  after_sign sign = documented.take_while1 float_byte >>= λ digits.
      pure (signed_float (is_some sign) (f.from_str_radix digits))

  -- A decimal number is read whole.
  pub float-decimal :
      (x : Decimal) (rest : List ℕ)
      → IsDecimal x
      → StopsAt float_byte rest
      → float (text_of x ++ rest) ≡ done rest (decimal x)
  unfolding float after_sign
  float-decimal x rest h s =
      let ds = digits_of x.number in
      ap float (append_assoc (replicate x.signs b'-') ds rest)
      ∙ bind-done (documented.opt (documented.is_a (bytes "-"))) after_sign
          (replicate x.signs b'-' ++ (ds ++ rest)) (ds ++ rest) (signs_of x.signs)
          (opt-signs x.signs x.number rest h.0)
      ∙ bind-done (documented.take_while1 float_byte)
          (λ digits. pure (signed_float (is_some (signs_of x.signs)) (f.from_str_radix digits)))
          (ds ++ rest) rest ds (take_while1-run float_byte x.number rest h s)
      ∙ ap (λ b. done rest (signed_float b (f.from_str_radix ds))) (is_some-signs_of x.signs)

-- A channel between two gaps.
pub side_read :
    {A : Type 0} (k : ℕ → Parser A) (g h : ℕ) (i : Side) (rest : List ℕ)
    → StopsAt (λ c. c == b' ') rest
    → (whitespace >>= λ _. channel >>= λ j. whitespace >>= λ _. k j) (on_side g i h rest)
      ≡ k (index i) rest
unfolding channel
side_read k g h i rest s =
    let after = λ (j : ℕ). whitespace >>= λ _. k j in
    bind-done whitespace (λ _. channel >>= after) (on_side g i h rest)
      (side_byte i ∷ (gap h ++ rest)) tt
      (whitespace-gap g (side_byte i ∷ (gap h ++ rest)) (stops i))
    ∙ bind-done channel after (side_byte i ∷ (gap h ++ rest)) (gap h ++ rest) (index i)
        (channel-byte i)
    ∙ bind-done whitespace (λ _. k (index i)) (gap h ++ rest) rest tt (whitespace-gap h rest s)
  where
    stops : (i : Side) → StopsAt (λ c. c == b' ') (side_byte i ∷ (gap h ++ rest))
    stops first = refl
    stops second = refl

    channel-byte :
        (i : Side) → channel (side_byte i ∷ (gap h ++ rest)) ≡ done (gap h ++ rest) (index i)
    channel-byte first = refl
    channel-byte second = refl
