-- ===== src/Parse/Syntax/Decimals.antt =====
-- How decimal numbers are read, before a blank and at the end of a line.
use thermostat.Prelude.{
  ℕ, zero, suc, ◌≡◌, refl, sym, ap, ◌∙◌, Bool, true, false, none, List, [], ◌∷◌, ◌++◌, Result, ok,
  err, arith, replicate, ◌==◌, ltb, if◌then◌else◌,
}
use mathlib.Core.List.{append-nil}
use thermostat.Platform.{Platform}
use thermostat.Nom.{ErrorKind, done, failed, Parser, ◌>>=◌}
use mathlib.Core.Path.{subst}
use thermostat.Nom.Documented.{documented, tag_result, strip}
use thermostat.Parse.{Error, FloatText, whitespace, float, map_ok}
use thermostat.Parse.Syntax.{IsDecimal, decimal}
use thermostat.Parse.Words.{gap, Decimal, text_of, float_byte}
use thermostat.Parse.Syntax.Tokens.{StopsAt, whitespace-gap, float-decimal, bind-done}

blank : ℕ → Bool
blank c = c == b' '

float_byte-blank : (c : ℕ) → float_byte c ≡ true → (c == b' ') ≡ false
float_byte-blank c h = ground arith

pub letter : (w c : ℕ) → ltb w b'a' ≡ false → float_byte c ≡ true → (w == c) ≡ false
letter w c l h = ground arith

letter_minus : (w : ℕ) → ltb w b'a' ≡ false → (w == b'-') ≡ false
letter_minus w l = ground arith

pub decimal-stops :
    (x : Decimal) (rest : List ℕ) → IsDecimal x → StopsAt (λ c. c == b' ') (text_of x ++ rest)
decimal-stops x rest h = stops x.signs
  where
    stops :
        (n : ℕ)
        → StopsAt
            (λ c. c == b' ')
            ((replicate n b'-' ++ (x.number.first ∷ x.number.others)) ++ rest)
    stops zero = float_byte-blank x.number.first h.0
    stops (suc n) = refl

pub text-stops : (x : Decimal) → IsDecimal x → StopsAt (λ c. c == b' ') (text_of x)
text-stops x h = subst (StopsAt (λ c. c == b' ')) (append-nil (text_of x)) (decimal-stops x [] h)

pub tag-differs :
    (w c : ℕ) (ws input : List ℕ)
    → (w == c) ≡ false
    → documented.tag (w ∷ ws) (c ∷ input) ≡ failed ErrorKind.tag
tag-differs w c ws input e = ap (λ b. tag_result (w ∷ ws) (if b then strip ws input else none)) e

-- A word that begins with a letter is not a number.
pub decimal-tag :
    (w : ℕ) (ws : List ℕ) (x : Decimal) (rest : List ℕ)
    → ltb w b'a' ≡ false
    → IsDecimal x
    → documented.tag (w ∷ ws) (text_of x ++ rest) ≡ failed ErrorKind.tag
decimal-tag w ws x rest l h = go x.signs
  where
    go :
        (n : ℕ)
        → documented.tag (w ∷ ws) ((replicate n b'-' ++ (x.number.first ∷ x.number.others)) ++ rest)
          ≡ failed ErrorKind.tag
    go zero = tag-differs w x.number.first ws _ (letter w x.number.first l h.0)
    go (suc n) = tag-differs w b'-' ws _ (letter_minus w l)

pub decimal-tag_end :
    (w : ℕ) (ws : List ℕ) (x : Decimal)
    → ltb w b'a' ≡ false
    → IsDecimal x
    → documented.tag (w ∷ ws) (text_of x) ≡ failed ErrorKind.tag
decimal-tag_end w ws x l h =
    ap (documented.tag (w ∷ ws)) (sym (append-nil (text_of x))) ∙ decimal-tag w ws x [] l h

pub map_ok-map_ok :
    {A B C : Type 0} (f : A → B) (g : B → C) (r : Result A Error)
    → map_ok g (map_ok f r) ≡ map_ok (λ a. g (f a)) r
map_ok-map_ok f g (ok a) = refl
map_ok-map_ok f g (err e) = refl

module _ ⦃p : Platform⦄ ⦃f : FloatText⦄ where
  -- A gap, a number and a rest.
  number-then :
      {A : Type 0} (k : Result p.F64 Error → Parser A) (g : ℕ) (x : Decimal) (rest : List ℕ)
      → IsDecimal x
      → StopsAt float_byte rest
      → (whitespace >>= λ _. float >>= k) (gap g ++ (text_of x ++ rest)) ≡ k (decimal x) rest
  number-then k g x rest h s =
      bind-done whitespace (λ _. float >>= k) (gap g ++ (text_of x ++ rest)) (text_of x ++ rest) tt
        (whitespace-gap g (text_of x ++ rest) (decimal-stops x rest h))
      ∙ bind-done float k (text_of x ++ rest) rest (decimal x) (float-decimal x rest h s)

  pub number-end :
      {A : Type 0} (k : Result p.F64 Error → Parser A) (g : ℕ) (x : Decimal)
      → IsDecimal x
      → (whitespace >>= λ _. float >>= k) (gap g ++ text_of x) ≡ k (decimal x) []
  number-end k g x h =
      ap (λ t. (whitespace >>= λ _. float >>= k) (gap g ++ t)) (sym (append-nil (text_of x)))
      ∙ number-then k g x [] h tt

  pub number_read :
      (g : ℕ) (x : Decimal)
      → IsDecimal x
      → (whitespace >>= λ _. float) (gap g ++ text_of x) ≡ done [] (decimal x)
  number_read g x h =
      ap (λ t. (whitespace >>= λ _. float) (gap g ++ t)) (sym (append-nil (text_of x)))
      ∙ bind-done whitespace (λ _. float) (gap g ++ (text_of x ++ [])) (text_of x ++ []) tt
          (whitespace-gap g (text_of x ++ []) (decimal-stops x [] h))
      ∙ float-decimal x [] h tt

  pub float-end : (x : Decimal) → IsDecimal x → float (text_of x) ≡ done [] (decimal x)
  float-end x h = ap float (sym (append-nil (text_of x))) ∙ float-decimal x [] h tt
