-- ===== src/Nom.antt =====
-- The parser combinators of the crate `nom` that `src/command_parser.rs` calls. They are parameters: a
-- record of functions on bytes.
pub mod Documented
use thermostat.Prelude.{ℕ, Bool, Option, List, Result}

-- The kinds of error that the combinators make.
pub data ErrorKind : Type 0 where
  tag one_of char take_while1 is_a many0 many1 complete : ErrorKind

-- `IResult`: the rest of the input and a value, or one of `Err::Error`, `Err::Incomplete` and
-- `Err::Failure`. The input that an error carries is dropped, as the caller drops it.
pub data IResult (A : Type 0) : Type 0 where
  done : List ℕ → A → IResult A
  failed : ErrorKind → IResult A
  incomplete : IResult A
  failure : ErrorKind → IResult A

abbrev pub Parser : Type 0 → Type 0
Parser A = List ℕ → IResult A

-- `alt` takes its tuple as a first parser and the others.
pub record Nom : Type 1 where
  pub is_digit : ℕ → Bool
  pub tag : List ℕ → Parser (List ℕ)
  pub one_of : List ℕ → Parser ℕ
  pub char : ℕ → Parser ℕ
  pub take_while1 : (ℕ → Bool) → Parser (List ℕ)
  pub is_a : List ℕ → Parser (List ℕ)
  pub opt : {A : Type 0} → Parser A → Parser (Option A)
  pub complete : {A : Type 0} → Parser A → Parser A
  pub map : {A B : Type 0} → Parser A → (A → B) → Parser B
  pub value : {A B : Type 0} → B → Parser A → Parser B
  pub preceded : {A B : Type 0} → Parser A → Parser B → Parser B
  pub alt : {A : Type 0} → Parser A → List (Parser A) → Parser A
  pub fold_many0 : {A B : Type 0} → Parser A → B → (B → A → B) → Parser B
  pub fold_many1 : {A B : Type 0} → Parser A → B → (B → A → B) → Parser B

-- The `?` operator on a result.
abbrev pub then_on : {A B : Type 0} → IResult A → (A → Parser B) → IResult B
then_on (done rest a) f = f a rest
then_on (failed k) f = failed k
then_on incomplete f = incomplete
then_on (failure k) f = failure k

infixl 5 ◌>>=◌ ◌>>◌
abbrev pub ◌>>=◌ : {A B : Type 0} → Parser A → (A → Parser B) → Parser B
◌>>=◌ p f input = then_on (p input) f

abbrev pub ◌>>◌ : {A B : Type 0} → Parser A → Parser B → Parser B
p >> q = p >>= λ _. q

-- `Ok((input, a))`
abbrev pub pure : {A : Type 0} → A → Parser A
pure a input = done input a
