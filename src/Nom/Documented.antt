-- ===== src/Nom/Documented.antt =====
-- What the documentation of `nom` says of its combinators, as laws, and as functions that meet them.
use thermostat.Prelude.{
  ℕ, zero, suc, ◌≡◌, refl, Bool, false, ◌&&◌, ◌||◌, Option, none, some, List, [], ◌∷◌, ltb, leb,
  ◌==◌, if◌then◌else◌, length,
}
use thermostat.Nom.{ErrorKind, IResult, done, failed, incomplete, failure, Parser, Nom, ◌>>=◌, pure}

abbrev pub digit : ℕ → Bool
digit c = leb 0x30 c && leb c 0x39

abbrev pub mem : ℕ → List ℕ → Bool
mem c [] = false
mem c (x ∷ xs) = c == x || mem c xs

-- The input after a prefix.
abbrev pub strip : List ℕ → List ℕ → Option (List ℕ)
strip [] input = some input
strip (t ∷ ts) [] = none
strip (t ∷ ts) (c ∷ input) = if t == c then strip ts input else none

abbrev pub tag_result : List ℕ → Option (List ℕ) → IResult (List ℕ)
tag_result t none = failed ErrorKind.tag
tag_result t (some rest) = done rest t

-- One byte that passes a test.
abbrev pub one : ErrorKind → (ℕ → Bool) → Parser ℕ
one k test [] = failed k
one k test (c ∷ rest) = if test c then done rest c else failed k

-- The longest prefix whose bytes pass a test, and the rest.
abbrev pub span : (ℕ → Bool) → List ℕ → List ℕ × List ℕ
span test [] = ([], [])
span test (c ∷ input) =
    let (ds, rest) = span test input in if test c then (c ∷ ds, rest) else ([], c ∷ input)

-- That prefix, if it is not empty.
abbrev pub some_of : ErrorKind → List ℕ × List ℕ → IResult (List ℕ)
some_of k ([], rest) = failed k
some_of k (d ∷ ds, rest) = done rest (d ∷ ds)

abbrev pub opt_result : {A : Type 0} → List ℕ → IResult A → IResult (Option A)
opt_result input (done rest a) = done rest (some a)
opt_result input (failed k) = done input none
opt_result input incomplete = incomplete
opt_result input (failure k) = failure k

abbrev pub complete_result : {A : Type 0} → IResult A → IResult A
complete_result (done rest a) = done rest a
complete_result (failed k) = failed k
complete_result incomplete = failed ErrorKind.complete
complete_result (failure k) = failure k

-- The next alternative, after an error only.
abbrev pub or_else : {A : Type 0} → IResult A → IResult A → IResult A
or_else (done rest a) other = done rest a
or_else (failed k) other = other
or_else incomplete other = incomplete
or_else (failure k) other = failure k

abbrev pub alternatives : {A : Type 0} → Parser A → List (Parser A) → Parser A
alternatives p [] input = p input
alternatives p (q ∷ qs) input = or_else (p input) (alternatives q qs input)

-- As often as the parser succeeds, which has to get on with every success; the number of rounds left
-- bounds the length of the input.
abbrev pub many : {A B : Type 0} → ℕ → Parser A → B → (B → A → B) → Parser B
many zero p b f input = elim (p input) [
  | done rest a ↦ failed ErrorKind.many0
  | failed k ↦ done input b
  | incomplete ↦ incomplete
  | failure k ↦ failure k
]
many (suc n) p b f input = elim (p input) [
  | done rest a ↦
      let more = many n p (f b a) f rest in
      if ltb (length rest) (length input) then more else failed ErrorKind.many0
  | failed k ↦ done input b
  | incomplete ↦ incomplete
  | failure k ↦ failure k
]

abbrev pub more_of : {A B : Type 0} → Parser A → B → (B → A → B) → IResult A → IResult B
more_of p b f (done rest a) = many (length rest) p (f b a) f rest
more_of p b f (failed k) = failed ErrorKind.many1
more_of p b f incomplete = incomplete
more_of p b f (failure k) = failure k

abbrev pub at_least_one : {A B : Type 0} → Parser A → B → (B → A → B) → Parser B
at_least_one p b f input = more_of p b f (p input)

instance abbrev pub documented : Nom
documented = record {
  is_digit = digit;
  tag = λ t input. tag_result t (strip t input);
  one_of = λ cs. one ErrorKind.one_of (λ c. mem c cs);
  char = λ x. one ErrorKind.char (λ c. c == x);
  take_while1 = λ test input. some_of ErrorKind.take_while1 (span test input);
  is_a = λ cs input. some_of ErrorKind.is_a (span (λ c. mem c cs) input);
  opt = λ p input. opt_result input (p input);
  complete = λ p input. complete_result (p input);
  map = λ p f. p >>= λ a. pure (f a);
  value = λ b p. p >>= λ _. pure b;
  preceded = λ p q. p >>= λ _. q;
  alt = alternatives;
  fold_many0 = λ p b f input. many (length input) p b f input;
  fold_many1 = at_least_one;
}

-- `nom` does what its documentation says.
pub record IsDocumented (n : Nom) : Type 1 where
  pub is_digit_lem : (c : ℕ) → n.is_digit c ≡ digit c
  pub tag_lem : (t input : List ℕ) → n.tag t input ≡ documented.tag t input
  pub one_of_lem : (cs input : List ℕ) → n.one_of cs input ≡ documented.one_of cs input
  pub char_lem : (c : ℕ) (input : List ℕ) → n.char c input ≡ documented.char c input
  pub take_while1_lem :
      (test : ℕ → Bool) (input : List ℕ)
      → n.take_while1 test input ≡ documented.take_while1 test input
  pub is_a_lem : (cs input : List ℕ) → n.is_a cs input ≡ documented.is_a cs input
  pub opt_lem :
      (A : Type 0) (p : Parser A) (input : List ℕ) → n.opt p input ≡ documented.opt p input
  pub complete_lem :
      (A : Type 0) (p : Parser A) (input : List ℕ)
      → n.complete p input ≡ documented.complete p input
  pub map_lem :
      (A B : Type 0) (p : Parser A) (f : A → B) (input : List ℕ)
      → n.map p f input ≡ documented.map p f input
  pub value_lem :
      (A B : Type 0) (b : B) (p : Parser A) (input : List ℕ)
      → n.value b p input ≡ documented.value b p input
  pub preceded_lem :
      (A B : Type 0) (p : Parser A) (q : Parser B) (input : List ℕ)
      → n.preceded p q input ≡ documented.preceded p q input
  pub alt_lem :
      (A : Type 0) (p : Parser A) (qs : List (Parser A)) (input : List ℕ)
      → n.alt p qs input ≡ documented.alt p qs input
  pub fold_many0_lem :
      (A B : Type 0) (p : Parser A) (b : B) (f : B → A → B) (input : List ℕ)
      → n.fold_many0 p b f input ≡ documented.fold_many0 p b f input
  pub fold_many1_lem :
      (A B : Type 0) (p : Parser A) (b : B) (f : B → A → B) (input : List ℕ)
      → n.fold_many1 p b f input ≡ documented.fold_many1 p b f input

-- So what holds of the documented functions holds of `nom`.
pub documented-path : (n : Nom) → IsDocumented n → n ≡ documented
documented-path n laws = λ i. record {
  is_digit = λ c. laws.is_digit_lem c i;
  tag = λ t input. laws.tag_lem t input i;
  one_of = λ cs input. laws.one_of_lem cs input i;
  char = λ c input. laws.char_lem c input i;
  take_while1 = λ test input. laws.take_while1_lem test input i;
  is_a = λ cs input. laws.is_a_lem cs input i;
  opt = λ {A} p input. laws.opt_lem A p input i;
  complete = λ {A} p input. laws.complete_lem A p input i;
  map = λ {A} {B} p f input. laws.map_lem A B p f input i;
  value = λ {A} {B} b p input. laws.value_lem A B b p input i;
  preceded = λ {A} {B} p q input. laws.preceded_lem A B p q input i;
  alt = λ {A} p qs input. laws.alt_lem A p qs input i;
  fold_many0 = λ {A} {B} p b f input. laws.fold_many0_lem A B p b f input i;
  fold_many1 = λ {A} {B} p b f input. laws.fold_many1_lem A B p b f input i;
}

pub documented-IsDocumented : IsDocumented documented
documented-IsDocumented = record {
  is_digit_lem = λ c. refl;
  tag_lem = λ t input. refl;
  one_of_lem = λ cs input. refl;
  char_lem = λ c input. refl;
  take_while1_lem = λ test input. refl;
  is_a_lem = λ cs input. refl;
  opt_lem = λ A p input. refl;
  complete_lem = λ A p input. refl;
  map_lem = λ A B p f input. refl;
  value_lem = λ A B b p input. refl;
  preceded_lem = λ A B p q input. refl;
  alt_lem = λ A p qs input. refl;
  fold_many0_lem = λ A B p b f input. refl;
  fold_many1_lem = λ A B p b f input. refl;
}
