-- ===== src/Parse/Safety/Rules.antt =====
-- What a parser over `nom` gives on any bytes, step by step.
use thermostat.Prelude.{
  ℕ, ◌-◌, ◌^◌, ◌<◌, ◌≡◌, sym, Bool, true, Bool-cases, inl, inr, List, [], ◌∷◌, Result, ok, err, ltb,
  bytes, arith,
}
use thermostat.Nom.{
  ErrorKind, IResult, done, failed, incomplete, failure, Parser, Nom, then_on, ◌>>=◌, pure,
}
use mathlib.Core.Path.{subst}
use thermostat.Nom.Documented.{IsDocumented, alternatives, or_else, one, mem}
use thermostat.Parse.{Error, parse_u32, decimal_from, unsigned, channel, end, before_end}

-- Of the value of a result, if it has one.
abbrev pub Of : {A : Type 0} → (A → Type 0) → IResult A → Type 0
Of P (done rest a) = P a
Of P (failed k) = Unit
Of P incomplete = Unit
Of P (failure k) = Unit

-- Whatever the bytes are.
pub record Gives {A : Type 0} (P : A → Type 0) (m : Parser A) : Type 0 where
  pub on : (input : List ℕ) → Of P (m input)

then_on-Of :
    {A B : Type 0} (Q : A → Type 0) (P : B → Type 0) (k : A → Parser B) (r : IResult A)
    → Of Q r
    → ((a : A) → Q a → Gives P (k a))
    → Of P (then_on r k)
then_on-Of Q P k (done rest a) q rule = (rule a q).on rest
then_on-Of Q P k (failed e) q rule = tt
then_on-Of Q P k incomplete q rule = tt
then_on-Of Q P k (failure e) q rule = tt

pub Gives->>= :
    {A B : Type 0} (Q : A → Type 0) (P : B → Type 0) (m : Parser A) (k : A → Parser B)
    → Gives Q m
    → ((a : A) → Q a → Gives P (k a))
    → Gives P (m >>= k)
Gives->>= Q P m k first rule = record {
  on = λ input. then_on-Of Q P k (m input) (first.on input) rule;
}

Of-any : {A : Type 0} (r : IResult A) → Of (λ _. Unit) r
Of-any (done rest a) = tt
Of-any (failed e) = tt
Of-any incomplete = tt
Of-any (failure e) = tt

-- A step whose value does not matter.
pub Gives-skip :
    {A B : Type 0} (P : B → Type 0) (m : Parser A) (k : A → Parser B)
    → ((a : A) → Gives P (k a))
    → Gives P (m >>= k)
Gives-skip P m k rule =
    Gives->>= (λ _. Unit) P m k (record { on = λ input. Of-any (m input) }) (λ a _. rule a)

pub Gives-pure : {A : Type 0} (P : A → Type 0) (a : A) → P a → Gives P (pure a)
Gives-pure P a h = record { on = λ input. h }

-- Each of the alternatives.
abbrev pub AllGive : {A : Type 0} → (A → Type 0) → List (Parser A) → Type 0
AllGive P [] = Unit
AllGive P (q ∷ qs) = Gives P q × AllGive P qs

Of-or_else :
    {A : Type 0} (P : A → Type 0) (r other : IResult A)
    → Of P r
    → Of P other
    → Of P (or_else r other)
Of-or_else P (done rest a) other h g = h
Of-or_else P (failed e) other h g = g
Of-or_else P incomplete other h g = tt
Of-or_else P (failure e) other h g = tt

Of-alternatives :
    {A : Type 0} (P : A → Type 0) (m : Parser A) (qs : List (Parser A)) (input : List ℕ)
    → Gives P m
    → AllGive P qs
    → Of P (alternatives m qs input)
Of-alternatives P m [] input first others = first.on input
Of-alternatives P m (q ∷ qs) input first (h, others) =
    Of-or_else P (m input) (alternatives q qs input) (first.on input)
      (Of-alternatives P q qs input h others)

Of-one :
    (k : ErrorKind) (test : ℕ → Bool) (input : List ℕ) → Of (λ c. test c ≡ true) (one k test input)
Of-one k test [] = tt
Of-one k test (c ∷ rest) = elim (Bool-cases (test c)) [
  | inl passes ↦ rw passes passes
  | inr fails ↦ rw fails tt
]

binary_digit : (c : ℕ) → mem c (bytes "01") ≡ true → c - 48 < 2
binary_digit c h = ground arith

-- A number has 32 bits.
abbrev pub IsU32 : Result ℕ Error → Type 0
IsU32 (ok v) = v < 2 ^ 32
IsU32 (err e) = Unit

parse_u32-IsU32 : (ds : List ℕ) → IsU32 (parse_u32 ds)
unfolding parse_u32
parse_u32-IsU32 ds = elim (Bool-cases (ltb (decimal_from 0 ds) (2 ^ 32))) [
  | inl small ↦ rw small (ground (arith, small))
  | inr large ↦ rw large tt
]

module _ ⦃n : Nom⦄ (laws : IsDocumented n) where
  -- What `end` looks at stays in the input.
  pub Gives-before_end : {A : Type 0} (P : A → Type 0) (a : A) → P a → Gives P (before_end a)
  Gives-before_end P a h = record {
    on = λ input.
        then_on-Of (λ _. Unit) P (λ _ _. done input a) (end input) (Of-any (end input))
          (λ _ _. record { on = λ _. h });
  }

  pub Gives-alt :
      {A : Type 0} (P : A → Type 0) (m : Parser A) (qs : List (Parser A))
      → Gives P m
      → AllGive P qs
      → Gives P (n.alt m qs)
  Gives-alt {A} P m qs first others = record {
    on = λ input.
        subst (Of P) (sym (laws.alt_lem A m qs input)) (Of-alternatives P m qs input first others);
  }

  pub Gives-map :
      {A B : Type 0} (Q : A → Type 0) (P : B → Type 0) (m : Parser A) (f : A → B)
      → Gives Q m
      → ((a : A) → Q a → P (f a))
      → Gives P (n.map m f)
  Gives-map {A} {B} Q P m f first rule = record {
    on = λ input.
        subst (Of P) (sym (laws.map_lem A B m f input)) (
          (Gives->>= Q P m (λ a. pure (f a)) first (λ a q. Gives-pure P (f a) (rule a q))).on
            input);
  }

  pub Gives-value :
      {A B : Type 0} (P : B → Type 0) (b : B) (m : Parser A) → P b → Gives P (n.value b m)
  Gives-value {A} {B} P b m h = record {
    on = λ input.
        subst (Of P) (sym (laws.value_lem A B b m input))
          ((Gives-skip P m (λ _. pure b) (λ _. Gives-pure P b h)).on input);
  }

  pub Gives-preceded :
      {A B : Type 0} (P : B → Type 0) (m : Parser A) (q : Parser B)
      → Gives P q
      → Gives P (n.preceded m q)
  Gives-preceded {A} {B} P m q h = record {
    on = λ input.
        subst (Of P) (sym (laws.preceded_lem A B m q input))
          ((Gives-skip P m (λ _. q) (λ _. h)).on input);
  }

  -- The channel is one of the two.
  pub Gives-channel : Gives (λ i. i < 2) channel
  unfolding channel
  Gives-channel =
      let test = λ (c : ℕ). mem c (bytes "01") in
      Gives-map (λ c. test c ≡ true) (λ i. i < 2) (n.one_of (bytes "01")) (λ c. c - 48)
        (record {
          on = λ input.
              subst (Of (λ c. test c ≡ true)) (sym (laws.one_of_lem (bytes "01") input))
                (Of-one ErrorKind.one_of test input);
        })
        binary_digit

  pub Gives-unsigned : Gives IsU32 unsigned
  unfolding unsigned
  Gives-unsigned =
      Gives-skip IsU32 (n.take_while1 n.is_digit) (λ ds. pure (parse_u32 ds))
        (λ ds. Gives-pure IsU32 (parse_u32 ds) (parse_u32-IsU32 ds))
