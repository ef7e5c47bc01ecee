-- ===== src/Parse/Syntax/Trails.antt =====
-- What the parsers of `src/command_parser.rs` make of the blanks behind a line.
use thermostat.Prelude.{
  ℕ, zero, suc, ◌≤◌, ◌≡◌, refl, ap, ◌∙◌, Bool, true, false, none, List, [], Bool-cases, inl, inr,
  ◌∷◌, arith, ltb, ◌==◌, if◌then◌else◌, length, bytes,
}
use thermostat.Nom.{ErrorKind, done, failed, Parser, ◌>>=◌, then_on, pure}
use thermostat.Nom.Documented.{
  documented, digit, mem, span, many, some_of, complete_result, more_of, tag_result, strip,
}
use thermostat.Parse.{end, whitespace, unsigned, channel, no_result, parse_u32}
use thermostat.Parse.Words.{IsTrail}
use thermostat.Parse.Syntax.Tokens.{lt_next, StopsAt, at_then, at_alt}

-- Only blanks and line ends are left.
pub end-trail : (t : List ℕ) → IsTrail t → end t ≡ done [] tt
unfolding end
end-trail t h = ap complete_result (many-trail (length t) t (omega arith) h)
  where
    many-trail :
        (n : ℕ) (t : List ℕ)
        → length t ≤ n
        → IsTrail t
        → many n (documented.one_of (bytes "\r\n\t ")) tt no_result t ≡ done [] tt
    many-trail zero [] l h = refl
    many-trail (suc n) [] l h = refl
    many-trail zero (c ∷ t) l h = absurd (omega arith)
    many-trail (suc n) (c ∷ t) l (h, hs) =
        rw (h, many) (rw (lt_next (length t), many) (many-trail n t (omega arith) hs))

-- The parser fails with an error, so that the next alternative is tried.
abbrev pub Fails : {A : Type 0} → Parser A → List ℕ → Type 0
Fails p input = (k : ErrorKind) × (p input ≡ failed k)

-- The blanks at the head of a trail leave a trail.
many-blanks :
    (n : ℕ) (t : List ℕ)
    → length t ≤ n
    → IsTrail t
    → (t' : List ℕ) × IsTrail t' × (many n (documented.char b' ') tt no_result t ≡ done t' tt)
many-blanks zero [] l h = ([], tt, refl)
many-blanks (suc n) [] l h = ([], tt, refl)
many-blanks zero (c ∷ t) l h = absurd (omega arith)
many-blanks (suc n) (c ∷ t) l (h, hs) = elim (Bool-cases (c == b' ')) [
  | inl e ↦
      let (t', h', run) = many-blanks n t (omega arith) hs in
      (t', h', rw (e, many) (rw (lt_next (length t), many) run))
  | inr e ↦ (c ∷ t, (h, hs), rw (e, many) refl)
]

whitespace-nil : whitespace [] ≡ failed ErrorKind.many1
unfolding whitespace
whitespace-nil = refl

whitespace-head :
    (c : ℕ) (t : List ℕ)
    → whitespace (c ∷ t)
      ≡ more_of
          (documented.char b' ')
          tt
          no_result
          (if c == b' ' then done t c else failed ErrorKind.char)
unfolding whitespace
whitespace-head c t = refl

-- In a trail there is no further word.
whitespace-trail :
    {A : Type 0} (p : Parser A) (t : List ℕ)
    → ((t' : List ℕ) → IsTrail t' → Fails p t')
    → IsTrail t
    → Fails (whitespace >>= λ _. p) t
whitespace-trail p [] fails h = no_word
  where
    no_word : Fails (whitespace >>= λ _. p) []
    no_word = (ErrorKind.many1, ap (λ r. then_on r (λ _. p)) whitespace-nil)
whitespace-trail p (c ∷ t) fails (h, hs) = elim (Bool-cases (c == b' ')) [
  | inl e ↦
      let (t', h', run) = many-blanks (length t) t (omega arith) hs in
      let (k, fail) = fails t' h' in (k, ap (λ r. then_on r (λ _. p)) (blank_run e ∙ run) ∙ fail)
  | inr e ↦ (ErrorKind.many1, ap (λ r. then_on r (λ _. p)) (blank_run e))
]
  where
    blank_run :
        {b : Bool}
        → (c == b' ') ≡ b
        → whitespace (c ∷ t)
          ≡ more_of
              (documented.char b' ')
              tt
              no_result
              (if b then done t c else failed ErrorKind.char)
    blank_run e =
        whitespace-head c t
        ∙ ap
            (λ b.
              more_of (documented.char b' ') tt no_result
                (if b then done t c else failed ErrorKind.char))
            e

pub channel-trail : (t : List ℕ) → IsTrail t → Fails channel t
unfolding channel
channel-trail [] h = (_, refl)
channel-trail (c ∷ t) (h, hs) = (ErrorKind.one_of, rw (not_channel c h) refl)
  where
    not_channel : (c : ℕ) → mem c (bytes "\r\n\t ") ≡ true → mem c (bytes "01") ≡ false
    not_channel c h = ground arith

pub Fails->>= :
    {A B : Type 0} (p : Parser A) (q : A → Parser B) (t : List ℕ) → Fails p t → Fails (p >>= q) t
Fails->>= p q t (k, e) = (k, at_then q e)

not_digit : (c : ℕ) → mem c (bytes "\r\n\t ") ≡ true → digit c ≡ false
not_digit c h = ground arith

pub trail-stops : (t : List ℕ) → IsTrail t → StopsAt digit t
trail-stops [] h = tt
trail-stops (c ∷ t) (h, hs) = not_digit c h

pub unsigned-trail : (t : List ℕ) → IsTrail t → Fails unsigned t
unfolding unsigned
unsigned-trail [] h = (_, refl)
unsigned-trail (c ∷ t) (h, hs) = (
  ErrorKind.take_while1,
  ap
      (λ b.
        then_on
          (some_of ErrorKind.take_while1
            (if b then (c ∷ (span digit t).0, (span digit t).1) else ([], c ∷ t)))
          (λ ds. pure (parse_u32 ds)))
      (not_digit c h),
)

pub tag-trail :
    (w : ℕ) (ws t : List ℕ) → ltb w b'a' ≡ false → IsTrail t → Fails (documented.tag (w ∷ ws)) t
tag-trail w ws [] l h = (_, refl)
tag-trail w ws (c ∷ t) l (h, hs) =
    (ErrorKind.tag, ap (λ b. tag_result (w ∷ ws) (if b then strip ws t else none)) (letter w c l h))
  where
    letter : (w c : ℕ) → ltb w b'a' ≡ false → mem c (bytes "\r\n\t ") ≡ true → (w == c) ≡ false
    letter w c l h = ground arith

-- Where a word may follow and none does, the second form of a command is read.
pub bare_read :
    {A : Type 0} (p : Parser A) (a : A) (t : List ℕ)
    → ((t' : List ℕ) → IsTrail t' → Fails p t')
    → IsTrail t
    → documented.alt (whitespace >>= λ _. p) (documented.value a end ∷ []) t ≡ done [] a
bare_read p a t fails h =
    let (k, e) = whitespace-trail p t fails h in
    at_alt (then_on (end t) (λ _. pure a)) e ∙ at_then _ (end-trail t h)
