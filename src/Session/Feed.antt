-- ===== src/Session/Feed.antt =====
-- What `Session::feed` of `src/session.rs` makes of the bytes that a socket holds.
use thermostat.Prelude.{
  ℕ, ◌+◌, ◌≤◌, ◌<◌, ◌≡◌, ◌∙◌, refl, sym, ap, true, false, none, some, List, [], ◌∷◌, ◌++◌, arith,
  ltb, if◌then◌else◌, length, take, All, length-take, take_all, take-append_full, Result,
  Bool-cases, inl, inr,
}
use mathlib.Core.List.{append_assoc, append-nil}
use thermostat.Session.{
  LineReader, max_line_len, feed_byte, is_enter, SessionInput, nothing, from_result, Session,
  feed_from, feed,
}
use thermostat.Session.Refine.{
  IsValid, content, feed_byte-IsValid, feed_byte-refines, length-content-le,
}

-- None of the bytes ends a line.
abbrev pub IsPlain : List ℕ → Type 0
IsPlain = All λ c. is_enter c ≡ false

-- The reader after bytes whose lines, if any, are dropped.
absorb : LineReader → List ℕ → LineReader
absorb r [] = r
absorb r (b ∷ bs) = absorb (feed_byte r b).1 bs

absorb-IsValid : (r : LineReader) (bs : List ℕ) → IsValid r → IsValid (absorb r bs)
unfolding absorb
absorb-IsValid r [] v = v
absorb-IsValid r (b ∷ bs) v = absorb-IsValid (feed_byte r b).1 bs (feed_byte-IsValid r b v)

-- A byte that ends no line yields none, and is kept if the line has room.
plain_step :
    (r : LineReader) (c : ℕ)
    → IsValid r
    → is_enter c ≡ false
    → ((feed_byte r c).0 ≡ none)
      × (content (feed_byte r c).1
          ≡ (if ltb (length (content r)) max_line_len then content r ++ c ∷ [] else content r))
plain_step r c v p = ground (arith, feed_byte-refines r c v)

take-append_step :
    (l : List ℕ) (c : ℕ) (bs : List ℕ)
    → length l ≤ max_line_len
    → take max_line_len ((if ltb (length l) max_line_len then l ++ c ∷ [] else l) ++ bs)
      ≡ take max_line_len (l ++ c ∷ bs)
take-append_step l c bs h = elim (Bool-cases (ltb (length l) max_line_len)) [
  | inl room ↦ rw room (rw append_assoc refl)
  | inr full ↦ rw full (
      take-append_full max_line_len l bs (ground arith)
      ∙ sym (take-append_full max_line_len l (c ∷ bs) (ground arith)))
]

content-absorb :
    (r : LineReader) (bs : List ℕ)
    → IsValid r
    → IsPlain bs
    → content (absorb r bs) ≡ take max_line_len (content r ++ bs)
unfolding absorb
content-absorb r [] v p =
    rw append-nil (sym (take_all max_line_len (content r) (length-content-le r v)))
content-absorb r (b ∷ bs) v p =
    content-absorb (feed_byte r b).1 bs (feed_byte-IsValid r b v) p.1
    ∙ rw ((plain_step r b v p.0).1) (take-append_step (content r) b bs (length-content-le r v))

enter_step :
    (r : LineReader) (c : ℕ)
    → IsValid r
    → is_enter c ≡ true
    → 0 < length (content r)
    → ((feed_byte r c).0 ≡ some (content r)) × (content (feed_byte r c).1 ≡ [])
enter_step r c v e h = ground (arith, feed_byte-refines r c v)

length-take_pos : (n : ℕ) (l : List ℕ) → 0 < n → 0 < length l → 0 < length (take n l)
length-take_pos n l p q = omega (arith, length-take n l)

abbrev feed_result :
    {C E : Type 0} → Session → ℕ × SessionInput C E × LineReader → ℕ × SessionInput C E × Session
feed_result s t = (t.0, t.1, record s { reader = t.2 })

module _ {C E : Type 0} (parse : List ℕ → Result C E) where
  feed_from-plain :
      (r : LineReader) (i : ℕ) (pre rest : List ℕ)
      → IsValid r
      → IsPlain pre
      → feed_from parse r i (pre ++ rest) ≡ feed_from parse (absorb r pre) (i + length pre) rest
  unfolding feed_from absorb
  feed_from-plain r i [] rest v p = ap (λ k. feed_from parse r k rest) (omega arith)
  feed_from-plain r i (b ∷ bs) rest v p =
      rw ((plain_step r b v p.0).0, feed_from)
        (feed_from-plain (feed_byte r b).1 (i + 1) bs rest (feed_byte-IsValid r b v) p.1
          ∙ ap (λ k. feed_from parse (absorb (feed_byte r b).1 bs) k rest) (omega arith))

  -- The index only counts.
  feed_from_shift :
      (r : LineReader) (i : ℕ) (bs : List ℕ)
      → let (n, input, r') = feed_from parse r 0 bs in feed_from parse r i bs ≡ (i + n, input, r')
  unfolding feed_from
  feed_from_shift r i [] = ground arith
  feed_from_shift r i (b ∷ bs) = ground (
    arith,
    feed_from_shift (feed_byte r b).1 (i + 1) bs,
    feed_from_shift (feed_byte r b).1 (0 + 1) bs,
  )

  feed_from_partial :
      (r : LineReader) (bs : List ℕ)
      → IsValid r
      → IsPlain bs
      → feed_from parse r 0 bs ≡ (length bs, nothing, absorb r bs)
  unfolding feed_from
  feed_from_partial r bs v p =
      ap (feed_from parse r 0) (sym (append-nil bs))
      ∙ feed_from-plain r 0 bs [] v p
      ∙ ap (λ (k : ℕ). (k, nothing, absorb r bs)) (omega arith)

  feed_from_line :
      (r : LineReader) (pre rest : List ℕ) (c : ℕ)
      → IsValid r
      → IsPlain pre
      → (feed_byte (absorb r pre) c).0 ≡ some (content (absorb r pre))
      → feed_from parse r 0 (pre ++ c ∷ rest) ≡ (
        length pre + 1,
        from_result (parse (content (absorb r pre))),
        (feed_byte (absorb r pre) c).1,
      )
  unfolding feed_from
  feed_from_line r pre rest c v p e = feed_from-plain r 0 pre (c ∷ rest) v p ∙ ground arith

  -- With a valid reader, bytes that end no line are all consumed, make no command, and are
  -- appended to the line up to its 64 bytes; the reader stays valid.
  feed_partial :
      (s : Session) (bs : List ℕ)
      → IsValid s.reader
      → IsPlain bs
      → let (n, input, s') = feed parse s bs in
        (n ≡ length bs)
        × (input ≡ nothing)
        × (content s'.reader ≡ take max_line_len (content s.reader ++ bs))
        × IsValid s'.reader
  unfolding feed feed_from
  feed_partial s bs v p =
      rw (feed_from_partial s.reader bs v p)
        (refl, refl, content-absorb s.reader bs v p, absorb-IsValid s.reader bs v)

  -- With a valid reader, the first enter after a line that is not empty ends it: the bytes up to
  -- and with the enter are consumed, the input is what the parser makes of the line cut to 64
  -- bytes, and the next line starts empty in a valid reader.
  pub feed_line :
      (s : Session) (pre rest : List ℕ) (c : ℕ)
      → IsValid s.reader
      → IsPlain pre
      → is_enter c ≡ true
      → 0 < length (content s.reader ++ pre)
      → let (n, input, s') = feed parse s (pre ++ c ∷ rest) in
        (n ≡ length pre + 1)
        × (input ≡ from_result (parse (take max_line_len (content s.reader ++ pre))))
        × (content s'.reader ≡ [])
        × IsValid s'.reader
  unfolding feed feed_from
  feed_line s pre rest c v p e h =
      let line = content-absorb s.reader pre v p in
      let ready = absorb-IsValid s.reader pre v in
      let some_byte : 0 < length (content (absorb s.reader pre)) =
        rw line (length-take_pos max_line_len (content s.reader ++ pre) (omega arith) h) in
      let step = enter_step (absorb s.reader pre) c ready e some_byte in
      rw (feed_from_line s.reader pre rest c v p step.0)
        (refl, ap (λ l. from_result (parse l)) line, step.1, feed_byte-IsValid _ c ready)

  -- With a valid reader, bytes that arrive in two pieces, the first of which ends no line, are
  -- read as if they came in one: the same count, the same input and the same session.
  pub feed_split :
      (s : Session) (pre rest : List ℕ)
      → IsValid s.reader
      → IsPlain pre
      → let (k, _, s₁) = feed parse s pre in
        let (n, input, s₂) = feed parse s₁ rest in feed parse s (pre ++ rest) ≡ (k + n, input, s₂)
  unfolding feed feed_from
  feed_split s pre rest v p =
      let r = absorb s.reader pre in
      let pack = λ (t : ℕ × SessionInput C E × LineReader). feed_result s t in
      rw (feed_from_partial s.reader pre v p) (
        ap pack (
          feed_from-plain s.reader 0 pre rest v p
          ∙ ap (λ k. feed_from parse r k rest) (omega arith)
          ∙ feed_from_shift r (length pre) rest))
