-- ===== src/Session/Refine.antt =====
-- What the line reader of `src/session.rs` promises: a line of at most 64 bytes, kept abstractly.
use thermostat.Prelude.{
  ℕ, ◌+◌, ◌≤◌, ◌<◌, ◌≡◌, refl, Option, none, some, List, [], ◌∷◌, ◌++◌, arith, ltb, if◌then◌else◌,
  length, take, set, length-set, length-take, take-set,
}
use native.Mathlib.Numerals.{add-one}
use thermostat.Session.{LineReader, max_line_len, new_reader, feed_byte, is_enter}

-- The array of the reader has its size, and the position is in it or just past it.
pub record IsValid (r : LineReader) : Type 0 where
  pub sized : length r.buf ≡ max_line_len
  pub within : r.pos ≤ max_line_len

-- The line entered so far.
abbrev pub content : LineReader → List ℕ
content r = take r.pos r.buf

-- The specification: an enter ends a line that is not empty, any other byte is appended while there
-- is room.
abbrev pub spec : List ℕ → ℕ → Option (List ℕ) × List ℕ
spec l c =
    if is_enter c
    then (if ltb 0 (length l) then (some l, []) else (none, []))
    else (if ltb (length l) max_line_len then (none, l ++ c ∷ []) else (none, l))

pub new_reader-IsValid : IsValid new_reader
unfolding new_reader
new_reader-IsValid = record { sized = refl; within = omega arith }

-- Whatever byte comes, a valid reader stays valid: its array keeps its 64 bytes, and its position
-- stays in it or just past it.
pub feed_byte-IsValid : (r : LineReader) (c : ℕ) → IsValid r → IsValid (feed_byte r c).1
unfolding feed_byte
feed_byte-IsValid r c v = ground (arith, length-set r.buf r.pos c)

length-content : (r : LineReader) → IsValid r → length (content r) ≡ r.pos
length-content r v = omega (arith, length-take r.pos r.buf, v.sized, v.within)

pub length-content-le : (r : LineReader) → IsValid r → length (content r) ≤ max_line_len
length-content-le r v = omega (arith, length-content r v, v.within)

take-suc_set :
    (r : LineReader) (c : ℕ)
    → r.pos < length r.buf
    → take (r.pos + 1) (set r.buf r.pos c) ≡ content r ++ c ∷ []
take-suc_set r c h = rw add-one (take-set r.buf r.pos c h)

-- Of a valid reader the byte step refines the specification: it gives the same line, and what it
-- keeps is what the specification keeps.
pub feed_byte-refines :
    (r : LineReader) (c : ℕ)
    → IsValid r
    → ((feed_byte r c).0 ≡ (spec (content r) c).0)
      × (content (feed_byte r c).1 ≡ (spec (content r) c).1)
unfolding feed_byte
feed_byte-refines r c v = ground (arith, length-content r v, take-suc_set r c)
