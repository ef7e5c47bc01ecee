-- ===== src/Session.antt =====
-- `src/session.rs`: the line reader and the session that feeds it, over any parser of lines.
-- Bytes are numbers. A method with `&mut self` returns its result with the new state.
pub mod Refine
pub mod Feed
use thermostat.Prelude.{
  ℕ, suc, ◌+◌, ◌≡◌, Bool, true, false, ◌||◌, Option, none, some, List, [], ◌∷◌, ltb, ◌==◌,
  if◌then◌else◌, length, set, take, replicate, Result, ok, err,
}

abbrev pub max_line_len : ℕ
max_line_len = 64

pub record LineReader : Type 0 where
  pub buf : List ℕ
  pub pos : ℕ

-- `LineReader::new`
unfoldable pub new_reader : LineReader
new_reader = record { buf = replicate max_line_len 0; pos = 0 }

-- `c == 13 || c == 10`
unfoldable pub is_enter : ℕ → Bool
is_enter c = c == 13 || c == 10

-- `LineReader::feed`: the completed line, if the byte completes one, and the reader after it.
unfoldable pub feed_byte : LineReader → ℕ → Option (List ℕ) × LineReader
feed_byte r c =
    if is_enter c
    then (if ltb 0 r.pos then (some (take r.pos r.buf), record r { pos = 0 }) else (none, r))
    else (if ltb r.pos (length r.buf)
        then (none, record r { buf = set r.buf r.pos c; pos = r.pos + 1 })
        else (none, r))

pub data SessionInput (C E : Type 0) : Type 0 where
  nothing : SessionInput C E
  command : C → SessionInput C E
  error : E → SessionInput C E

-- `From<Result<Command, ParserError>> for SessionInput`
abbrev pub from_result : {C E : Type 0} → Result C E → SessionInput C E
from_result (ok c) = command c
from_result (err e) = error e

pub record Session : Type 0 where
  pub reader : LineReader

-- `Session::new`
unfoldable pub new_session : Session
new_session = record { reader = new_reader }

-- `Session::reset`
unfoldable pub reset : Session → Session
reset s = record s { reader = new_reader }

module _ {C E : Type 0} (parse : List ℕ → Result C E) where
  -- The loop of `Session::feed` over the bytes from index `i` on: the number of bytes consumed, what
  -- they make, and the reader.
  unfoldable pub feed_from : LineReader → ℕ → List ℕ → ℕ × SessionInput C E × LineReader
  feed_from r i [] = (i, nothing, r)
  feed_from r i (b ∷ bs) =
      let (line, r') = feed_byte r b in
      elim line [ some l ↦ (i + 1, from_result (parse l), r') | none ↦ feed_from r' (i + 1) bs ]

  -- `Session::feed`
  unfoldable pub feed : Session → List ℕ → ℕ × SessionInput C E × Session
  feed s bs = let (n, input, r) = feed_from s.reader 0 bs in (n, input, record s { reader = r })
