-- ===== src/Handler/SendLine.antt =====
-- `send_line` of `src/command_handler.rs`, over a TCP socket of smoltcp as a parameter.
use thermostat.Prelude.{
  ℕ, ◌+◌, ◌-◌, ◌≤◌, ◌<◌, ◌≡◌, min, refl, sym, ap, ◌∙◌, Bool, true, false, Option, none, some, List,
  [], ◌∷◌, ◌++◌, ltb, ◌==◌, ==_iff, Bool-cases, inl, inr, if◌then◌else◌, arith, length, take,
  take_all,
}
use mathlib.Core.List.{append_assoc, append-nil}

pub record TcpSocket : Type 1 where
  pub Socket : Type 0
  pub send_capacity : Socket → ℕ
  pub send_queue : Socket → ℕ
  pub send_slice : Socket → List ℕ → Option ℕ × Socket

lt_test : {a b : ℕ} → a < b → ltb a b ≡ true
lt_test h = ground arith

not_lt_test : {a b : ℕ} → b ≤ a → ltb a b ≡ false
not_lt_test h = ground arith

differ_test : {a b : ℕ} → a < b → (a == b) ≡ false
differ_test h = ground arith

==_over : {a b : ℕ} → b < a → (a == b) ≡ false
==_over h = ground arith

min_left : {a b : ℕ} → a ≤ b → min a b ≡ a
min_left h = omega arith

min_right : {a b : ℕ} → b ≤ a → min a b ≡ b
min_right h = omega arith

min_none : {b : ℕ} → b ≡ 0 → min 1 b ≡ 0
min_none h = omega arith

-- The room against the length of a line.
data Fit (room size : ℕ) : Type 0 where
  with_newline : size < room → Fit room size
  exactly : size ≡ room → Fit room size
  one_over : size ≡ room + 1 → Fit room size
  too_long : room + 1 < size → Fit room size

fit : (room size : ℕ) → Fit room size
fit room size = elim (Bool-cases (ltb size room)) [
  | inl t ↦ with_newline (ground arith)
  | inr t ↦ elim (Bool-cases (size == room)) [
    | inl u ↦ exactly ((==_iff _ _).0 u)
    | inr u ↦ elim (Bool-cases (size == (room + 1))) [
      | inl v ↦ one_over ((==_iff _ _).0 v)
      | inr v ↦ too_long (ground arith)
    ]
  ]
]

module _ ⦃t : TcpSocket⦄ where
  -- The arm of the `match` for a slice that was sent: a newline after all of it.
  unfoldable pub after_slice : Option ℕ → ℕ → t.Socket → Bool × t.Socket
  after_slice none size s = (false, s)
  after_slice (some sent) size s =
      if sent == size then (true, (t.send_slice s (10 ∷ [])).1) else (false, s)

  -- `send_line`
  unfoldable pub send_line : t.Socket → List ℕ → Bool × t.Socket
  send_line s line =
      let send_free = t.send_capacity s - t.send_queue s in
      let (r, s') = t.send_slice s line in
      if ltb (send_free + 1) (length line) then (false, s) else after_slice r (length line) s'

  -- What smoltcp documents of an open socket: a slice goes into the buffer as far as there is room,
  -- and the number of bytes taken is returned.
  pub record IsBuffer : Type 1 where
    pub sent : t.Socket → List ℕ
    pub is_open : t.Socket → Type 0
    pub takes :
        (s : t.Socket) (bytes : List ℕ)
        → is_open s
        → let n = min (length bytes) (t.send_capacity s - t.send_queue s) in
          let s' = (t.send_slice s bytes).1 in
          ((t.send_slice s bytes).0 ≡ some n)
          × (sent s' ≡ sent s ++ take n bytes)
          × (t.send_capacity s' - t.send_queue s' ≡ t.send_capacity s - t.send_queue s - n)
          × is_open s'

  -- What `send_line` gives and what of the line has gone out, by the room in the buffer.
  abbrev pub outcome : ℕ → List ℕ → Bool × List ℕ
  outcome room line =
      if ltb (length line) room
      then (true, line ++ 10 ∷ [])
      else if length line == room
      then (true, line)
      else if length line == (room + 1)
      then (false, take room line)
      else (false, [])

  module _ (buffer : IsBuffer) where
    -- The run of `send_line` by its tests and what the first slice gave.
    skipped :
        (s : t.Socket) (line : List ℕ)
        → t.send_capacity s - t.send_queue s + 1 < length line
        → send_line s line ≡ (false, s)
    unfolding send_line
    skipped s line h = rw (lt_test h) refl

    partial :
        (s : t.Socket) (line : List ℕ) (n : ℕ)
        → length line ≤ t.send_capacity s - t.send_queue s + 1
        → (t.send_slice s line).0 ≡ some n
        → n < length line
        → send_line s line ≡ (false, (t.send_slice s line).1)
    unfolding send_line after_slice
    partial s line n h r short = rw (not_lt_test h, r) (rw (differ_test short) refl)

    whole :
        (s : t.Socket) (line : List ℕ) (n : ℕ)
        → length line ≤ t.send_capacity s - t.send_queue s + 1
        → (t.send_slice s line).0 ≡ some n
        → n ≡ length line
        → send_line s line ≡ (true, (t.send_slice (t.send_slice s line).1 (10 ∷ [])).1)
    unfolding send_line after_slice
    whole s line n h r all = rw (not_lt_test h, r) (rw ((==_iff _ _).1 all) refl)

    conclude :
        (s s' : t.Socket) (line out : List ℕ) (b : Bool)
        → send_line s line ≡ (b, s')
        → buffer.sent s' ≡ buffer.sent s ++ out
        → outcome (t.send_capacity s - t.send_queue s) line ≡ (b, out)
        → ((send_line s line).0 ≡ (outcome (t.send_capacity s - t.send_queue s) line).0)
          × (buffer.sent (send_line s line).1
              ≡ buffer.sent s ++ (outcome (t.send_capacity s - t.send_queue s) line).1)
    conclude s s' line out b run e o = (
      ap (λ q. q.0) run ∙ sym (ap (λ q. q.0) o),
      ap (λ q. buffer.sent q.1) run ∙ e ∙ ap (λ q. buffer.sent s ++ q.1) (sym o),
    )

    -- The newline after a line that went out whole, if there is room left for it.
    newline :
        (s s₁ : t.Socket) (line out : List ℕ) (room : ℕ)
        → buffer.is_open s₁
        → buffer.sent s₁ ≡ buffer.sent s ++ line
        → t.send_capacity s₁ - t.send_queue s₁ ≡ room
        → line ++ take (min 1 room) (10 ∷ []) ≡ out
        → buffer.sent (t.send_slice s₁ (10 ∷ [])).1 ≡ buffer.sent s ++ out
    newline s s₁ line out room o went left e =
        (buffer.takes s₁ (10 ∷ []) o).1
        ∙ ap (λ q. q ++ take (min 1 (t.send_capacity s₁ - t.send_queue s₁)) (10 ∷ [])) went
        ∙ ap (λ q. (buffer.sent s ++ line) ++ take (min 1 q) (10 ∷ [])) left
        ∙ append_assoc (buffer.sent s) line (take (min 1 room) (10 ∷ []))
        ∙ ap (λ q. buffer.sent s ++ q) e

    -- On an open socket that takes bytes as far as there is room: a line with room for its newline is
    -- sent with it; a line that fills the room goes out without a newline, and that counts as success;
    -- a line one byte longer is cut off and fails; a longer one is not sent at all.
    pub send_line_lem :
        (s : t.Socket) (line : List ℕ)
        → buffer.is_open s
        → let room = t.send_capacity s - t.send_queue s in
          ((send_line s line).0 ≡ (outcome room line).0)
          × (buffer.sent (send_line s line).1 ≡ buffer.sent s ++ (outcome room line).1)
    send_line_lem s line o =
        let (r, went, left, o') = buffer.takes s line o in
        let room = t.send_capacity s - t.send_queue s in
        let s₁ = (t.send_slice s line).1 in
        elim (fit room (length line)) [
          | with_newline h ↦
              conclude s _ line _ true (whole s line _ (omega arith) r (omega arith))
                (newline s s₁ line _ _ o'
                  (went ∙ ap (λ q. buffer.sent s ++ q) (take_all _ line (omega arith))) left
                  (ap (λ q. line ++ take q (10 ∷ [])) (min_left (omega arith))))
                (rw (lt_test h) refl)
          | exactly h ↦
              conclude s _ line _ true (whole s line _ (omega arith) r (omega arith))
                (newline s s₁ line _ _ o'
                  (went ∙ ap (λ q. buffer.sent s ++ q) (take_all _ line (omega arith))) left
                  (ap (λ q. line ++ take q (10 ∷ [])) (min_none (omega arith)) ∙ append-nil line))
                (rw
                  (
                    not_lt_test {a = length line} {b = room} (omega arith),
                    (==_iff (length line) room).1 h,
                  )
                  refl)
          | one_over h ↦
              conclude s _ line _ false (partial s line _ (omega arith) r (omega arith))
                (went ∙ ap (λ q. buffer.sent s ++ take q line) (min_right (omega arith)))
                (rw
                  (
                    not_lt_test {a = length line} {b = room} (omega arith),
                    ==_over {a = length line} {b = room} (omega arith),
                    (==_iff (length line) (room + 1)).1 h,
                  )
                  refl)
          | too_long h ↦ conclude s s line [] false (skipped s line h) (sym (append-nil _)) (
              rw
                (
                  not_lt_test {a = length line} {b = room} (omega arith),
                  ==_over {a = length line} {b = room} (omega arith),
                  ==_over h,
                )
                refl)
        ]
