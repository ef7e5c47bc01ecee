-- ===== src/Net/Wake.antt =====
-- The loop of `src/main.rs` never sleeps on a frame, and polls each frame soon.
use thermostat.Prelude.{
  ℕ, suc, ◌≤◌, ◌≡◌, refl, Bool, true, false, inl, inr, ◌⊎◌, List, [], ◌∷◌, arith,
}
use mathlib.Core.Path.{subst}
use thermostat.Net.{
  Place, clearing, polling, testing, asleep, Link, Event, frame_arrives, other_interrupt, loop_runs,
  woken, advance, happen, happen_all, start_link,
}

-- Frames that no poll has seen have raised the flag, unless a poll comes before the flag is tested.
abbrev pub SeesAt : Place → Link → Type 0
SeesAt clearing l = Unit
SeesAt polling l = Unit
SeesAt testing l = l.flag ≡ false → l.arrived ≡ l.seen
SeesAt asleep l = l.arrived ≡ l.seen

abbrev pub SeesAll : Link → Type 0
SeesAll l = SeesAt l.place l × (l.seen ≤ l.arrived)

happen_at :
    (e : Event) (place : Place) (flag : Bool) (arrived seen : ℕ)
    → SeesAll (record { flag = flag; place = place; arrived = arrived; seen = seen })
    → SeesAll (happen e (record { flag = flag; place = place; arrived = arrived; seen = seen }))
unfolding happen woken advance
happen_at frame_arrives clearing flag a q (s, o) = (tt, omega (arith, o))
happen_at frame_arrives polling flag a q (s, o) = (tt, omega (arith, o))
happen_at frame_arrives testing flag a q (s, o) = ((λ e. absurd (cc)), omega (arith, o))
happen_at frame_arrives asleep flag a q (s, o) = (tt, omega (arith, o))
happen_at other_interrupt clearing flag a q (s, o) = (tt, o)
happen_at other_interrupt polling flag a q (s, o) = (tt, o)
happen_at other_interrupt testing flag a q (s, o) = (s, o)
happen_at other_interrupt asleep flag a q (s, o) = (tt, o)
happen_at loop_runs clearing flag a q (s, o) = (tt, o)
happen_at loop_runs polling flag a q (s, o) = ((λ e. refl), omega arith)
happen_at loop_runs testing true a q (s, o) = (tt, o)
happen_at loop_runs testing false a q (s, o) = (s refl, o)
happen_at loop_runs asleep flag a q (s, o) = (s, o)

-- Every event keeps it.
happen-SeesAll : (e : Event) (l : Link) → SeesAll l → SeesAll (happen e l)
happen-SeesAll e l sees = happen_at e l.place l.flag l.arrived l.seen sees

-- How many steps of the loop there are up to the end of the next poll.
abbrev pub steps_to_poll : Place → ℕ
steps_to_poll polling = 1
steps_to_poll clearing = 2
steps_to_poll testing = 3
steps_to_poll asleep = 0

abbrev pub loop_steps : List Event → ℕ
loop_steps [] = 0
loop_steps (frame_arrives ∷ es) = loop_steps es
loop_steps (other_interrupt ∷ es) = loop_steps es
loop_steps (loop_runs ∷ es) = suc (loop_steps es)

-- The first `k` frames are seen, or will be with so many steps of the loop.
abbrev Due : ℕ → ℕ → Link → Type 0
Due k n l = (k ≤ l.seen) ⊎ ((k ≤ l.arrived) × (steps_to_poll l.place ≤ n))

advance-seen : (place : Place) (l : Link) → l.seen ≤ l.arrived → l.seen ≤ (advance place l).seen
unfolding advance
advance-seen clearing l o = omega arith
advance-seen polling l o = o
advance-seen testing l o = omega arith
advance-seen asleep l o = omega arith

happen-seen : (e : Event) (l : Link) → SeesAll l → l.seen ≤ (happen e l).seen
unfolding happen
happen-seen frame_arrives l (s, o) = omega arith
happen-seen other_interrupt l (s, o) = omega arith
happen-seen loop_runs l (s, o) = advance-seen l.place l o

-- No frame is left where no step is left before the end of the next poll.
none_left :
    (place : Place) (l : Link) (k : ℕ)
    → SeesAt place l
    → k ≤ l.arrived
    → steps_to_poll place ≤ 0
    → k ≤ l.seen
none_left clearing l k s in_time near = absurd (omega (arith, near))
none_left polling l k s in_time near = absurd (omega (arith, near))
none_left testing l k s in_time near = absurd (omega (arith, near))
none_left asleep l k s in_time near = omega (arith, in_time, s)

Due-at :
    (e : Event) (es : List Event) (place : Place) (flag : Bool) (k a q : ℕ)
    → SeesAll (record { flag = flag; place = place; arrived = a; seen = q })
    → k ≤ a
    → steps_to_poll place ≤ loop_steps (e ∷ es)
    → Due k
        (loop_steps es)
        (happen e (record { flag = flag; place = place; arrived = a; seen = q }))
unfolding happen woken advance
Due-at frame_arrives es clearing flag k a q (s, o) in_time near = inr (omega (arith, in_time), near)
Due-at frame_arrives es polling flag k a q (s, o) in_time near = inr (omega (arith, in_time), near)
Due-at frame_arrives es testing flag k a q (s, o) in_time near = inr (omega (arith, in_time), near)
Due-at frame_arrives es asleep flag k a q (s, o) in_time near = inl (omega (arith, in_time, s))
Due-at other_interrupt es clearing flag k a q (s, o) in_time near = inr (in_time, near)
Due-at other_interrupt es polling flag k a q (s, o) in_time near = inr (in_time, near)
Due-at other_interrupt es testing flag k a q (s, o) in_time near = inr (in_time, near)
Due-at other_interrupt es asleep flag k a q (s, o) in_time near = inl (omega (arith, in_time, s))
Due-at loop_runs es clearing flag k a q (s, o) in_time near = inr (in_time, omega (arith, near))
Due-at loop_runs es polling flag k a q (s, o) in_time near = inl in_time
Due-at loop_runs es testing true k a q (s, o) in_time near = inr (in_time, omega (arith, near))
Due-at loop_runs es testing false k a q (s, o) in_time near = inl (omega (arith, in_time, s refl))
Due-at loop_runs es asleep flag k a q (s, o) in_time near = inl (omega (arith, in_time, s))

-- Frames that are due are seen by the end of the events.
Due-seen :
    (es : List Event) (l : Link) (k : ℕ)
    → SeesAll l
    → Due k (loop_steps es) l
    → k ≤ (happen_all es l).seen
unfolding happen_all
Due-seen [] l k sees (inl done) = done
Due-seen [] l k (s, o) (inr (in_time, near)) = none_left l.place l k s in_time near
Due-seen (e ∷ es) l k sees (inl done) =
    Due-seen es (happen e l) k (happen-SeesAll e l sees)
      (inl (omega (arith, done, happen-seen e l sees)))
Due-seen (e ∷ es) l k sees (inr (in_time, near)) =
    Due-seen es (happen e l) k (happen-SeesAll e l sees)
      (Due-at e es l.place l.flag k l.arrived l.seen sees in_time near)

steps_to_poll_le : (place : Place) → steps_to_poll place ≤ 3
steps_to_poll_le clearing = omega arith
steps_to_poll_le polling = omega arith
steps_to_poll_le testing = omega arith
steps_to_poll_le asleep = omega arith

happen_all-SeesAll : (es : List Event) (l : Link) → SeesAll l → SeesAll (happen_all es l)
unfolding happen_all
happen_all-SeesAll [] l sees = sees
happen_all-SeesAll (e ∷ es) l sees = happen_all-SeesAll es (happen e l) (happen-SeesAll e l sees)

start-SeesAll : (es : List Event) → SeesAll (happen_all es start_link)
start-SeesAll es = happen_all-SeesAll es start_link (tt, omega arith)

-- From the start on, in whatever order frames, other interrupts and the steps of the loop come:
-- the frames that have arrived at any point are seen after three more steps of the loop.
pub happen_all_polls :
    (before after : List Event)
    → 3 ≤ loop_steps after
    → (happen_all before start_link).arrived
      ≤ (happen_all after (happen_all before start_link)).seen
happen_all_polls before after enough =
    let l = happen_all before start_link in
    Due-seen after l l.arrived (start-SeesAll before)
      (inr (omega arith, omega (arith, enough, steps_to_poll_le l.place)))

-- From the start on, in whatever order frames, other interrupts and the steps of the loop come:
-- while the processor waits in `wfi`, every frame that has arrived was seen.
asleep_polled :
    (es : List Event)
    → (happen_all es start_link).place ≡ asleep
    → (happen_all es start_link).arrived ≡ (happen_all es start_link).seen
asleep_polled es e = subst (λ place. SeesAt place (happen_all es start_link)) e (start-SeesAll es).0
