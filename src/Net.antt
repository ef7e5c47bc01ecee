-- ===== src/Net.antt =====
-- The pending flag of `src/net.rs`, and how the loop of `src/main.rs` sleeps by it: the loop and the
-- interrupts as interleaved events.
pub mod Wake
use thermostat.Prelude.{ℕ, zero, suc, Bool, true, false, List, [], ◌∷◌, if◌then◌else◌}

-- What `ETH`, `clear_pending` and `is_pending` do to `NET_PENDING`.
abbrev pub raise_pending : Bool → Bool
raise_pending flag = true

abbrev pub clear_pending : Bool → Bool
clear_pending flag = false

abbrev pub is_pending : Bool → Bool
is_pending flag = flag

-- Where the loop is: before `clear_pending`, before `server.poll`, before the test of the flag, or in
-- `wfi`.
pub data Place : Type 0 where
  clearing polling testing asleep : Place

-- The flag, how many frames have arrived, and how many of them had arrived at the last poll.
pub record Link : Type 0 where
  pub flag : Bool
  pub place : Place
  pub arrived : ℕ
  pub seen : ℕ

-- An event: a frame with its interrupt, another interrupt (SysTick or USB), or the next step of the
-- loop. Interrupts are masked while the flag is tested, and one that comes then ends `wfi` at once,
-- so that the test and `wfi` are one step.
pub data Event : Type 0 where
  frame_arrives other_interrupt loop_runs : Event

-- An interrupt wakes the processor.
unfoldable pub woken : Place → Place
woken clearing = clearing
woken polling = polling
woken testing = testing
woken asleep = clearing

unfoldable pub advance : Place → Link → Link
advance clearing l = record l { flag = clear_pending l.flag; place = polling }
advance polling l = record l { seen = l.arrived; place = testing }
advance testing l = record l { place = if is_pending l.flag then clearing else asleep }
advance asleep l = l

unfoldable pub happen : Event → Link → Link
unfolding woken advance
happen frame_arrives l = record l {
  flag = raise_pending l.flag;
  place = woken l.place;
  arrived = suc l.arrived;
}
happen other_interrupt l = record l { place = woken l.place }
happen loop_runs l = advance l.place l

unfoldable pub happen_all : List Event → Link → Link
unfolding happen
happen_all [] l = l
happen_all (e ∷ es) l = happen_all es (happen e l)

-- The loop before its first turn.
abbrev pub start_link : Link
start_link = record { flag = false; place = clearing; arrived = 0; seen = 0 }
