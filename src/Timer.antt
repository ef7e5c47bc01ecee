-- ===== src/Timer.antt =====
-- `src/timer.rs`: the milliseconds that the SysTick interrupt counts, in 32 bits, and `sleep`.
pub mod Sleep
use thermostat.Prelude.{
  ℕ, zero, suc, ◌+◌, ◌-◌, ◌*◌, ◌/◌, ◌%◌, ◌^◌, Bool, true, false, Option, none, some, leb,
  if◌then◌else◌,
}

-- `TIMER_RATE` and `TIMER_DELTA`
abbrev pub timer_rate : ℕ
timer_rate = 500

abbrev pub timer_delta : ℕ
timer_delta = 1000 / timer_rate

-- `SysTick`: one interrupt; the addition wraps around.
unfoldable pub sys_tick : ℕ → ℕ
sys_tick ms = (ms + timer_delta) % 2 ^ 32

-- `now` after so many interrupts.
unfoldable pub now : ℕ → ℕ → ℕ
unfolding sys_tick
now ms zero = ms
now ms (suc n) = sys_tick (now ms n)

-- `now() - start`, which wraps around as well.
abbrev pub wrapping_sub : ℕ → ℕ → ℕ
wrapping_sub x y = (x + 2 ^ 32 - y) % 2 ^ 32

-- `while now() - start <= amount {}`: the test of each pass reads the timer after `ticks` of that pass
-- interrupts. It gives the pass that ends the loop, or nothing when the fuel is out.
unfoldable pub wait_from : ℕ → ℕ → ℕ → (ℕ → ℕ) → ℕ → Option ℕ
unfolding now
wait_from zero start amount ticks pass = none
wait_from (suc fuel) start amount ticks pass =
    let later = wait_from fuel start amount ticks (suc pass) in
    if leb (wrapping_sub (now start (ticks pass)) start) amount then later else some pass

-- `sleep`, which reads `start` first.
unfoldable pub sleep : ℕ → ℕ → ℕ → (ℕ → ℕ) → Option ℕ
unfolding wait_from
sleep fuel start amount ticks = wait_from fuel start amount ticks 0
