-- ===== src/Timer/Sleep.antt =====
-- `sleep` of `src/timer.rs` ends, and how long it takes.
use thermostat.Prelude.{
  ℕ, zero, suc, ◌+◌, ◌-◌, ◌*◌, ◌%◌, ◌^◌, ◌≤◌, ◌<◌, ◌≡◌, refl, some, leb, Bool-cases, inl, inr,
  arith,
}
use mathlib.Core.Path.{subst}
use thermostat.Timer.{sys_tick, now, wrapping_sub, wait_from, sleep}

-- The milliseconds after `n` interrupts.
now_sum : (ms n : ℕ) → ms < 2 ^ 32 → now ms n ≡ (ms + 2 * n) % 2 ^ 32
unfolding now sys_tick
now_sum ms zero small = omega (arith, small)
now_sum ms (suc n) small = omega (arith, now_sum ms n small)

-- What has passed since the start, whether or not the count wrapped around meanwhile.
elapsed : (start n : ℕ) → start < 2 ^ 32 → 2 * n < 2 ^ 32 → wrapping_sub (now start n) start ≡ 2 * n
elapsed start n small short = omega (arith, now_sum start n small)

module _ (start amount : ℕ) (ticks : ℕ → ℕ) (small : start < 2 ^ 32) (short : amount < 2 ^ 32 - 2)
    (slow : (pass : ℕ) → ticks (suc pass) ≤ ticks pass + 1) where
  reads :
      (pass : ℕ)
      → 2 * ticks pass ≤ amount + 2
      → wrapping_sub (now start (ticks pass)) start ≡ 2 * ticks pass
  reads pass near = elapsed start (ticks pass) small (omega (arith, near, short))

  -- How a loop ends: at the first pass that finds more than the amount, by less than three.
  abbrev EndsFrom : ℕ → ℕ → Type 0
  EndsFrom fuel pass =
      (q : ℕ) × (wait_from fuel start amount ticks pass ≡ some q)
      × (amount < 2 * ticks q)
      × (2 * ticks q ≤ amount + 2)

  wait_from_ends :
      (fuel pass : ℕ)
      → 2 * ticks pass ≤ amount + 2
      → amount < 2 * ticks (pass + fuel)
      → EndsFrom (suc fuel) pass
  unfolding wait_from
  wait_from_ends zero pass near late =
      let enough : amount < 2 * ticks pass = subst (λ k. amount < 2 * ticks k) (omega arith) late in
      (pass, rw (reads pass near) (ground (arith, enough)), enough, near)
  wait_from_ends (suc fuel) pass near late = elim (Bool-cases (leb (2 * ticks pass) amount)) [
    | inl waits ↦
        let (q, run, over, close) =
          wait_from_ends fuel (suc pass) (ground (arith, slow pass, waits))
            (subst (λ k. amount < 2 * ticks k) (omega arith) late) in
        (q, rw (reads pass near, waits) run, over, close)
    | inr ends ↦ (pass, rw (reads pass near, ends) refl, ground (arith, ends), near)
  ]

  -- `sleep` from any time on, before or after the count wraps around, of less than 2^32 - 2
  -- milliseconds, in a processor that tests the time at least once in an interrupt's interval: with
  -- fuel for the first pass that is late enough, the loop ends, and it ends at a pass after
  -- more than the amount of milliseconds and at most two more.
  pub sleep_ends :
      (fuel : ℕ)
      → ticks 0 ≡ 0
      → amount < 2 * ticks fuel
      → (q : ℕ) × (sleep (suc fuel) start amount ticks ≡ some q)
        × (amount < 2 * ticks q)
        × (2 * ticks q ≤ amount + 2)
  unfolding sleep
  sleep_ends fuel first late =
      wait_from_ends fuel 0 (omega (arith, first))
        (subst (λ k. amount < 2 * ticks k) (omega arith) late)
