-- ===== src/Tests/Timing.antt =====
-- The timer, and the events around the network, at concrete inputs.
use thermostat.Prelude.{ℕ, ◌+◌, ◌*◌, ◌^◌, ◌-◌, ◌≤◌, ◌<◌, ◌≡◌, refl, some, List, [], ◌∷◌, arith}
use thermostat.Timer.{sleep}
use thermostat.Timer.Sleep.{sleep_ends}
use thermostat.Net.{frame_arrives, other_interrupt, loop_runs, happen_all, start_link, Event}
use thermostat.Net.Wake.{happen_all_polls}

-- One interrupt a pass, from two milliseconds before the count wraps around.
sleep_ends_example :
    (q : ℕ) × (sleep 3 (2 ^ 32 - 2) 1 (λ pass. pass) ≡ some q) × (1 < 2 * q) × (2 * q ≤ 1 + 2)
sleep_ends_example =
    sleep_ends (2 ^ 32 - 2) 1 (λ pass. pass) (omega arith) (omega arith) (λ pass. omega arith) 2
      refl (omega arith)

-- A frame comes between the poll and the test of the flag.
abbrev late_frame : List Event
late_frame = loop_runs ∷ loop_runs ∷ frame_arrives ∷ []

abbrev three_steps : List Event
three_steps = loop_runs ∷ loop_runs ∷ other_interrupt ∷ loop_runs ∷ []

happen_all_polls_example :
    (happen_all late_frame start_link).arrived
    ≤ (happen_all three_steps (happen_all late_frame start_link)).seen
happen_all_polls_example = happen_all_polls late_frame three_steps (omega arith)
