-- ===== src/Timer/Rollover.antt =====
-- detectClockRollover: what counts as the clock running backwards.
use fiber_async.Prelude.{ℕ, ◌+◌, ◌≤◌, ◌<◌, ◌≡◌, ◌↔◌, refl, true, arith, u64_mod}
use fiber_async.Timer.{TimerManager, detect_clock_rollover}

-- From the first hour of the clock on, a rollover is a step back of more than an hour. Before that
-- the unsigned difference wraps, and any step back at all is one. The reading is kept either way.
pub detect_clock_rollover_lem :
    (m : TimerManager) (now : ℕ)
    → m.previous_time < u64_mod
    → ((detect_clock_rollover m now).0.previous_time ≡ now)
      × (3600000 ≤ m.previous_time
          → ((detect_clock_rollover m now).1 ≡ true) ↔ (now + 3600000 < m.previous_time))
      × (m.previous_time < 3600000
          → ((detect_clock_rollover m now).1 ≡ true) ↔ (now < m.previous_time))
unfolding detect_clock_rollover
detect_clock_rollover_lem m now small =
    (refl, λ late. (ground arith, ground arith), λ early. (ground arith, ground arith))
