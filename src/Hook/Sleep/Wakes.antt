-- ===== src/Hook/Sleep/Wakes.antt =====
-- For which arguments the time that sleep, usleep and nanosleep wait is not the time asked for.
use fiber_async.Prelude.{ℕ, ◌+◌, ◌*◌, ◌/◌, ◌^◌, ◌≤◌, ◌<◌, ◌≡◌, ◌↔◌, arith, u32_mod, u64_mod, add64}
use fiber_async.Hook.Sleep.{sleep_ms, usleep_ms, nanosleep_ms}

pub sleep_ms_lem : (seconds : ℕ) → seconds * 1000 < u32_mod → sleep_ms seconds ≡ seconds * 1000
unfolding sleep_ms
sleep_ms_lem seconds h = omega arith

pub nanosleep_ms_lem :
    (tv_sec tv_nsec : ℕ)
    → tv_sec * 1000 + tv_nsec / 1000000 < 2 ^ 31
    → nanosleep_ms tv_sec tv_nsec ≡ tv_sec * 1000 + tv_nsec / 1000000
unfolding nanosleep_ms
nanosleep_ms_lem tv_sec tv_nsec h = ground arith

-- Where the arithmetic wraps: `sleep` for 4294968 seconds or more sleeps less than it is told to;
-- `usleep` drops what is less than a millisecond; and `nanosleep` for a time of 2^31 ms or more but
-- less than 2^32 is due before it is called, once the clock has that difference to give.
pub sleep_wraps :
    (seconds usec tv_sec tv_nsec now : ℕ)
    → ((sleep_ms seconds < seconds * 1000) ↔ (4294967 < seconds))
      × (usleep_ms usec * 1000 ≤ usec)
      × (usec < usleep_ms usec * 1000 + 1000)
      × (2 ^ 31 ≤ tv_sec * 1000 + tv_nsec / 1000000
          → tv_sec * 1000 + tv_nsec / 1000000 < u32_mod
          → u32_mod ≤ now + (tv_sec * 1000 + tv_nsec / 1000000)
          → now < u64_mod
          → add64 now (nanosleep_ms tv_sec tv_nsec) < now)
unfolding sleep_ms usleep_ms nanosleep_ms
sleep_wraps seconds usec tv_sec tv_nsec now = (
  (λ h. omega arith, λ h. omega arith),
  omega arith,
  omega arith,
  λ large whole old small. ground arith,
)
