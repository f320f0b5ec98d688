-- ===== src/Hook/Sleep.antt =====
-- src/hook.cc: sleep, usleep and nanosleep. A hooked call adds a timer to the thread's IOManager and
-- yields; the timer's callback, named by `cb`, hands the calling fiber to the scheduler. The
-- arguments are what they are in the source: seconds and usec are 32 bits, and the fields of the
-- timespec are those of a time that is not negative.
pub mod Wakes
pub mod Resumed
pub mod Tests
use fiber_async.Prelude.{
  ℕ, ◌+◌, ◌-◌, ◌*◌, ◌/◌, ◌%◌, ◌^◌, Option, none, some, Outcome, ok, fail, Failure, Bool, true,
  false, if◌then◌else◌, ltb, u32_mod, u64_mod,
}
use fiber_async.Timer.{TimerManager, Callback, add_timer}

-- `seconds * 1000` is of type unsigned int.
pub sleep_ms : ℕ → ℕ
sleep_ms seconds = (seconds * 1000) % u32_mod

pub usleep_ms : ℕ → ℕ
usleep_ms usec = usec / 1000

-- `int timeout_s`, as add_timer's uint64_t takes it.
pub nanosleep_ms : ℕ → ℕ → ℕ
nanosleep_ms tv_sec tv_nsec =
    let t = (tv_sec * 1000 + tv_nsec / 1000 / 1000) % u32_mod in
    if ltb t (2 ^ 31) then t else t + (u64_mod - u32_mod)

-- What such a call does: the system's own, or a timer and a yield.
pub data Slept : Type 0 where
  system : Slept
  yields : TimerManager → Bool → Slept

-- `iom` is the thread's IOManager, with its timers; without one, the call is undefined.
pub sleep_for : Bool → Option TimerManager → ℕ → ℕ → Callback → ℕ → Outcome Slept
sleep_for false iom p ms cb now = ok system
sleep_for true none p ms cb now = fail Failure.undefined
sleep_for true (some m) p ms cb now =
    let (m', tickle) = add_timer m p ms (some cb) false now in ok (yields m' tickle)

-- sleep, usleep and nanosleep; `p` is the address of the new timer.
pub sleep : Bool → Option TimerManager → ℕ → ℕ → Callback → ℕ → Outcome Slept
unfolding sleep_for sleep_ms
sleep enabled iom p seconds cb now = sleep_for enabled iom p (sleep_ms seconds) cb now

pub usleep : Bool → Option TimerManager → ℕ → ℕ → Callback → ℕ → Outcome Slept
unfolding sleep_for usleep_ms
usleep enabled iom p usec cb now = sleep_for enabled iom p (usleep_ms usec) cb now

pub nanosleep : Bool → Option TimerManager → ℕ → ℕ → ℕ → Callback → ℕ → Outcome Slept
unfolding sleep_for nanosleep_ms
nanosleep enabled iom p tv_sec tv_nsec cb now =
    sleep_for enabled iom p (nanosleep_ms tv_sec tv_nsec) cb now
