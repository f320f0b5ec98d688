-- ===== src/Hook/Sleep/Tests.antt =====
-- A fiber that sleeps, and the theorems on sleeping applied to it.
use fiber_async.Prelude.{
  ℕ, List, ◌++◌, ◌≡◌, ◌+◌, ◌*◌, ◌/◌, ◌^◌, ◌≤◌, ◌<◌, ◌↔◌, [], some, Bool, true, false, ok, arith,
  contains, u32_mod, u64_mod, add64,
}
use fiber_async.Hook.Sleep.{yields, sleep_ms, usleep_ms, nanosleep_ms, usleep}
use fiber_async.Hook.Sleep.Wakes.{sleep_wraps}
use fiber_async.Hook.Sleep.Resumed.{by_usleep, Sleeper-Posts, Sleeper-held}
use fiber_async.Hook.Io.Tests.{five-IsShort}
use fiber_async.Timer.{list_expired_cb}
use fiber_async.Timer.Tests.{
  late, awake, awake-IsValid, awake_empty, dozing, dozed, dozed-Meanwhile, dozed_unmarked,
  dozed_forward,
}
use fiber_async.Timer.Fired.{cbs_of}
use fiber_async.IoManager.{run_cb}
use fiber_async.IoManager.Tests.{simple_epoll, five}
use fiber_async.IoManager.Idle.{Turned, reports, idle_turn}
use fiber_async.IoManager.Idle.Woken.{Posts}
use fiber_async.IoManager.Idle.Tests.{two_reports, two_reports-fit}

-- A quarter of a second from 1000 on, a look at the timers at 1150, and a turn of the idle loop at 1300.
Sleeper-Posts_example :
    (notified : Bool) × (t : Turned simple_epoll) × (usleep true (some awake) 4 250000 7 1000
      ≡ ok (yields dozing notified))
    × (idle_turn simple_epoll five dozed 1 false 1250 (reports two_reports) late 99 ≡ ok t)
    × Posts simple_epoll five (record { scheduler = 1; task = run_cb 7 }) t
Sleeper-Posts_example =
    Sleeper-Posts awake 4 7 1000 awake-IsValid (awake_empty 4) simple_epoll five 1 0 late 99
      two_reports five-IsShort two_reports-fit 1250 false (by_usleep 250000) (omega arith)
      dozed-Meanwhile dozed_unmarked (omega arith)

abbrev second_look : ℕ → ℕ
second_look k = 1200 + k

-- The same sleep, and a second look at 1200.
Sleeper-held_example :
    (notified : Bool) × (ps : List ℕ) × (usleep true (some awake) 4 250000 7 1000
      ≡ ok (yields dozing notified))
    × ((list_expired_cb dozed second_look 99 []).1 ≡ [] ++ cbs_of dozed.store ps)
    × (contains ps 4 ≡ false)
    × ((list_expired_cb dozed second_look 99 []).0.store 4 ≡ dozing.store 4)
    × (contains (list_expired_cb dozed second_look 99 []).0.timers 4 ≡ true)
Sleeper-held_example =
    Sleeper-held awake 4 7 1000 awake-IsValid (awake_empty 4) second_look 99 [] (by_usleep 250000)
      (omega arith) dozed-Meanwhile dozed_unmarked dozed_forward (omega arith)

sleep_wraps_example :
    ((sleep_ms 4294968 < 4294968 * 1000) ↔ (4294967 < 4294968))
    × (usleep_ms 2500 * 1000 ≤ 2500)
    × (2500 < usleep_ms 2500 * 1000 + 1000)
    × (2 ^ 31 ≤ 2147484 * 1000 + 0 / 1000000
        → 2147484 * 1000 + 0 / 1000000 < u32_mod
        → u32_mod ≤ 5000000000 + (2147484 * 1000 + 0 / 1000000)
        → 5000000000 < u64_mod
        → add64 5000000000 (nanosleep_ms 2147484 0) < 5000000000)
sleep_wraps_example = sleep_wraps 4294968 2500 2147484 0 5000000000
