-- ===== src/Timer/Tests.antt =====
-- Concrete managers of timers, and the theorems on timers applied to them.
use fiber_async.Prelude.{
  ℕ, ◌+◌, ◌≤◌, ◌<◌, ◌≡◌, ◌≢◌, ◌↔◌, refl, [], ◌∷◌, ◌++◌, some, none, true, false, arith, update,
  contains,
}
use fiber_async.Timer.{
  Store, Timer, TimerManager, insert, take_expired, comparator, new_manager, add_timer,
  list_expired_cb, get_next_timer, detect_clock_rollover,
}
use fiber_async.Timer.Invariant.{IsValid, new_manager-IsValid}
use fiber_async.Timer.Fired.{cbs_of}
use fiber_async.Timer.Due.{list_expired-cbs, list_expired_cb_lem, Fires, Stays}
use fiber_async.Timer.Expiry.{taken_of, rolled_over}
use fiber_async.Timer.Wait.{next_timer_wait}
use fiber_async.Timer.Reach.{Reach, start, later, adds, expires, waits, Reach-IsValid}
use fiber_async.Timer.Added.{with_timer}
use fiber_async.Timer.Armed.{Meanwhile, at_once, followed}
use fiber_async.Timer.Rollover.{detect_clock_rollover_lem}

abbrev pub blank_timer : Timer
blank_timer = record { ms = 0; next = 0; cb = none; recurring = false }

-- Timer 1 fires once, and is due at 1100; timer 2 recurs every 200 ms, and is due at 1200.
abbrev pub once : Timer
once = record { ms = 100; next = 1100; cb = some 7; recurring = false }

abbrev pub recurs : Timer
recurs = record { ms = 200; next = 1200; cb = some 8; recurring = true }

abbrev pub no_timers : Store
no_timers = λ _. blank_timer

abbrev pub two_timers : TimerManager
two_timers = record {
  store = update (update no_timers 1 once) 2 recurs;
  timers = 1 ∷ 2 ∷ [];
  tickled = false;
  previous_time = 1000;
}

pub two_timers-IsValid : IsValid two_timers
unfolding comparator
two_timers-IsValid = record { sorted = ((refl, tt), (tt, tt)); armed = λ p h. ground arith }

-- The clock, when both timers are past due.
abbrev pub late : ℕ → ℕ
late k = 1300 + k

added_once : Reach (add_timer (new_manager no_timers 1000) 1 100 (some 7) false 1000).0
unfolding new_manager
added_once = later (start no_timers 1000 (λ p. refl)) (adds 1 100 (some 7) false 1000 refl)

Reach-IsValid_example : IsValid (add_timer (new_manager no_timers 1000) 1 100 (some 7) false 1000).0
Reach-IsValid_example = Reach-IsValid added_once

list_expired-cbs_example :
    (list_expired_cb two_timers late 9 []).1
    ≡ []
      ++ cbs_of two_timers.store (taken_of two_timers (rolled_over two_timers (late 0)) (late 0) 9)
list_expired-cbs_example = list_expired-cbs two_timers late 9 [] refl two_timers-IsValid

list_expired_cb_lem_example :
    (rolled_over two_timers 1300 ≡ true → Fires two_timers late 9 [] refl two_timers-IsValid 2)
    × (rolled_over two_timers 1300 ≡ false
        → ((two_timers.store 2).next < 1300 → Fires two_timers late 9 [] refl two_timers-IsValid 2)
          × ((two_timers.store 2).next ≡ 1300
              → 2 < 9
              → Fires two_timers late 9 [] refl two_timers-IsValid 2)
          × ((two_timers.store 2).next ≡ 1300
              → 9 < 2
              → Stays two_timers late 9 [] refl two_timers-IsValid 2)
          × (1300 < (two_timers.store 2).next
              → Stays two_timers late 9 [] refl two_timers-IsValid 2))
list_expired_cb_lem_example =
    list_expired_cb_lem two_timers late 9 [] refl two_timers-IsValid 2 refl

abbrev pub early : ℕ → ℕ
early k = 1150 + k

next_timer_wait_example :
    ((p : ℕ)
      → contains two_timers.timers p ≡ true
      → (get_next_timer two_timers 1050).1 ≢ 0
      → 1050 + (get_next_timer two_timers 1050).1 ≤ (two_timers.store p).next)
    × ((p : ℕ) × (contains two_timers.timers p ≡ true)
        × ((two_timers.store p).next ≤ 1050 + (get_next_timer two_timers 1050).1))
next_timer_wait_example = next_timer_wait two_timers 1050 two_timers-IsValid refl

detect_clock_rollover_lem_example :
    ((detect_clock_rollover two_timers 900).0.previous_time ≡ 900)
    × (3600000 ≤ 1000 → ((detect_clock_rollover two_timers 900).1 ≡ true) ↔ (900 + 3600000 < 1000))
    × (1000 < 3600000 → ((detect_clock_rollover two_timers 900).1 ≡ true) ↔ (900 < 1000))
detect_clock_rollover_lem_example = detect_clock_rollover_lem two_timers 900 (omega arith)

-- A manager with one timer, at address 4 and due at 1250, and a look at it at 1150.
abbrev pub awake : TimerManager
awake = new_manager no_timers 1000

pub awake-IsValid : IsValid awake
awake-IsValid = new_manager-IsValid no_timers 1000 (λ p. refl)

pub awake_empty : (p : ℕ) → contains awake.timers p ≡ false
unfolding new_manager
awake_empty p = refl

abbrev pub dozing : TimerManager
dozing = with_timer awake 4 250 (some 7) false 1000 (awake_empty 4)

abbrev pub dozed : TimerManager
dozed = (get_next_timer (list_expired_cb dozing early 99 []).0 1150).0

pub dozed-Meanwhile : Meanwhile 4 1250 dozing dozed
unfolding new_manager add_timer detect_clock_rollover insert
dozed-Meanwhile =
    followed (followed at_once (expires early 99 refl) (refl, omega arith)) (waits 1150) tt

pub dozed_unmarked : contains dozed.timers 99 ≡ false
unfolding new_manager add_timer list_expired_cb get_next_timer insert take_expired
dozed_unmarked = refl

pub dozed_forward : rolled_over dozed 1200 ≡ false
unfolding new_manager add_timer list_expired_cb get_next_timer insert take_expired
dozed_forward = refl
