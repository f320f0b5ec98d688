-- ===== src/Timer.antt =====
-- include/timer.hpp and src/timer.cc: timers, their comparator, and the manager's ordered set.
-- A Timer::ptr is a number, its address; `store` is the heap of Timer objects, which the program
-- shares by shared_ptr. The clock is read by GetElapsedMS: each reading is an argument. The
-- std::set is the list of its elements in the comparator's order; an iterator is the element that
-- it points at, and `none` is `end()`. There is one manager, which `m_manager` of every timer is.
pub mod Order
pub mod Set
pub mod Invariant
pub mod Fired
pub mod Expiry
pub mod Due
pub mod Added
pub mod Reach
pub mod Reschedule
pub mod Armed
pub mod Rollover
pub mod Tests
pub mod Wait
use fiber_async.Prelude.{
  ℕ, ◌+◌, ◌-◌, ◌*◌, ◌/◌, List, [], ◌∷◌, ◌++◌, Option, none, some, Bool, true, false, not, ◌&&◌,
  if◌then◌else◌, ltb, leb, ◌==◌, Outcome, ok, fail, Failure, ◌>>=◌, is_some, is_empty, update,
  add64, sub64, u64_max, u64_mod, ◌%◌,
}

-- A std::function<void()>, by a number that names the closure.
abbrev pub Callback : Type 0
Callback = ℕ

pub record Timer : Type 0 where
  pub ms : ℕ
  pub next : ℕ
  pub cb : Option Callback
  pub recurring : Bool

abbrev pub Store : Type 0
Store = ℕ → Timer

pub record TimerManager : Type 0 where
  pub store : Store
  pub timers : List ℕ
  pub tickled : Bool
  pub previous_time : ℕ

-- From the fields of the timespec that clock_gettime fills.
pub get_elapsed_ms : ℕ → ℕ → ℕ
get_elapsed_ms tv_sec tv_nsec = (tv_sec * 1000 + tv_nsec / 1000000) % u64_mod

pub comparator : Store → Option ℕ → Option ℕ → Bool
comparator s none none = false
comparator s none (some r) = true
comparator s (some l) none = false
comparator s (some l) (some r) =
    if ltb (s l).next (s r).next then true else if ltb (s r).next (s l).next then false else ltb l r

-- std::set::insert, find, erase and upper_bound, over the comparator.
pub insert : Store → ℕ → List ℕ → List ℕ
insert s p [] = p ∷ []
insert s p (x ∷ xs) =
    if comparator s (some x) (some p)
    then x ∷ insert s p xs
    else if comparator s (some p) (some x)
    then p ∷ x ∷ xs
    else x ∷ xs

pub find : Store → ℕ → List ℕ → Option ℕ
find s p [] = none
find s p (x ∷ xs) =
    if comparator s (some x) (some p)
    then find s p xs
    else if comparator s (some p) (some x)
    then none
    else some x

pub erase : ℕ → List ℕ → List ℕ
erase p [] = []
erase p (x ∷ xs) = if x == p then xs else x ∷ erase p xs

-- The elements before `upper_bound(p)`, and those from it on.
pub until_bound : Store → ℕ → List ℕ → List ℕ
until_bound s p [] = []
until_bound s p (x ∷ xs) = if comparator s (some p) (some x) then [] else x ∷ until_bound s p xs

pub from_bound : Store → ℕ → List ℕ → List ℕ
from_bound s p [] = []
from_bound s p (x ∷ xs) = if comparator s (some p) (some x) then x ∷ xs else from_bound s p xs

pub head_is : List ℕ → ℕ → Bool
head_is [] p = false
head_is (x ∷ xs) p = x == p

-- The constructor Timer(ms, cb, recurring, manager), `now` being its reading of the clock.
pub new_timer : ℕ → Option Callback → Bool → ℕ → Timer
new_timer ms cb recurring now = record {
  ms = ms;
  next = add64 ms now;
  cb = cb;
  recurring = recurring;
}

-- The constructor Timer(next), which leaves `m_recurring` unset; it is never read.
pub new_mark : ℕ → Timer
new_mark next = record { ms = 0; next = next; cb = none; recurring = false }

pub new_manager : Store → ℕ → TimerManager
new_manager s now = record { store = s; timers = []; tickled = false; previous_time = now }

-- add_timer(Timer::ptr, WriteLock&). The flag says that OnTimerInsertedAtFront is called.
pub add_locked : TimerManager → ℕ → TimerManager × Bool
unfolding head_is
add_locked m p =
    let ts = insert m.store p m.timers in
    let tickle = head_is ts p && not m.tickled in
    (record m { timers = ts; tickled = if tickle then true else m.tickled }, tickle)

-- add_timer(ms, cb, recurring); `p` is the address of the new object.
pub add_timer : TimerManager → ℕ → ℕ → Option Callback → Bool → ℕ → TimerManager × Bool
unfolding add_locked new_timer
add_timer m p ms cb recurring now =
    add_locked (record m { store = update m.store p (new_timer ms cb recurring now) }) p

pub has_timer : TimerManager → Bool
has_timer m = not (is_empty m.timers)

abbrev drop_cb : Timer → Timer
drop_cb t = record t { cb = none }

abbrev set_next : ℕ → Timer → Timer
set_next n t = record t { next = n }

-- `m_timers.erase(it)`: undefined at `end()`.
pub erase_at : Option ℕ → List ℕ → Outcome (List ℕ)
erase_at none xs = fail Failure.undefined
erase_at (some p) xs = ok (erase p xs)

-- Timer::cancel.
pub cancel : TimerManager → ℕ → Outcome (TimerManager × Bool)
unfolding erase_at
cancel m p =
    if is_some (m.store p).cb
    then (do
      let s = update m.store p (drop_cb (m.store p))
      ts ← erase_at (find s p m.timers) m.timers
      ok (record m { store = s; timers = ts }, true))
    else ok (m, false)

-- Timer::refresh at clock reading `now`.
pub refresh : TimerManager → ℕ → ℕ → TimerManager × Bool
refresh m p now =
    if is_some (m.store p).cb
    then elim (find m.store p m.timers) [
      | none ↦ (m, false)
      | some it ↦
          let s = update m.store p (set_next (add64 now (m.store p).ms) (m.store p)) in
          (record m { store = s; timers = insert s p (erase it m.timers) }, true)
    ]
    else (m, false)

-- Timer::reset. The result is the manager, what is returned, and whether the front is notified.
pub reset : TimerManager → ℕ → ℕ → Bool → ℕ → TimerManager × Bool × Bool
unfolding add_locked
reset m p ms from_now now =
    if ms == (m.store p).ms && not from_now
    then (m, true, false)
    else if not (is_some (m.store p).cb)
    then (m, true, false)
    else elim (find m.store p m.timers) [
      | none ↦ (m, false, false)
      | some it ↦
          let start = if from_now then now else sub64 (m.store p).next (m.store p).ms in
          let t = record (m.store p) { ms = ms; next = add64 start ms } in
          let (m', tickle) =
            add_locked (record m { store = update m.store p t; timers = erase it m.timers }) p in
          (m', true, tickle)
    ]

-- detectClockRollover, with the unsigned difference as it wraps.
pub detect_clock_rollover : TimerManager → ℕ → TimerManager × Bool
detect_clock_rollover m now = (
  record m { previous_time = now },
  ltb now m.previous_time && ltb now (sub64 m.previous_time (60 * 60 * 1000)),
)

-- One round of the loop over `expired`; `now` is the clock reading of a recurring timer's round.
rearm : TimerManager → ℕ → ℕ → TimerManager
rearm m p now =
    let s = update m.store p (set_next (add64 now (m.store p).ms) (m.store p)) in
    record m { store = s; timers = insert s p m.timers }

retire : TimerManager → ℕ → TimerManager
retire m p = record m { store = update m.store p (drop_cb (m.store p)) }

pub settle : TimerManager → ℕ → ℕ → TimerManager
settle m p now = if (m.store p).recurring then rearm m p now else retire m p

-- The loop over `expired`. The clock's k-th reading is `clock k`.
pub fire :
    (ℕ → ℕ)
    → ℕ
    → TimerManager
    → List ℕ
    → List (Option Callback)
    → TimerManager × List (Option Callback)
fire clock k m [] cbs = (m, cbs)
fire clock k m (p ∷ ps) cbs =
    fire clock (if (m.store p).recurring then k + 1 else k) (settle m p (clock k)) ps
      (cbs ++ (m.store p).cb ∷ [])

-- `!rollover && (*m_timers.begin())->m_next > now_ms`, for a set that is not empty.
pub none_due : TimerManager → Bool → ℕ → Bool
none_due m rollover now = elim m.timers [
  | [] ↦ true
  | p ∷ ps ↦ not rollover && ltb now (m.store p).next
]

-- listExpiredCb from its first test of `rollover` on. `clock 0` is `now_ms`; `mark` is the address
-- of the object `now_timer`.
pub take_expired :
    TimerManager
    → Bool
    → (ℕ → ℕ)
    → ℕ
    → List (Option Callback)
    → TimerManager × List (Option Callback)
unfolding none_due new_mark
take_expired m rollover clock mark cbs =
    if none_due m rollover (clock 0)
    then (m, cbs)
    else (let s = update m.store mark (new_mark (clock 0)) in
        let expired = if rollover then m.timers else until_bound s mark m.timers in
        let left = if rollover then [] else from_bound s mark m.timers in
        fire clock 1 (record m { store = s; timers = left }) expired cbs)

-- listExpiredCb. The test for an empty set stands twice in the source, under the read lock and
-- under the write lock.
pub list_expired_cb :
    TimerManager → (ℕ → ℕ) → ℕ → List (Option Callback) → TimerManager × List (Option Callback)
unfolding detect_clock_rollover
list_expired_cb m clock mark cbs =
    if is_empty m.timers
    then (m, cbs)
    else (let (m', rollover) = detect_clock_rollover m (clock 0) in
        take_expired m' rollover clock mark cbs)

-- getNextTimer at clock reading `now`.
pub get_next_timer : TimerManager → ℕ → TimerManager × ℕ
get_next_timer m now = (
  record m { tickled = false },
  elim m.timers [
    | [] ↦ u64_max
    | p ∷ ps ↦ if leb (m.store p).next now then 0 else (m.store p).next - now
  ],
)
