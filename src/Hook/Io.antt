-- ===== src/Hook/Io.antt =====
-- src/hook.cc: do_io, the body of the hooked accept, read, write and their kin. `fun`, the system's
-- call, is seen through its answers, one for each time that it is called. Timer conditions are not
-- part of the repository: addConditionTimer is the parameter `arm`, which takes the timers, the
-- address of the new timer, the time, a number that names the callback, and the clock. The
-- two-argument addEvent is the one that iomanager.hpp declares, with an empty callback.
pub mod Passing
pub mod Waiting
pub mod First
pub mod Calm
pub mod Races
pub mod Tests
use fiber_async.Prelude.{
  ℕ, zero, suc, ◌+◌, List, [], ◌∷◌, Option, none, some, Bool, not, ◌||◌, if◌then◌else◌, ◌==◌,
  Outcome, ok, ◌>>=◌, ◌>>◌, defined_if, ℤ, pos, negsuc, u64_max,
}
use fiber_async.FdManager.{FdManager, OptName, get_timeout}
use fiber_async.Timer.{TimerManager, Callback, cancel}
use fiber_async.IoManager.{Event, IoManager, Caller, add_event, cancel_event}
use fiber_async.IoManager.Interest.{Epoll}
use fiber_async.Hook.{look_up}

-- What a call of the system returns, and errno after it.
pub record Answer : Type 0 where
  pub value : ℤ
  pub errno : ℕ

abbrev pub eintr : ℕ
eintr = 4

abbrev pub ebadf : ℕ
ebadf = 9

abbrev pub eagain : ℕ
eagain = 11

abbrev pub etimedout : ℕ
etimedout = 110

abbrev pub failed_with : ℕ → Answer
failed_with errno = record { value = negsuc 0; errno = errno }

-- How an answer is taken: `n == -1 && errno == EINTR`, `n == -1 && errno == EAGAIN`, or else.
pub data Kind : Type 0 where
  interrupted would_block final : Kind

unfoldable pub kind_of : Answer → Kind
kind_of a = elim a.value [
  | negsuc zero ↦
      if a.errno == eintr then interrupted else if a.errno == eagain then would_block else final
  | negsuc (suc k) ↦ final
  | pos n ↦ final
]

-- Timers with an addConditionTimer.
abbrev pub Arm : Type 0
Arm = TimerManager → ℕ → ℕ → Callback → ℕ → TimerManager

module _ (e : Epoll) where
  -- What do_io reads and changes: the descriptor contexts, and the timers and events of the thread's
  -- IOManager.
  pub record World : Type 0 where
    pub fds : FdManager
    pub timers : TimerManager
    pub io : IoManager e

  -- One time round `retry`: what `fun` answers; and, if the fiber then waits, the address of the
  -- timer, its callback and the clock, what other fibers and threads do until the fiber is resumed,
  -- and `tinfo->cnacelled` then.
  pub record Round : Type 0 where
    pub answer : Answer
    pub timer : ℕ
    pub callback : Callback
    pub now : ℕ
    pub others : World → World
    pub cancelled : ℕ

  -- The call: the descriptor, the event, the option that its timeout is under, the calling fiber, and
  -- whether IOManager::GetThis() is not null.
  pub record Request : Type 0 where
    pub fd : ℤ
    pub event : Event
    pub timeout_so : OptName
    pub who : Caller
    pub manager : Bool

  -- How a call ends, with the number of calls of `fun`; or that no further answer has come yet.
  pub data Ended : Type 0 where
    returned : World → Answer → ℕ → Ended
    pending : World → ℕ → Ended

  -- From EAGAIN to `yield`. The timer is there unless the timeout is (uint64_t)-1.
  pub park : Arm → World → Request → ℕ → Round → Outcome World
  park arm w q to r = do
    defined_if q.manager
    let timers = if to == u64_max then w.timers else arm w.timers r.timer to r.callback r.now
    io ← add_event e w.io q.fd q.event none q.who
    ok (record w { timers = timers; io = io })

  -- `if (timer) timer->cancel()`, after the fiber is resumed.
  pub unpark : World → ℕ → Round → Outcome World
  unpark w to r =
      if to == u64_max
      then ok w
      else (do (timers, done) ← cancel w.timers r.timer; ok (record w { timers = timers }))

  -- From `retry` on. The loop that repeats an interrupted call comes to the same call as `retry`.
  pub retry : Arm → World → Request → ℕ → ℕ → List Round → Outcome Ended
  unfolding park unpark kind_of
  retry arm w q to calls [] = ok (pending w calls)
  retry arm w q to calls (r ∷ rs) = elim (kind_of r.answer) [
    | interrupted ↦ retry arm w q to (calls + 1) rs
    | final ↦ ok (returned w r.answer (calls + 1))
    | would_block ↦ park arm w q to r >>= λ waiting. unpark (r.others waiting) to r >>= λ w'.
        elim r.cancelled [
          | zero ↦ retry arm w' q to (calls + 1) rs
          | suc c ↦ ok (returned w' (failed_with (suc c)) (calls + 1))
        ]
  ]

  -- `return fun(fd, args...)`.
  pub pass : World → List (Round) → Ended
  pass w [] = pending w 0
  pass w (r ∷ rs) = returned w r.answer 1

  -- do_io, in a thread with hooks enabled or not.
  pub do_io : Arm → Bool → World → Request → List Round → Outcome Ended
  unfolding retry pass
  do_io arm enabled w q rs =
      if not enabled
      then ok (pass w rs)
      else look_up w.fds q.fd >>= λ (fds, found). elim found [
        | none ↦ ok (pass (record w { fds = fds }) rs)
        | some p ↦
            if (fds.ctxs p).is_closed
            then ok (returned w (failed_with ebadf) 0)
            else if not (fds.ctxs p).is_socket || (fds.ctxs p).user_nonblock
            then ok (pass (record w { fds = fds }) rs)
            else retry arm (record w { fds = fds }) q (get_timeout (fds.ctxs p) q.timeout_so) 0 rs
      ]

  -- The callback of the timer: `tinfo` is what the weak pointer leads to, if the call still runs.
  pub on_timeout : IoManager e → ℤ → Event → Option ℕ → Outcome (IoManager e × Option ℕ)
  on_timeout io fd event none = ok (io, none)
  on_timeout io fd event (some zero) = do
    (io', found) ← cancel_event e io fd event
    ok (io', some etimedout)
  on_timeout io fd event (some (suc c)) = ok (io, some (suc c))
