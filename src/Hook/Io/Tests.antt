-- ===== src/Hook/Io/Tests.antt =====
-- A socket that waits once for its data, and the theorems on do_io applied to it.
use fiber_async.Prelude.{
  ℕ, ◌≡◌, refl, [], ◌∷◌, none, some, true, false, ok, fail, pos, arith, is_some, ap, sym, Failure,
  ◌++◌, get_elem?, subst, ◌∙◌, u64_max, ◌==◌, if◌then◌else◌, ◌&&◌, Bool,
}
use fiber_async.FdManager.{FdCtx, FdManager, so_rcvtimeo, get_timeout}
use fiber_async.Timer.{Timer, TimerManager, add_timer}
use fiber_async.Timer.Invariant.{IsValid, add_timer-IsValid}
use fiber_async.Timer.Added.{add_timer-effect}
use fiber_async.IoManager.{Event, event_read, IoManager, process_event, has, FdContext, Posted}
use fiber_async.IoManager.Events.{waits_for, same_event, task_of, context_of}
use fiber_async.IoManager.Firing.{IsShort, IsConsistent-IsShort}
use fiber_async.IoManager.Processing.{both_ways}
use fiber_async.IoManager.Tests.{
  simple_epoll, new_one, new_one-IsConsistent, caller, readable, read_is_real, simple_epoll-Accepts,
  three_silent, five, five-IsConsistent, two_way, two_way-IsConsistent, context_two_way,
  two_way-context, two_way_reads, two_way_writes,
}
use fiber_async.Hook.Io.Races.{on_timeout_lem, stale_report_aborts}
use fiber_async.IoManager.Idle.Reports.{report_lem}
use fiber_async.Hook.Io.{
  Arm, World, Round, Request, returned, failed_with, eagain, on_timeout, etimedout, do_io, kind_of,
}
use fiber_async.Hook.Io.First.{first, stops, answer_of}
use fiber_async.Hook.Io.Waiting.{AddsTimer}
use fiber_async.Hook.Io.Calm.{IsReady, IsParked, IsResumed, do_io_lem}

-- A timer whose condition is not looked at.
abbrev pub plain_arm : Arm
plain_arm m p ms cb now = (add_timer m p ms (some cb) false now).0

pub plain_arm-AddsTimer : AddsTimer plain_arm
plain_arm-AddsTimer = record {
  valid = λ m p ms cb now fresh v. add_timer-IsValid m p ms (some cb) false now fresh v;
  armed = λ m p ms cb now. ap is_some (add_timer-effect m p ms (some cb) false now).0;
  due = λ m p ms cb now. (add_timer-effect m p ms (some cb) false now).1;
  others = λ m p ms cb now q apart. (add_timer-effect m p ms (some cb) false now).2 q apart;
}

abbrev pub blank_timer : Timer
blank_timer = record { ms = 0; next = 0; cb = none; recurring = false }

abbrev pub no_timers : TimerManager
no_timers = record { store = λ _. blank_timer; timers = []; tickled = false; previous_time = 1000 }

pub no_timers-IsValid : IsValid no_timers
no_timers-IsValid = record { sorted = tt; armed = λ p h. cc }

-- Descriptor 3 is an open socket with a receive timeout of a second.
abbrev pub socket_ctx : FdCtx
socket_ctx = record {
  is_init = true;
  is_socket = true;
  sys_nonblock = true;
  user_nonblock = false;
  is_closed = false;
  fd = pos 3;
  recv_timeout = 1000;
  send_timeout = u64_max;
}

abbrev pub socket_fds : FdManager
socket_fds = record { ctxs = λ _. socket_ctx; datas = none ∷ none ∷ none ∷ some 9 ∷ [] }

abbrev pub idle_world : World simple_epoll
idle_world = record { fds = socket_fds; timers = no_timers; io = new_one }

abbrev read_three : Request simple_epoll
read_three = record {
  fd = pos 3;
  event = event_read;
  timeout_so = so_rcvtimeo;
  who = caller;
  manager = true;
}

-- The call's only timer is at address 50.
abbrev mine : ℕ → Bool
mine t = 50 == t

-- While the fiber waits, another thread handles the report that descriptor 3 is readable.
data_comes : World simple_epoll → World simple_epoll
data_comes w = elim (process_event simple_epoll w.io 3 readable) [
  | fail reason ↦ w
  | ok io ↦ record w { io = io }
]

abbrev waits_once : Round simple_epoll
waits_once = record {
  answer = failed_with eagain;
  timer = 50;
  callback = 7;
  now = 1000;
  others = data_comes;
  cancelled = 0;
}

abbrev seven_bytes : Round simple_epoll
seven_bytes = record {
  answer = record { value = pos 7; errno = 0 };
  timer = 50;
  callback = 7;
  now = 1001;
  others = data_comes;
  cancelled = 0;
}

served :
    (w : World simple_epoll) (m' : IoManager simple_epoll)
    → process_event simple_epoll w.io 3 readable ≡ ok m'
    → data_comes w ≡ record w { io = m' }
unfolding data_comes
served w m' runs = rw (runs, data_comes) refl

data_comes-IsResumed :
    (w : World simple_epoll)
    → IsParked simple_epoll read_three 3 mine w 50 1000
    → IsResumed simple_epoll read_three 3 mine (data_comes w) 50 1000
data_comes-IsResumed w s =
    let (m', ps, runs, short, waits, posted, many) =
      report_lem simple_epoll w.io 3 readable s.owed s.short
        (ground (arith, s.waits), λ h. s.waits, λ h. cc) in
    subst (λ (z : World simple_epoll). IsResumed simple_epoll read_three 3 mine z 50 1000)
      {x = record w { io = m' }} (sym (served w m' runs))
      (record {
        owed = _;
        short = short;
        timers = s.timers;
        accepts = simple_epoll-Accepts m' 3;
        free = waits 3 event_read ∙ ground (arith, s.waits);
        fresh = s.fresh;
        fired = λ some_time off. ground (arith, s.armed some_time);
      })

idle_world-IsReady : IsReady simple_epoll read_three 3 mine idle_world
idle_world-IsReady = record {
  owed = 0;
  short = IsConsistent-IsShort simple_epoll new_one new_one-IsConsistent;
  timers = no_timers-IsValid;
  accepts = simple_epoll-Accepts new_one 3;
  free = three_silent;
  fresh = λ t own. refl;
}

do_io_lem_example :
    (w' : World simple_epoll) × (do_io simple_epoll plain_arm true idle_world read_three
        (waits_once ∷ seven_bytes ∷ [])
      ≡ ok (returned w' (record { value = pos 7; errno = 0 }) 2))
unfolding first stops answer_of kind_of get_timeout
do_io_lem_example =
    do_io_lem simple_epoll read_three 3 mine plain_arm plain_arm-AddsTimer 1000 refl refl
      read_is_real refl refl idle_world 9 (waits_once ∷ seven_bytes ∷ []) refl refl refl refl refl
      idle_world-IsReady (refl, data_comes-IsResumed, (refl, data_comes-IsResumed, tt))

pub five-IsShort : IsShort simple_epoll five 0
five-IsShort = IsConsistent-IsShort simple_epoll five five-IsConsistent

on_timeout_lem_example :
    (m' : IoManager simple_epoll) × (on_timeout simple_epoll five (pos 5) event_read (some 0)
      ≡ ok (m', some etimedout))
    × IsShort simple_epoll m' 0
    × ((k : ℕ) (other : Event)
        → waits_for m'.contexts k other ≡ (
            if 5 == k && same_event event_read other
            then false
            else waits_for five.contexts k other))
    × ((c : FdContext)
        → get_elem? five.contexts 5 ≡ some c
        → has c.events event_read ≡ true
        → (p : Posted) × (m'.posted ≡ five.posted ++ p ∷ [])
          × (p.task ≡ task_of (context_of c event_read)))
    × (waits_for five.contexts 5 event_read ≡ false → m'.posted ≡ five.posted)
on_timeout_lem_example = on_timeout_lem simple_epoll five 0 5 five-IsShort event_read

stale_report_aborts_example :
    (m₁ : IoManager simple_epoll) × (on_timeout simple_epoll two_way (pos 5) event_read (some 0)
      ≡ ok (m₁, some etimedout))
    × (process_event simple_epoll m₁ 5 both_ways ≡ fail Failure.aborted)
stale_report_aborts_example =
    stale_report_aborts simple_epoll two_way 0 5 context_two_way
      (IsConsistent-IsShort simple_epoll two_way two_way-IsConsistent) two_way-context two_way_reads
      two_way_writes
