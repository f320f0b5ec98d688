-- ===== src/IoManager/Idle/Tests.antt =====
-- A manager that waits for one descriptor and has two timers, and the theorems on the idle loop and
-- on sequences of calls applied to it.
use fiber_async.Prelude.{◌+◌, ◌≡◌, refl, [], ◌∷◌, List, false, ok, arith}
use fiber_async.Timer.Tests.{two_timers, two_timers-IsValid, late}
use fiber_async.IoManager.{IoManager, stopping}
use fiber_async.IoManager.Contexts.{bit}
use fiber_async.IoManager.Processing.{process_event_lem, happens_read, happens_write}
use fiber_async.IoManager.Firing.{IsShort, IsConsistent-IsShort}
use fiber_async.IoManager.Reach.{Reach, later, handles, Reach-IsShort}
use fiber_async.IoManager.Tests.{
  simple_epoll, five, five-IsConsistent, five_waits, readable, context_five, five-context,
  five_reads, five-Reach,
}
use fiber_async.IoManager.Idle.{Report, pipe, ready_at, reports, Turned, idle_turn}
use fiber_async.IoManager.Idle.Reports.{AllFit}
use fiber_async.IoManager.Idle.Turn.{timer_tasks, Served, idle_turn_lem}

abbrev pub two_reports : List Report
two_reports = pipe ∷ ready_at 5 readable ∷ []

pub two_reports-fit : AllFit five.contexts two_reports
two_reports-fit = ((ground (arith, five_waits), λ h. five_waits, λ h. cc), refl, tt)

busy : stopping simple_epoll five false 2 ≡ false
unfolding stopping
busy = ground arith

idle_turn_lem_example :
    (t : Turned simple_epoll) × (idle_turn simple_epoll five two_timers 1 false 1250
        (reports two_reports)
        late
        99
      ≡ ok t)
    × Served simple_epoll five 0 two_reports (timer_tasks two_timers 1 1300 99) t
idle_turn_lem_example =
    idle_turn_lem simple_epoll five two_timers 1 0 late 99 two_reports
      (IsConsistent-IsShort simple_epoll five five-IsConsistent) two_timers-IsValid refl
      two_reports-fit false 1250 busy

-- Descriptor 5 is added, and then found to be readable.
pub one_handled :
    (m : IoManager simple_epoll) × Reach simple_epoll m
      (0 + (bit (happens_read context_five readable) + bit (happens_write context_five readable)))
one_handled =
    let (m', ps, runs, short, waits, posted, named) =
      process_event_lem simple_epoll five 5 context_five readable 0
        (IsConsistent-IsShort simple_epoll five five-IsConsistent) five-context (λ _. five_reads)
        (λ h. cc) in
    (
      m',
      later five-Reach
          (handles 5 context_five readable five-context (λ _. five_reads) (λ h. cc) runs refl),
    )

Reach-IsShort_example :
    IsShort simple_epoll one_handled.0
      (0 + (bit (happens_read context_five readable) + bit (happens_write context_five readable)))
Reach-IsShort_example = Reach-IsShort simple_epoll one_handled.1
