-- ===== src/IoManager/Waiting.antt =====
-- What a manager of include/iomanager.hpp promises: a map from descriptors and events to the tasks
-- that wait for them, and the tasks that were handed to schedulers, in order.
pub mod Effects
pub mod Reports
pub mod Views
pub mod All
pub mod Adding
pub mod Refines
pub mod Tests
use fiber_async.Prelude.{
  ℕ, List, [], ◌∷◌, ◌++◌, Option, some, none, ◌||◌, ◌&&◌, if◌then◌else◌, ◌==◌, get_elem?,
}
use fiber_async.IoManager.{
  Event, event_read, event_write, has, EventContext, FdContext, Posted, IoManager, Ready,
}
use fiber_async.IoManager.Interest.{Epoll}
use fiber_async.IoManager.Events.{same_event, task_of, context_of}

pub record Promise : Type 0 where
  pub waiting : ℕ → Event → Option Posted
  pub posted : List Posted

abbrev pub put : (ℕ → Event → Option Posted) → ℕ → Event → Option Posted → ℕ → Event → Option Posted
put w n event p k other = if n == k && same_event event other then p else w k other

abbrev pub hand_over : Option Posted → Promise → ℕ → Event → Promise
hand_over none s n event = s
hand_over (some p) s n event = record {
  waiting = put s.waiting n event none;
  posted = s.posted ++ p ∷ [];
}

-- The task that waits is handed over, if one does.
abbrev pub take : Promise → ℕ → Event → Promise
take s n event = hand_over (s.waiting n event) s n event

-- What can be asked of a manager.
pub data Command : Type 0 where
  wait : ℕ → Event → Option Posted → Command
  forget : ℕ → Event → Command
  wake : ℕ → Event → Command
  wake_all : ℕ → Command
  report : ℕ → Ready → Command

abbrev pub perform : Command → Promise → Promise
perform (wait n event p) s = record s { waiting = put s.waiting n event p }
perform (forget n event) s = record s { waiting = put s.waiting n event none }
perform (wake n event) s = take s n event
perform (wake_all n) s = take (take s n event_read) n event_write
perform (report n r) s =
    let s' = if r.readable || r.failed then take s n event_read else s in
    if r.writable || r.failed then take s' n event_write else s'

-- The latest command stands first.
abbrev pub replay : List Command → Promise → Promise
replay [] s = s
replay (c ∷ cs) s = perform c (replay cs s)

-- The task that an event context stands for.
abbrev pub posted_of : EventContext → Option Posted
posted_of ec = elim ec.scheduler [
  | none ↦ none
  | some s ↦ some (record { scheduler = s; task = task_of ec })
]

abbrev pub waiting_in : FdContext → Event → Option Posted
waiting_in c event = if has c.events event then posted_of (context_of c event) else none

abbrev pub waiting_at : List FdContext → ℕ → Event → Option Posted
waiting_at cs k event = elim (get_elem? cs k) [ none ↦ none | some c ↦ waiting_in c event ]

-- What a manager keeps of its promise.
abbrev pub view : (e : Epoll) → IoManager e → Promise
view e m = record { waiting = waiting_at m.contexts; posted = m.posted }
