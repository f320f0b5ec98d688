-- ===== src/IoManager/Processing.antt =====
-- The body of the idle loop's `for`, and what is left of `stopping` after it.
use fiber_async.Prelude.{
  ℕ, ◌+◌, ◌≡◌, ◌<◌, ◌∙◌, List, [], ◌∷◌, ◌++◌, map, some, Bool, true, false, ◌||◌, ◌&&◌, arith,
  if◌then◌else◌, ◌==◌, get_elem?, ok, fail, Failure, inl, inr, Option-cases, u64_mod,
}
use fiber_async.IoManager.{
  Event, event_read, event_write, FdContext, Posted, IoManager, has, trigger_event, fire_event,
  process_event, Ready, stopping,
}
use fiber_async.IoManager.Interest.{Epoll}
use fiber_async.IoManager.Contexts.{get_elem?-lt, bit, total}
use fiber_async.IoManager.Events.{waits_for, same_event, task_of}
use fiber_async.IoManager.Firing.{IsShort, both, both_lem, tasks}

-- The events that a report makes happen: those reported, and on an error or hang-up all.
abbrev pub happens_read : FdContext → Ready → Bool
happens_read c r = c.events.read && (r.readable || r.failed)

abbrev pub happens_write : FdContext → Ready → Bool
happens_write c r = c.events.write && (r.writable || r.failed)

abbrev pub both_ways : Ready
both_ways = record { readable = true; writable = true; failed = false }

pub waits_for-write :
    (cs : List FdContext) (n : ℕ) (c : FdContext)
    → get_elem? cs n ≡ some c
    → c.events.write ≡ true
    → waits_for cs n event_write ≡ true
unfolding has
waits_for-write cs n c here writes = ground (arith, here)

-- A report of an event that nobody waits for, together with one that is waited for.
pub unwaited_aborts :
    (e : Epoll) (m : IoManager e) (n : ℕ)
    → waits_for m.contexts n event_read ≡ false
    → waits_for m.contexts n event_write ≡ true
    → process_event e m n both_ways ≡ fail Failure.aborted
unfolding process_event fire_event trigger_event has
unwaited_aborts e m n idle busy = elim (Option-cases (get_elem? m.contexts n)) [
  | inl nothing ↦ absurd (ground (arith, nothing))
  | inr (c, here) ↦
      let reads : c.events.read ≡ false = ground (arith, here) in
      let writes : c.events.write ≡ true = ground (arith, here) in
      ground (arith, get_elem?-lt m.contexts n here)
]

module _ (e : Epoll) where
  pub process_runs :
      (m : IoManager e) (n : ℕ) (c : FdContext) (r : Ready)
      → get_elem? m.contexts n ≡ some c
      → (r.readable ≡ true → c.events.read ≡ true)
      → (r.writable ≡ true → c.events.write ≡ true)
      → process_event e m n r ≡ both e m n (happens_read c r) (happens_write c r)
  unfolding process_event both
  process_runs m n c r here in_read in_write = ground arith

  -- In a manager that is consistent but for a count that is `owed` short, for events that epoll reports
  -- of those waited for on a descriptor of the table, handling them always returns. Those that happened
  -- are posted once each, reading before writing, and are no longer waited for; table and epoll still
  -- agree. But the count of pending events is short by one more for each event handled.
  pub process_event_lem :
      (m : IoManager e) (n : ℕ) (c : FdContext) (r : Ready) (owed : ℕ)
      → IsShort e m owed
      → get_elem? m.contexts n ≡ some c
      → (r.readable ≡ true → c.events.read ≡ true)
      → (r.writable ≡ true → c.events.write ≡ true)
      → (m' : IoManager e) × (ps : List Posted) × (process_event e m n r ≡ ok m')
        × IsShort e m' (owed + (bit (happens_read c r) + bit (happens_write c r)))
        × ((k : ℕ) (other : Event)
            → waits_for m'.contexts k other ≡ (
                if n == k
                  && (same_event event_read other && happens_read c r
                      || same_event event_write other && happens_write c r)
                then false
                else waits_for m.contexts k other))
        × (m'.posted ≡ m.posted ++ ps)
        × (map tasks ps
            ≡ (if happens_read c r then task_of c.on_read ∷ [] else [])
              ++ (if happens_write c r then task_of c.on_write ∷ [] else []))
  process_event_lem m n c r owed v here in_read in_write =
      let (m', ps, runs, short, waits, posted, named) =
        both_lem e m n c owed (happens_read c r) (happens_write c r) v here (λ h. ground arith)
          (λ h. ground arith) in
      (m', ps, process_runs m n c r here in_read in_write ∙ runs, short, waits, posted, named)

  -- A count that is short never lets the manager stop: with nothing left to wait for and `owed`
  -- events handled, at least one and fewer than 2^64, `stopping` is false whatever the scheduler
  -- and the timers say.
  pub short_never_stops :
      (m : IoManager e) (owed : ℕ) (scheduler_stopping : Bool) (timers : ℕ)
      → IsShort e m owed
      → total m.contexts ≡ 0
      → 0 < owed
      → owed < u64_mod
      → stopping e m scheduler_stopping timers ≡ false
  unfolding stopping
  short_never_stops m owed scheduler_stopping timers v idle some_owed few = ground (arith, v.count)
