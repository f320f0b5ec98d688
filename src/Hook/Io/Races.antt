-- ===== src/Hook/Io/Races.antt =====
-- The event that a call of do_io waits for, and its timeout, in either order.
use fiber_async.Prelude.{
  ℕ, ◌≡◌, refl, List, [], ◌∷◌, ◌++◌, some, true, false, ◌&&◌, arith, if◌then◌else◌, ◌==◌, ok, pos,
  get_elem?, map, fail, Failure, ◌∙◌,
}
use fiber_async.IoManager.{
  Event, event_read, event_write, has, FdContext, Posted, IoManager, process_event, Ready,
}
use fiber_async.IoManager.Interest.{Epoll}
use fiber_async.IoManager.Events.{waits_for, same_event, context_of, task_of}
use fiber_async.IoManager.Firing.{IsShort, tasks}
use fiber_async.IoManager.Processing.{
  both_ways, process_event_lem, unwaited_aborts, waits_for-write,
}
use fiber_async.IoManager.Short.{cancel_event_runs}
use fiber_async.Hook.Io.{on_timeout, etimedout}

module _ (e : Epoll) (m : IoManager e) (owed n : ℕ) (v : IsShort e m owed) where
  -- The timeout of a call that still waits, at a manager that is consistent but for its count: it
  -- posts the fiber or callback of the wait once if the event is still waited for, and nothing if it
  -- has happened or was cancelled before. In both cases the call then reports ETIMEDOUT; the event is
  -- not waited for any more, and all other waits are as before.
  pub on_timeout_lem :
      (event : Event)
      → (m' : IoManager e) × (on_timeout e m (pos n) event (some 0) ≡ ok (m', some etimedout))
        × IsShort e m' owed
        × ((k : ℕ) (other : Event)
            → waits_for m'.contexts k other
              ≡ (if n == k && same_event event other then false else waits_for m.contexts k other))
        × ((c : FdContext)
            → get_elem? m.contexts n ≡ some c
            → has c.events event ≡ true
            → (p : Posted) × (m'.posted ≡ m.posted ++ p ∷ [])
              × (p.task ≡ task_of (context_of c event)))
        × (waits_for m.contexts n event ≡ false → m'.posted ≡ m.posted)
  unfolding on_timeout
  on_timeout_lem event =
      let (m', runs, short, waits, posts, nothing) = cancel_event_runs e m owed n event v in
      (
        m',
        rw runs refl,
        short,
        waits,
        λ c here on. let (p, more, task, scheduler) = posts c here on in (p, more, task),
        nothing,
      )

abbrev readable_only : Ready
readable_only = record { readable = true; writable = false; failed = false }

module _ (e : Epoll) (m : IoManager e) (owed n : ℕ) (c : FdContext) (v : IsShort e m owed)
    (here : get_elem? m.contexts n ≡ some c) (reads : c.events.read ≡ true) where
  -- A call waits to read, its data comes, and the timer fires before the fiber is resumed: the fiber
  -- is posted once, for the event, and not again by the timeout. But the call is told ETIMEDOUT.
  pub event_then_timeout :
      (m₁ : IoManager e) × (m₂ : IoManager e) × (ps : List Posted) × (process_event e m n
          readable_only
        ≡ ok m₁)
      × (on_timeout e m₁ (pos n) event_read (some 0) ≡ ok (m₂, some etimedout))
      × (m₂.posted ≡ m.posted ++ ps)
      × (map tasks ps ≡ task_of c.on_read ∷ [])
  event_then_timeout =
      let (m₁, ps, runs, short, waits, posted, named) =
        process_event_lem e m n c readable_only owed v here (λ _. reads) (λ h. cc) in
      let gone : waits_for m₁.contexts n event_read ≡ false = ground (arith, waits n event_read) in
      let (m₂, times_out, short₂, waits₂, posts, nothing) =
        on_timeout_lem e m₁ _ n short event_read in
      (m₁, m₂, ps, runs, times_out, nothing gone ∙ posted, ground (arith, named))

  -- Both directions of a descriptor are waited for and epoll_wait has reported both; before the
  -- reports are handled, the wait to read is cancelled, as by a timeout in another thread. Then
  -- handling the report aborts the process, by the assertion in triggerEvent.
  pub stale_report_aborts :
      c.events.write ≡ true
      → (m₁ : IoManager e) × (on_timeout e m (pos n) event_read (some 0) ≡ ok (m₁, some etimedout))
        × (process_event e m₁ n both_ways ≡ fail Failure.aborted)
  stale_report_aborts writes =
      let (m₁, times_out, short, waits, posts, nothing) = on_timeout_lem e m owed n v event_read in
      let busy = waits_for-write m.contexts n c here writes in
      (
        m₁,
        times_out,
        unwaited_aborts e m₁ n (ground (arith, waits n event_read))
            (ground (arith, waits n event_write)),
      )
