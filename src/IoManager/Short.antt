-- ===== src/IoManager/Short.antt =====
-- addEvent and cancelEvent at a manager whose count is short.
use fiber_async.Prelude.{
  ℕ, ◌≡◌, ◌≢◌, [], ◌∷◌, ◌++◌, Option, some, true, false, ◌||◌, ◌&&◌, if◌then◌else◌, ◌==◌, get_elem?,
  ok, is_some, sub64, add64, pos, List, map,
}
use fiber_async.IoManager.{
  Event, event_none, has, FdContext, Posted, IoManager, Caller, add_event, cancel_event, cancel_all,
  event_read, event_write,
}
use fiber_async.IoManager.Interest.{Epoll}
use fiber_async.IoManager.Events.{waits_for, same_event, context_of, task_of, cancel_event_lem}
use fiber_async.IoManager.Adding.{Accepts, add_event_lem}
use fiber_async.IoManager.Registration.{filled}
use fiber_async.IoManager.Firing.{IsShort, tasks}
use fiber_async.IoManager.CancelAll.{posted_by, cancel_all_lem}
use fiber_async.IoManager.Pending.{
  with_pending, counted_off, cancel_all-pending, add_event-pending, cancel_event-pending,
}
use fiber_async.IoManager.Reach.{cancel_all-IsShort, add_event-IsShort, cancel_event-IsShort}

module _ (e : Epoll) (m : IoManager e) (owed n : ℕ) (event : Event) (v : IsShort e m owed) where
  pub add_event_runs :
      (cb : Option ℕ) (who : Caller)
      → event ≢ event_none
      → is_some who.scheduler ≡ true
      → (is_some cb || who.running) ≡ true
      → Accepts e m n
      → waits_for m.contexts n event ≡ false
      → (m' : IoManager e) × (c' : FdContext) × (add_event e m (pos n) event cb who ≡ ok m')
        × IsShort e m' owed
        × ((k : ℕ) (other : Event)
            → waits_for m'.contexts k other
              ≡ (if n == k && same_event event other then true else waits_for m.contexts k other))
        × (get_elem? m'.contexts n ≡ some c')
        × (context_of c' event ≡ filled cb who)
        × (m'.posted ≡ m.posted)
  add_event_runs cb who real scheduled ready accepts free =
      let full = with_pending e m (add64 m.pending owed) in
      let (a, c, runs, w, waits, here, stored, posted) =
        add_event_lem e full n event cb who v real scheduled ready accepts free in
      let goes = add_event-pending e m (add64 m.pending owed) n event cb who a runs in
      (
        with_pending e a (add64 m.pending 1),
        c,
        goes,
        add_event-IsShort e m (with_pending e a (add64 m.pending 1)) owed n event cb who v real
            scheduled ready accepts free goes,
        waits,
        here,
        stored,
        posted,
      )

  pub cancel_event_runs :
      (m' : IoManager e) × (cancel_event e m (pos n) event ≡ ok (m', waits_for m.contexts n event))
      × IsShort e m' owed
      × ((k : ℕ) (other : Event)
          → waits_for m'.contexts k other
            ≡ (if n == k && same_event event other then false else waits_for m.contexts k other))
      × ((c : FdContext)
          → get_elem? m.contexts n ≡ some c
          → has c.events event ≡ true
          → (p : Posted) × (m'.posted ≡ m.posted ++ p ∷ [])
            × (p.task ≡ task_of (context_of c event))
            × (some p.scheduler ≡ (context_of c event).scheduler))
      × (waits_for m.contexts n event ≡ false → m'.posted ≡ m.posted)
  cancel_event_runs =
      let full = with_pending e m (add64 m.pending owed) in
      let found = waits_for m.contexts n event in
      let (a, runs, w, waits, posted, nothing) = cancel_event_lem e full n event v in
      let goes = cancel_event-pending e m (add64 m.pending owed) n event a found runs in
      let m' = with_pending e a (if found then sub64 m.pending 1 else m.pending) in
      (m', goes, cancel_event-IsShort e m m' owed n event found v goes, waits, posted, nothing)

  pub cancel_all_runs :
      (m' : IoManager e) × (cancel_all e m (pos n)
        ≡ ok (m', waits_for m.contexts n event_read || waits_for m.contexts n event_write))
      × IsShort e m' owed
      × ((k : ℕ) (other : Event)
          → waits_for m'.contexts k other
            ≡ (if n == k then false else waits_for m.contexts k other))
      × ((ps : List Posted) × (m'.posted ≡ m.posted ++ ps)
          × (map tasks ps
              ≡ posted_by e (with_pending e m (add64 m.pending owed)) n v event_read
                ++ posted_by e (with_pending e m (add64 m.pending owed)) n v event_write))
  cancel_all_runs =
      let full = with_pending e m (add64 m.pending owed) in
      let (a, ps, runs, w, silent, posted, named) = cancel_all_lem e full n v in
      let (x, y, goes, count) = cancel_all-pending e m (add64 m.pending owed) n a _ runs in
      let m' = with_pending e a (counted_off e y (counted_off e x m.pending)) in
      (m', goes, cancel_all-IsShort e m m' owed n _ v goes, silent, (ps, posted, named))
