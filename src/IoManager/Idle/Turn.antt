-- ===== src/IoManager/Idle/Turn.antt =====
-- One turn of the idle loop, timers and descriptors together.
use fiber_async.Prelude.{
  ℤ, ℕ, ◌+◌, ◌≡◌, refl, subst, ap, ◌∙◌, List, [], ◌++◌, Bool, false, if◌then◌else◌, ok, length,
  contains,
}
use mathlib.Core.Path.{ap₂}
use fiber_async.Timer.{TimerManager, list_expired_cb, get_next_timer}
use fiber_async.Timer.Invariant.{IsValid}
use fiber_async.Timer.Wait.{get_next_timer-manager, get_next_timer-taken_of}
use fiber_async.Timer.Expiry.{taken_of, rolled_over}
use fiber_async.Timer.Fired.{cbs_of}
use fiber_async.Timer.Due.{list_expired-cbs, list_expired-IsValid}
use fiber_async.IoManager.{Event, Posted, IoManager, stopping, wait_ms}
use fiber_async.IoManager.Interest.{Epoll}
use fiber_async.IoManager.Events.{waits_for}
use fiber_async.IoManager.Firing.{IsShort}
use fiber_async.IoManager.Idle.{Report, reports, Turned, yields, post_cbs, serve, idle_turn}
use fiber_async.IoManager.Idle.Handled.{handled, handle_reports-view}
use fiber_async.IoManager.Waiting.{waiting_at, view}
use fiber_async.IoManager.Idle.Reports.{AllFit, count_happens, happened, handle_reports_lem}

-- The tasks of the timers that listExpiredCb takes out at the clock reading `now`.
abbrev pub timer_tasks : TimerManager → ℕ → ℕ → ℕ → List Posted
timer_tasks tm self now mark =
    post_cbs self (cbs_of tm.store (taken_of tm (rolled_over tm now) now mark))

module _ (e : Epoll) (m : IoManager e) (owed : ℕ) (rs : List Report) where
  -- What a turn that serves the reports leaves, with the tasks of the timers that it posts.
  abbrev pub Served : List Posted → Turned e → Type 0
  Served timed t =
      (m' : IoManager e) × (tm' : TimerManager) × (ms : ℤ) × (ps : List Posted) × (t
        ≡ yields m' tm' ms)
      × IsValid tm'
      × IsShort e m' (owed + count_happens m.contexts rs)
      × (m'.posted ≡ m.posted ++ timed ++ ps)
      × (length ps ≡ count_happens m.contexts rs)
      × (view e m'
          ≡ handled rs (record { waiting = waiting_at m.contexts; posted = m.posted ++ timed }))
      × ((k : ℕ) (other : Event)
          → waits_for m'.contexts k other
            ≡ (if happened m.contexts rs k other then false else waits_for m.contexts k other))

module _ (e : Epoll) (m : IoManager e) (tm : TimerManager) (self owed : ℕ) (clock : ℕ → ℕ)
    (mark : ℕ) (rs : List Report) (v : IsShort e m owed) (w : IsValid tm)
    (fresh : contains tm.timers mark ≡ false) (fit : AllFit m.contexts rs) where
  serve_lem :
      (ms : ℤ)
      → (t : Turned e) × (serve e m tm self ms clock mark rs ≡ ok t)
        × Served e m owed rs (timer_tasks tm self (clock 0) mark) t
  unfolding serve
  serve_lem ms =
      let cbs = (list_expired_cb tm clock mark []).1 in
      let m₁ : IoManager e = record m { posted = m.posted ++ post_cbs self cbs } in
      let v₁ : IsShort e m₁ owed = record {
        tidy = v.tidy;
        entry = v.entry;
        count = v.count;
        large = v.large;
      } in
      let (m', ps, runs, short, waits, posted, many) = handle_reports_lem e m₁ rs owed v₁ fit in
      (
        yields m' (list_expired_cb tm clock mark []).0 ms,
        rw runs refl,
        (
          m',
          (list_expired_cb tm clock mark []).0,
          ms,
          ps,
          refl,
          list_expired-IsValid tm clock mark [] fresh w,
          short,
          posted
              ∙ ap (λ l. m.posted ++ post_cbs self l ++ ps)
                  (list_expired-cbs tm clock mark [] fresh w),
          many,
          handle_reports-view e m₁ m' rs owed v₁ fit runs
              ∙ ap
                  (λ l. handled rs (record {
                    waiting = waiting_at m.contexts;
                    posted = m.posted ++ post_cbs self l;
                  }))
                  (list_expired-cbs tm clock mark [] fresh w),
          waits,
        ),
      )

module _ (e : Epoll) (m : IoManager e) (tm : TimerManager) (self owed : ℕ) (clock : ℕ → ℕ)
    (mark : ℕ) (rs : List Report) (v : IsShort e m owed) (w : IsValid tm)
    (fresh : contains tm.timers mark ≡ false) (fit : AllFit m.contexts rs) where
  -- A turn of the idle loop in which the manager is not told to stop and epoll_wait reports events,
  -- each descriptor once and with nothing that is not waited for, always comes to its `yield`. It posts
  -- first the callbacks of the timers that listExpiredCb takes out, in the order of the set: all of
  -- them after a rollover of the clock, and otherwise those due before the clock reading, and of those
  -- due exactly then the ones at lower addresses than the call's own mark. Then it posts, in the order
  -- of the reports, for each event that happens the task that was registered for it, to the scheduler
  -- that it was registered with; these events are no longer waited for and all others still are. The
  -- set of timers stays valid, and the count falls short by one more for each event.
  pub idle_turn_lem :
      (scheduler_stopping : Bool) (now : ℕ)
      → stopping e m scheduler_stopping (length tm.timers) ≡ false
      → (t : Turned e) × (idle_turn e m tm self scheduler_stopping now (reports rs) clock mark
          ≡ ok t)
        × Served e m owed rs (timer_tasks tm self (clock 0) mark) t
  unfolding idle_turn
  idle_turn_lem scheduler_stopping now goes =
      let asked = (get_next_timer tm now).0 in
      let same = get_next_timer-manager tm now in
      let (t, runs, served) =
        serve_lem e m asked self owed clock mark rs v
          (rw same (record { sorted = w.sorted; armed = w.armed })) (rw same fresh) fit
          (wait_ms (get_next_timer tm now).1) in
      (
        t,
        rw goes runs,
        subst (λ l. Served e m owed rs l t)
            (ap₂ (λ s ps. post_cbs self (cbs_of s ps)) (ap (λ (z : TimerManager). z.store) same)
              (get_next_timer-taken_of tm now (clock 0) mark))
            served,
      )
