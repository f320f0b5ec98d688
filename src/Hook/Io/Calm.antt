-- ===== src/Hook/Io/Calm.antt =====
-- That no wait of a call fails, where the others that run while it waits leave its event and its
-- timers alone.
use fiber_async.Prelude.{
  ℕ, ◌≡◌, ◌≢◌, inl, inr, List, [], ◌∷◌, Bool, true, false, not, ◌&&◌, arith, if◌then◌else◌, ◌==◌,
  ok, pos, is_some, contains, u64_max, length, sym, subst, ap, some, ◌∙◌,
}
use fiber_async.Timer.Invariant.{IsValid}
use fiber_async.FdManager.{get_timeout}
use fiber_async.FdManager.Slots.{slot}
use fiber_async.IoManager.{event_none}
use fiber_async.IoManager.Interest.{Epoll}
use fiber_async.IoManager.Events.{waits_for}
use fiber_async.IoManager.Adding.{Accepts}
use fiber_async.IoManager.Firing.{IsShort}
use fiber_async.Hook.Io.{Arm, World, Round, Request, would_block, kind_of, do_io, park, unpark}
use fiber_async.Hook.Io.First.{Kind-cases, first, ended, Goes, do_io-first}
use fiber_async.Hook.Io.Waiting.{AddsTimer, park_lem, unpark_lem}

module _ (e : Epoll) (q : Request e) (n : ℕ) (mine : ℕ → Bool) where
  -- A world in which the call can wait; `mine` are the addresses of its timers.
  pub record IsReady (w : World e) : Type 0 where
    pub owed : ℕ
    pub short : IsShort e w.io owed
    pub timers : IsValid w.timers
    pub accepts : Accepts e w.io n
    pub free : waits_for w.io.contexts n q.event ≡ false
    pub fresh : (t : ℕ) → mine t ≡ true → contains w.timers.timers t ≡ false

  -- Whether the timer of the wait is there.
  abbrev own_timer : ℕ → ℕ → ℕ → Bool
  own_timer to timer t = not (to == u64_max) && timer == t

  -- The world when the fiber yields: it waits, its timer is armed if it has one, and no other timer of
  -- the call is there.
  pub record IsParked (w : World e) (timer to : ℕ) : Type 0 where
    pub owed : ℕ
    pub short : IsShort e w.io owed
    pub timers : IsValid w.timers
    pub waits : waits_for w.io.contexts n q.event ≡ true
    pub armed : (to == u64_max) ≡ false → is_some (w.timers.store timer).cb ≡ true
    pub fresh :
        (t : ℕ) → mine t ≡ true → own_timer to timer t ≡ false → contains w.timers.timers t ≡ false

  -- The world when the fiber is resumed: it does not wait any more, and the timer of the wait is there
  -- only if it is armed.
  pub record IsResumed (w : World e) (timer to : ℕ) : Type 0 where
    pub owed : ℕ
    pub short : IsShort e w.io owed
    pub timers : IsValid w.timers
    pub accepts : Accepts e w.io n
    pub free : waits_for w.io.contexts n q.event ≡ false
    pub fresh :
        (t : ℕ) → mine t ≡ true → own_timer to timer t ≡ false → contains w.timers.timers t ≡ false
    pub fired :
        (to == u64_max) ≡ false
        → is_some (w.timers.store timer).cb ≡ false
        → contains w.timers.timers timer ≡ false

  -- What runs while the call waits resumes it so, each time.
  abbrev pub AllResume : ℕ → List (Round e) → Type 0
  AllResume to [] = Unit {0}
  AllResume to (r ∷ rs) =
      (mine r.timer ≡ true)
      × ((w : World e) → IsParked w r.timer to → IsResumed (r.others w) r.timer to)
      × AllResume to rs

  unparked-IsReady :
      (w w' : World e) (r : Round e) (to : ℕ)
      → IsResumed w r.timer to
      → w'.io ≡ w.io
      → IsValid w'.timers
      → ((p : ℕ)
          → contains w'.timers.timers p ≡ (
              if (not (to == u64_max) && is_some (w.timers.store r.timer).cb) && r.timer == p
              then false
              else contains w.timers.timers p))
      → IsReady w'
  unparked-IsReady w w' r to s io valid others = record {
    owed = s.owed;
    short = subst (λ i. IsShort e i s.owed) (sym io) s.short;
    timers = valid;
    accepts = subst (λ i. Accepts e i n) (sym io) s.accepts;
    free = ap (λ i. waits_for i.contexts n q.event) io ∙ s.free;
    fresh = λ t own. ground (arith, others t, s.fresh t own, s.fired);
  }

  module _ (arm : Arm) (law : AddsTimer arm) (to : ℕ) (fd : q.fd ≡ pos n)
      (managed : q.manager ≡ true) (real : q.event ≢ event_none)
      (scheduled : is_some q.who.scheduler ≡ true) (running : q.who.running ≡ true) where
    park-IsParked :
        (w : World e) (r : Round e)
        → IsReady w
        → mine r.timer ≡ true
        → (w' : World e) × (park e arm w q to r ≡ ok w') × IsParked w' r.timer to
    park-IsParked w r s own =
        let (w', runs, (fds, short, timers, waits, here, posted, never, some_time, others)) =
          park_lem e arm law w q n to s.owed r fd s.short s.timers (s.fresh r.timer own) managed
            real scheduled running s.accepts s.free in
        (
          w',
          runs,
          record {
            owed = s.owed;
            short = short;
            timers = timers;
            waits = ground (arith, waits n q.event);
            armed = λ h. (some_time h).0;
            fresh = λ t mine_too other. (others t other).1 ∙ s.fresh t mine_too;
          },
        )

    waits-Goes :
        (w : World e) (r : Round e) (rs : List (Round e))
        → kind_of r.answer ≡ would_block
        → (waiting : World e) × (w' : World e) × (park e arm w q to r ≡ ok waiting)
          × (unpark e (r.others waiting) to r ≡ ok w')
          × Goes e arm w' q to rs
        → Goes e arm w q to (r ∷ rs)
    waits-Goes w r rs is h = rw (is, Goes) h

    calm-Goes :
        (w : World e) (rs : List (Round e)) → IsReady w → AllResume to rs → Goes e arm w q to rs
    calm-Goes w [] s h = tt
    calm-Goes w (r ∷ rs) s (own, resumes, rest) = elim (Kind-cases (kind_of r.answer)) [
      | inl is ↦ rw (is, Goes) (calm-Goes w rs s rest)
      | inr (inr is) ↦ rw (is, Goes) tt
      | inr (inl is) ↦
          let (waiting, parks, parked) = park-IsParked w r s own in
          let back = resumes waiting parked in
          let (w', unparks, fds, io, valid, off, others) =
            unpark_lem e (r.others waiting) to r back.timers in
          waits-Goes w r rs is (
            waiting,
            w',
            parks,
            unparks,
            calm-Goes w' rs (unparked-IsReady (r.others waiting) w' r to back io valid others) rest,
          )
    ]

    -- do_io on an open socket that its user has not set non-blocking, in a thread with hooks and with
    -- an IOManager, called by a running fiber: where nobody else waits for the event, the call's timers
    -- are new, and what runs during each wait ends it before the fiber is resumed, the call never
    -- fails or aborts. It returns the first answer of the system that is neither EINTR nor EAGAIN, or
    -- -1 with the timer's errno if a wait is timed out before that, after as many calls of the system,
    -- and does not return before there is such a round.
    pub do_io_lem :
        (w : World e) (p : ℕ) (rs : List (Round e))
        → slot w.fds n ≡ some p
        → (w.fds.ctxs p).is_closed ≡ false
        → (w.fds.ctxs p).is_socket ≡ true
        → (w.fds.ctxs p).user_nonblock ≡ false
        → to ≡ get_timeout (w.fds.ctxs p) q.timeout_so
        → IsReady w
        → AllResume to rs
        → (w' : World e) × (do_io e arm true w q rs ≡ ok (ended e w' 0 (length rs) (first e rs)))
    do_io_lem w p rs here is_open socket blocks limit s h =
        do_io-first e arm q to w n p rs fd here is_open socket blocks limit (calm-Goes w rs s h)
