-- ===== src/Hook/Io/Waiting.antt =====
-- A wait of do_io: what it leaves behind when the fiber yields, and when it is resumed.
use fiber_async.Prelude.{
  ℕ, ◌≡◌, ◌≢◌, refl, inl, inr, none, some, true, false, not, ◌&&◌, arith, if◌then◌else◌, ◌==◌, ok,
  pos, is_some, contains, get_elem?, add64, Bool-cases, u64_max,
}
use fiber_async.Timer.{TimerManager, Callback}
use fiber_async.Timer.Invariant.{IsValid, cancelled, cancelled-IsValid, cancel_armed, cancel_idle}
use fiber_async.Timer.Set.{contains-erase}
use fiber_async.IoManager.{Event, event_none, FdContext}
use fiber_async.IoManager.Interest.{Epoll}
use fiber_async.IoManager.Events.{waits_for, same_event, context_of}
use fiber_async.IoManager.Adding.{Accepts}
use fiber_async.IoManager.Registration.{filled}
use fiber_async.IoManager.Firing.{IsShort}
use fiber_async.IoManager.Short.{add_event_runs}
use fiber_async.Hook.Io.{Arm, World, Round, Request, park, unpark}

-- What do_io relies on: the call adds a timer, armed and due after the time that is given, and leaves
-- the other timers alone.
pub record AddsTimer (arm : Arm) : Type 0 where
  pub valid :
      (m : TimerManager) (p ms : ℕ) (cb : Callback) (now : ℕ)
      → contains m.timers p ≡ false
      → IsValid m
      → IsValid (arm m p ms cb now)
  pub armed :
      (m : TimerManager) (p ms : ℕ) (cb : Callback) (now : ℕ)
      → is_some ((arm m p ms cb now).store p).cb ≡ true
  pub due :
      (m : TimerManager) (p ms : ℕ) (cb : Callback) (now : ℕ)
      → ((arm m p ms cb now).store p).next ≡ add64 now ms
  pub others :
      (m : TimerManager) (p ms : ℕ) (cb : Callback) (now q : ℕ)
      → (p == q) ≡ false
      → ((arm m p ms cb now).store q ≡ m.store q)
        × (contains (arm m p ms cb now).timers q ≡ contains m.timers q)

module _ (e : Epoll) (arm : Arm) (law : AddsTimer arm) (w : World e) (q : Request e) (n to owed : ℕ)
    (r : Round e) (fd : q.fd ≡ pos n) (v : IsShort e w.io owed) (t : IsValid w.timers)
    (fresh : contains w.timers.timers r.timer ≡ false) (managed : q.manager ≡ true) where
  -- What the call leaves when its fiber yields.
  abbrev pub Parked : World e → Type 0
  Parked w' =
      (w'.fds ≡ w.fds)
      × IsShort e w'.io owed
      × IsValid w'.timers
      × ((k : ℕ) (other : Event)
          → waits_for w'.io.contexts k other ≡ (
              if n == k && same_event q.event other then true else waits_for w.io.contexts k other))
      × ((c : FdContext) × (get_elem? w'.io.contexts n ≡ some c)
          × (context_of c q.event ≡ filled none q.who))
      × (w'.io.posted ≡ w.io.posted)
      × ((to == u64_max) ≡ true → w'.timers ≡ w.timers)
      × ((to == u64_max) ≡ false
          → (is_some (w'.timers.store r.timer).cb ≡ true)
            × ((w'.timers.store r.timer).next ≡ add64 r.now to))
      × ((t : ℕ)
          → (not (to == u64_max) && r.timer == t) ≡ false
          → (w'.timers.store t ≡ w.timers.store t)
            × (contains w'.timers.timers t ≡ contains w.timers.timers t))

  abbrev armed_timers : TimerManager
  armed_timers = if to == u64_max then w.timers else arm w.timers r.timer to r.callback r.now

  armed_timers-IsValid : IsValid armed_timers
  armed_timers-IsValid = elim (Bool-cases (to == u64_max)) [
    | inl never ↦ rw never t
    | inr some_time ↦ rw some_time (law.valid w.timers r.timer to r.callback r.now fresh t)
  ]

  armed_timers-others :
      (t : ℕ)
      → (not (to == u64_max) && r.timer == t) ≡ false
      → (armed_timers.store t ≡ w.timers.store t)
        × (contains armed_timers.timers t ≡ contains w.timers.timers t)
  armed_timers-others t h = elim (Bool-cases (to == u64_max)) [
    | inl never ↦ rw never (refl, refl)
    | inr some_time ↦
        rw some_time (law.others w.timers r.timer to r.callback r.now t (rw some_time at h))
  ]

  -- In a world with valid timers and a manager that is consistent but for its count, where the timer's
  -- address is new and nobody waits for the event on the descriptor yet: a running fiber of a thread
  -- with an IOManager that finds no data parks without failure. Then the event is waited for by this
  -- fiber, all other waits and the descriptor contexts are as before, nothing is posted; and a timer is
  -- armed for the call's timeout exactly if it has one, and the other timers are as before.
  pub park_lem :
      q.event ≢ event_none
      → is_some q.who.scheduler ≡ true
      → q.who.running ≡ true
      → Accepts e w.io n
      → waits_for w.io.contexts n q.event ≡ false
      → (w' : World e) × (park e arm w q to r ≡ ok w') × Parked w'
  unfolding park
  park_lem real scheduled running accepts free =
      let (io, c, runs, short, waits, here, stored, posted) =
        add_event_runs e w.io owed n q.event v none q.who real scheduled running accepts free in
      let w' : World e = record w { timers = armed_timers; io = io } in
      (
        w',
        rw (managed, fd, runs) refl,
        (
          refl,
          short,
          armed_timers-IsValid,
          waits,
          (c, here, stored),
          posted,
          λ never. rw never refl,
          λ some_time. rw some_time (
            law.armed w.timers r.timer to r.callback r.now,
            law.due w.timers r.timer to r.callback r.now,
          ),
          armed_timers-others,
        ),
      )

-- With valid timers the call is resumed without failure; its timer, if it has one, is out of the set
-- and has no callback, no other timer changes, and the timers stay valid.
pub unpark_lem :
    (e : Epoll) (w : World e) (to : ℕ) (r : Round e)
    → IsValid w.timers
    → (w' : World e) × (unpark e w to r ≡ ok w')
      × (w'.fds ≡ w.fds)
      × (w'.io ≡ w.io)
      × IsValid w'.timers
      × ((to == u64_max) ≡ false → is_some (w'.timers.store r.timer).cb ≡ false)
      × ((p : ℕ)
          → contains w'.timers.timers p ≡ (
              if (not (to == u64_max) && is_some (w.timers.store r.timer).cb) && r.timer == p
              then false
              else contains w.timers.timers p))
unfolding unpark
unpark_lem e w to r t = elim (Bool-cases (to == u64_max)) [
  | inl never ↦ (w, rw never refl, refl, refl, t, λ h. cc, λ p. rw never refl)
  | inr some_time ↦ elim (Bool-cases (is_some (w.timers.store r.timer).cb)) [
    | inl on ↦ (
      record w { timers = cancelled w.timers r.timer },
      rw (some_time, cancel_armed w.timers r.timer t on) refl,
      refl,
      refl,
      cancelled-IsValid w.timers r.timer t,
      λ h. ground arith,
      λ p. rw (some_time, on) (contains-erase w.timers.store r.timer p w.timers.timers t.sorted),
    )
    | inr off ↦ (
      w,
      rw (some_time, cancel_idle w.timers r.timer off) refl,
      refl,
      refl,
      t,
      λ h. off,
      λ p. rw (some_time, off) refl,
    )
  ]
]
