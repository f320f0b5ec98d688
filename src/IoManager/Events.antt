-- ===== src/IoManager/Events.antt =====
-- delEvent and cancelEvent, on every branch.
use fiber_async.Prelude.{
  ℕ, ◌≡◌, refl, sym, inl, inr, List, [], ◌∷◌, ◌++◌, some, none, Bool, true, false, ◌&&◌, arith,
  if◌then◌else◌, ◌==◌, set, get_elem?, ok, Bool-cases, Option-cases, pos,
}
use fiber_async.IoManager.{
  Event, event_none, event_read, event_write, has, without, EventContext, blank, FdContext,
  set_event_context, Posted, Task, run_cb, run_fiber, trigger_event, IoManager, unregister,
  del_event, cancel_event,
}
use fiber_async.IoManager.Interest.{Mask, Epoll}
use fiber_async.IoManager.Contexts.{get_elem?-lt, get_elem?-set, get_elem?-some}
use fiber_async.IoManager.Invariant.{
  IsTidy, IsConsistent, dropped, posted-IsConsistent, unregister_lem,
}

-- Whether a descriptor's event is waited for.
abbrev pub waits_for : List FdContext → ℕ → Event → Bool
waits_for cs k event = elim (get_elem? cs k) [ none ↦ false | some c ↦ has c.events event ]

abbrev pub same_event : Event → Event → Bool
same_event event_none event_none = true
same_event event_read event_read = true
same_event event_write event_write = true
same_event _ _ = false

pub same_event-eq : (a b : Event) → same_event a b ≡ true → a ≡ b
same_event-eq event_none event_none h = refl
same_event-eq event_none event_read h = cc
same_event-eq event_none event_write h = cc
same_event-eq event_read event_none h = cc
same_event-eq event_read event_read h = refl
same_event-eq event_read event_write h = cc
same_event-eq event_write event_none h = cc
same_event-eq event_write event_read h = cc
same_event-eq event_write event_write h = refl

-- What triggering an event hands to the scheduler: the callback, or the fiber where there is none.
abbrev pub task_of : EventContext → Task
task_of ec = elim ec.cb [ none ↦ run_fiber ec.fiber | some f ↦ run_cb f ]

abbrev pub context_of : FdContext → Event → EventContext
context_of c event_none = blank
context_of c event_read = c.on_read
context_of c event_write = c.on_write

has-without :
    (m : Mask) (event other : Event)
    → has (without m event) other ≡ (if same_event event other then false else has m other)
unfolding has without
has-without m event_none event_none = refl
has-without m event_none event_read = refl
has-without m event_none event_write = refl
has-without m event_read event_none = refl
has-without m event_read event_read = refl
has-without m event_read event_write = refl
has-without m event_write event_none = refl
has-without m event_write event_read = refl
has-without m event_write event_write = refl

pub waits_for-dropped :
    (cs : List FdContext) (n : ℕ) (c : FdContext) (event : Event) (k : ℕ) (other : Event)
    → get_elem? cs n ≡ some c
    → waits_for (set cs n (dropped c event)) k other
      ≡ (if n == k && same_event event other then false else waits_for cs k other)
waits_for-dropped cs n c event k other here = ground (
  arith,
  get_elem?-set cs n (dropped c event) k (get_elem?-lt cs n here),
  has-without c.events event other,
)

-- Triggering an event that is waited for succeeds.
pub trigger_event_lem :
    (n : ℕ) (c : FdContext) (event : Event)
    → IsTidy n c
    → has c.events event ≡ true
    → (p : Posted) × (trigger_event c event ≡ ok (set_event_context c event blank, p))
      × (p.task ≡ task_of (context_of c event))
      × (some p.scheduler ≡ (context_of c event).scheduler)
unfolding trigger_event
trigger_event_lem n c event_none t h = cc
trigger_event_lem n c event_read t h = elim (Option-cases c.on_read.scheduler) [
  | inl e ↦ absurd (ground (arith, t.read_ready))
  | inr (s, e) ↦ (record { scheduler = s; task = task_of c.on_read }, ground arith, refl, sym e)
]
trigger_event_lem n c event_write t h = elim (Option-cases c.on_write.scheduler) [
  | inl e ↦ absurd (ground (arith, t.write_ready))
  | inr (s, e) ↦ (record { scheduler = s; task = task_of c.on_write }, ground arith, refl, sym e)
]

module _ (e : Epoll) (m : IoManager e) (n : ℕ) (event : Event) (v : IsConsistent e m) where
  abbrev waits : Bool
  waits = waits_for m.contexts n event

  -- A call that finds nothing to take out.
  del_nothing : waits ≡ false → del_event e m (pos n) event ≡ ok (m, false)
  unfolding del_event
  del_nothing h = ground (arith, get_elem?-some m.contexts n)

  cancel_nothing : waits ≡ false → cancel_event e m (pos n) event ≡ ok (m, false)
  unfolding cancel_event
  cancel_nothing h = ground (arith, get_elem?-some m.contexts n)

  waiting :
      waits ≡ true
      → (c : FdContext) × (get_elem? m.contexts n ≡ some c) × (has c.events event ≡ true)
  waiting h = elim (Option-cases (get_elem? m.contexts n)) [
    | inl none_there ↦ absurd (ground arith)
    | inr (c, here) ↦ (c, here, ground arith)
  ]

  -- Everything but the event of this descriptor is waited for as before.
  abbrev pub Without : IoManager e → Type 0
  Without m' =
      (k : ℕ) (other : Event)
      → waits_for m'.contexts k other
        ≡ (if n == k && same_event event other then false else waits_for m.contexts k other)

  unchanged : waits ≡ false → Without m
  unchanged h k other = ground (arith, same_event-eq event other)

  del_something :
      (c : FdContext) (m' : IoManager e)
      → get_elem? m.contexts n ≡ some c
      → has c.events event ≡ true
      → unregister e m n (set_event_context c event blank) event ≡ ok m'
      → del_event e m (pos n) event ≡ ok (m', true)
  unfolding del_event
  del_something c m' here on runs = ground (arith, get_elem?-lt m.contexts n here)

  cancel_something :
      (c : FdContext) (p : Posted) (m' : IoManager e)
      → get_elem? m.contexts n ≡ some c
      → has c.events event ≡ true
      → trigger_event c event ≡ ok (set_event_context c event blank, p)
      → unregister e
          (record m { posted = m.posted ++ p ∷ [] })
          n
          (set_event_context c event blank)
          event
        ≡ ok m'
      → cancel_event e m (pos n) event ≡ ok (m', true)
  unfolding cancel_event
  cancel_something c p m' here on fired runs = ground (arith, get_elem?-lt m.contexts n here)

  -- In a consistent manager, `delEvent` on a descriptor that is not negative always returns: whether the event was waited for. It no longer is, nothing else
  -- changes, nothing is posted, and table, count and epoll still agree.
  pub del_event_lem :
      (m' : IoManager e) × (del_event e m (pos n) event ≡ ok (m', waits))
      × IsConsistent e m'
      × Without m'
      × (m'.posted ≡ m.posted)
  del_event_lem = elim (Bool-cases waits) [
    | inl yes_waits ↦
        let (c, here, on) = waiting yes_waits in
        let (m', runs, v', table, posted, pending) = unregister_lem e m n c event v here on in
        (
          m',
          rw yes_waits (del_something c m' here on runs),
          v',
          λ k other. rw table (waits_for-dropped m.contexts n c event k other here),
          posted,
        )
    | inr no_waits ↦ (m, rw no_waits (del_nothing no_waits), v, unchanged no_waits, refl)
  ]

  -- What `cancelEvent` posts: the event's task, to the scheduler that it was registered with.
  abbrev pub PostedFor : IoManager e → Type 0
  PostedFor m' =
      (c : FdContext)
      → get_elem? m.contexts n ≡ some c
      → has c.events event ≡ true
      → (p : Posted) × (m'.posted ≡ m.posted ++ p ∷ [])
        × (p.task ≡ task_of (context_of c event))
        × (some p.scheduler ≡ (context_of c event).scheduler)

  -- In a consistent manager, `cancelEvent` on a descriptor that is not negative always returns: whether the event was waited for. It no longer is, and nothing
  -- else changes; if it was, its callback or fiber is posted once, to the scheduler that it was
  -- registered with, and else nothing is. Table, count and epoll still agree.
  pub cancel_event_lem :
      (m' : IoManager e) × (cancel_event e m (pos n) event ≡ ok (m', waits))
      × IsConsistent e m'
      × Without m'
      × PostedFor m'
      × (waits ≡ false → m'.posted ≡ m.posted)
  cancel_event_lem = elim (Bool-cases waits) [
    | inl yes_waits ↦
        let (c, here, on) = waiting yes_waits in
        let (p, fired, task, scheduler) = trigger_event_lem n c event (v.tidy n c here) on in
        let ps = m.posted ++ p ∷ [] in
        let (m', runs, v', table, posted, pending) =
          unregister_lem e (record m { posted = ps }) n c event (posted-IsConsistent e m ps v) here
            on in
        (
          m',
          rw yes_waits (cancel_something c p m' here on fired runs),
          v',
          λ k other. rw table (waits_for-dropped m.contexts n c event k other here),
          λ d there _. let same : c ≡ d = cc in (p, posted, rw same at task, rw same at scheduler),
          λ no_waits. cc,
        )
    | inr no_waits ↦ (
      m,
      rw no_waits (cancel_nothing no_waits),
      v,
      unchanged no_waits,
      λ c here on. absurd (ground (arith, no_waits)),
      λ h. refl,
    )
  ]
