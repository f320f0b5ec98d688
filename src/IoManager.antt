-- ===== src/IoManager.antt =====
-- include/iomanager.hpp and src/iomanager.cc: the events that are waited for on each descriptor. The
-- vector `m_fdContexts` holds no null pointer between two operations, so it is a list of contexts,
-- and a pointer to one is its index. epoll is the parameter `e`. What `add_task` is called with goes
-- to the list `posted`, with the scheduler that it is called on. A callback, a fiber and a scheduler
-- are numbers that name them. Locks are not part of the state. A context that a resize to fewer slots
-- cuts off, as IoManager/Races shows, is gone here; the source leaks it, and epoll's `data.ptr` still
-- leads `idle` to it.
pub mod Interest
pub mod Contexts
pub mod Invariant
pub mod Events
pub mod Firing
pub mod Processing
pub mod Registration
pub mod Adding
pub mod Initial
pub mod CancelAll
pub mod Pending
pub mod Reach
pub mod Short
pub mod Waiting
pub mod Races
pub mod Lifecycle
pub mod Idle
pub mod Pipe
pub mod Tests
use fiber_async.Prelude.{
  ℕ, zero, suc, ◌+◌, ◌*◌, ◌/◌, ◌%◌, ◌-◌, ◌^◌, List, [], ◌∷◌, ◌++◌, Option, some, none, Bool, true,
  false, not, ◌&&◌, ◌||◌, if◌then◌else◌, Outcome, ok, fail, Failure, ◌>>=◌, ◌>>◌, qc_assert,
  throw_if, is_some, u64_max, u32_mod, add64, sub64, ltb, leb, ◌==◌, length, set, ℤ, pos, negsuc,
  at, put_at,
}
use Interest.{Mask, no_events, ctl_add, ctl_mod, ctl_del, Epoll}

pub data Event : Type 0 where
  event_none event_read event_write : Event

-- `m_events & event`, `m_events | event`, `m_events & ~event`.
pub has : Mask → Event → Bool
has m event_none = false
has m event_read = m.read
has m event_write = m.write

pub with_event : Mask → Event → Mask
with_event m event_none = m
with_event m event_read = record m { read = true }
with_event m event_write = record m { write = true }

pub without : Mask → Event → Mask
without m event_none = m
without m event_read = record m { read = false }
without m event_write = record m { write = false }

pub is_nothing : Mask → Bool
is_nothing m = not (m.read || m.write)

pub record EventContext : Type 0 where
  pub scheduler : Option ℕ
  pub fiber : Option ℕ
  pub cb : Option ℕ

-- FdContext::resetEventContext gives this value.
abbrev pub blank : EventContext
blank = record { scheduler = none; fiber = none; cb = none }

pub record FdContext : Type 0 where
  pub fd : ℕ
  pub events : Mask
  pub on_read : EventContext
  pub on_write : EventContext

abbrev pub new_context : ℕ → FdContext
new_context i = record {
  fd = i;
  events = record { read = false; write = false };
  on_read = blank;
  on_write = blank;
}

pub data Task : Type 0 where
  run_cb : ℕ → Task
  run_fiber : Option ℕ → Task

pub record Posted : Type 0 where
  pub scheduler : ℕ
  pub task : Task

-- FdContext::getEventContext throws on any other event.
pub get_event_context : FdContext → Event → Outcome EventContext
get_event_context c event_none = fail Failure.thrown
get_event_context c event_read = ok c.on_read
get_event_context c event_write = ok c.on_write

pub set_event_context : FdContext → Event → EventContext → FdContext
set_event_context c event_none ec = c
set_event_context c event_read ec = record c { on_read = ec }
set_event_context c event_write ec = record c { on_write = ec }

-- `ctx.scheduler->add_task(...)`: undefined on a null scheduler.
pub post : EventContext → Outcome Posted
post ec = elim ec.scheduler [
  | none ↦ fail Failure.undefined
  | some s ↦ elim ec.cb [
    | none ↦ ok (record { scheduler = s; task = run_fiber ec.fiber })
    | some f ↦ ok (record { scheduler = s; task = run_cb f })
  ]
]

-- FdContext::triggerEvent. It leaves `m_events` alone.
pub trigger_event : FdContext → Event → Outcome (FdContext × Posted)
unfolding has get_event_context post set_event_context
trigger_event c event = do
  qc_assert (has c.events event)
  ec ← get_event_context c event
  posted ← post ec
  ok (set_event_context c event blank, posted)

-- IOManager::contextResize: the slots from index `i` on, for `n` of them.
pub context_resize : ℕ → ℕ → List FdContext → List FdContext
context_resize i zero xs = []
context_resize i (suc n) [] = new_context i ∷ context_resize (suc i) n []
context_resize i (suc n) (x ∷ xs) = x ∷ context_resize (suc i) n xs

-- The table as `addEvent` finds or makes it.
pub table_for : List FdContext → ℕ → Outcome (List FdContext)
table_for xs n = if ltb n (length xs) then ok xs else (do
  let grown = context_resize 0 (n * 3 / 2) xs
  c ← at grown (pos n)
  put_at grown (pos n) (record c { fd = n }))

-- The thread that calls `addEvent`: Scheduler::GetThis(), Fiber::GetThis(), and whether that fiber's
-- state is RUNNING.
pub record Caller : Type 0 where
  pub scheduler : Option ℕ
  pub fiber : ℕ
  pub running : Bool

-- The assignments to `event_ctx`.
pub fill_context : EventContext → Option ℕ → Caller → Outcome EventContext
fill_context ec cb who = do
  qc_assert (not (is_some ec.scheduler) && not (is_some ec.fiber) && not (is_some ec.cb))
  elim cb [
    | some f ↦ ok (record { scheduler = who.scheduler; fiber = none; cb = some f })
    | none ↦ (do
      qc_assert who.running
      ok (record { scheduler = who.scheduler; fiber = some who.fiber; cb = none }))
  ]

-- `qc_assert(!rt)` on the result of epoll_ctl.
abbrev asserted : {A : Type 0} → Option A → Outcome A
asserted none = fail Failure.aborted
asserted (some a) = ok a

-- The timeout given to epoll_wait: std::min((int)next_timeout, 5000), from getNextTimer's result.
pub wait_ms : ℕ → ℤ
wait_ms next_timeout =
    let t = (if next_timeout == u64_max then 6000 else next_timeout) % u32_mod in
    if ltb t (2 ^ 31) then pos (if ltb t 5000 then t else 5000) else negsuc (u32_mod - t - 1)

-- What epoll_wait reports of a descriptor: EPOLLIN, EPOLLOUT, and EPOLLERR or EPOLLHUP.
pub record Ready : Type 0 where
  pub readable : Bool
  pub writable : Bool
  pub failed : Bool

module _ (e : Epoll) where
  pub record IoManager : Type 0 where
    pub contexts : List FdContext
    pub pending : ℕ
    pub posted : List Posted
    pub kernel : e.Kernel

  -- What the constructor sets up, with an epoll instance just made.
  pub new_io_manager : e.Kernel → IoManager
  unfolding context_resize
  new_io_manager k = record {
    contexts = context_resize 0 32 [];
    pending = 0;
    posted = [];
    kernel = k;
  }

  -- addEvent on the context that it found, from the choice of `op` on.
  pub register : IoManager → ℕ → FdContext → Event → Option ℕ → Caller → Outcome IoManager
  unfolding has with_event is_nothing get_event_context set_event_context fill_context
  register m n c event cb who = do
    let op = if is_nothing c.events then ctl_add else ctl_mod
    throw_if (has c.events event)
    let events = with_event c.events event
    ec ← get_event_context c event
    ec' ← fill_context ec cb who
    k ← asserted (e.ctl m.kernel op n (record { mask = events; edge = true }))
    ok (record m {
      contexts = set m.contexts n (set_event_context (record c { events = events }) event ec');
      kernel = k;
      pending = add64 m.pending 1;
    })

  -- IOManager::addEvent.
  pub add_event : IoManager → ℤ → Event → Option ℕ → Caller → Outcome IoManager
  add_event m (negsuc n) event cb who = fail Failure.undefined
  add_event m (pos n) event cb who = do
    contexts ← table_for m.contexts n
    c ← at contexts (pos n)
    register (record m { contexts = contexts }) n c event cb who

  -- The part that delEvent and cancelEvent share: epoll_ctl, the count and `m_events`.
  pub unregister : IoManager → ℕ → FdContext → Event → Outcome IoManager
  unfolding without is_nothing
  unregister m n c event = do
    let real_event = without c.events event
    let op = if is_nothing real_event then ctl_del else ctl_mod
    k ← asserted (e.ctl m.kernel op n (record { mask = real_event; edge = false }))
    ok (record m {
      contexts = set m.contexts n (record c { events = real_event });
      kernel = k;
      pending = sub64 m.pending 1;
    })

  -- IOManager::delEvent.
  pub del_event : IoManager → ℤ → Event → Outcome (IoManager × Bool)
  unfolding has set_event_context
  del_event m (negsuc n) event = fail Failure.undefined
  del_event m (pos n) event = if leb (length m.contexts) n then ok (m, false) else (do
    c ← at m.contexts (pos n)
    if not (has c.events event)
        then ok (m, false)
        else (do m' ← unregister m n (set_event_context c event blank) event; ok (m', true)))

  -- IOManager::cancelEvent.
  pub cancel_event : IoManager → ℤ → Event → Outcome (IoManager × Bool)
  unfolding has
  cancel_event m (negsuc n) event = fail Failure.undefined
  cancel_event m (pos n) event = if leb (length m.contexts) n then ok (m, false) else (do
    c ← at m.contexts (pos n)
    if not (has c.events event) then ok (m, false) else (do
      (c', p) ← trigger_event c event
      m' ← unregister (record m { posted = m.posted ++ p ∷ [] }) n c' event
      ok (m', true)))

  -- One of the two tests of cancelAll: trigger the event if it is waited for, and count it off.
  pub cancel_one : IoManager → FdContext → Event → Outcome (IoManager × FdContext)
  unfolding has
  cancel_one m c event =
      if has c.events event
      then (do
        (c', p) ← trigger_event c event
        ok (record m { posted = m.posted ++ p ∷ []; pending = sub64 m.pending 1 }, c'))
      else ok (m, c)

  -- IOManager::cancelAll.
  pub cancel_all : IoManager → ℤ → Outcome (IoManager × Bool)
  unfolding is_nothing
  cancel_all m (negsuc n) = fail Failure.undefined
  cancel_all m (pos n) = if leb (length m.contexts) n then ok (m, false) else (do
    c ← at m.contexts (pos n)
    if is_nothing c.events then ok (m, false) else (do
      (m₁, c₁) ← cancel_one m c event_read
      (m₂, c₂) ← cancel_one m₁ c₁ event_write
      k ← asserted (e.ctl m₂.kernel ctl_del n (record { mask = no_events; edge = false }))
      ok (
        record m₂ { contexts = set m₂.contexts n (record c₂ { events = no_events }); kernel = k },
        true,
      )))

  -- What `idle` does for one event that has happened: trigger it, delete it, and count it off.
  pub fire_event : IoManager → ℕ → Event → Outcome IoManager
  fire_event m n event = do
    c ← at m.contexts (pos n)
    (c', p) ← trigger_event c event
    let m₁ = record m { contexts = set m.contexts n c'; posted = m.posted ++ p ∷ [] }
    (m₂, found) ← del_event m₁ (pos c'.fd) event
    ok (record m₂ { pending = sub64 m₂.pending 1 })

  -- The body of the loop of `idle` over the events that epoll_wait reports, for a descriptor other
  -- than the pipe's; the event's pointer is to the context at `n`.
  pub process_event : IoManager → ℕ → Ready → Outcome IoManager
  process_event m n r = do
    c ← at m.contexts (pos n)
    let readable = r.readable || r.failed && c.events.read
    let writable = r.writable || r.failed && c.events.write
    if not (c.events.read && readable || c.events.write && writable) then ok m else (do
      m₁ ← if readable then fire_event m n event_read else ok m
      if writable then fire_event m₁ n event_write else ok m₁)

  -- IOManager::stopping, from Scheduler::stopping() and the number of timers.
  pub stopping : IoManager → Bool → ℕ → Bool
  stopping m scheduler_stopping timers = m.pending == 0 && scheduler_stopping && timers == 0
