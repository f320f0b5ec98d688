-- ===== src/IoManager/Lifecycle.antt =====
-- The constructor and the destructor of IOManager, with those of Scheduler that they call.
pub mod Tests
use fiber_async.Prelude.{
  ◌==◌, ℕ, ◌≡◌, ◌≤◌, refl, ap, ◌∙◌, List, [], ◌∷◌, Option, none, some, Bool, true, false,
  if◌then◌else◌, ok, fail, Failure, Outcome, ◌>>=◌, ◌>>◌, qc_assert, is_some, ltb, arith, ℤ, pos,
  negsuc, Option-cases, inl, inr, get_elem?,
}
use fiber_async.IoManager.{
  Event, event_none, event_read, event_write, has, IoManager, new_io_manager, FdContext,
  new_context, context_resize,
}
use fiber_async.IoManager.Interest.{Epoll}
use fiber_async.IoManager.Invariant.{IsConsistent}
use fiber_async.IoManager.Initial.{new_slot, new_io_manager-IsConsistent}
use fiber_async.IoManager.Events.{waits_for}
use fiber_async.Thread.{Pthreads, Thread, drop_thread}
use fiber_async.Scheduler.Pool.{Pool, new_pool, start}
use fiber_async.Scheduler.Pool.Workers.{
  Creates, given, pids, worker_count, new_pool_lem, start-made,
}

-- The other calls that the constructor makes, on the kernel of `e`, with what is documented of them: a
-- new epoll instance has no entries, none of the others makes or changes an entry besides that of the
-- pipe, and close(2) closes its descriptor and no other. `watch` is epoll_ctl with EPOLL_CTL_ADD on the pipe's reading end. `none` is an error.
pub record Resources (e : Epoll) : Type 0 where
  pub epoll_create : e.Kernel → e.Kernel × ℤ
  pub pipe : e.Kernel → Option (e.Kernel × ℕ × ℕ)
  pub set_nonblock : e.Kernel → ℕ → Option e.Kernel
  pub watch : e.Kernel → ℕ → Option e.Kernel
  pub close : e.Kernel → ℕ → e.Kernel
  pub is_open : e.Kernel → ℕ → Bool
  pub create_empty : (k : e.Kernel) (i : ℕ) → e.interest (epoll_create k).0 i ≡ none
  pub pipe_keeps :
      (k k' : e.Kernel) (r w i : ℕ) → pipe k ≡ some (k', r, w) → e.interest k' i ≡ e.interest k i
  pub set_nonblock_keeps :
      (k k' : e.Kernel) (n i : ℕ) → set_nonblock k n ≡ some k' → e.interest k' i ≡ e.interest k i
  pub watch_keeps :
      (k k' : e.Kernel) (n i : ℕ) → watch k n ≡ some k' → e.interest k' i ≡ e.interest k i
  pub close_effect :
      (k : e.Kernel) (n i : ℕ) → is_open (close k n) i ≡ (if n == i then false else is_open k i)

-- `qc_assert` on the result of a call.
abbrev done : {A : Type 0} → Option A → Outcome A
done none = fail Failure.aborted
done (some a) = ok a

abbrev descriptor : ℤ → Option ℕ
descriptor (pos n) = if ltb 0 n then some n else none
descriptor (negsuc n) = none

-- m_epfd and m_tickleFds.
pub record Descriptors : Type 0 where
  pub epfd : ℕ
  pub tickle_read : ℕ
  pub tickle_write : ℕ

-- The object: the base class, the table with its epoll, and the descriptors.
pub record Runtime (e : Epoll) : Type 0 where
  pub pool : Pool
  pub manager : IoManager e
  pub descriptors : Descriptors

module _ (e : Epoll) (s : Resources e) where
  -- The constructor from epoll_create to epoll_ctl.
  pub set_up : e.Kernel → Outcome (e.Kernel × Descriptors)
  set_up k = do
    epfd ← done (descriptor (s.epoll_create k).1)
    (k₁, r, w) ← done (s.pipe (s.epoll_create k).0)
    k₂ ← done (s.set_nonblock k₁ r)
    k₃ ← done (s.watch k₂ r)
    ok (k₃, record { epfd = epfd; tickle_read = r; tickle_write = w })

  module _ (p : Pthreads) (run : ℕ) where
    -- IOManager::IOManager.
    pub new_runtime :
        ℕ
        → Bool
        → Option ℕ
        → ℕ
        → (ℕ → Option ℕ)
        → p.Kernel
        → e.Kernel
        → Outcome (p.Kernel × Runtime e)
    new_runtime threads use_caller current gettid ids κ k = do
      made_pool ← new_pool threads use_caller current gettid
      (k', ds) ← set_up k
      (κ', started) ← start p run ids κ made_pool
      ok (κ', record { pool = started; manager = new_io_manager e k'; descriptors = ds })

  -- The three calls of close in the destructor.
  pub closed : Runtime e → e.Kernel
  closed r =
      let ds = r.descriptors in
      s.close (s.close (s.close r.manager.kernel ds.epfd) ds.tickle_read) ds.tickle_write

  module _ (p : Pthreads) where
    -- The threads that `stop` has not taken out of `_threads`.
    pub drop_threads : p.Kernel → List Thread → Outcome p.Kernel
    drop_threads κ [] = ok κ
    drop_threads κ (t ∷ ts) = drop_thread p κ t >>= λ κ'. drop_threads κ' ts

    -- IOManager::~IOManager, less the contexts that it frees, and then the destructor of Scheduler, less
    -- that of the root fiber.
    pub drop_runtime : p.Kernel → Runtime e → Outcome (p.Kernel × e.Kernel)
    unfolding closed
    drop_runtime κ r = do
      let left = closed r
      qc_assert r.pool.is_stopping
      κ' ← drop_threads κ r.pool.threads
      ok (κ', left)

-- The new table waits for nothing.
blank_silent : (n : ℕ) (event : Event) → has (new_context n).events event ≡ false
unfolding has
blank_silent n event_none = refl
blank_silent n event_read = refl
blank_silent n event_write = refl

abbrev waits_in : Event → Option FdContext → Bool
waits_in event none = false
waits_in event (some c) = has c.events event

new_table_silent : (n : ℕ) (event : Event) → waits_for (context_resize 0 32 []) n event ≡ false
new_table_silent n event = elim (Option-cases (get_elem? (context_resize 0 32 []) n)) [
  | inl nothing ↦ ap (waits_in event) nothing
  | inr (c, here) ↦ ap (waits_in event) (here ∙ ap some (new_slot n here)) ∙ blank_silent n event
]

module _ (e : Epoll) (s : Resources e) where
  -- The calls of the constructor succeed.
  pub record Grants : Type 0 where
    pub creates : (k : e.Kernel) → (n : ℕ) × ((s.epoll_create k).1 ≡ pos n) × (1 ≤ n)
    pub pipes : (k : e.Kernel) → is_some (s.pipe k) ≡ true
    pub unblocks : (k : e.Kernel) (n : ℕ) → is_some (s.set_nonblock k n) ≡ true
    pub watches : (k : e.Kernel) (n : ℕ) → is_some (s.watch k n) ≡ true

  some_of : {A : Type 0} (o : Option A) → is_some o ≡ true → (a : A) × (o ≡ some a)
  some_of none h = cc
  some_of (some a) h = (a, refl)

  set_up_lem :
      (k : e.Kernel)
      → Grants
      → (k' : e.Kernel) × (ds : Descriptors) × (set_up e s k ≡ ok (k', ds))
        × ((i : ℕ) → e.interest k' i ≡ none)
  unfolding set_up
  set_up_lem k g =
      let (n, makes, positive) = g.creates k in
      let ((k₁, r, w), pipes) = some_of _ (g.pipes (s.epoll_create k).0) in
      let (k₂, unblocks) = some_of _ (g.unblocks k₁ r) in
      let (k₃, watches) = some_of _ (g.watches k₂ r) in
      (
        k₃,
        record { epfd = n; tickle_read = r; tickle_write = w },
        rw (makes, pipes, unblocks, watches) (ground (arith, positive)),
        λ i.
            s.watch_keeps k₂ k₃ r i watches
            ∙ s.set_nonblock_keeps k₁ k₂ r i unblocks
            ∙ s.pipe_keeps _ k₁ r w i pipes
            ∙ s.create_empty k i,
      )

  module _ (p : Pthreads) (run : ℕ) where
    -- With at least one thread, on a thread without a scheduler if the caller is to be one of them,
    -- where threads can be created and every call of the constructor succeeds: the constructor
    -- returns; the new manager waits for nothing, its table, count and epoll agree, and there are as
    -- many threads as were asked for, less the caller if it takes part. To destroy it then, without a
    -- call of `stop`, aborts.
    pub new_runtime_lem :
        (threads : ℕ) (use_caller : Bool) (current : Option ℕ) (gettid : ℕ) (ids : ℕ → Option ℕ)
        (κ κ'' : p.Kernel) (k : e.Kernel)
        → Grants
        → Creates p run
        → 1 ≤ threads
        → (use_caller ≡ true → current ≡ none)
        → (κ' : p.Kernel) × (r : Runtime e) × (new_runtime e s p run threads use_caller current
              gettid ids κ k
            ≡ ok (κ', r))
          × IsConsistent e r.manager
          × ((n : ℕ) (event : Event) → waits_for r.manager.contexts n event ≡ false)
          × (pids r.pool.threads ≡ given ids 0 (worker_count threads use_caller))
          × (drop_runtime e s p κ'' r ≡ fail Failure.aborted)
    unfolding new_runtime drop_runtime drop_threads new_io_manager
    new_runtime_lem threads use_caller current gettid ids κ κ'' k g can some_thread alone =
        let (k', ds, sets, empty) = set_up_lem k g in
        let (κ', pool, starts, those, listed, going, count) =
          start-made p run threads use_caller gettid ids κ can in
        (
          κ',
          record { pool = pool; manager = new_io_manager e k'; descriptors = ds },
          rw (new_pool_lem threads use_caller current gettid some_thread alone, sets, starts) refl,
          new_io_manager-IsConsistent e k' empty,
          new_table_silent,
          those,
          rw going refl,
        )
