-- ===== src/Scheduler/Pool.antt =====
-- src/scheduler.cc: the worker threads of a Scheduler, which the constructor counts, `start` makes and
-- the end of `stop` joins. `run` is the number that names the threads' callback.
pub mod Workers
pub mod Tests
use fiber_async.Prelude.{
  ℕ, zero, suc, ◌-◌, ◌+◌, List, [], ◌∷◌, ◌++◌, Option, none, some, Bool, true, false, if◌then◌else◌,
  Outcome, ok, ◌>>=◌, ◌>>◌, qc_assert, is_some, is_empty, leb, not, ◌&&◌,
}
use fiber_async.Thread.{Pthreads, Thread, thread_func, get_id, new_thread, join}

-- A thread id is `none` where it is -1, or was read before it was assigned.
pub record Pool : Type 0 where
  pub use_caller : Bool
  pub is_stopping : Bool
  pub threads_count : ℕ
  pub root_thread : Option ℕ
  pub threads : List Thread
  pub thread_ids : List (Option ℕ)

-- The constructor, in a thread whose Scheduler::GetThis() is `current` and whose id is `gettid`.
pub new_pool : ℕ → Bool → Option ℕ → ℕ → Outcome Pool
new_pool threads use_caller current gettid = do
  qc_assert (leb 1 threads)
  if use_caller
      then (do
        qc_assert (not (is_some current))
        ok (record {
          use_caller = true;
          is_stopping = false;
          threads_count = threads - 1;
          root_thread = some gettid;
          threads = [];
          thread_ids = some gettid ∷ [];
        }))
      else ok (record {
        use_caller = false;
        is_stopping = false;
        threads_count = threads;
        root_thread = none;
        threads = [];
        thread_ids = [];
      })

-- A thread as `start` sees it, right after its constructor: `id` is what the kernel gave it, if it has
-- begun by then.
pub seen : ℕ → Option ℕ → Thread → Outcome Thread
unfolding thread_func
seen i none t = ok t
seen i (some gettid) t = do (t', locals, f) ← thread_func i gettid t; ok t'

module _ (k : Pthreads) (run : ℕ) where
  -- The loop of `start`, from thread `i` on, for `n` threads.
  pub start_workers : (ℕ → Option ℕ) → ℕ → ℕ → k.Kernel → Pool → Outcome (k.Kernel × Pool)
  unfolding new_thread seen
  start_workers ids i zero kernel s = ok (kernel, s)
  start_workers ids i (suc n) kernel s = new_thread k kernel (some run) i >>= λ (kernel', t).
      seen i (ids i) t >>= λ t'.
      start_workers ids (suc i) n kernel'
        (record s { threads = s.threads ++ t' ∷ []; thread_ids = s.thread_ids ++ get_id t' ∷ [] })

  -- Scheduler::start.
  pub start : (ℕ → Option ℕ) → k.Kernel → Pool → Outcome (k.Kernel × Pool)
  start ids kernel s =
      if s.is_stopping
      then ok (kernel, s)
      else (do qc_assert (is_empty s.threads); start_workers ids 0 s.threads_count kernel s)

module _ (k : Pthreads) where
  -- The end of Scheduler::stop: the threads that it has swapped out are joined in order.
  pub join_all : k.Kernel → List Thread → Outcome k.Kernel
  unfolding join
  join_all kernel [] = ok kernel
  join_all kernel (t ∷ ts) = join k kernel t >>= λ (kernel', t'). join_all kernel' ts

  pub join_workers : k.Kernel → Pool → Outcome (k.Kernel × Pool)
  join_workers kernel s = do
    kernel' ← join_all kernel s.threads
    ok (kernel', record s { threads = [] })

  -- Scheduler::stop, as far as the pool goes. `nothing_to_do` is what `stopping` asks besides the order
  -- to stop: that the queue is empty and no task runs, and in an IOManager that nothing is waited for and
  -- there is no timer. `this` says that GetThis() is this scheduler. The calls of tickle and the root
  -- fiber's resume are left out.
  pub stop_pool : Bool → Bool → k.Kernel → Pool → Outcome (k.Kernel × Pool)
  unfolding join_workers
  stop_pool nothing_to_do this kernel s =
      if s.is_stopping && nothing_to_do then ok (kernel, s) else (do
        qc_assert (if s.use_caller then this else not this)
        join_workers kernel (record s { is_stopping = true }))
