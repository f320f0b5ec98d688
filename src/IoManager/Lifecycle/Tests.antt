-- ===== src/IoManager/Lifecycle/Tests.antt =====
-- A concrete system, and the theorem on the constructor and the destructor applied to it.
use fiber_async.Prelude.{
  is_some, false, none, ◌==◌, if◌then◌else◌, ℕ, ◌≡◌, refl, Option, some, ok, fail, Failure, arith,
  pos,
}
use fiber_async.IoManager.{Event}
use fiber_async.IoManager.Interest.{EpollEvent}
use fiber_async.IoManager.Invariant.{IsConsistent}
use fiber_async.IoManager.Events.{waits_for}
use fiber_async.IoManager.Tests.{simple_epoll, five}
use fiber_async.IoManager.Lifecycle.{
  Resources, Runtime, Grants, new_runtime, drop_runtime, new_runtime_lem,
}
use fiber_async.Scheduler.Pool.Workers.{given, pids, worker_count}
use fiber_async.Scheduler.Pool.Tests.{one_worker}
use fiber_async.Thread.Tests.{counting}

abbrev Interests : Type 0
Interests = ℕ → Option EpollEvent

-- Every call but close leaves the list of interests as it was; all succeed.
abbrev pipe_at : Interests → Option (Interests × ℕ × ℕ)
pipe_at k = some (k, 6, 7)

same_pipe : (k k' : Interests) (r w i : ℕ) → pipe_at k ≡ some (k', r, w) → k' i ≡ k i
same_pipe k k' r w i h = cc

same_kernel : (k k' : Interests) (n i : ℕ) → some k ≡ some k' → k' i ≡ k i
same_kernel k k' n i h = cc

-- A descriptor counts as open while it has an entry, which close takes away.
abbrev closed_at : Interests → ℕ → Interests
closed_at k n i = if n == i then none else k i

closed_alone :
    (k : Interests) (n i : ℕ)
    → is_some (closed_at k n i) ≡ (if n == i then false else is_some (k i))
closed_alone k n i = ground arith

abbrev calm_system : Resources simple_epoll
calm_system = record {
  epoll_create = λ k. ((λ _. none), pos 5);
  pipe = pipe_at;
  set_nonblock = λ k n. some k;
  watch = λ k n. some k;
  close = closed_at;
  is_open = λ k n. is_some (k n);
  create_empty = λ k i. refl;
  pipe_keeps = same_pipe;
  set_nonblock_keeps = same_kernel;
  watch_keeps = same_kernel;
  close_effect = closed_alone;
}

calm_grants : Grants simple_epoll calm_system
calm_grants = record {
  creates = λ k. (5, refl, omega arith);
  pipes = λ k. refl;
  unblocks = λ k n. refl;
  watches = λ k n. refl;
}

-- The thread that is made has begun when `start` looks.
abbrev begun_id : ℕ → Option ℕ
begun_id i = some 42

new_runtime_lem_example :
    (κ' : ℕ) × (r : Runtime simple_epoll) × (new_runtime simple_epoll calm_system counting 7 1 false
        none 41 begun_id 0
        (λ _. none)
      ≡ ok (κ', r))
    × IsConsistent simple_epoll r.manager
    × ((n : ℕ) (event : Event) → waits_for r.manager.contexts n event ≡ false)
    × (pids r.pool.threads ≡ given begun_id 0 (worker_count 1 false))
    × (drop_runtime simple_epoll calm_system counting 1 r ≡ fail Failure.aborted)
new_runtime_lem_example =
    new_runtime_lem simple_epoll calm_system counting 7 1 false none 41 begun_id 0 1 (λ _. none)
      calm_grants (λ κ. refl) (omega arith) (λ h. cc)

abbrev one_runtime : Runtime simple_epoll
one_runtime = record {
  pool = one_worker;
  manager = five;
  descriptors = record { epfd = 5; tickle_read = 6; tickle_write = 7 };
}
