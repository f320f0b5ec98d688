-- ===== src/Scheduler/Pool/Tests.antt =====
-- A scheduler of three threads, and the theorems on the pool applied to it.
use fiber_async.Prelude.{
  ℕ, ◌≡◌, ◌++◌, refl, [], ◌∷◌, Option, none, some, true, false, ok, fail, Failure, arith,
  if◌then◌else◌, ◌==◌,
}
use fiber_async.Thread.{join}
use fiber_async.Thread.Tests.{counting}
use fiber_async.Scheduler.Pool.{Pool, new_pool, start, join_workers, join_all, stop_pool}
use fiber_async.Scheduler.Pool.Workers.{given, pids, worker_count, root_ids, start_lem}

-- The caller is one of the threads; of the others the first has begun when `start` looks.
abbrev first_begun : ℕ → Option ℕ
first_begun i = if i == 0 then some 42 else none

start_lem_example :
    (s : Pool) × (κ' : ℕ) × (s' : Pool) × (new_pool 3 true none 41 ≡ ok s)
    × (start counting 7 first_begun 0 s ≡ ok (κ', s'))
    × (pids s'.threads ≡ given first_begun 0 (worker_count 3 true))
    × (s'.thread_ids ≡ root_ids true 41 ++ given first_begun 0 (worker_count 3 true))
    × (start counting 7 first_begun κ' s'
        ≡ (if worker_count 3 true == 0 then ok (κ', s') else fail Failure.aborted))
start_lem_example =
    start_lem counting 7 3 true none 41 first_begun 0 (λ κ. refl) (omega arith) (λ _. refl)

-- A pool of one thread, whose id is one that pthreads can join; and how `stop` leaves it.
abbrev pub one_worker : Pool
one_worker = record {
  use_caller = false;
  is_stopping = false;
  threads_count = 1;
  root_thread = none;
  threads = record { pid = some 1000; tid = 1000; cb = none; name = 0 } ∷ [];
  thread_ids = some 1000 ∷ [];
}

abbrev pub no_worker : Pool
no_worker = record one_worker { is_stopping = true; threads = [] }

pub one_worker_stops : stop_pool counting true false 1 one_worker ≡ ok (1, no_worker)
unfolding stop_pool join_workers join_all join
one_worker_stops = refl
