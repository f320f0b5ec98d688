-- ===== src/Thread/Tests.antt =====
-- A pthread library with one thread, and the theorems on threads applied to it.
use fiber_async.Prelude.{
  ℕ, ◌+◌, ◌-◌, ◌≡◌, refl, Option, none, some, Bool, true, false, ok, fail, Failure, arith, ltb,
  if◌then◌else◌,
}
use fiber_async.Thread.{Pthreads, Thread, new_thread, thread_func, join, drop_thread, waited}
use fiber_async.Thread.Join.{Begun, begun, join_misses}

-- The kernel is the number of threads so far; their pthread ids are 1000, 1001 and so on, which are
-- joinable for ever.
abbrev pub is_thread : ℕ → ℕ → Bool
is_thread κ id = if ltb id 1000 then false else ltb (id - 1000) κ

abbrev pub one_more : ℕ → Option (ℕ × ℕ)
one_more κ = some (κ + 1, 1000 + κ)

pub newest : (κ κ' tid : ℕ) → one_more κ ≡ some (κ', tid) → is_thread κ' tid ≡ true
newest κ κ' tid h = ground arith

abbrev pub counting : Pthreads
counting = record {
  Kernel = ℕ;
  joinable = is_thread;
  create = one_more;
  join = λ κ id. some κ;
  detach = λ κ id. κ;
  create_joinable = newest;
}

abbrev first_thread : Thread
first_thread = record { pid = none; tid = 1000; cb = some 7; name = 3 }

-- The thread has begun; the kernel gave it the id 42.
abbrev begun_thread : Thread
begun_thread = record { pid = some 42; tid = 1000; cb = none; name = 3 }

first_thread-Begun : Begun 5 first_thread begun_thread (some 42)
unfolding thread_func
first_thread-Begun = begun 42 refl

is_made : new_thread counting 0 (some 7) 3 ≡ ok (1, first_thread)
unfolding new_thread
is_made = refl

join_misses_example :
    (join counting 1 begun_thread ≡ fail Failure.undefined)
    × (drop_thread counting 1 begun_thread ≡ fail Failure.undefined)
    × (waited counting 1 begun_thread.tid ≡ ok 1)
join_misses_example =
    join_misses counting 0 1 first_thread begun_thread (some 7) 3 5 (some 42) 1 1 is_made
      first_thread-Begun refl refl (refl, refl)
