-- ===== src/Thread.antt =====
-- include/thread.hpp and src/thread.cc: the class Thread. The pthread library is the parameter `k`; a
-- name and a callback are numbers that name them.
pub mod Join
pub mod Tests
use fiber_async.Prelude.{
  ℕ, ◌≡◌, Option, none, some, Bool, true, if◌then◌else◌, ◌==◌, Outcome, ok, fail, Failure, ◌>>=◌,
  ◌>>◌, defined_if,
}

-- What Thread uses of pthreads. The calls to join and detach are defined for the threads that are
-- joinable; a new thread is one. `none` is an error.
pub record Pthreads : Type 1 where
  pub Kernel : Type 0
  pub joinable : Kernel → ℕ → Bool
  pub create : Kernel → Option (Kernel × ℕ)
  pub join : Kernel → ℕ → Option Kernel
  pub detach : Kernel → ℕ → Kernel
  pub create_joinable :
      (k k' : Kernel) (tid : ℕ) → create k ≡ some (k', tid) → joinable k' tid ≡ true

-- `pid` is `none` as long as nothing has been assigned to it: the constructor does not initialise it.
pub record Thread : Type 0 where
  pub pid : Option ℕ
  pub tid : ℕ
  pub cb : Option ℕ
  pub name : ℕ

-- `t_thread` and `t_thread_name` of a thread.
pub record Locals : Type 0 where
  pub this : Option ℕ
  pub name : ℕ

-- ThreadFunc in a new thread, for the object at `self`, to its call of the callback: what it leaves,
-- and what it calls. `gettid` is the system's answer; an empty callback throws.
unfoldable pub thread_func : ℕ → ℕ → Thread → Outcome (Thread × Locals × ℕ)
thread_func self gettid t = elim t.cb [
  | none ↦ fail Failure.thrown
  | some f ↦
      ok (record t { pid = some gettid; cb = none }, record { this = some self; name = t.name }, f)
]

-- Thread::getId.
abbrev pub get_id : Thread → Option ℕ
get_id t = t.pid

module _ (k : Pthreads) where
  -- The constructor.
  unfoldable pub new_thread : k.Kernel → Option ℕ → ℕ → Outcome (k.Kernel × Thread)
  new_thread kernel cb name = elim (k.create kernel) [
    | none ↦ fail Failure.thrown
    | some (kernel', tid) ↦ ok (kernel', record { pid = none; tid = tid; cb = cb; name = name })
  ]

  -- pthread_join as it is called: without an id that is joinable, it is undefined.
  abbrev pub waited : k.Kernel → ℕ → Outcome k.Kernel
  waited kernel id = do
    defined_if (k.joinable kernel id)
    elim (k.join kernel id) [ none ↦ fail Failure.thrown | some kernel' ↦ ok kernel' ]

  -- Thread::join. It reads `m_pid`.
  unfoldable pub join : k.Kernel → Thread → Outcome (k.Kernel × Thread)
  join kernel t = elim t.pid [
    | none ↦ fail Failure.undefined
    | some id ↦
        if id == 0
        then ok (kernel, t)
        else (do kernel' ← waited kernel id; ok (kernel', record t { pid = some 0 }))
  ]

  -- The destructor.
  pub drop_thread : k.Kernel → Thread → Outcome k.Kernel
  drop_thread kernel t = elim t.pid [
    | none ↦ fail Failure.undefined
    | some id ↦
        if id == 0
        then ok kernel
        else (do defined_if (k.joinable kernel id); ok (k.detach kernel id))
  ]
