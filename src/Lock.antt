-- ===== src/Lock.antt =====
-- include/mutex.hpp: the scoped locks, and the CAS lock. A scoped lock is seen through the calls
-- that it makes on the mutex that it wraps, which the class is a template over. Mutexes has the
-- classes that it is used with.
pub mod Scoped
pub mod Cas
pub mod Mutexes
pub mod Tests
use fiber_async.Prelude.{ℕ, List, [], ◌∷◌, ◌++◌, Bool, true, false, not, if◌then◌else◌, update}

-- A call on the wrapped mutex.
pub data Call : Type 0 where
  lock rdlock wrlock unlock : Call

-- `m_locked`, and the calls made so far, oldest first.
pub record Guard : Type 0 where
  pub locked : Bool
  pub calls : List Call

-- The three classes differ in the call that they lock with, and in their destructors.
pub data Kind : Type 0 where
  scoped read_scoped write_scoped : Kind

unfoldable pub acquire : Kind → Call
acquire scoped = lock
acquire read_scoped = rdlock
acquire write_scoped = wrlock

-- The constructor.
unfoldable pub new_guard : Kind → Guard
unfolding acquire
new_guard k = record { locked = true; calls = acquire k ∷ [] }

unfoldable pub lock_guard : Kind → Guard → Guard
unfolding acquire
lock_guard k g =
    if not g.locked then record g { locked = true; calls = g.calls ++ acquire k ∷ [] } else g

unfoldable pub unlock_guard : Guard → Guard
unlock_guard g = if g.locked then record g { locked = false; calls = g.calls ++ unlock ∷ [] } else g

-- The destructors: ScopedLockImpl unlocks whatever its state is, the other two by `unlock()`.
unfoldable pub drop_guard : Kind → Guard → Guard
unfolding unlock_guard
drop_guard scoped g = record g { locked = false; calls = g.calls ++ unlock ∷ [] }
drop_guard read_scoped g = unlock_guard g
drop_guard write_scoped g = unlock_guard g

-- What a scope does with its guard between construction and destruction.
pub data Use : Type 0 where
  locks unlocks : Use

unfoldable pub use_guard : Kind → Guard → List Use → Guard
use_guard k g [] = g
use_guard k g (locks ∷ us) = use_guard k (lock_guard k g) us
use_guard k g (unlocks ∷ us) = use_guard k (unlock_guard g) us

-- A whole scope: the calls that the mutex sees.
unfoldable pub scope : Kind → List Use → List Call
unfolding new_guard
scope k us = (drop_guard k (use_guard k (new_guard k) us)).calls

-- CASLock: the flag, and which threads are between their `lock()` and their `unlock()`.
pub record CasLock : Type 0 where
  pub flag : Bool
  pub inside : ℕ → Bool

pub new_cas_lock : CasLock
new_cas_lock = record { flag = false; inside = λ _. false }

-- One round of the `while` of `lock()` by thread `i`: std::atomic_flag_test_and_set sets the flag
-- and returns what it was; the loop ends when that was false.
pub cas_round : CasLock → ℕ → CasLock
cas_round s i = record s {
  flag = true;
  inside = if s.flag then s.inside else update s.inside i true;
}

pub cas_unlock : CasLock → ℕ → CasLock
cas_unlock s i = record s { flag = false; inside = update s.inside i false }
