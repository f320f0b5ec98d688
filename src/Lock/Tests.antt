-- ===== src/Lock/Tests.antt =====
-- Concrete scopes and threads, and the theorems on locks applied to them.
use fiber_async.Prelude.{
  ℕ, ◌≡◌, ◌↔◌, refl, [], ◌∷◌, true, false, Bool, Option, some, none, suc, zero, inl,
}
use fiber_async.Lock.{
  acquire, scoped, read_scoped, locks, unlocks, scope, CasLock, new_cas_lock, cas_round,
}
use fiber_async.Lock.Scoped.{IsBalanced, ends_locked, scoped-IsBalanced_iff}
use fiber_async.Lock.Mutexes.{PthreadLocks, lockable, rw_mutex, rw_call}
use fiber_async.Lock.Mutexes.Restores.{run, scope_restores}
use fiber_async.Lock.Cas.{Reach, start, later, tries, mutual_exclusion}

scoped-IsBalanced_iff_example :
    IsBalanced (scope scoped (unlocks ∷ [])) ↔ (ends_locked true (unlocks ∷ []) ≡ true)
scoped-IsBalanced_iff_example = scoped-IsBalanced_iff (unlocks ∷ [])

abbrev first_thread : ℕ
first_thread = 4

abbrev one_inside : CasLock
one_inside = cas_round new_cas_lock 4

one_inside-Reach : Reach one_inside
unfolding new_cas_lock
one_inside-Reach = later start (tries 4 refl)

mutual_exclusion_example :
    (one_inside.inside 5 ≡ true → first_thread ≡ 5)
    × (one_inside.inside 5 ≡ false → (cas_round one_inside 5).inside 5 ≡ false)
unfolding new_cas_lock cas_round
mutual_exclusion_example = mutual_exclusion one_inside-Reach 4 5 refl

-- A mutex as a flag, and a lock for readers and a writer as the count of readers, `none` with a
-- writer.
abbrev flag_lock : Bool → Option Bool
flag_lock true = none
flag_lock false = some true

abbrev flag_unlock : Bool → Option Bool
flag_unlock true = some false
flag_unlock false = none

flag_undo : (s s' : Bool) → flag_lock s ≡ some s' → flag_unlock s' ≡ some s
flag_undo true s' e = cc
flag_undo false true e = refl
flag_undo false false e = cc

abbrev read_count : Option ℕ → Option (Option ℕ)
read_count none = none
read_count (some n) = some (some (suc n))

abbrev write_count : Option ℕ → Option (Option ℕ)
write_count none = none
write_count (some zero) = some none
write_count (some (suc n)) = none

abbrev leave_count : Option ℕ → Option (Option ℕ)
leave_count none = some (some 0)
leave_count (some zero) = none
leave_count (some (suc n)) = some (some n)

read_undo : (s s' : Option ℕ) → read_count s ≡ some s' → leave_count s' ≡ some s
read_undo none s' e = cc
read_undo (some n) none e = cc
read_undo (some n) (some zero) e = cc
read_undo (some n) (some (suc m)) e = cc

write_undo : (s s' : Option ℕ) → write_count s ≡ some s' → leave_count s' ≡ some s
write_undo none s' e = cc
write_undo (some zero) none e = refl
write_undo (some zero) (some m) e = cc
write_undo (some (suc n)) s' e = cc

abbrev flags : PthreadLocks
flags = record {
  Mutex = Bool;
  mutex_lock = flag_lock;
  mutex_unlock = flag_unlock;
  mutex_undo = flag_undo;
  RwLock = Option ℕ;
  rwlock_rdlock = read_count;
  rwlock_wrlock = write_count;
  rwlock_unlock = leave_count;
  rdlock_undo = read_undo;
  wrlock_undo = write_undo;
  Spin = Bool;
  spin_lock = flag_lock;
  spin_unlock = flag_unlock;
  spin_undo = flag_undo;
}

abbrev two_readers : Option ℕ
two_readers = some 2

scope_restores_example :
    run (lockable flags rw_mutex) two_readers (scope read_scoped (unlocks ∷ locks ∷ []))
    ≡ some two_readers
unfolding acquire rw_call
scope_restores_example =
    scope_restores flags rw_mutex two_readers read_scoped (unlocks ∷ locks ∷ []) (inl (λ h. cc))
      refl
