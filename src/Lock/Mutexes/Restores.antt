-- ===== src/Lock/Mutexes/Restores.antt =====
-- A scope with a scoped lock, on the mutex that it wraps.
use fiber_async.Prelude.{
  ◌≡◌, ◌≢◌, ◌⊎◌, inl, inr, refl, ◌∙◌, ap, List, [], ◌∷◌, ◌++◌, Option, some, none, true, false,
  is_some, arith, Option-cases, Bool-cases,
}
use fiber_async.Lock.{
  Call, lock, rdlock, wrlock, unlock, Guard, Kind, scoped, read_scoped, write_scoped, acquire,
  new_guard, lock_guard, unlock_guard, drop_guard, Use, locks, unlocks, use_guard, scope,
}
use fiber_async.Lock.Scoped.{
  held_after, IsBalanced, ends_locked, scope-IsBalanced, scoped-IsBalanced_iff,
}
use fiber_async.Lock.Mutexes.{Lockable, PthreadLocks, Class, lockable}

-- What follows a call, if it returns.
abbrev pub after : {A B : Type 0} → Option A → (A → Option B) → Option B
after none next = none
after (some s) next = next s

-- The calls on a mutex, one after the other; `none` if one does not return.
abbrev pub run : (l : Lockable) → l.State → List Call → Option l.State
run l s [] = some s
run l s (c ∷ cs) = after (l.call c s) (λ s'. run l s' cs)

-- Every call is `c` or an unlock.
abbrev OnlyLocks : Call → List Call → Type 0
OnlyLocks c [] = Unit {0}
OnlyLocks c (d ∷ cs) = ((d ≡ c) ⊎ (d ≡ unlock)) × OnlyLocks c cs

OnlyLocks-append :
    (c : Call) (cs ds : List Call) → OnlyLocks c cs → OnlyLocks c ds → OnlyLocks c (cs ++ ds)
OnlyLocks-append c [] ds h k = k
OnlyLocks-append c (x ∷ cs) ds (here, rest) k = (here, OnlyLocks-append c cs ds rest k)

lock_guard-OnlyLocks :
    (k : Kind) (g : Guard)
    → OnlyLocks (acquire k) g.calls
    → OnlyLocks (acquire k) (lock_guard k g).calls
unfolding lock_guard
lock_guard-OnlyLocks k g h = elim (Bool-cases g.locked) [
  | inl held ↦ rw held h
  | inr free ↦ rw free (OnlyLocks-append (acquire k) g.calls (acquire k ∷ []) h (inl refl, tt))
]

unlock_guard-OnlyLocks :
    (c : Call) (g : Guard) → OnlyLocks c g.calls → OnlyLocks c (unlock_guard g).calls
unfolding unlock_guard
unlock_guard-OnlyLocks c g h = elim (Bool-cases g.locked) [
  | inl held ↦ rw held (OnlyLocks-append c g.calls (unlock ∷ []) h (inr refl, tt))
  | inr free ↦ rw free h
]

use_guard-OnlyLocks :
    (k : Kind) (g : Guard) (us : List Use)
    → OnlyLocks (acquire k) g.calls
    → OnlyLocks (acquire k) (use_guard k g us).calls
unfolding use_guard
use_guard-OnlyLocks k g [] h = h
use_guard-OnlyLocks k g (locks ∷ us) h =
    use_guard-OnlyLocks k (lock_guard k g) us (lock_guard-OnlyLocks k g h)
use_guard-OnlyLocks k g (unlocks ∷ us) h =
    use_guard-OnlyLocks k (unlock_guard g) us (unlock_guard-OnlyLocks (acquire k) g h)

drop_guard-OnlyLocks :
    (k : Kind) (g : Guard) (c : Call) → OnlyLocks c g.calls → OnlyLocks c (drop_guard k g).calls
unfolding drop_guard
drop_guard-OnlyLocks scoped g c h = OnlyLocks-append c g.calls (unlock ∷ []) h (inr refl, tt)
drop_guard-OnlyLocks read_scoped g c h = unlock_guard-OnlyLocks c g h
drop_guard-OnlyLocks write_scoped g c h = unlock_guard-OnlyLocks c g h

scope-OnlyLocks : (k : Kind) (us : List Use) → OnlyLocks (acquire k) (scope k us)
unfolding scope new_guard
scope-OnlyLocks k us =
    drop_guard-OnlyLocks k (use_guard k (new_guard k) us) (acquire k)
      (use_guard-OnlyLocks k (new_guard k) us (inl refl, tt))

acquire-locks : (k : Kind) → acquire k ≢ unlock
unfolding acquire
acquire-locks scoped h = cc
acquire-locks read_scoped h = cc
acquire-locks write_scoped h = cc

balanced :
    (k : Kind) (us : List Use)
    → (k ≢ scoped) ⊎ (ends_locked true us ≡ true)
    → IsBalanced (scope k us)
balanced k us (inl other) = scope-IsBalanced k us other
balanced scoped us (inr ends) = (scoped-IsBalanced_iff us).1 ends
balanced read_scoped us (inr ends) = scope-IsBalanced read_scoped us (λ h. cc)
balanced write_scoped us (inr ends) = scope-IsBalanced write_scoped us (λ h. cc)

-- A mutex that can be locked, from there on: free, or held by the scope.
module _ (l : Lockable) (s s' : l.State) (c : Call) (locks_it : c ≢ unlock)
    (there : l.call c s ≡ some s') where
  mutual
    run_free :
        (cs : List Call) → OnlyLocks c cs → held_after false cs ≡ some false → run l s cs ≡ some s
    run_free [] only h = refl
    run_free (lock ∷ cs) (inl same, only) h =
        ap (λ d. after (l.call d s) (λ t. run l t cs)) same
        ∙ ap (λ o. after o (λ t. run l t cs)) there
        ∙ run_held cs only h
    run_free (lock ∷ cs) (inr other, only) h = cc
    run_free (rdlock ∷ cs) (inl same, only) h =
        ap (λ d. after (l.call d s) (λ t. run l t cs)) same
        ∙ ap (λ o. after o (λ t. run l t cs)) there
        ∙ run_held cs only h
    run_free (rdlock ∷ cs) (inr other, only) h = cc
    run_free (wrlock ∷ cs) (inl same, only) h =
        ap (λ d. after (l.call d s) (λ t. run l t cs)) same
        ∙ ap (λ o. after o (λ t. run l t cs)) there
        ∙ run_held cs only h
    run_free (wrlock ∷ cs) (inr other, only) h = cc
    run_free (unlock ∷ cs) only h = cc

    run_held :
        (cs : List Call) → OnlyLocks c cs → held_after true cs ≡ some false → run l s' cs ≡ some s
    run_held [] only h = cc
    run_held (lock ∷ cs) only h = cc
    run_held (rdlock ∷ cs) only h = cc
    run_held (wrlock ∷ cs) only h = cc
    run_held (unlock ∷ cs) (is, only) h =
        ap (λ o. after o (λ t. run l t cs)) (l.undo c s s' locks_it there) ∙ run_free cs only h

run-scope :
    (l : Lockable) (s : l.State) (k : Kind) (us : List Use)
    → (k ≢ scoped) ⊎ (ends_locked true us ≡ true)
    → is_some (l.call (acquire k) s) ≡ true
    → run l s (scope k us) ≡ some s
run-scope l s k us fits free = elim (Option-cases (l.call (acquire k) s)) [
  | inl stuck ↦ absurd (ground (arith, stuck, free))
  | inr (s', there) ↦
      run_free l s s' (acquire k) (acquire-locks k) there (scope k us) (scope-OnlyLocks k us)
        (balanced k us fits)
]

-- A mutex of any of the classes, in a state in which it can be locked, and no other thread acts on
-- it: however a scope uses its scoped lock, by a read or a write guard, or by a ScopedLockImpl that
-- ends locked, all its calls return, and leave the mutex as they found it.
pub scope_restores :
    (p : PthreadLocks) (m : Class) (s : (lockable p m).State) (k : Kind) (us : List Use)
    → (k ≢ scoped) ⊎ (ends_locked true us ≡ true)
    → is_some ((lockable p m).call (acquire k) s) ≡ true
    → run (lockable p m) s (scope k us) ≡ some s
scope_restores p m = run-scope (lockable p m)
