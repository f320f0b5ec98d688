-- ===== src/Lock/Scoped.antt =====
-- Which scopes leave the wrapped mutex balanced.
use fiber_async.Prelude.{
  ◌≡◌, ◌≢◌, ◌↔◌, refl, ◌∙◌, ap, List, [], ◌∷◌, ◌++◌, Option, some, none, Bool, true, false, arith,
}
use fiber_async.Lock.{
  Call, lock, rdlock, wrlock, unlock, Guard, Kind, scoped, read_scoped, write_scoped, new_guard,
  lock_guard, unlock_guard, drop_guard, Use, locks, unlocks, use_guard, scope,
}

-- Whether the mutex is held after a sequence of calls, from `held` on; `none` if some call locks it
-- while it is held or unlocks it while it is not.
abbrev pub held_after : Bool → List Call → Option Bool
held_after h [] = some h
held_after true (unlock ∷ cs) = held_after false cs
held_after false (unlock ∷ cs) = none
held_after true (lock ∷ cs) = none
held_after false (lock ∷ cs) = held_after true cs
held_after true (rdlock ∷ cs) = none
held_after false (rdlock ∷ cs) = held_after true cs
held_after true (wrlock ∷ cs) = none
held_after false (wrlock ∷ cs) = held_after true cs

-- Every lock is followed by its unlock, and nothing else is unlocked.
abbrev pub IsBalanced : List Call → Type 0
IsBalanced cs = held_after false cs ≡ some false

abbrev then_after : Option Bool → List Call → Option Bool
then_after none cs = none
then_after (some h) cs = held_after h cs

held_after-append :
    (h : Bool) (cs ds : List Call) → held_after h (cs ++ ds) ≡ then_after (held_after h cs) ds
held_after-append h [] bs = refl
held_after-append true (unlock ∷ cs) bs = held_after-append false cs bs
held_after-append false (unlock ∷ cs) bs = refl
held_after-append true (lock ∷ cs) bs = refl
held_after-append false (lock ∷ cs) bs = held_after-append true cs bs
held_after-append true (rdlock ∷ cs) bs = refl
held_after-append false (rdlock ∷ cs) bs = held_after-append true cs bs
held_after-append true (wrlock ∷ cs) bs = refl
held_after-append false (wrlock ∷ cs) bs = held_after-append true cs bs

-- The guard knows whether the mutex is held.
abbrev Knows : Guard → Type 0
Knows g = held_after false g.calls ≡ some g.locked

lock_guard-Knows : (k : Kind) (g : Guard) → Knows g → Knows (lock_guard k g)
unfolding lock_guard
lock_guard-Knows scoped g h = ground (arith, held_after-append false g.calls (lock ∷ []))
lock_guard-Knows read_scoped g h = ground (arith, held_after-append false g.calls (rdlock ∷ []))
lock_guard-Knows write_scoped g h = ground (arith, held_after-append false g.calls (wrlock ∷ []))

unlock_guard-Knows : (g : Guard) → Knows g → Knows (unlock_guard g)
unfolding unlock_guard
unlock_guard-Knows g h = ground (arith, held_after-append false g.calls (unlock ∷ []))

use_guard-Knows : (k : Kind) (g : Guard) (us : List Use) → Knows g → Knows (use_guard k g us)
unfolding use_guard
use_guard-Knows k g [] h = h
use_guard-Knows k g (locks ∷ us) h = use_guard-Knows k (lock_guard k g) us (lock_guard-Knows k g h)
use_guard-Knows k g (unlocks ∷ us) h =
    use_guard-Knows k (unlock_guard g) us (unlock_guard-Knows g h)

new_guard-Knows : (k : Kind) → Knows (new_guard k)
unfolding new_guard
new_guard-Knows scoped = refl
new_guard-Knows read_scoped = refl
new_guard-Knows write_scoped = refl

-- Whether a scope leaves its guard locked at its end.
abbrev pub ends_locked : Bool → List Use → Bool
ends_locked l [] = l
ends_locked l (locks ∷ us) = ends_locked true us
ends_locked l (unlocks ∷ us) = ends_locked false us

lock_guard-locked : (k : Kind) (g : Guard) → (lock_guard k g).locked ≡ true
unfolding lock_guard
lock_guard-locked k g = ground arith

unlock_guard-locked : (g : Guard) → (unlock_guard g).locked ≡ false
unfolding unlock_guard
unlock_guard-locked g = ground arith

use_guard-locked :
    (k : Kind) (g : Guard) (us : List Use) → (use_guard k g us).locked ≡ ends_locked g.locked us
unfolding use_guard
use_guard-locked k g [] = refl
use_guard-locked k g (locks ∷ us) =
    use_guard-locked k (lock_guard k g) us ∙ ap (λ b. ends_locked b us) (lock_guard-locked k g)
use_guard-locked k g (unlocks ∷ us) =
    use_guard-locked k (unlock_guard g) us ∙ ap (λ b. ends_locked b us) (unlock_guard-locked g)

final : Kind → List Use → Guard
final k us = use_guard k (new_guard k) us

final-Knows : (k : Kind) (us : List Use) → Knows (final k us)
unfolding final
final-Knows k us = use_guard-Knows k (new_guard k) us (new_guard-Knows k)

final-locked : (k : Kind) (us : List Use) → (final k us).locked ≡ ends_locked true us
unfolding final new_guard
final-locked k us = use_guard-locked k (new_guard k) us

drop-IsBalanced : (k : Kind) (us : List Use) → IsBalanced (unlock_guard (final k us)).calls
drop-IsBalanced k us =
    unlock_guard-Knows (final k us) (final-Knows k us) ∙ ap some (unlock_guard-locked (final k us))

-- However a scope uses a read or a write guard, the mutex is unlocked exactly as often as locked and
-- never twice in a row.
pub scope-IsBalanced : (k : Kind) (us : List Use) → k ≢ scoped → IsBalanced (scope k us)
unfolding scope drop_guard final
scope-IsBalanced scoped us h = absurd (h refl)
scope-IsBalanced read_scoped us h = drop-IsBalanced read_scoped us
scope-IsBalanced write_scoped us h = drop-IsBalanced write_scoped us

-- With a ScopedLockImpl the mutex is balanced exactly if the scope ends with the guard locked: after
-- an `unlock()` of its own, the destructor unlocks a mutex that the scope does not hold.
pub scoped-IsBalanced_iff :
    (us : List Use) → IsBalanced (scope scoped us) ↔ (ends_locked true us ≡ true)
unfolding scope drop_guard final
scoped-IsBalanced_iff us =
    let calls = held_after-append false (final scoped us).calls (unlock ∷ []) in
    let knows = final-Knows scoped us in
    let locked = final-locked scoped us in
    (λ b. ground (arith, calls, knows, locked, b), λ l. ground (arith, calls, knows, locked, l))
