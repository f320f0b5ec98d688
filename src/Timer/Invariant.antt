-- ===== src/Timer/Invariant.antt =====
-- The manager's invariant, and that each operation of a timer keeps it.
use fiber_async.Prelude.{
  ℕ, ◌≡◌, refl, ◌∙◌, inl, inr, List, [], ◌∷◌, Option, none, Bool, true, false, arith, update, ◌==◌,
  contains, Bool-cases, ◌&&◌, not, ok, is_some,
}
use fiber_async.Timer.{
  Store, Timer, TimerManager, Callback, insert, erase, new_timer, new_manager, add_locked,
  add_timer, cancel, refresh, reset,
}
use fiber_async.Timer.Order.{before-update_same}
use fiber_async.Timer.Set.{
  Leads, IsSorted, insert-IsSorted, contains-insert, find_of_contains, erase-IsSorted,
  contains-erase, IsSorted-update,
}

-- The set is in the comparator's order, and a timer that still has its callback is in the set.
pub record IsValid (m : TimerManager) : Type 0 where
  pub sorted : IsSorted m.store m.timers
  pub armed : (p : ℕ) → is_some (m.store p).cb ≡ true → contains m.timers p ≡ true

Leads-update_same :
    (s : Store) (p : ℕ) (t : Timer) (x : ℕ) (xs : List ℕ)
    → t.next ≡ (s p).next
    → Leads s x xs
    → Leads (update s p t) x xs
Leads-update_same s p t x [] e l = tt
Leads-update_same s p t x (y ∷ ys) e l =
    (before-update_same s p t x y e ∙ l.0, Leads-update_same s p t x ys e l.1)

pub IsSorted-update_same :
    (s : Store) (p : ℕ) (t : Timer) (xs : List ℕ)
    → t.next ≡ (s p).next
    → IsSorted s xs
    → IsSorted (update s p t) xs
IsSorted-update_same s p t [] e h = tt
IsSorted-update_same s p t (x ∷ xs) e h =
    (Leads-update_same s p t x xs e h.0, IsSorted-update_same s p t xs e h.1)

-- A manager is created with no timer, over a heap where no timer is armed.
pub new_manager-IsValid :
    (s : Store) (now : ℕ) → ((p : ℕ) → is_some (s p).cb ≡ false) → IsValid (new_manager s now)
unfolding new_manager
new_manager-IsValid s now quiet = record { sorted = tt; armed = λ p h. ground (arith, quiet p) }

-- Entering a timer that is not in the set keeps the set in order, whatever is written to it.
enter-IsSorted :
    (s : Store) (xs : List ℕ) (p : ℕ) (t : Timer)
    → contains xs p ≡ false
    → IsSorted s xs
    → IsSorted (update s p t) (insert (update s p t) p xs)
enter-IsSorted s xs p t c h = insert-IsSorted (update s p t) p xs (IsSorted-update s p t xs c h)

add_locked-timers :
    (m : TimerManager) (p : ℕ) → (add_locked m p).0.timers ≡ insert m.store p m.timers
unfolding add_locked
add_locked-timers m p = refl

-- The rest of a manager's set after a timer is taken out and put in again with another due time.
pub reenter-IsValid :
    (m : TimerManager) (p : ℕ) (t : Timer) (tickled : Bool) (previous : ℕ)
    → IsValid m
    → IsValid (record {
      store = update m.store p t;
      timers = insert (update m.store p t) p (erase p m.timers);
      tickled = tickled;
      previous_time = previous;
    })
reenter-IsValid m p t tickled previous v = record {
  sorted =
      enter-IsSorted m.store (erase p m.timers) p t
        (ground (arith, contains-erase m.store p p m.timers v.sorted))
        (erase-IsSorted m.store p m.timers v.sorted);
  armed = λ q h. ground (
    arith,
    contains-insert (update m.store p t) p q (erase p m.timers),
    contains-erase m.store p q m.timers v.sorted,
    v.armed q,
  );
}

-- add_timer(ms, cb, recurring) with a new object.
pub add_timer-IsValid :
    (m : TimerManager) (p ms : ℕ) (cb : Option Callback) (recurring : Bool) (now : ℕ)
    → contains m.timers p ≡ false
    → IsValid m
    → IsValid (add_timer m p ms cb recurring now).0
unfolding add_timer
add_timer-IsValid m p ms cb recurring now fresh v = record {
  sorted = enter-IsSorted m.store m.timers p (new_timer ms cb recurring now) fresh v.sorted;
  armed = λ q h. ground (
    arith,
    contains-insert (update m.store p (new_timer ms cb recurring now)) p q m.timers,
    v.armed q,
  );
}

pub refresh-IsValid : (m : TimerManager) (p now : ℕ) → IsValid m → IsValid (refresh m p now).0
unfolding refresh
refresh-IsValid m p now v = elim (Bool-cases (is_some (m.store p).cb)) [
  | inl on ↦
      let found = find_of_contains m.store p m.timers v.sorted (v.armed p on) in
      rw (on, found, refresh) (reenter-IsValid m p _ _ _ v)
  | inr off ↦ rw (off, refresh) v
]

pub reset-IsValid :
    (m : TimerManager) (p ms : ℕ) (from_now : Bool) (now : ℕ)
    → IsValid m
    → IsValid (reset m p ms from_now now).0
unfolding reset
reset-IsValid m p ms from_now now v = elim (Bool-cases (ms == (m.store p).ms && not from_now)) [
  | inl same ↦ rw (same, reset) v
  | inr other ↦ elim (Bool-cases (is_some (m.store p).cb)) [
    | inl on ↦
        let found = find_of_contains m.store p m.timers v.sorted (v.armed p on) in
        rw (other, on, found, reset) (reenter-IsValid m p _ _ _ v)
    | inr off ↦ rw (other, off, reset) v
  ]
]

-- The manager after a successful `cancel`.
abbrev pub cancelled : TimerManager → ℕ → TimerManager
cancelled m p = record m {
  store = update m.store p (record (m.store p) { cb = none });
  timers = erase p m.timers;
}

pub cancelled-IsValid : (m : TimerManager) (p : ℕ) → IsValid m → IsValid (cancelled m p)
cancelled-IsValid m p v = record {
  sorted =
      IsSorted-update_same m.store p _ (erase p m.timers) refl
        (erase-IsSorted m.store p m.timers v.sorted);
  armed = λ q h. ground (arith, contains-erase m.store p q m.timers v.sorted, v.armed q);
}

-- `cancel` of an armed timer takes it out; a second one finds nothing to do.
pub cancel_armed :
    (m : TimerManager) (p : ℕ)
    → IsValid m
    → is_some (m.store p).cb ≡ true
    → cancel m p ≡ ok (cancelled m p, true)
unfolding cancel
cancel_armed m p v on =
    let sorted =
      IsSorted-update_same m.store p (record (m.store p) { cb = none }) m.timers refl v.sorted in
    rw (on, find_of_contains _ p m.timers sorted (v.armed p on), cancel)

pub cancel_idle :
    (m : TimerManager) (p : ℕ) → is_some (m.store p).cb ≡ false → cancel m p ≡ ok (m, false)
unfolding cancel
cancel_idle m p off = rw off
