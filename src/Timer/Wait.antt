-- ===== src/Timer/Wait.antt =====
-- How long the idle loop may sleep, and when a new timer has to wake it.
use fiber_async.Prelude.{
  ℕ, ◌+◌, ◌≤◌, ◌≡◌, ◌≢◌, ◌↔◌, refl, List, [], ◌∷◌, Option, Bool, true, false, arith, update, ==_iff,
  contains, is_empty,
}
use fiber_async.Timer.{
  Store, TimerManager, Callback, insert, head_is, new_timer, add_timer, get_next_timer,
  detect_clock_rollover,
}
use fiber_async.Timer.Expiry.{taken_of, rolled_over}
use fiber_async.Timer.Order.{before, before-next-le, before_asym}
use fiber_async.Timer.Set.{Leads, IsSorted, Leads-contains, Leads-trans, IsSorted-update}
use fiber_async.Timer.Invariant.{IsValid}

next-le_of_head :
    (s : Store) (x : ℕ) (xs : List ℕ) (p : ℕ)
    → Leads s x xs
    → contains (x ∷ xs) p ≡ true
    → (s x).next ≤ (s p).next
next-le_of_head s x xs p l c =
    ground (arith, ==_iff x p, Leads-contains s x p xs l, before-next-le s x p)

-- The statement below at a set that is given apart.
wait_of :
    (m : TimerManager) (now : ℕ) (xs : List ℕ)
    → m.timers ≡ xs
    → IsSorted m.store xs
    → is_empty xs ≡ false
    → ((p : ℕ)
        → contains xs p ≡ true
        → (get_next_timer m now).1 ≢ 0
        → now + (get_next_timer m now).1 ≤ (m.store p).next)
      × ((p : ℕ) × (contains xs p ≡ true) × ((m.store p).next ≤ now + (get_next_timer m now).1))
unfolding get_next_timer
wait_of m now [] e h some_timer = cc
wait_of m now (x ∷ xs) e h some_timer = (
  λ p c later. ground (arith, e, next-le_of_head m.store x xs p h.0),
  (x, ground arith, ground (arith, e)),
)

-- In a valid manager with a timer in the set, sleeping for the result, when it is not 0, oversleeps no timer; and after
-- that sleep some timer is due, so it is not shorter than it has to be.
pub next_timer_wait :
    (m : TimerManager) (now : ℕ)
    → IsValid m
    → is_empty m.timers ≡ false
    → ((p : ℕ)
        → contains m.timers p ≡ true
        → (get_next_timer m now).1 ≢ 0
        → now + (get_next_timer m now).1 ≤ (m.store p).next)
      × ((p : ℕ) × (contains m.timers p ≡ true)
          × ((m.store p).next ≤ now + (get_next_timer m now).1))
next_timer_wait m now v some_timer = wait_of m now m.timers refl v.sorted some_timer

module _ (s : Store) (p : ℕ) where
  -- A new element is the first exactly if it comes before all the others.
  head_insert :
      (xs : List ℕ)
      → contains xs p ≡ false
      → IsSorted s xs
      → (head_is (insert s p xs) p ≡ true) ↔ Leads s p xs
  unfolding insert head_is
  head_insert [] out h = (λ e. tt, λ l. ground arith)
  head_insert (x ∷ xs) out h = (
    λ e. let first : before s p x ≡ true = ground arith in (first, Leads-trans s p x xs first h.0),
    λ l. ground (arith, before_asym s p x),
  )

-- Adding a new timer to a valid manager notifies the idle loop exactly if the timer is the first to fall due and no
-- notice has been given since the loop last asked for the time to sleep.
pub add_timer-notifies :
    (m : TimerManager) (p ms : ℕ) (cb : Option Callback) (recurring : Bool) (now : ℕ)
    → contains m.timers p ≡ false
    → IsValid m
    → ((add_timer m p ms cb recurring now).1 ≡ true)
      ↔ ((m.tickled ≡ false) × Leads (update m.store p (new_timer ms cb recurring now)) p m.timers)
unfolding add_timer
add_timer-notifies m p ms cb recurring now fresh v =
    let t = new_timer ms cb recurring now in
    let first =
      head_insert (update m.store p t) p m.timers fresh
        (IsSorted-update m.store p t m.timers fresh v.sorted) in
    (λ e. (ground arith, first.0 (ground arith)), λ h. ground (arith, first.1 h.1))

-- Asking for the time to sleep takes note that the idle loop is awake, and changes nothing else.
pub get_next_timer-manager :
    (m : TimerManager) (now : ℕ) → (get_next_timer m now).0 ≡ record m { tickled = false }
unfolding get_next_timer
get_next_timer-manager m now = refl

-- Nor does it change which timers listExpiredCb takes out.
pub get_next_timer-taken_of :
    (m : TimerManager) (now c mark : ℕ)
    → let m' = (get_next_timer m now).0 in
      taken_of m' (rolled_over m' c) c mark ≡ taken_of m (rolled_over m c) c mark
unfolding get_next_timer detect_clock_rollover
get_next_timer-taken_of m now c mark = refl
