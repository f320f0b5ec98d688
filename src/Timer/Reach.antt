-- ===== src/Timer/Reach.antt =====
-- Any sequence of calls on a manager. Each call is one step: it holds the manager's lock.
use fiber_async.Prelude.{
  [], ℕ, ◌≡◌, Option, Bool, false, arith, contains, ok, Bool-cases, inl, inr, is_some, ◌==◌,
  if◌then◌else◌, ◌&&◌,
}
use fiber_async.Timer.{
  Store, TimerManager, Callback, new_manager, add_timer, cancel, refresh, reset, list_expired_cb,
  get_next_timer,
}
use fiber_async.Timer.Invariant.{
  IsValid, new_manager-IsValid, add_timer-IsValid, refresh-IsValid, reset-IsValid, cancelled,
  cancelled-IsValid, cancel_armed, cancel_idle,
}
use fiber_async.Timer.Due.{list_expired-IsValid}
use fiber_async.Timer.Set.{contains-erase}

-- A new object is at an address that no timer of the set has.
pub data Step (m : TimerManager) : TimerManager → Type 0 where
  adds :
      (p ms : ℕ) (cb : Option Callback) (recurring : Bool) (now : ℕ)
      → contains m.timers p ≡ false
      → Step m (add_timer m p ms cb recurring now).0
  cancels : {m' : TimerManager} (p : ℕ) (done : Bool) → cancel m p ≡ ok (m', done) → Step m m'
  refreshes : (p now : ℕ) → Step m (refresh m p now).0
  resets : (p ms : ℕ) (from_now : Bool) (now : ℕ) → Step m (reset m p ms from_now now).0
  expires :
      (clock : ℕ → ℕ) (mark : ℕ)
      → contains m.timers mark ≡ false
      → Step m (list_expired_cb m clock mark []).0
  waits : (now : ℕ) → Step m (get_next_timer m now).0

-- From a new manager, over a heap where no timer is armed.
pub data Reach : TimerManager → Type 0 where
  start : (s : Store) (now : ℕ) → ((p : ℕ) → is_some (s p).cb ≡ false) → Reach (new_manager s now)
  later : {m m' : TimerManager} → Reach m → Step m m' → Reach m'

cancel-cases :
    (m : TimerManager) (p : ℕ) (m' : TimerManager) (done : Bool)
    → IsValid m
    → cancel m p ≡ ok (m', done)
    → IsValid m'
cancel-cases m p m' done v e = elim (Bool-cases (is_some (m.store p).cb)) [
  | inl on ↦
      let same : cancelled m p ≡ m' = cc (cancel_armed m p v on) in
      rw same at (cancelled-IsValid m p v)
  | inr off ↦ let same : m ≡ m' = cc (cancel_idle m p off) in rw same at v
]

wait-IsValid : (m : TimerManager) (now : ℕ) → IsValid m → IsValid (get_next_timer m now).0
unfolding get_next_timer
wait-IsValid m now v = record { sorted = v.sorted; armed = v.armed }

pub Step-IsValid : {m m' : TimerManager} → Step m m' → IsValid m → IsValid m'
Step-IsValid {m} (adds p ms cb recurring now fresh) v =
    add_timer-IsValid m p ms cb recurring now fresh v
Step-IsValid {m} {m'} (cancels p done e) v = cancel-cases m p m' done v e
Step-IsValid {m} (refreshes p now) v = refresh-IsValid m p now v
Step-IsValid {m} (resets p ms from_now now) v = reset-IsValid m p ms from_now now v
Step-IsValid {m} (expires clock mark fresh) v = list_expired-IsValid m clock mark [] fresh v
Step-IsValid {m} (waits now) v = wait-IsValid m now v

-- After any sequence of calls the set is in the comparator's order, and every timer that still has
-- its callback is in the set.
pub Reach-IsValid : {m : TimerManager} → Reach m → IsValid m
Reach-IsValid (start s now quiet) = new_manager-IsValid s now quiet
Reach-IsValid (later r st) = Step-IsValid st (Reach-IsValid r)

-- After any sequence of calls `cancel` ends without undefined behaviour. It returns whether the
-- timer had a callback; then the timer has none and is out of the set, and no other timer moved.
pub cancel_total :
    {m : TimerManager}
    → Reach m
    → (p : ℕ)
    → (m' : TimerManager) × (cancel m p ≡ ok (m', is_some (m.store p).cb))
      × (is_some (m'.store p).cb ≡ false)
      × ((q : ℕ)
          → contains m'.timers q
            ≡ (if is_some (m.store p).cb && p == q then false else contains m.timers q))
cancel_total {m} r p =
    let v = Reach-IsValid r in
    elim (Bool-cases (is_some (m.store p).cb)) [
      | inl on ↦ (
        cancelled m p,
        rw on (cancel_armed m p v on),
        ground arith,
        λ q. rw on (contains-erase m.store p q m.timers v.sorted),
      )
      | inr off ↦ (m, rw off (cancel_idle m p off), off, λ q. rw off)
    ]
