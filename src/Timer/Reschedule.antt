-- ===== src/Timer/Reschedule.antt =====
-- Timer::refresh and Timer::reset: when a timer that is armed falls due afterwards.
use fiber_async.Prelude.{
  List, ℕ, ◌+◌, ◌≤◌, ◌<◌, ◌≡◌, refl, Bool, true, false, arith, contains, Bool-cases, inl, inr,
  is_some, update, ◌==◌, if◌then◌else◌, ◌&&◌, not, add64, sub64, u64_mod,
}
use fiber_async.Timer.{TimerManager, Timer, Store, insert, erase, refresh, reset}
use fiber_async.Timer.Invariant.{IsValid}
use fiber_async.Timer.Set.{contains-insert, contains-erase, find_of_contains, IsSorted}

-- A timer taken out and put in again is in the set as before, and so is every other.
contains-reenter :
    (s s' : Store) (p q : ℕ) (xs : List ℕ)
    → IsSorted s xs
    → contains xs p ≡ true
    → contains (insert s' p (erase p xs)) q ≡ contains xs q
contains-reenter s s' p q xs h c =
    ground (arith, contains-insert s' p q (erase p xs), contains-erase s p q xs h)

module _ (m : TimerManager) (p now : ℕ) (v : IsValid m) (on : is_some (m.store p).cb ≡ true) where
  -- In a valid manager, `refresh` of an armed timer returns true, makes it due one period from now, and changes neither
  -- which timers are in the set nor any other timer.
  pub refresh_armed :
      ((refresh m p now).1 ≡ true)
      × ((refresh m p now).0.store
          ≡ update m.store p (record (m.store p) { next = add64 now (m.store p).ms }))
      × ((q : ℕ) → contains (refresh m p now).0.timers q ≡ contains m.timers q)
  unfolding refresh
  refresh_armed =
      let found = find_of_contains m.store p m.timers v.sorted (v.armed p on) in
      rw (on, found, refresh)
        (refl, refl, λ q. contains-reenter m.store _ p q m.timers v.sorted (v.armed p on))

  abbrev restarted : ℕ → Bool → Timer
  restarted ms from_now = record (m.store p) {
    ms = ms;
    next = add64 (if from_now then now else sub64 (m.store p).next (m.store p).ms) ms;
  }

  -- In a valid manager, `reset` of an armed timer returns true; unless it asks for the period that the timer has, from
  -- its old start, the timer then has the new period and is due that long after its old start or
  -- after now; the set holds the same timers and no other timer changes.
  pub reset_armed :
      (ms : ℕ) (from_now : Bool)
      → ((reset m p ms from_now now).1 ≡ true)
        × ((reset m p ms from_now now).0.store ≡ (
            if ms == (m.store p).ms && not from_now
            then m.store
            else update m.store p (restarted ms from_now)))
        × ((q : ℕ) → contains (reset m p ms from_now now).0.timers q ≡ contains m.timers q)
  unfolding reset
  reset_armed ms from_now =
      let found = find_of_contains m.store p m.timers v.sorted (v.armed p on) in
      elim (Bool-cases (ms == (m.store p).ms && not from_now)) [
        | inl same ↦ rw (same, reset) (refl, refl, λ q. refl)
        | inr other ↦
            rw (other, on, found, reset)
              (refl, refl, λ q. contains-reenter m.store _ p q m.timers v.sorted (v.armed p on))
      ]

  -- In a valid manager, a change of an armed timer's period keeps the start of the current one: if
  -- the timer started at or after 0 and its new due time stays below 2^64, the due time moves by the
  -- difference of the periods.
  pub reset_keeps_start :
      (ms : ℕ)
      → (m.store p).ms ≤ (m.store p).next
      → (m.store p).next + ms < u64_mod
      → ((reset m p ms false now).0.store p).next + (m.store p).ms ≡ (m.store p).next + ms
  reset_keeps_start ms started small =
      let start : sub64 (m.store p).next (m.store p).ms + (m.store p).ms ≡ (m.store p).next =
        omega arith in
      ground (arith, reset_armed ms false, start)
