-- ===== src/Timer/Added.antt =====
-- What add_timer writes.
use fiber_async.Prelude.{
  ℕ, ◌≡◌, refl, ap, inl, inr, List, [], ◌∷◌, ◌++◌, Option, Bool, true, false, arith, contains,
  update, ◌==◌, ==_iff, Bool-cases, add64, if◌then◌else◌,
}
use fiber_async.Timer.{TimerManager, Store, Callback, new_timer, add_timer}
use fiber_async.Timer.Set.{contains-insert}
use fiber_async.Timer.Fired.{cbs_of}

-- The callbacks of a list of timers have the callback of each among them.
pub cbs_of-split :
    (s : Store) (ps : List ℕ) (p : ℕ)
    → contains ps p ≡ true
    → (a : List (Option Callback)) × (b : List (Option Callback)) × (cbs_of s ps
        ≡ a ++ (s p).cb ∷ b)
cbs_of-split s [] p h = cc
cbs_of-split s (x ∷ ps) p h = elim (Bool-cases (x == p)) [
  | inl hit ↦ ([], cbs_of s ps, ap (λ q. (s q).cb ∷ cbs_of s ps) ((==_iff x p).0 hit))
  | inr miss ↦
      let (a, b, e) = cbs_of-split s ps p (ground arith) in
      ((s x).cb ∷ a, b, ap (λ l. (s x).cb ∷ l) e)
]

-- What add_timer writes, to the new timer and to no other.
pub add_timer-effect :
    (m : TimerManager) (p ms : ℕ) (cb : Option Callback) (recurring : Bool) (now : ℕ)
    → (((add_timer m p ms cb recurring now).0.store p).cb ≡ cb)
      × (((add_timer m p ms cb recurring now).0.store p).next ≡ add64 now ms)
      × ((q : ℕ)
          → (p == q) ≡ false
          → ((add_timer m p ms cb recurring now).0.store q ≡ m.store q)
            × (contains (add_timer m p ms cb recurring now).0.timers q ≡ contains m.timers q))
unfolding add_timer new_timer
add_timer-effect m p ms cb recurring now = (
  ground arith,
  ground arith,
  λ q apart. (
    ground arith,
    ground (arith, contains-insert (update m.store p (new_timer ms cb recurring now)) p q m.timers),
  ),
)

module _ (m : TimerManager) (p ms : ℕ) (cb : Option Callback) (recurring : Bool) (now : ℕ)
    (fresh : contains m.timers p ≡ false) where
  abbrev pub with_timer : TimerManager
  with_timer = (add_timer m p ms cb recurring now).0

  -- The timer that was added is in the set, as it was made, and nothing else changed there.
  pub add_timer_lem :
      (with_timer.store ≡ update m.store p (new_timer ms cb recurring now))
      × ((q : ℕ) → contains with_timer.timers q ≡ (if p == q then true else contains m.timers q))
      × (with_timer.previous_time ≡ m.previous_time)
  unfolding add_timer
  add_timer_lem = (
    refl,
    λ q. contains-insert (update m.store p (new_timer ms cb recurring now)) p q m.timers,
    refl,
  )
