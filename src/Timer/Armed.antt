-- ===== src/Timer/Armed.antt =====
-- A timer that is waited for, through any calls on its manager that leave it alone.
use fiber_async.Prelude.{
  u64_mod, ℕ, ◌+◌, ◌≡◌, ◌<◌, refl, ap, ◌∙◌, subst, inl, inr, List, [], ◌∷◌, ◌++◌, Option, some,
  Bool, true, false, arith, ok, contains, ◌==◌, Bool-cases, is_some, contains-filter_by,
}
use fiber_async.Timer.{
  Timer, Store, TimerManager, Callback, cancel, refresh, reset, list_expired_cb, get_next_timer,
}
use fiber_async.Timer.Set.{contains-erase}
use fiber_async.Timer.Invariant.{IsValid, add_timer-IsValid, cancelled, cancel_armed, cancel_idle}
use fiber_async.Timer.Expiry.{is_taken, rolled_over, taken_of}
use fiber_async.Timer.Fired.{cbs_of}
use fiber_async.Timer.Due.{list_expired-cbs, list_expired-other}
use fiber_async.Timer.Added.{cbs_of-split, add_timer-effect, with_timer, add_timer_lem}
use fiber_async.Timer.Reach.{Step, adds, cancels, refreshes, resets, expires, waits, Step-IsValid}
use fiber_async.Timer.Reschedule.{refresh_armed, reset_armed}

-- The timer `p` is in the set of a valid manager, with its callback and due time.
pub record IsArmed (m : TimerManager) (p due : ℕ) (cb : Callback) : Type 0 where
  pub valid : IsValid m
  pub held : contains m.timers p ≡ true
  pub callback : (m.store p).cb ≡ some cb
  pub next : (m.store p).next ≡ due

-- The call does not cancel or move the timer `p`; a call of listExpiredCb comes before `due`, at a clock
-- that has not rolled over.
abbrev pub Spares : ℕ → ℕ → {m m' : TimerManager} → Step m m' → Type 0
Spares p due (adds q ms cb recurring now fresh) = Unit {0}
Spares p due (cancels q done runs) = (q == p) ≡ false
Spares p due (refreshes q now) = (q == p) ≡ false
Spares p due (resets q ms from_now now) = (q == p) ≡ false
Spares p due {m} (expires clock mark fresh) = (rolled_over m (clock 0) ≡ false) × (clock 0 < due)
Spares p due (waits now) = Unit {0}

-- Any number of such calls, by whatever threads.
pub data Meanwhile (p due : ℕ) (m : TimerManager) : TimerManager → Type 0 where
  at_once : Meanwhile p due m m
  followed :
      {m' m'' : TimerManager}
      → Meanwhile p due m m'
      → (st : Step m' m'') → Spares p due st
      → Meanwhile p due m m''

-- The timer is where it was, as it was.
abbrev Same : ℕ → TimerManager → TimerManager → Type 0
Same p m m' = (m'.store p ≡ m.store p) × (contains m'.timers p ≡ contains m.timers p)

cancel-Same :
    (m m' : TimerManager) (p q : ℕ) (done : Bool)
    → IsValid m
    → (q == p) ≡ false
    → cancel m q ≡ ok (m', done)
    → Same p m m'
cancel-Same m m' p q done v apart runs = elim (Bool-cases (is_some (m.store q).cb)) [
  | inl on ↦
      let same : cancelled m q ≡ m' = cc (cancel_armed m q v on) in
      let kept : Same p m (cancelled m q) =
        (ground arith, ground (arith, contains-erase m.store q p m.timers v.sorted)) in
      subst (Same p m) same kept
  | inr off ↦
      let same : m ≡ m' = cc (cancel_idle m q off) in
      let kept : Same p m m = (refl, refl) in subst (Same p m) same kept
]

refresh-Same :
    (m : TimerManager) (p q now : ℕ) → IsValid m → (q == p) ≡ false → Same p m (refresh m q now).0
unfolding refresh
refresh-Same m p q now v apart = elim (Bool-cases (is_some (m.store q).cb)) [
  | inl on ↦
      let (done, store, inside) = refresh_armed m q now v on in
      (ap (λ (s : Store). s p) store ∙ ground arith, inside p)
  | inr off ↦ rw (off, refresh) (refl, refl)
]

reset-Same :
    (m : TimerManager) (p q ms : ℕ) (from_now : Bool) (now : ℕ)
    → IsValid m
    → (q == p) ≡ false
    → Same p m (reset m q ms from_now now).0
unfolding reset
reset-Same m p q ms from_now now v apart = elim (Bool-cases (is_some (m.store q).cb)) [
  | inl on ↦
      let (done, store, inside) = reset_armed m q now v on ms from_now in
      (ap (λ (s : Store). s p) store ∙ ground arith, inside p)
  | inr off ↦ ground arith
]

module _ {m : TimerManager} {p due : ℕ} {cb : Callback} (a : IsArmed m p due cb) where
  mark_apart : (mark : ℕ) → contains m.timers mark ≡ false → (mark == p) ≡ false
  mark_apart mark fresh = ground (arith, a.held, fresh)

  not_taken :
      (c mark : ℕ)
      → rolled_over m c ≡ false
      → c < due
      → is_taken m.store (rolled_over m c) c mark p ≡ false
  not_taken c mark forward early = ground (arith, a.next, forward)

  -- A call of listExpiredCb before the timer is due does not take it out.
  pub early_look :
      (clock : ℕ → ℕ) (mark : ℕ) (cbs : List (Option Callback))
      → contains m.timers mark ≡ false
      → rolled_over m (clock 0) ≡ false
      → clock 0 < due
      → Same p m (list_expired_cb m clock mark cbs).0
  early_look clock mark cbs fresh forward early =
      list_expired-other m clock mark cbs fresh a.valid p (mark_apart mark fresh)
        (rw (not_taken (clock 0) mark forward early) (ground arith))

  -- The callbacks that it then hands out are of other timers.
  pub early_cbs :
      (clock : ℕ → ℕ) (mark : ℕ) (cbs : List (Option Callback))
      → contains m.timers mark ≡ false
      → rolled_over m (clock 0) ≡ false
      → clock 0 < due
      → (ps : List ℕ) × ((list_expired_cb m clock mark cbs).1 ≡ cbs ++ cbs_of m.store ps)
        × (contains ps p ≡ false)
  early_cbs clock mark cbs fresh forward early = (
    taken_of m (rolled_over m (clock 0)) (clock 0) mark,
    list_expired-cbs m clock mark cbs fresh a.valid,
    contains-filter_by _ m.timers p ∙ rw (not_taken (clock 0) mark forward early) (ground arith),
  )

  -- Once the timer is past due, its callback is among those that are handed out.
  pub late_cbs :
      (c mark : ℕ)
      → due < c
      → (x : List (Option Callback)) × (y : List (Option Callback)) × (cbs_of m.store
            (taken_of m (rolled_over m c) c mark)
          ≡ x ++ some cb ∷ y)
  late_cbs c mark late =
      let held : contains (taken_of m (rolled_over m c) c mark) p ≡ true =
        contains-filter_by _ m.timers p ∙ ground (arith, a.held, a.next) in
      let (x, y, e) = cbs_of-split m.store _ p held in (x, y, e ∙ ap (λ z. x ++ z ∷ y) a.callback)

  Step-Same : {m' : TimerManager} (st : Step m m') → Spares p due st → Same p m m'
  unfolding get_next_timer
  Step-Same (adds q ms f recurring now fresh) h =
      let apart : (q == p) ≡ false = mark_apart q fresh in
      (add_timer-effect m q ms f recurring now).2 p apart
  Step-Same {m' = m'} (cancels q done runs) h = cancel-Same m m' p q done a.valid h runs
  Step-Same (refreshes q now) h = refresh-Same m p q now a.valid h
  Step-Same (resets q ms from_now now) h = reset-Same m p q ms from_now now a.valid h
  Step-Same (expires clock mark fresh) (forward, early) =
      early_look clock mark [] fresh forward early
  Step-Same (waits now) h = (refl, refl)

  Step-IsArmed : {m' : TimerManager} (st : Step m m') → Spares p due st → IsArmed m' p due cb
  Step-IsArmed st h =
      let (same, inside) = Step-Same st h in
      record {
        valid = Step-IsValid st a.valid;
        held = inside ∙ a.held;
        callback = ap (λ (t : Timer). t.cb) same ∙ a.callback;
        next = ap (λ (t : Timer). t.next) same ∙ a.next;
      }

-- It stays armed through all such calls.
pub Meanwhile-IsArmed :
    {p due : ℕ} {cb : Callback} {m m' : TimerManager}
    → IsArmed m p due cb
    → Meanwhile p due m m'
    → IsArmed m' p due cb
Meanwhile-IsArmed a at_once = a
Meanwhile-IsArmed a (followed w st h) = Step-IsArmed (Meanwhile-IsArmed a w) st h

-- A timer that has just been added.
pub added-IsArmed :
    (m : TimerManager) (p ms : ℕ) (cb : Callback) (recurring : Bool) (now : ℕ)
    (fresh : contains m.timers p ≡ false)
    → IsValid m
    → now + ms < u64_mod
    → IsArmed (with_timer m p ms (some cb) recurring now fresh) p (now + ms) cb
added-IsArmed m p ms cb recurring now fresh v small =
    let (writes, next, others) = add_timer-effect m p ms (some cb) recurring now in
    record {
      valid = add_timer-IsValid m p ms (some cb) recurring now fresh v;
      held = ground (arith, (add_timer_lem m p ms (some cb) recurring now fresh).1 p);
      callback = writes;
      next = next ∙ omega (arith, small);
    }

pub Meanwhile-same :
    {p due : ℕ} {cb : Callback} {m m' : TimerManager}
    → IsArmed m p due cb
    → Meanwhile p due m m'
    → m'.store p ≡ m.store p
Meanwhile-same a at_once = refl
Meanwhile-same a (followed w st h) = (Step-Same (Meanwhile-IsArmed a w) st h).0 ∙ Meanwhile-same a w
