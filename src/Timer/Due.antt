-- ===== src/Timer/Due.antt =====
-- listExpiredCb: what it hands out, what it does to every timer, and that it keeps the invariant.
use fiber_async.Prelude.{
  ℕ, ◌≡◌, ◌<◌, refl, sym, ap, subst, ◌∙◌, inl, inr, List, ◌++◌, Option, Bool, true, false, arith,
  update, ◌==◌, ==_iff, contains, Bool-cases, is_some, IsDistinct, ◌&&◌, contains-filter_by,
  filter_by-IsDistinct,
}
use mathlib.Core.List.{append-nil}
use mathlib.Core.Bool.{false≢true}
use fiber_async.Timer.{TimerManager, Callback, new_mark, list_expired_cb}
use fiber_async.Timer.Set.{IsSorted}
use fiber_async.Timer.Fired.{
  IsSorted-IsDistinct, cbs_of, cbs_of-update, fire-cbs, fire-IsSorted, fire-other, fire-expired,
  Settled,
}
use fiber_async.Timer.Expiry.{is_taken, rolled_over, taken_of, Ending, list_expired-Ending}
use fiber_async.Timer.Invariant.{IsValid}

module _ (m : TimerManager) (clock : ℕ → ℕ) (mark : ℕ) (cbs : List (Option Callback))
    (fresh : contains m.timers mark ≡ false) (v : IsValid m) where
  abbrev taken : ℕ → Bool
  taken = is_taken m.store (rolled_over m (clock 0)) (clock 0) mark

  abbrev taken_timers : List ℕ
  taken_timers = taken_of m (rolled_over m (clock 0)) (clock 0) mark

  abbrev result : TimerManager × List (Option Callback)
  result = list_expired_cb m clock mark cbs

  distinct : IsDistinct taken_timers
  distinct = filter_by-IsDistinct taken m.timers (IsSorted-IsDistinct m.store m.timers v.sorted)

  ending : Ending m (rolled_over m (clock 0)) clock mark cbs result
  ending = list_expired-Ending m clock mark cbs fresh v.sorted

  mark_not_taken : contains taken_timers mark ≡ false
  mark_not_taken = ground (arith, contains-filter_by taken m.timers mark)

  -- In a valid manager, with the mark at an address that no timer of the set has: the call appends to
  -- the vector, in the order of the set, the callbacks of exactly the timers that it takes out: all of
  -- the set after a rollover of the clock; otherwise those due before the clock reading, and of those
  -- due exactly then only the ones at lower addresses than the mark.
  pub list_expired-cbs : result.1 ≡ cbs ++ cbs_of m.store taken_timers
  list_expired-cbs = elim ending [
    | inl (previous, e, nothing) ↦ rw (e, nothing) (sym (append-nil cbs))
    | inr (left, e, sorted, inside) ↦ rw e (
        fire-cbs clock 1 _ taken_timers cbs distinct
        ∙ ap (λ z. cbs ++ z)
            (cbs_of-update m.store mark (new_mark (clock 0)) taken_timers mark_not_taken))
  ]

  -- In a valid manager, with the mark at an address that no timer of the set has: a timer that was
  -- not in the set, or is not taken out, stays as it was, the mark aside.
  pub list_expired-other :
      (q : ℕ)
      → (mark == q) ≡ false
      → (contains m.timers q && taken q) ≡ false
      → (result.0.store q ≡ m.store q) × (contains result.0.timers q ≡ contains m.timers q)
  list_expired-other q elsewhere idle = elim ending [
    | inl (previous, e, nothing) ↦ rw e (refl, refl)
    | inr (left, e, sorted, inside) ↦
        let out : contains taken_timers q ≡ false = contains-filter_by taken m.timers q ∙ idle in
        let other = fire-other clock 1 _ taken_timers cbs q out in
        rw e (other.0 ∙ rw elsewhere, other.1 ∙ inside q ∙ ground arith)
  ]

  -- In a valid manager, with the mark at an address that no timer of the set has: a timer of the set
  -- that is taken out is armed anew, from a later clock reading, if it recurs; otherwise it is dropped.
  pub list_expired-taken :
      (q : ℕ)
      → (mark == q) ≡ false
      → contains m.timers q ≡ true
      → taken q ≡ true
      → Settled 1 clock (m.store q) (result.0.store q) (contains result.0.timers q)
  list_expired-taken q elsewhere held is = elim ending [
    | inl (previous, e, nothing) ↦ absurd (
        false≢true (
          sym (ap (λ xs. contains xs q) nothing)
          ∙ contains-filter_by taken m.timers q
          ∙ rw (held, is)))
    | inr (left, e, sorted, inside) ↦
        let m' = record m {
          store = update m.store mark (new_mark (clock 0));
          timers = left;
          previous_time = clock 0;
        } in
        rw e (
          rw elsewhere at (
            fire-expired clock 1 m' taken_timers cbs q distinct
              (contains-filter_by taken m.timers q ∙ rw (held, is))
              (λ r h. inside r ∙ ground (arith, contains-filter_by taken m.timers r))))
  ]

  -- A timer that stays in the set as it was.
  abbrev pub Stays : ℕ → Type 0
  Stays q = (result.0.store q ≡ m.store q) × (contains result.0.timers q ≡ true)

  abbrev pub Fires : ℕ → Type 0
  Fires q = Settled 1 clock (m.store q) (result.0.store q) (contains result.0.timers q)

  -- In a valid manager, with the mark at an address that no timer of the set has, for each timer of the
  -- set, `clock 0` being the reading that the call starts with. After a rollover of the clock it fires.
  -- Otherwise: due before that reading, it fires; due exactly then, it fires if its address is lower
  -- than the mark's, and stays in the set as it was if it is higher; due later, it stays. A timer that
  -- fires is in the set again, due one period after a later reading, if it recurs; if not, it is out of
  -- the set and has lost its callback.
  pub list_expired_cb_lem :
      (q : ℕ)
      → contains m.timers q ≡ true
      → (rolled_over m (clock 0) ≡ true → Fires q)
        × (rolled_over m (clock 0) ≡ false
            → ((m.store q).next < clock 0 → Fires q)
              × ((m.store q).next ≡ clock 0 → q < mark → Fires q)
              × ((m.store q).next ≡ clock 0 → mark < q → Stays q)
              × (clock 0 < (m.store q).next → Stays q))
  list_expired_cb_lem q held =
      let elsewhere : (mark == q) ≡ false = ground (arith, held, fresh) in
      let fires : taken q ≡ true → Fires q = list_expired-taken q elsewhere held in
      let stays : taken q ≡ false → Stays q = λ h.
        let (same, inside) = list_expired-other q elsewhere (rw (held, h) refl) in
        (same, inside ∙ held) in
      (
        λ rolled. fires (rw rolled refl),
        λ forward. (
          λ before. fires (ground arith),
          λ at low. fires (ground arith),
          λ at high. stays (ground arith),
          λ after. stays (ground arith),
        ),
      )

  list_expired-IsSorted : IsSorted result.0.store result.0.timers
  list_expired-IsSorted = elim ending [
    | inl (previous, e, nothing) ↦ rw e v.sorted
    | inr (left, e, sorted, inside) ↦ rw e (
        fire-IsSorted clock 1 _ taken_timers cbs distinct
          (λ r h. inside r ∙ ground (arith, contains-filter_by taken m.timers r)) sorted)
  ]

  unarmed_is_out :
      (q : ℕ)
      → (mark == q) ≡ false
      → (result.0.store q ≡ m.store q) × (contains result.0.timers q ≡ contains m.timers q)
      → is_some (result.0.store q).cb ≡ true
      → contains result.0.timers q ≡ true
  unarmed_is_out q elsewhere same on = ground (arith, v.armed q)

  Settled-armed :
      (q : ℕ)
      → Settled 1 clock (m.store q) (result.0.store q) (contains result.0.timers q)
      → is_some (result.0.store q).cb ≡ true
      → contains result.0.timers q ≡ true
  Settled-armed q (inl (again, inside, new)) on = inside
  Settled-armed q (inr (once, outside, new)) on = ground arith

  -- The mark has no callback, unless the call returned before it was made.
  mark_idle : is_some (result.0.store mark).cb ≡ true → contains result.0.timers mark ≡ true
  unfolding new_mark
  mark_idle = elim ending [
    | inl (previous, e, nothing) ↦ rw e (v.armed mark)
    | inr (left, e, sorted, inside) ↦
        let m' = record m {
          store = update m.store mark (new_mark (clock 0));
          timers = left;
          previous_time = clock 0;
        } in
        let other = fire-other clock 1 m' taken_timers cbs mark mark_not_taken in
        rw e (λ on. ground (arith, other, on))
  ]

  pub list_expired-IsValid : IsValid result.0
  list_expired-IsValid = record {
    sorted = list_expired-IsSorted;
    armed = λ q on. elim (Bool-cases (mark == q)) [
      | inl hit ↦
          subst (λ r. is_some (result.0.store r).cb ≡ true → contains result.0.timers r ≡ true)
            ((==_iff mark q).0 hit) mark_idle on
      | inr elsewhere ↦ elim (Bool-cases (contains m.timers q && taken q)) [
        | inl is ↦
            Settled-armed q
              (list_expired-taken q elsewhere (ground (arith, is)) (ground (arith, is))) on
        | inr idle ↦ unarmed_is_out q elsewhere (list_expired-other q elsewhere idle) on
      ]
    ];
  }
