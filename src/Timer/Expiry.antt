-- ===== src/Timer/Expiry.antt =====
-- listExpiredCb against a filter: which timers it takes out of the set.
use fiber_async.Prelude.{
  ℕ, ◌<◌, ◌≡◌, refl, sym, ap, ◌∙◌, ◌⊎◌, inl, inr, List, [], ◌∷◌, Option, Bool, true, false, arith,
  update, ◌==◌, ltb, contains, Bool-cases, is_empty, ◌||◌, ◌&&◌, not, filter_by, All,
  filter_by_congr, filter_by-eq-nil, filter_by-eq_self, All-contains,
}
use fiber_async.Timer.{
  Store, TimerManager, Callback, comparator, fire, until_bound, from_bound, none_due, new_mark,
  take_expired, list_expired_cb, detect_clock_rollover,
}
use fiber_async.Timer.Order.{before, before_trans, before-next-le}
use fiber_async.Timer.Set.{Leads, IsSorted, Leads-contains, IsSorted-update}

-- Whether the timer at `p` is taken out at time `now`: all are on a rollover, else those due before
-- `now`, and of those due exactly then the ones at addresses below the mark's.
abbrev pub is_taken : Store → Bool → ℕ → ℕ → ℕ → Bool
is_taken s rollover now mark p = rollover || (ltb (s p).next now || (s p).next == now && ltb p mark)

abbrev pub rolled_over : TimerManager → ℕ → Bool
rolled_over m now = (detect_clock_rollover m now).1

-- The timers that are taken out, in the set's order.
abbrev pub taken_of : TimerManager → Bool → ℕ → ℕ → List ℕ
taken_of m rollover now mark = filter_by (is_taken m.store rollover now mark) m.timers

module _ (s : Store) (p : ℕ) where
  from_bound-Leads : (x : ℕ) (xs : List ℕ) → Leads s x xs → Leads s x (from_bound s p xs)
  unfolding from_bound
  from_bound-Leads x [] l = tt
  from_bound-Leads x (y ∷ ys) l = ground (arith, from_bound-Leads x ys l.1)

  from_bound-IsSorted : (xs : List ℕ) → IsSorted s xs → IsSorted s (from_bound s p xs)
  unfolding from_bound
  from_bound-IsSorted [] h = tt
  from_bound-IsSorted (x ∷ xs) h = ground (arith, from_bound-IsSorted xs h.1)

  Leads-All :
      (x : ℕ) (xs : List ℕ)
      → before s p x ≡ true
      → Leads s x xs
      → All (λ y. not (before s p y) ≡ false) xs
  Leads-All x [] b l = tt
  Leads-All x (y ∷ ys) b l = (ap not (before_trans s p x y b l.0), Leads-All x ys b l.1)

  until_bound-eq-filter_by :
      (xs : List ℕ) → IsSorted s xs → until_bound s p xs ≡ filter_by (λ q. not (before s p q)) xs
  unfolding until_bound
  until_bound-eq-filter_by [] h = refl
  until_bound-eq-filter_by (x ∷ xs) h = elim (Bool-cases (before s p x)) [
    | inl after ↦ rw (after, until_bound) (sym (filter_by-eq-nil _ xs (Leads-All x xs after h.0)))
    | inr not_after ↦ rw (not_after, until_bound) (ap (◌∷◌ x) (until_bound-eq-filter_by xs h.1))
  ]

  contains-from_bound :
      (xs : List ℕ) (q : ℕ)
      → IsSorted s xs
      → contains (from_bound s p xs) q ≡ (contains xs q && before s p q)
  unfolding from_bound
  contains-from_bound [] q h = refl
  contains-from_bound (x ∷ xs) q h =
      ground
        (arith, contains-from_bound xs q h.1, before_trans s p x q, Leads-contains s x q xs h.0)

-- Against the mark, a timer elsewhere in memory comes later exactly if it is not taken out.
before_mark :
    (s : Store) (now mark q : ℕ)
    → (mark == q) ≡ false
    → before (update s mark (new_mark now)) mark q ≡ not (is_taken s false now mark q)
unfolding comparator new_mark
before_mark s now mark q n = ground arith

-- With the first timer due after `now` none is taken out.
none_due-eq :
    (m : TimerManager) (rollover : Bool) (now mark : ℕ)
    → IsSorted m.store m.timers
    → none_due m rollover now ≡ true
    → filter_by (is_taken m.store rollover now mark) m.timers ≡ []
unfolding none_due
none_due-eq m rollover now mark h e = go m.timers refl h
  where
    go :
        (xs : List ℕ)
        → m.timers ≡ xs
        → IsSorted m.store xs
        → filter_by (is_taken m.store rollover now mark) xs ≡ []
    go [] is h = refl
    go (x ∷ xs) is h =
        let head : (rollover ≡ false) × (now < (m.store x).next) = ground arith in
        filter_by-eq-nil _ (x ∷ xs) (
          All-contains (λ y. is_taken m.store rollover now mark y ≡ false) (x ∷ xs)
            (λ y c. ground (arith, Leads-contains m.store x y xs h.0, before-next-le m.store x y)))

-- How a call ends: with nothing taken out and the set as it was, or with the loop over the timers that
-- are, the others being left in the set.
abbrev pub Ending :
    TimerManager
    → Bool
    → (ℕ → ℕ)
    → ℕ
    → List (Option Callback)
    → TimerManager × List (Option Callback)
    → Type 0
Ending m rollover clock mark cbs r =
    ((previous : ℕ) × (r ≡ (record m { previous_time = previous }, cbs))
      × (taken_of m rollover (clock 0) mark ≡ []))
    ⊎ ((left : List ℕ) × (r
          ≡ fire clock 1
              (record m {
                store = update m.store mark (new_mark (clock 0));
                timers = left;
                previous_time = clock 0;
              })
              (taken_of m rollover (clock 0) mark) cbs)
        × IsSorted (update m.store mark (new_mark (clock 0))) left
        × ((q : ℕ)
            → contains left q
              ≡ (contains m.timers q && not (is_taken m.store rollover (clock 0) mark q))))

module _ (m : TimerManager) (clock : ℕ → ℕ) (mark : ℕ) (cbs : List (Option Callback))
    (fresh : contains m.timers mark ≡ false) (sorted : IsSorted m.store m.timers) where
  abbrev now : ℕ
  now = clock 0

  abbrev marked : Store
  marked = update m.store mark (new_mark now)

  marked-IsSorted : IsSorted marked m.timers
  marked-IsSorted = IsSorted-update m.store mark (new_mark now) m.timers fresh sorted

  until_bound-taken : until_bound marked mark m.timers ≡ taken_of m false now mark
  until_bound-taken =
      until_bound-eq-filter_by marked mark m.timers marked-IsSorted
      ∙ filter_by_congr _ _ m.timers
          (All-contains _ m.timers (λ x c. ground (arith, before_mark m.store now mark x)))

  from_bound-taken :
      (q : ℕ)
      → contains (from_bound marked mark m.timers) q
        ≡ (contains m.timers q && not (is_taken m.store false now mark q))
  from_bound-taken q =
      contains-from_bound marked mark m.timers q marked-IsSorted
      ∙ ground (arith, before_mark m.store now mark q)

  all_taken : taken_of m true now mark ≡ m.timers
  all_taken = filter_by-eq_self _ m.timers (All-contains _ m.timers (λ x c. refl))

  take_some :
      (rollover : Bool)
      → none_due (record m { previous_time = now }) rollover now ≡ false
      → Ending m rollover clock mark cbs
          (take_expired (record m { previous_time = now }) rollover clock mark cbs)
  unfolding take_expired
  take_some true due = inr ([], rw (due, take_expired, all_taken), tt, λ q. ground arith)
  take_some false due = inr (
    from_bound marked mark m.timers,
    rw (due, take_expired, ← until_bound-taken),
    from_bound-IsSorted marked mark m.timers marked-IsSorted,
    from_bound-taken,
  )

  take_expired-Ending :
      (rollover : Bool)
      → Ending m rollover clock mark cbs
          (take_expired (record m { previous_time = now }) rollover clock mark cbs)
  unfolding take_expired
  take_expired-Ending rollover =
      elim (Bool-cases (none_due (record m { previous_time = now }) rollover now)) [
        | inl late ↦ inl (
          now,
          rw (late, take_expired),
          none_due-eq m rollover now mark sorted (ground (arith, late)),
        )
        | inr due ↦ take_some rollover due
      ]

  no_timers : is_empty m.timers ≡ true → (r : Bool) → taken_of m r now mark ≡ []
  no_timers e r = ground arith

  pub list_expired-Ending :
      Ending m (rolled_over m now) clock mark cbs (list_expired_cb m clock mark cbs)
  unfolding list_expired_cb
  list_expired-Ending = elim (Bool-cases (is_empty m.timers)) [
    | inl e ↦ inl (m.previous_time, rw (e, list_expired_cb), no_timers e _)
    | inr e ↦ rw (e, list_expired_cb) (take_expired-Ending _)
  ]
