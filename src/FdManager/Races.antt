-- ===== src/FdManager/Races.antt =====
-- FdManager::get of src/fd_manager.cc, called by several threads for one descriptor: the part under
-- the read lock and the part under the write lock are one step each.
use fiber_async.Prelude.{
  ℕ, ◌≡◌, refl, List, [], ◌∷◌, Option, some, none, Bool, true, false, not, ◌||◌, arith,
  if◌then◌else◌, ◌==◌, Outcome, ok, ◌>>=◌, is_some, update, ℤ, pos, at, size_le, get_or_of_le,
  get_elem?_of_lt, length-set, ◌∙◌,
}
use fiber_async.FdManager.{FileStatus, FdManager, create, get, is_minus_one}
use fiber_async.FdManager.Slots.{
  slot, IsLarge, created, create_lem, created_slots, grown, grown_room,
}

-- Where a thread is in its call.
pub data Phase : Type 0 where
  looking creating : Phase
  returned : Option ℕ → Phase

-- What `get` returns at once or under the read lock, or `creating`.
pub look_up : FdManager → ℤ → Bool → Outcome Phase
look_up m fd auto_create =
    if is_minus_one fd
    then ok (returned none)
    else if size_le m.datas fd
    then ok (if not auto_create then returned none else creating)
    else (do d ← at m.datas fd; ok (if is_some d || not auto_create then returned d else creating))

-- The next step of a call whose new object would be at `p`.
pub advance : FdManager → ℤ → Bool → FileStatus → ℕ → Phase → Outcome (FdManager × Phase)
unfolding look_up
advance m fd auto_create st p looking = do phase ← look_up m fd auto_create; ok (m, phase)
advance m fd auto_create st p creating = do r ← create m fd st p; ok (r.0, returned r.1)
advance m fd auto_create st p (returned d) = ok (m, returned d)

-- Steps of the threads of a schedule, one after the other; thread `i` makes its object at `place i`.
pub interleave :
    FdManager → ℤ → FileStatus → (ℕ → ℕ) → (ℕ → Phase) → List ℕ → Outcome (FdManager × (ℕ → Phase))
unfolding advance
interleave m fd st place phases [] = ok (m, phases)
interleave m fd st place phases (i ∷ is) = do
  r ← advance m fd true st (place i) (phases i)
  interleave r.0 fd st place (update phases i r.1) is

-- Two steps without another thread's between them do what `get` does, failures included.
pub advance-eq_get :
    (m : FdManager) (fd : ℤ) (auto_create : Bool) (st : FileStatus) (p : ℕ)
    → (advance m fd auto_create st p looking >>= λ r. advance r.0 fd auto_create st p r.1)
      ≡ (get m fd auto_create st p >>= λ r. ok (r.0, returned r.1))
unfolding advance look_up get
advance-eq_get m fd auto_create st p = ground arith

module _ (m : FdManager) (n : ℕ) (st : FileStatus) (p : ℕ) (large : IsLarge m) where
  abbrev after : FdManager
  after = created m n st p large

  advance_looks : slot m n ≡ none → advance m (pos n) true st p looking ≡ ok (m, creating)
  unfolding advance look_up
  advance_looks nothing = ground (arith, get_elem?_of_lt none m.datas n)

  advance_finds :
      (q : ℕ) → slot m n ≡ some q → advance m (pos n) true st p looking ≡ ok (m, returned (some q))
  unfolding advance look_up
  advance_finds q here = ground (arith, get_or_of_le none m.datas n, get_elem?_of_lt none m.datas n)

  advance_creates : advance m (pos n) true st p creating ≡ ok (after, returned (some p))
  unfolding advance
  advance_creates = rw (create_lem m n st p large)

  after-IsLarge : IsLarge after
  after-IsLarge = omega (arith, length-set (grown m n) n (some p), grown_room m n st p large, large)

  after-slot : slot after n ≡ some p
  after-slot = ground (arith, created_slots m n st p large n)

advance_stays :
    (m : FdManager) (n : ℕ) (st : FileStatus) (p q : ℕ)
    → advance m (pos n) true st p (returned (some q)) ≡ ok (m, returned (some q))
unfolding advance
advance_stays m n st p q = refl

interleave_next :
    (m m' : FdManager) (n : ℕ) (st : FileStatus) (place : ℕ → ℕ) (phases : ℕ → Phase) (i : ℕ)
    (is : List ℕ) (now next : Phase)
    → phases i ≡ now
    → advance m (pos n) true st (place i) now ≡ ok (m', next)
    → interleave m (pos n) st place phases (i ∷ is)
      ≡ interleave m' (pos n) st place (update phases i next) is
unfolding interleave
interleave_next m m' n st place phases i is now next at_now h = rw (at_now, h)

module _ (m : FdManager) (n : ℕ) (st : FileStatus) (large : IsLarge m) (nothing : slot m n ≡ none)
    (place : ℕ → ℕ) (i j : ℕ) (two : (i == j) ≡ false) where
  abbrev run : List ℕ → Outcome (FdManager × (ℕ → Phase))
  run = interleave m (pos n) st place (λ k. looking)

  abbrev one : FdManager
  one = after m n st (place i) large

  abbrev both : FdManager
  both = after one n st (place j) (after-IsLarge m n st (place i) large)

  in_turn :
      (phases : ℕ → Phase) × (run (i ∷ i ∷ j ∷ j ∷ []) ≡ ok (one, phases))
      × (phases i ≡ returned (some (place i)))
      × (phases j ≡ returned (some (place i)))
  unfolding interleave
  in_turn =
      let found = returned (some (place i)) in
      let here = after-slot m n st (place i) large in
      let kept = after-IsLarge m n st (place i) large in
      let ph₁ = update (λ k. looking) i creating in
      let ph₂ = update ph₁ i found in
      let ph₃ = update ph₂ j found in
      let ph₄ = update ph₃ j found in
      (
        ph₄,
        interleave_next m m n st place (λ k. looking) i (i ∷ j ∷ j ∷ []) looking creating refl
              (advance_looks m n st (place i) large nothing)
            ∙ interleave_next m one n st place ph₁ i (j ∷ j ∷ []) creating found (ground arith)
                (advance_creates m n st (place i) large)
            ∙ interleave_next one one n st place ph₂ j (j ∷ []) looking found (ground arith)
                (advance_finds one n st (place j) kept (place i) here)
            ∙ interleave_next one one n st place ph₃ j [] found found (ground arith)
                (advance_stays one n st (place j) (place i)),
        ground arith,
        ground arith,
      )

  crossed :
      (phases : ℕ → Phase) × (run (i ∷ j ∷ i ∷ j ∷ []) ≡ ok (both, phases))
      × (phases i ≡ returned (some (place i)))
      × (phases j ≡ returned (some (place j)))
  unfolding interleave
  crossed =
      let ph₁ = update (λ k. looking) i creating in
      let ph₂ = update ph₁ j creating in
      let ph₃ = update ph₂ i (returned (some (place i))) in
      let ph₄ = update ph₃ j (returned (some (place j))) in
      (
        ph₄,
        interleave_next m m n st place (λ k. looking) i (j ∷ i ∷ j ∷ []) looking creating refl
              (advance_looks m n st (place i) large nothing)
            ∙ interleave_next m m n st place ph₁ j (i ∷ j ∷ []) looking creating (ground arith)
                (advance_looks m n st (place j) large nothing)
            ∙ interleave_next m one n st place ph₂ i (j ∷ []) creating (returned (some (place i)))
                (ground arith) (advance_creates m n st (place i) large)
            ∙ interleave_next one both n st place ph₃ j [] creating (returned (some (place j)))
                (ground arith)
                (advance_creates one n st (place j) (after-IsLarge m n st (place i) large)),
        ground arith,
        ground arith,
      )

  -- Two threads get a descriptor that has no context, in a table of at least 64 slots. If the second
  -- looks it up when the first has returned, both have the first one's context, and it is the
  -- descriptor's. If both look before either creates, each returns the context that it made itself,
  -- and only the second one's is the descriptor's.
  pub get_orders :
      ((m' : FdManager) × (phases : ℕ → Phase) × (interleave m
            (pos n)
            st
            place
            (λ k. looking)
            (i ∷ i ∷ j ∷ j ∷ [])
          ≡ ok (m', phases))
        × (phases i ≡ returned (some (place i)))
        × (phases j ≡ returned (some (place i)))
        × (slot m' n ≡ some (place i)))
      × ((m' : FdManager) × (phases : ℕ → Phase) × (interleave m
              (pos n)
              st
              place
              (λ k. looking)
              (i ∷ j ∷ i ∷ j ∷ [])
            ≡ ok (m', phases))
          × (phases i ≡ returned (some (place i)))
          × (phases j ≡ returned (some (place j)))
          × (slot m' n ≡ some (place j)))
  get_orders =
      let (phases, runs, first, second) = in_turn in
      let (phases', runs', first', second') = crossed in
      (
        (one, phases, runs, first, second, after-slot m n st (place i) large),
        (
          both,
          phases',
          runs',
          first',
          second',
          after-slot one n st (place j) (after-IsLarge m n st (place i) large),
        ),
      )
