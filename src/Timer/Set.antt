-- ===== src/Timer/Set.antt =====
-- The ordered set of timers: what insert, find and erase do to a list that is in order.
use fiber_async.Prelude.{
  ℕ, ◌≡◌, refl, ◌∙◌, List, [], ◌∷◌, some, none, true, false, arith, update, ◌==◌, contains,
  if◌then◌else◌,
}
use fiber_async.Timer.{Store, Timer, insert, find, erase}
use fiber_async.Timer.Order.{before, before_irrefl, before_trans, before_connex, before-update}

-- `p` comes before every element of the list.
abbrev pub Leads : Store → ℕ → List ℕ → Type 0
Leads s p [] = Unit {0}
Leads s p (x ∷ xs) = (before s p x ≡ true) × Leads s p xs

abbrev pub IsSorted : Store → List ℕ → Type 0
IsSorted s [] = Unit {0}
IsSorted s (x ∷ xs) = Leads s x xs × IsSorted s xs

module _ (s : Store) where
  pub Leads-contains :
      (p q : ℕ) (xs : List ℕ) → Leads s p xs → contains xs q ≡ true → before s p q ≡ true
  Leads-contains p q [] h c = cc
  Leads-contains p q (x ∷ xs) h c = ground (arith, Leads-contains p q xs h.1)

  pub Leads-trans : (p q : ℕ) (xs : List ℕ) → before s p q ≡ true → Leads s q xs → Leads s p xs
  Leads-trans p q [] h l = tt
  Leads-trans p q (x ∷ xs) h l = (before_trans s p q x h l.0, Leads-trans p q xs h l.1)

  pub Leads-not-contains : (p : ℕ) (xs : List ℕ) → Leads s p xs → contains xs p ≡ false
  Leads-not-contains p [] h = refl
  Leads-not-contains p (x ∷ xs) h = ground (arith, Leads-not-contains p xs h.1, before_irrefl s p)

  Leads-insert :
      (p q : ℕ) (xs : List ℕ) → before s p q ≡ true → Leads s p xs → Leads s p (insert s q xs)
  unfolding insert
  Leads-insert p q [] h l = (h, tt)
  Leads-insert p q (x ∷ xs) h l = ground (arith, Leads-insert p q xs h l.1)

  pub insert-IsSorted : (p : ℕ) (xs : List ℕ) → IsSorted s xs → IsSorted s (insert s p xs)
  unfolding insert
  insert-IsSorted p [] h = (tt, tt)
  insert-IsSorted p (x ∷ xs) h =
      ground (arith, Leads-insert x p xs, insert-IsSorted p xs h.1, Leads-trans p x xs)

  pub contains-insert :
      (p q : ℕ) (xs : List ℕ)
      → contains (insert s p xs) q ≡ (if p == q then true else contains xs q)
  unfolding insert
  contains-insert p q [] = refl
  contains-insert p q (x ∷ xs) = ground (arith, contains-insert p q xs, before_connex s x p)

  pub find_of_contains :
      (p : ℕ) (xs : List ℕ) → IsSorted s xs → contains xs p ≡ true → find s p xs ≡ some p
  unfolding find
  find_of_contains p [] h c = cc
  find_of_contains p (x ∷ xs) h c =
      ground (arith, find_of_contains p xs h.1, before_irrefl s p, Leads-contains x p xs h.0)

  -- `find` meets no other timer than the one that is sought.
  pub find-none : (p : ℕ) (xs : List ℕ) → contains xs p ≡ false → find s p xs ≡ none
  unfolding find
  find-none p [] c = refl
  find-none p (x ∷ xs) c = ground (arith, find-none p xs, before_connex s x p)

  Leads-erase : (p q : ℕ) (xs : List ℕ) → Leads s p xs → Leads s p (erase q xs)
  unfolding erase
  Leads-erase p q [] l = tt
  Leads-erase p q (x ∷ xs) l = ground (arith, Leads-erase p q xs l.1)

  pub erase-IsSorted : (p : ℕ) (xs : List ℕ) → IsSorted s xs → IsSorted s (erase p xs)
  unfolding erase
  erase-IsSorted p [] h = tt
  erase-IsSorted p (x ∷ xs) h = ground (arith, Leads-erase x p xs h.0, erase-IsSorted p xs h.1)

  pub contains-erase :
      (p q : ℕ) (xs : List ℕ)
      → IsSorted s xs
      → contains (erase p xs) q ≡ (if p == q then false else contains xs q)
  unfolding erase
  contains-erase p q [] h = ground arith
  contains-erase p q (x ∷ xs) h =
      ground (arith, contains-erase p q xs h.1, Leads-not-contains x xs h.0)

  Leads-update :
      (p : ℕ) (t : Timer) (x : ℕ) (xs : List ℕ)
      → (p == x) ≡ false
      → contains xs p ≡ false
      → Leads s x xs
      → Leads (update s p t) x xs
  Leads-update p t x [] n c l = tt
  Leads-update p t x (y ∷ ys) n c l =
      let other : (p == y) ≡ false = ground arith in
      let rest : contains ys p ≡ false = ground arith in
      (before-update s p t x y n other ∙ l.0, Leads-update p t x ys n rest l.1)

  -- A write to a timer that is not in the set keeps the order.
  pub IsSorted-update :
      (p : ℕ) (t : Timer) (xs : List ℕ)
      → contains xs p ≡ false
      → IsSorted s xs
      → IsSorted (update s p t) xs
  IsSorted-update p t [] c h = tt
  IsSorted-update p t (x ∷ xs) c h =
      let other : (p == x) ≡ false = ground arith in
      let rest : contains xs p ≡ false = ground arith in
      (Leads-update p t x xs other rest h.0, IsSorted-update p t xs rest h.1)
