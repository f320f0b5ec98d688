-- ===== src/Timer/Order.antt =====
-- The comparator of timers is a strict total order on the addresses, by due time and then address.
use fiber_async.Prelude.{ℕ, ◌≤◌, ◌<◌, ◌≡◌, some, Option, Bool, true, false, arith, update, ◌==◌}
use fiber_async.Timer.{Store, Timer, comparator}

abbrev pub before : Store → ℕ → ℕ → Bool
before s p q = comparator s (some p) (some q)

module _ (s : Store) where
  pub before_irrefl : (p : ℕ) → before s p p ≡ false
  unfolding comparator
  before_irrefl p = ground arith

  pub before_asym : (p q : ℕ) → before s p q ≡ true → before s q p ≡ false
  unfolding comparator
  before_asym p q h = ground arith

  pub before_trans : (p q r : ℕ) → before s p q ≡ true → before s q r ≡ true → before s p r ≡ true
  unfolding comparator
  before_trans p q r h k = ground arith

  pub before_connex : (p q : ℕ) → before s p q ≡ false → before s q p ≡ false → p ≡ q
  unfolding comparator
  before_connex p q h k = ground arith

  -- A timer that comes before another is due no later.
  pub before-next-le : (p q : ℕ) → before s p q ≡ true → (s p).next ≤ (s q).next
  unfolding comparator
  before-next-le p q h = ground arith

  pub next-le_of_not_before : (p q : ℕ) → before s p q ≡ false → (s q).next ≤ (s p).next
  unfolding comparator
  next-le_of_not_before p q h = ground arith

  pub before_of_next-lt : (p q : ℕ) → (s p).next < (s q).next → before s p q ≡ true
  unfolding comparator
  before_of_next-lt p q h = ground arith

-- The order reads nothing but the due times of the two.
pub before-update :
    (s : Store) (p : ℕ) (t : Timer) (x y : ℕ)
    → (p == x) ≡ false
    → (p == y) ≡ false
    → before (update s p t) x y ≡ before s x y
unfolding comparator
before-update s p t x y h k = ground arith

pub before-update_same :
    (s : Store) (p : ℕ) (t : Timer) (x y : ℕ)
    → t.next ≡ (s p).next
    → before (update s p t) x y ≡ before s x y
unfolding comparator
before-update_same s p t x y e = ground arith

-- The comparator that std::set is given is a strict weak order on nullable pointers: nothing
-- precedes itself, it is transitive, and two that precede neither way are the same pointer.
pub comparator_order :
    (s : Store) (a b c : Option ℕ)
    → (comparator s a a ≡ false)
      × (comparator s a b ≡ true → comparator s b c ≡ true → comparator s a c ≡ true)
      × (comparator s a b ≡ false → comparator s b a ≡ false → a ≡ b)
unfolding comparator
comparator_order s a b c = ground arith
