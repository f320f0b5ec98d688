-- ===== src/Lock/Cas.antt =====
-- The CAS lock under any interleaving of threads.
use fiber_async.Prelude.{ℕ, ◌≡◌, refl, true, false, arith}
use fiber_async.Lock.{CasLock, new_cas_lock, cas_round, cas_unlock}

-- A thread that is outside runs a round of its loop; a thread that is inside unlocks.
pub data Step (s : CasLock) : CasLock → Type 0 where
  tries : (i : ℕ) → s.inside i ≡ false → Step s (cas_round s i)
  leaves : (i : ℕ) → s.inside i ≡ true → Step s (cas_unlock s i)

pub data Reach : CasLock → Type 0 where
  start : Reach new_cas_lock
  later : {s t : CasLock} → Reach s → Step s t → Reach t

-- At most one thread is inside, and none is while the flag is clear.
record Inv (s : CasLock) : Type 0 where
  unique : (i j : ℕ) → s.inside i ≡ true → s.inside j ≡ true → i ≡ j
  held : (i : ℕ) → s.inside i ≡ true → s.flag ≡ true

cas_round-Inv : (s : CasLock) (i : ℕ) → Inv s → Inv (cas_round s i)
unfolding cas_round
cas_round-Inv s i v = record {
  unique = λ a b p q. ground (arith, v.unique a b, v.held a, v.held b);
  held = λ a p. refl;
}

cas_unlock-Inv : (s : CasLock) (i : ℕ) → s.inside i ≡ true → Inv s → Inv (cas_unlock s i)
unfolding cas_unlock
cas_unlock-Inv s i h v = record {
  unique = λ a b p q. ground (arith, v.unique a b);
  held = λ a p. ground (arith, v.unique a i);
}

Step-Inv : {s t : CasLock} → Step s t → Inv s → Inv t
Step-Inv {s} (tries i h) v = cas_round-Inv s i v
Step-Inv {s} (leaves i h) v = cas_unlock-Inv s i h v

Reach-Inv : {s : CasLock} → Reach s → Inv s
unfolding new_cas_lock
Reach-Inv start = record { unique = λ i j p q. cc; held = λ i p. cc }
Reach-Inv (later r st) = Step-Inv st (Reach-Inv r)

-- In every state that threads can reach: whatever the order in which threads try and leave, two are never inside together, and while one
-- is inside the flag is set, so that a round by any other leaves that one outside.
pub mutual_exclusion :
    {s : CasLock}
    → Reach s
    → (i j : ℕ) → s.inside i ≡ true
    → (s.inside j ≡ true → i ≡ j) × (s.inside j ≡ false → (cas_round s j).inside j ≡ false)
unfolding cas_round
mutual_exclusion {s} r i j h =
    let v = Reach-Inv r in (λ k. v.unique i j h k, λ k. ground (arith, v.held i h))
