-- ===== src/IoManager/Pipe.antt =====
-- IOManager::tickle, and how `idle` drains the pipe that it writes to. The pipe is the parameter `P`; its
-- ends have no descriptor context, so the hooked write and read call the system once each.
pub mod Tests
use fiber_async.Prelude.{
  ℕ, zero, suc, ◌+◌, ◌≡◌, ◌<◌, refl, ap, ◌∙◌, Option, none, some, Bool, true, false, not, arith, ok,
  Outcome, ◌>>=◌, ◌>>◌, qc_assert, if◌then◌else◌, ◌==◌, ltb, ℤ, pos, negsuc, Bool-cases, inl, inr,
}

-- A pipe whose reading end is non-blocking, as read(2), write(2) and pipe(7) document it: a read of an
-- empty pipe fails with EAGAIN, any other takes as much as there is, up to the count; a write of one
-- byte, where there is room, adds it.
pub record Pipe : Type 1 where
  pub Kernel : Type 0
  pub level : Kernel → ℕ
  pub capacity : ℕ
  pub read : Kernel → ℕ → Kernel × ℤ
  pub write : Kernel → Kernel × ℤ
  pub read_empty : (k : Kernel) (count : ℕ) → level k ≡ 0 → read k count ≡ (k, negsuc 0)
  pub read_some :
      (k : Kernel) (count : ℕ)
      → 0 < level k
      → 0 < count
      → (k' : Kernel) × (r : ℕ) × (read k count ≡ (k', pos r)) × (0 < r) × (level k' + r ≡ level k)
  pub write_one :
      (k : Kernel)
      → level k < capacity
      → (k' : Kernel) × (write k ≡ (k', pos 1)) × (level k' ≡ level k + 1)

abbrev is_positive : ℤ → Bool
is_positive (pos n) = ltb 0 n
is_positive (negsuc n) = false

abbrev is_one : ℤ → Bool
is_one (pos n) = n == 1
is_one (negsuc n) = false

module _ (P : Pipe) where
  -- IOManager::tickle; `idle` is the number of idle threads.
  pub tickle : ℕ → P.Kernel → Outcome P.Kernel
  tickle idle k =
      if not (ltb 0 idle) then ok k else (do let (k', rt) = P.write k; qc_assert (is_one rt); ok k')

  -- `while (read(m_tickleFds[0], dummy, sizeof(dummy)) > 0);`, with fuel.
  pub drain : ℕ → P.Kernel → Option P.Kernel
  drain zero k = none
  drain (suc fuel) k = elim (is_positive (P.read k 256).1) [
    | true ↦ drain fuel (P.read k 256).0
    | false ↦ some (P.read k 256).0
  ]

  drain_more :
      (fuel : ℕ) (k k' : P.Kernel) (r : ℕ)
      → P.read k 256 ≡ (k', pos r)
      → 0 < r
      → drain (suc fuel) k ≡ drain fuel k'
  unfolding drain
  drain_more fuel k k' r reads some_read = ground (
    arith,
    ap (λ (x : P.Kernel × ℤ). x.0) reads,
    ap (λ (x : P.Kernel × ℤ). is_positive x.1) reads,
  )

  drain_stops :
      (fuel : ℕ) (k : P.Kernel) → P.read k 256 ≡ (k, negsuc 0) → drain (suc fuel) k ≡ some k
  unfolding drain
  drain_stops fuel k reads = ground (
    arith,
    ap (λ (x : P.Kernel × ℤ). x.0) reads,
    ap (λ (x : P.Kernel × ℤ). is_positive x.1) reads,
  )

  drain_lem :
      (fuel : ℕ) (k : P.Kernel)
      → P.level k < fuel
      → (k' : P.Kernel) × (drain fuel k ≡ some k') × (P.level k' ≡ 0)
  unfolding drain
  drain_lem zero k h = elim h [ ]
  drain_lem (suc fuel) k h = elim (Bool-cases (ltb 0 (P.level k))) [
    | inr empty ↦
        let none_left : P.level k ≡ 0 = ground arith in
        (k, drain_stops fuel k (P.read_empty k 256 none_left), none_left)
    | inl more ↦
        let (k', r, reads, some_read, left) = P.read_some k 256 (ground arith) (omega arith) in
        let (k'', runs, empty) = drain_lem fuel k' (omega arith) in
        (k'', drain_more fuel k k' r reads some_read ∙ runs, empty)
  ]

  tickle_lem :
      (idle : ℕ) (k : P.Kernel)
      → P.level k < P.capacity
      → (k' : P.Kernel) × (tickle idle k ≡ ok k')
        × (P.level k' ≡ P.level k + (if ltb 0 idle then 1 else 0))
  unfolding tickle
  tickle_lem idle k room = elim (Bool-cases (ltb 0 idle)) [
    | inr none_idle ↦ (k, rw none_idle refl, ground arith)
    | inl some_idle ↦
        let (k', writes, more) = P.write_one k room in
        (k', rw (some_idle, writes, tickle) refl, ground (arith, more))
  ]

  -- While there is room in the pipe, tickle always returns; it leaves one byte more than before if a
  -- thread is idle, and the pipe as it was if none is. The loop that then drains the pipe ends, after
  -- at most as many rounds as there are bytes and one, and leaves the pipe empty.
  pub tickle-drain :
      (idle fuel : ℕ) (k : P.Kernel)
      → P.level k < P.capacity
      → P.level k + 1 < fuel
      → (k' : P.Kernel) × (k'' : P.Kernel) × (tickle idle k ≡ ok k')
        × (P.level k' ≡ P.level k + (if ltb 0 idle then 1 else 0))
        × (drain fuel k' ≡ some k'')
        × (P.level k'' ≡ 0)
  tickle-drain idle fuel k room enough =
      let (k', runs, more) = tickle_lem idle k room in
      let (k'', drains, empty) = drain_lem fuel k' (ground (arith, more)) in
      (k', k'', runs, more, drains, empty)
