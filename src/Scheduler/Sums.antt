-- ===== src/Scheduler/Sums.antt =====
-- Sums of a weight over the tasks of a list and over the first `n` threads.
use fiber_async.Prelude.{
  ℕ, zero, suc, ◌+◌, ◌≤◌, ◌<◌, ◌≡◌, refl, List, [], ◌∷◌, ◌++◌, Option, some, none, Bool, arith, ok,
  Bool-cases, inl, inr, update, >>=-eq-ok,
}
use native.Mathlib.Decide.{dec_lt}
use fiber_async.Scheduler.{ScheduleTask, is_eligible, Picked, pick, Place, idling, running, Worker}

abbrev pub sum_tasks : (ScheduleTask → ℕ) → List ScheduleTask → ℕ
sum_tasks w [] = 0
sum_tasks w (t ∷ ts) = w t + sum_tasks w ts

abbrev pub weight_of : (ScheduleTask → ℕ) → Option ScheduleTask → ℕ
weight_of w none = 0
weight_of w (some t) = w t

pub sum_tasks-append :
    (w : ScheduleTask → ℕ) (xs ys : List ScheduleTask)
    → sum_tasks w (xs ++ ys) ≡ sum_tasks w xs + sum_tasks w ys
sum_tasks-append w [] ys = omega arith
sum_tasks-append w (x ∷ xs) ys = omega (arith, sum_tasks-append w xs ys)

-- However a thread picks, the queue is what it took and what it left.
pub sum_tasks-pick :
    (w : ScheduleTask → ℕ) (ready : ℕ → Bool) (self : ℕ) (queue : List ScheduleTask) (p : Picked)
    → pick ready self queue ≡ ok p
    → sum_tasks w queue ≡ sum_tasks w p.rest + weight_of w p.task
unfolding pick
sum_tasks-pick w ready self [] p h = ground arith
sum_tasks-pick w ready self (t ∷ ts) p h = elim (Bool-cases (is_eligible self t)) [
  | inl mine ↦ ground arith
  | inr other ↦
      let (q, picked, passed) = >>=-eq-ok (pick ready self ts) _ (rw other at h) in
      ground (arith, sum_tasks-pick w ready self ts q picked)
]

abbrev pub sum_workers : (Worker → ℕ) → ℕ → (ℕ → Worker) → ℕ
sum_workers w zero f = 0
sum_workers w (suc n) f = sum_workers w n f + w (f n)

sum_workers-update_past :
    (w : Worker → ℕ) (n : ℕ) (f : ℕ → Worker) (i : ℕ) (x : Worker)
    → n ≤ i
    → sum_workers w n (update f i x) ≡ sum_workers w n f
sum_workers-update_past w zero f i x h = refl
sum_workers-update_past w (suc n) f i x h = ground (arith, sum_workers-update_past w n f i x)

pub sum_workers-update :
    (w : Worker → ℕ) (n : ℕ) (f : ℕ → Worker) (i : ℕ) (x : Worker)
    → i < n
    → sum_workers w n (update f i x) + w (f i) ≡ sum_workers w n f + w x
sum_workers-update w zero f i x h = absurd (omega arith)
sum_workers-update w (suc n) f i x h = elim (dec_lt i n) [
  | yes below ↦ ground (arith, sum_workers-update w n f i x below)
  | no last ↦ ground (arith, sum_workers-update_past w n f i x)
]

pub sum_workers-zero :
    (w : Worker → ℕ) (n : ℕ) (f : ℕ → Worker)
    → sum_workers w n f ≡ 0
    → (i : ℕ) → i < n
    → w (f i) ≡ 0
sum_workers-zero w zero f h i lt = absurd (omega arith)
sum_workers-zero w (suc n) f h i lt = elim (dec_lt i n) [
  | yes below ↦ sum_workers-zero w n f (omega arith) i below
  | no last ↦ ground arith
]

pub sum_workers-eq-zero :
    (w : Worker → ℕ) (n : ℕ) (f : ℕ → Worker) → ((i : ℕ) → w (f i) ≡ 0) → sum_workers w n f ≡ 0
sum_workers-eq-zero w zero f h = refl
sum_workers-eq-zero w (suc n) f h = omega (arith, sum_workers-eq-zero w n f h, h n)

pub sum_workers-le :
    (w : Worker → ℕ) (n : ℕ) (f : ℕ → Worker) → ((x : Worker) → w x ≤ 1) → sum_workers w n f ≤ n
sum_workers-le w zero f h = omega arith
sum_workers-le w (suc n) f h = omega (arith, sum_workers-le w n f h, h (f n))

-- The task that a thread is running, weighed; whether it runs one; whether it idles.
abbrev pub at_work : (ScheduleTask → ℕ) → Place → ℕ
at_work w (running t) = w t
at_work w _ = 0

abbrev pub is_idling : Place → ℕ
is_idling idling = 1
is_idling _ = 0
