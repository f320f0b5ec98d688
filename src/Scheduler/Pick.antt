-- ===== src/Scheduler/Pick.antt =====
-- Which task a thread takes from the queue, and when it wakes the others.
use fiber_async.Prelude.{
  ℕ, ◌≡◌, ap, refl, ◌⊎◌, inl, inr, List, [], ◌∷◌, ◌++◌, some, none, Bool, true, false, not, ok,
  is_empty, Bool-cases, All,
}
use fiber_async.Scheduler.{ScheduleTask, is_eligible, check_task, Picked, pick}

abbrev pub Skips : ℕ → List ScheduleTask → Type 0
Skips self = All (λ t. is_eligible self t ≡ false)

-- The task is one that `run` can use: it has a fiber that is READY, or no fiber and a callback.
abbrev pub IsUsable : (ℕ → Bool) → ScheduleTask → Type 0
IsUsable ready t = check_task ready t ≡ ok tt

-- What was picked from a queue: nothing, as no task may run on this thread; or the first that may.
abbrev pub Picks : ℕ → List ScheduleTask → Picked → Type 0
Picks self queue p =
    ((p.task ≡ none) × (p.rest ≡ queue) × Skips self queue)
    ⊎ ((t : ScheduleTask) × (before : List ScheduleTask) × (after : List ScheduleTask) × (p.task
          ≡ some t)
        × (queue ≡ before ++ t ∷ after)
        × (p.rest ≡ before ++ after)
        × (is_eligible self t ≡ true)
        × Skips self before)

-- With a queue of usable tasks, picking always returns. It takes the first task that this thread may
-- run and leaves the others in their order, and it wakes other threads exactly if tasks are left.
pub pick_lem :
    (ready : ℕ → Bool) (self : ℕ) (queue : List ScheduleTask)
    → All (IsUsable ready) queue
    → (p : Picked) × (pick ready self queue ≡ ok p)
      × Picks self queue p
      × (p.tickle_me ≡ not (is_empty p.rest))
unfolding pick
pick_lem ready self [] h =
    (record { tickle_me = false; task = none; rest = [] }, refl, inl (refl, refl, tt), refl)
pick_lem ready self (t ∷ ts) h = elim (Bool-cases (is_eligible self t)) [
  | inl mine ↦ (
    record { tickle_me = not (is_empty ts); task = some t; rest = ts },
    rw (mine, pick) (rw h.0),
    inr (t, [], ts, refl, refl, refl, mine, tt),
    refl,
  )
  | inr other ↦
      let (p, runs, picks, tickles) = pick_lem ready self ts h.1 in
      (
        record { tickle_me = true; task = p.task; rest = t ∷ p.rest },
        rw (other, pick) (rw runs),
        elim picks [
          | inl (nothing, same, skips) ↦ inl (nothing, ap (◌∷◌ t) same, (other, skips))
          | inr (u, before, after, taken, split, left, mine, skips) ↦
              inr (
                u,
                t ∷ before,
                after,
                taken,
                ap (◌∷◌ t) split,
                ap (◌∷◌ t) left,
                mine,
                (other, skips),
              )
        ],
        refl,
      )
]
