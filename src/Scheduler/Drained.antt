-- ===== src/Scheduler/Drained.antt =====
-- No task is lost or run twice, and what `stopping` promises.
use fiber_async.Prelude.{
  ℕ, zero, suc, ◌+◌, ◌<◌, ◌≡◌, refl, ap, List, [], ◌∷◌, true, false, arith, Bool-cases,
  Option-cases, inl, inr, >>=-eq-ok, u64_mod,
}
use fiber_async.Scheduler.{
  ScheduleTask, Picked, pick, looping, idling, gone, running, Worker, Scheduler, stopping, add,
  dispatch, turn, finish, idle_round, stop,
}
use fiber_async.Scheduler.Sums.{
  sum_tasks, weight_of, sum_tasks-append, sum_tasks-pick, sum_workers, sum_workers-update,
  sum_workers-zero, sum_workers-eq-zero, at_work,
}
use fiber_async.Scheduler.System.{
  start, Step, adds, turns, finishes, idles, stops, Reach, begin, later, at_work_of, busy,
  IsCounted, Reach-IsCounted,
}

-- The weight of all tasks that wait or run.
abbrev load : (ScheduleTask → ℕ) → ℕ → Scheduler → ℕ
load w n s = sum_tasks w s.queue + sum_workers (at_work_of w) n s.workers

module _ (w : ScheduleTask → ℕ) {n : ℕ} where
  dispatch-load :
      (s : Scheduler) (i : ℕ) (p : Picked)
      → i < n
      → (s.workers i).place ≡ looping
      → sum_tasks w s.queue ≡ sum_tasks w p.rest + weight_of w p.task
      → load w n (dispatch s i p) ≡ load w n s
  unfolding dispatch
  dispatch-load s i p lt here split =
      let free : at_work w (s.workers i).place ≡ 0 = ground arith in
      let sum = λ (x : Worker). sum_workers-update (at_work_of w) n s.workers i x lt in
      elim (Option-cases p.task) [
        | inr (t, e) ↦
            rw (e, dispatch)
              (omega (
                arith,
                split,
                ap (weight_of w) e,
                free,
                sum (record (s.workers i) { place = running t }),
              ))
        | inl e ↦ elim (Bool-cases (s.workers i).idle_term) [
          | inl over ↦
              rw (e, over, dispatch)
                (omega (
                  arith,
                  split,
                  ap (weight_of w) e,
                  free,
                  sum (record { place = gone; idle_term = true }),
                ))
          | inr still ↦
              rw (e, still, dispatch)
                (omega (
                  arith,
                  split,
                  ap (weight_of w) e,
                  free,
                  sum (record { place = idling; idle_term = false }),
                ))
        ]
      ]

  Step-load :
      {s s' : Scheduler} {a d : List ScheduleTask}
      → Step n s a d s'
      → load w n s' + sum_tasks w d ≡ load w n s + sum_tasks w a
  unfolding add turn finish idle_round stop
  Step-load {s} (adds t) = omega (arith, sum_tasks-append w s.queue (t ∷ []))
  Step-load {s} {s' = s'} (turns ready i lt here runs) =
      let (p, picked, e) = >>=-eq-ok (pick ready i s.queue) _ runs in
      let same : dispatch s i p ≡ s' = cc in
      omega (
        arith,
        ap (load w n) same,
        dispatch-load s i p lt here (sum_tasks-pick w ready i s.queue p picked),
      )
  Step-load {s} (finishes i t lt here) =
      let held : at_work w (s.workers i).place ≡ w t = ground arith in
      omega (
        arith,
        held,
        sum_workers-update (at_work_of w) n s.workers i (record (s.workers i) { place = looping })
            lt,
      )
  Step-load {s} (idles i lt here) =
      let held : at_work w (s.workers i).place ≡ 0 = ground arith in
      omega (
        arith,
        held,
        sum_workers-update (at_work_of w) n s.workers i
            (record { place = looping; idle_term = stopping s }) lt,
      )
  Step-load {s} stops = ground arith

-- In every state that `n` threads can reach, every task that was added waits in the queue, is run by
-- one thread, or has been handed back by one that ran it until its fiber ended or yielded, and as often
-- as it was added: so it is for every weight of tasks.
pub tasks_accounted :
    {n : ℕ} {added done : List ScheduleTask} {s : Scheduler}
    → Reach n added done s
    → (w : ScheduleTask → ℕ)
    → sum_tasks w added
      ≡ sum_tasks w s.queue + sum_workers (at_work_of w) n s.workers + sum_tasks w done
tasks_accounted {n} begin w =
    omega (arith, sum_workers-eq-zero (at_work_of w) n start.workers (λ i. refl))
tasks_accounted (later {added = added} {done = done} {a = a} {d = d} r st) w = omega (
  arith,
  tasks_accounted r w,
  Step-load w st,
  sum_tasks-append w added a,
  sum_tasks-append w done d,
)

idle_weight :
    (w : ScheduleTask → ℕ) (n : ℕ) (f : ℕ → Worker)
    → sum_workers busy n f ≡ 0
    → sum_workers (at_work_of w) n f ≡ 0
idle_weight w zero f h = refl
idle_weight w (suc n) f h =
    let here : busy (f n) ≡ 0 = omega arith in
    let rest = idle_weight w n f (omega arith) in
    let none_here : at_work w (f n).place ≡ 0 = ground arith in omega (arith, rest, none_here)

-- In a state that fewer than 2^64 threads can reach: when `stopping` says true, after the order to
-- stop, every task that was added has been handed back, that is, run by a thread until its fiber ended
-- or yielded, once for each time that it was added, and no thread runs one.
pub stopping_means_done :
    {n : ℕ} {added done : List ScheduleTask} {s : Scheduler}
    → n < u64_mod
    → Reach n added done s
    → stopping s ≡ true
    → (s.is_stopping ≡ true)
      × ((w : ScheduleTask → ℕ) → sum_tasks w added ≡ sum_tasks w done)
      × ((i : ℕ) → i < n → busy (s.workers i) ≡ 0)
unfolding stopping
stopping_means_done {n} {s} few r h =
    let v = Reach-IsCounted few r in
    let none_busy : sum_workers busy n s.workers ≡ 0 = ground (arith, v.active) in
    let empty : s.queue ≡ [] = ground arith in
    (
      ground arith,
      λ w.
          omega (
            arith,
            tasks_accounted r w,
            ap (sum_tasks w) empty,
            idle_weight w n s.workers none_busy,
          ),
      λ i lt. sum_workers-zero busy n s.workers none_busy i lt,
    )

-- In a state whose counters are right, once `stopping` says true it stays so, whatever the threads
-- do, as long as no task is added.
pub stopping_stays :
    {n : ℕ} {s s' : Scheduler} {d : List ScheduleTask}
    → IsCounted n s
    → stopping s ≡ true
    → Step n s [] d s'
    → stopping s' ≡ true
unfolding stopping turn dispatch pick finish idle_round stop
stopping_stays {s = s} {s' = s'} v h (turns ready i lt here runs) =
    let empty : s.queue ≡ [] = ground arith in ground (arith, empty)
stopping_stays {n = n} {s = s} v h (finishes i t lt here) =
    let none_busy : sum_workers busy n s.workers ≡ 0 = ground (arith, v.active) in
    absurd (ground (arith, sum_workers-zero busy n s.workers none_busy i lt))
stopping_stays v h (idles i lt here) = h
stopping_stays v h stops = ground arith
