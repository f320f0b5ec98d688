-- ===== src/Scheduler/Pool/Workers.antt =====
-- How many threads there are, and how `stop` joins them.
use fiber_async.Prelude.{
  >>=-eq-ok, Bool-cases, not, ℕ, zero, suc, ◌-◌, ◌≡◌, ◌≢◌, ◌⊎◌, ◌≤◌, refl, sym, ap, ◌∙◌, List, [],
  ◌∷◌, ◌++◌, Option, none, some, Bool, true, false, if◌then◌else◌, ok, fail, Failure, ◌==◌, is_some,
  length, arith, Option-cases, inl, inr, map,
}
use mathlib.Core.List.{append-nil, append_assoc, map-append}
use fiber_async.Thread.{Pthreads, Thread, thread_func, new_thread, get_id}
use fiber_async.Scheduler.Pool.{
  Pool, new_pool, seen, start_workers, start, join_all, stop_pool, join_workers,
}

length-snoc : (A : Type 0) (xs : List A) (x : A) → length (xs ++ x ∷ []) ≡ suc (length xs)
length-snoc A [] x = refl
length-snoc A (y ∷ ys) x = ap suc (length-snoc A ys x)

seen_lem :
    (i : ℕ) (id : Option ℕ) (f : ℕ) (t : Thread)
    → t.cb ≡ some f
    → t.pid ≡ none
    → (t' : Thread) × (seen i id t ≡ ok t') × (t'.pid ≡ id)
unfolding seen thread_func
seen_lem i none f t h p = (t, refl, p)
seen_lem i (some g) f t h p = (record t { pid = some g; cb = none }, rw h refl, refl)

List-cases : (ts : List Thread) → (ts ≡ []) ⊎ ((t : Thread) × (us : List Thread) × (ts ≡ t ∷ us))
List-cases [] = inl refl
List-cases (t ∷ ts) = inr (t, ts, refl)

nil_not_cons : (x : Option ℕ) (xs : List (Option ℕ)) → [] ≢ x ∷ xs
nil_not_cons x xs h = cc

-- The ids that the threads from `i` on have been given.
abbrev pub given : (ℕ → Option ℕ) → ℕ → ℕ → List (Option ℕ)
given ids i zero = []
given ids i (suc n) = ids i ∷ given ids (suc i) n

abbrev pub pids : List Thread → List (Option ℕ)
pids = map (λ t. t.pid)

-- How many threads `start` makes, and the ids that the constructor puts into the list.
abbrev pub worker_count : ℕ → Bool → ℕ
worker_count threads use_caller = threads - (if use_caller then 1 else 0)

abbrev pub root_ids : Bool → ℕ → List (Option ℕ)
root_ids use_caller gettid = if use_caller then some gettid ∷ [] else []

-- The pool that the constructor leaves.
abbrev pub made : ℕ → Bool → ℕ → Pool
made threads use_caller gettid = record {
  use_caller = use_caller;
  is_stopping = false;
  threads_count = worker_count threads use_caller;
  root_thread = if use_caller then some gettid else none;
  threads = [];
  thread_ids = root_ids use_caller gettid;
}

pub new_pool_lem :
    (threads : ℕ) (use_caller : Bool) (current : Option ℕ) (gettid : ℕ)
    → 1 ≤ threads
    → (use_caller ≡ true → current ≡ none)
    → new_pool threads use_caller current gettid ≡ ok (made threads use_caller gettid)
unfolding new_pool
new_pool_lem threads true current gettid some_thread alone = ground (arith, alone refl)
new_pool_lem threads false current gettid some_thread alone = ground arith

module _ (k : Pthreads) (run : ℕ) where
  -- There are resources for another thread.
  abbrev pub Creates : Type 0
  Creates = (κ : k.Kernel) → is_some (k.create κ) ≡ true

  new_thread_lem :
      (κ : k.Kernel) (i : ℕ)
      → Creates
      → (κ' : k.Kernel) × (t : Thread) × (new_thread k κ (some run) i ≡ ok (κ', t))
        × (t.pid ≡ none)
        × (t.cb ≡ some run)
  unfolding new_thread
  new_thread_lem κ i can = elim (Option-cases (k.create κ)) [
    | inl e ↦ absurd (ground (arith, can κ))
    | inr ((κ', tid), e) ↦ (
      κ',
      record { pid = none; tid = tid; cb = some run; name = i },
      rw (e, new_thread) refl,
      refl,
      refl,
    )
  ]

  -- What the loop of `start` adds.
  start_workers_lem :
      (ids : ℕ → Option ℕ) (i n : ℕ) (κ : k.Kernel) (s : Pool)
      → Creates
      → (κ' : k.Kernel) × (s' : Pool) × (start_workers k run ids i n κ s ≡ ok (κ', s'))
        × (pids s'.threads ≡ pids s.threads ++ given ids i n)
        × (s'.thread_ids ≡ s.thread_ids ++ given ids i n)
        × (s'.is_stopping ≡ s.is_stopping)
        × (s'.threads_count ≡ s.threads_count)
  unfolding start_workers
  start_workers_lem ids i zero κ s can =
      (κ, s, refl, sym (append-nil (pids s.threads)), sym (append-nil s.thread_ids), refl, refl)
  start_workers_lem ids i (suc n) κ s can =
      let (κ', t, makes, fresh, callback) = new_thread_lem κ i can in
      let (t', sees, id) = seen_lem i (ids i) run t callback fresh in
      let s' = record s {
        threads = s.threads ++ t' ∷ [];
        thread_ids = s.thread_ids ++ get_id t' ∷ [];
      } in
      let (κ'', z, runs, those, listed, same, count) = start_workers_lem ids (suc i) n κ' s' can in
      (
        κ'',
        z,
        rw (makes, sees) runs,
        those
            ∙ ap (λ l. l ++ given ids (suc i) n)
                (map-append (λ (w : Thread). w.pid) s.threads (t' ∷ []))
            ∙ append_assoc (pids s.threads) (t'.pid ∷ []) (given ids (suc i) n)
            ∙ ap (λ g. pids s.threads ++ g ∷ given ids (suc i) n) id,
        listed
            ∙ append_assoc s.thread_ids (t'.pid ∷ []) (given ids (suc i) n)
            ∙ ap (λ g. s.thread_ids ++ g ∷ given ids (suc i) n) id,
        same,
        count,
      )

  started_twice :
      (ids : ℕ → Option ℕ) (κ : k.Kernel) (s : Pool) (n : ℕ)
      → s.is_stopping ≡ false
      → s.threads_count ≡ n
      → pids s.threads ≡ given ids 0 n
      → start k run ids κ s ≡ (if n == 0 then ok (κ, s) else fail Failure.aborted)
  unfolding start start_workers
  started_twice ids κ s zero going count those = elim (List-cases s.threads) [
    | inl e ↦ rw (going, e, count) refl
    | inr (t, ts, e) ↦ absurd (nil_not_cons t.pid (pids ts) (sym those ∙ ap pids e))
  ]
  started_twice ids κ s (suc n) going count those = elim (List-cases s.threads) [
    | inl e ↦ absurd (nil_not_cons (ids 0) _ (sym (ap pids e) ∙ those))
    | inr (t, ts, e) ↦ rw (going, e) (ground arith)
  ]

  -- `start` of the pool that the constructor leaves.
  pub start-made :
      (threads : ℕ) (use_caller : Bool) (gettid : ℕ) (ids : ℕ → Option ℕ) (κ : k.Kernel)
      → Creates
      → (κ' : k.Kernel) × (s' : Pool) × (start k run ids κ (made threads use_caller gettid)
          ≡ ok (κ', s'))
        × (pids s'.threads ≡ given ids 0 (worker_count threads use_caller))
        × (s'.thread_ids
            ≡ root_ids use_caller gettid ++ given ids 0 (worker_count threads use_caller))
        × (s'.is_stopping ≡ false)
        × (s'.threads_count ≡ worker_count threads use_caller)
  unfolding start
  start-made threads use_caller gettid ids κ can =
      start_workers_lem ids 0 (worker_count threads use_caller) κ (made threads use_caller gettid)
        can

  -- With at least one thread, on a thread without a scheduler if the caller is to be one of them, and
  -- with resources for the others: the constructor and `start` return, and make as many threads as
  -- were asked for, less the caller if it takes part. The list of ids has the caller's and then, for
  -- each thread, what `start` saw: its id if it had begun by then, and an unassigned value if not.
  -- A second `start` does nothing if there are no such threads, and aborts if there are.
  pub start_lem :
      (threads : ℕ) (use_caller : Bool) (current : Option ℕ) (gettid : ℕ) (ids : ℕ → Option ℕ)
      (κ : k.Kernel)
      → Creates
      → 1 ≤ threads
      → (use_caller ≡ true → current ≡ none)
      → (s : Pool) × (κ' : k.Kernel) × (s' : Pool) × (new_pool threads use_caller current gettid
          ≡ ok s)
        × (start k run ids κ s ≡ ok (κ', s'))
        × (pids s'.threads ≡ given ids 0 (worker_count threads use_caller))
        × (s'.thread_ids
            ≡ root_ids use_caller gettid ++ given ids 0 (worker_count threads use_caller))
        × (start k run ids κ' s'
            ≡ (if worker_count threads use_caller == 0 then ok (κ', s') else fail Failure.aborted))
  start_lem threads use_caller current gettid ids κ can some_thread alone =
      let s = made threads use_caller gettid in
      let n = worker_count threads use_caller in
      let (κ', s', runs, those, listed, same, count) =
        start-made threads use_caller gettid ids κ can in
      (
        s,
        κ',
        s',
        new_pool_lem threads use_caller current gettid some_thread alone,
        runs,
        those,
        listed,
        started_twice ids κ' s' n same count those,
      )

module _ (k : Pthreads) where
  join_workers_left :
      (z : Pool) (κ κ' : k.Kernel) (s' : Pool)
      → join_workers k κ z ≡ ok (κ', s')
      → record z { threads = [] } ≡ s'
  unfolding join_workers
  join_workers_left z κ κ' s' joins =
      let (κ₁, all, e) =
        >>=-eq-ok (join_all k κ z.threads) (λ κ₁. ok (κ₁, record z { threads = [] })) joins in
      cc (e)

  -- What `stop` leaves when it returns, in a pool that was not told to stop before.
  pub stop_pool_lem :
      (s : Pool) (κ κ' : k.Kernel) (s' : Pool) (nothing_to_do this : Bool)
      → s.is_stopping ≡ false
      → stop_pool k nothing_to_do this κ s ≡ ok (κ', s')
      → (s'.is_stopping ≡ true) × (s'.threads ≡ [])
  unfolding stop_pool
  stop_pool_lem s κ κ' s' nothing_to_do this going stops =
      elim (Bool-cases (if s.use_caller then this else not this)) [
        | inl fits ↦
            let joins : join_workers k κ (record s { is_stopping = true }) ≡ ok (κ', s') =
              ground (arith, stops) in
            let same = join_workers_left (record s { is_stopping = true }) κ κ' s' joins in
            (ap (λ (z : Pool). z.is_stopping) (sym same), ap (λ (z : Pool). z.threads) (sym same))
        | inr other ↦ absurd (ground (arith, stops))
      ]
