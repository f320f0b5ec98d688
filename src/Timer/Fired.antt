-- ===== src/Timer/Fired.antt =====
-- The loop of listExpiredCb over the timers that it has taken out of the set.
use mathlib.Core.List.{append_assoc, append-nil}
use fiber_async.Prelude.{
  ◌≤◌, ℕ, ◌+◌, ◌≡◌, refl, sym, ap, ◌∙◌, ◌⊎◌, inl, inr, List, [], ◌∷◌, ◌++◌, map, Option, none, Bool,
  true, false, arith, update, ◌==◌, ==_iff, subst, contains, Bool-cases, if◌then◌else◌, add64,
  IsDistinct, ◌||◌,
}
use fiber_async.Timer.{Store, Timer, TimerManager, Callback, settle, rearm, retire, fire}
use fiber_async.Timer.Set.{
  IsSorted, insert-IsSorted, contains-insert, IsSorted-update, Leads-not-contains,
}

pub IsSorted-IsDistinct : (s : Store) (xs : List ℕ) → IsSorted s xs → IsDistinct xs
IsSorted-IsDistinct s [] h = tt
IsSorted-IsDistinct s (x ∷ xs) h = (Leads-not-contains s x xs h.0, IsSorted-IsDistinct s xs h.1)

-- The callbacks of the timers `ps`, as the heap has them.
abbrev pub cbs_of : Store → List ℕ → List (Option Callback)
cbs_of s ps = map (λ p. (s p).cb) ps

pub cbs_of-update :
    (s : Store) (p : ℕ) (t : Timer) (ps : List ℕ)
    → contains ps p ≡ false
    → cbs_of (update s p t) ps ≡ cbs_of s ps
cbs_of-update s p t [] c = refl
cbs_of-update s p t (x ∷ xs) c = ground (arith, cbs_of-update s p t xs)

settle-cbs_of :
    (m : TimerManager) (p now : ℕ) (ps : List ℕ)
    → contains ps p ≡ false
    → cbs_of (settle m p now).store ps ≡ cbs_of m.store ps
unfolding settle rearm retire
settle-cbs_of m p now ps c = ground (
  arith,
  cbs_of-update m.store p (record (m.store p) { next = add64 now (m.store p).ms }) ps,
  cbs_of-update m.store p (record (m.store p) { cb = none }) ps,
)

-- The loop hands out the callback of each expired timer, in order.
pub fire-cbs :
    (clock : ℕ → ℕ) (k : ℕ) (m : TimerManager) (ps : List ℕ) (cbs : List (Option Callback))
    → IsDistinct ps
    → (fire clock k m ps cbs).1 ≡ cbs ++ cbs_of m.store ps
unfolding fire
fire-cbs clock k m [] cbs d = sym (append-nil cbs)
fire-cbs clock k m (p ∷ ps) cbs d =
    fire-cbs clock (if (m.store p).recurring then k + 1 else k) (settle m p (clock k)) ps
      (cbs ++ (m.store p).cb ∷ []) d.1
    ∙ ap (λ z. (cbs ++ (m.store p).cb ∷ []) ++ z) (settle-cbs_of m p (clock k) ps d.0)
    ∙ append_assoc cbs ((m.store p).cb ∷ []) (cbs_of m.store ps)

settle_cases {ℓ} :
    (P : TimerManager → Type ℓ) (m : TimerManager) (p now : ℕ)
    → P (rearm m p now)
    → P (retire m p)
    → P (settle m p now)
unfolding settle
settle_cases P m p now again once = elim (Bool-cases (m.store p).recurring) [
  | inl e ↦ rw (e, settle) again
  | inr e ↦ rw (e, settle) once
]

-- What one round does to the timer `p`, when it is outside the set.
pub settle-IsSorted :
    (m : TimerManager) (p now : ℕ)
    → contains m.timers p ≡ false
    → IsSorted m.store m.timers
    → IsSorted (settle m p now).store (settle m p now).timers
unfolding rearm retire
settle-IsSorted m p now c h =
    let t = record (m.store p) { next = add64 now (m.store p).ms } in
    settle_cases (λ n. IsSorted n.store n.timers) m p now
      (insert-IsSorted (update m.store p t) p m.timers (IsSorted-update m.store p t m.timers c h))
      (IsSorted-update m.store p (record (m.store p) { cb = none }) m.timers c h)

pub settle-contains :
    (m : TimerManager) (p now q : ℕ)
    → contains (settle m p now).timers q
      ≡ (if p == q then (m.store p).recurring || contains m.timers q else contains m.timers q)
unfolding settle rearm retire
settle-contains m p now q = ground (
  arith,
  contains-insert (update m.store p (record (m.store p) { next = add64 now (m.store p).ms })) p q
      m.timers,
)

pub settle-store_ne :
    (m : TimerManager) (p now q : ℕ) → (p == q) ≡ false → (settle m p now).store q ≡ m.store q
unfolding settle rearm retire
settle-store_ne m p now q n = ground arith

pub settle-store :
    (m : TimerManager) (p now : ℕ)
    → (settle m p now).store p ≡ (
        if (m.store p).recurring
        then record (m.store p) { next = add64 now (m.store p).ms }
        else record (m.store p) { cb = none })
unfolding settle rearm retire
settle-store m p now = ground arith

-- The loop keeps the set in order while none of `ps` is in it.
pub fire-IsSorted :
    (clock : ℕ → ℕ) (k : ℕ) (m : TimerManager) (ps : List ℕ) (cbs : List (Option Callback))
    → IsDistinct ps
    → ((q : ℕ) → contains ps q ≡ true → contains m.timers q ≡ false)
    → IsSorted m.store m.timers
    → IsSorted (fire clock k m ps cbs).0.store (fire clock k m ps cbs).0.timers
unfolding fire
fire-IsSorted clock k m [] cbs d out h = h
fire-IsSorted clock k m (p ∷ ps) cbs d out h =
    fire-IsSorted clock (if (m.store p).recurring then k + 1 else k) (settle m p (clock k)) ps
      (cbs ++ (m.store p).cb ∷ []) d.1
      (λ q c. ground (arith, settle-contains m p (clock k) q, out q, d.0))
      (settle-IsSorted m p (clock k) (out p (ground arith)) h)

-- A timer that has not expired is left as it was.
pub fire-other :
    (clock : ℕ → ℕ) (k : ℕ) (m : TimerManager) (ps : List ℕ) (cbs : List (Option Callback)) (q : ℕ)
    → contains ps q ≡ false
    → ((fire clock k m ps cbs).0.store q ≡ m.store q)
      × (contains (fire clock k m ps cbs).0.timers q ≡ contains m.timers q)
unfolding fire
fire-other clock k m [] cbs q c = (refl, refl)
fire-other clock k m (p ∷ ps) cbs q c = ground (
  arith,
  fire-other clock (if (m.store p).recurring then k + 1 else k) (settle m p (clock k)) ps
      (cbs ++ (m.store p).cb ∷ []) q,
  settle-store_ne m p (clock k) q,
  settle-contains m p (clock k) q,
)

-- A timer that has expired is armed again from the `first` clock reading or a later one if it
-- recurs, and otherwise loses its callback and stays out of the set.
abbrev pub Settled : ℕ → (ℕ → ℕ) → Timer → Timer → Bool → Type 0
Settled first clock old new inside =
    ((old.recurring ≡ true)
      × (inside ≡ true)
      × ((k : ℕ) × (first ≤ k) × (new ≡ record old { next = add64 (clock k) old.ms })))
    ⊎ ((old.recurring ≡ false) × (inside ≡ false) × (new ≡ record old { cb = none }))

Settled-le :
    (j k : ℕ) (clock : ℕ → ℕ) (old new : Timer) (inside : Bool)
    → j ≤ k
    → Settled k clock old new inside
    → Settled j clock old new inside
Settled-le j k clock old new inside l (inl (again, there, (i, h, e))) =
    inl (again, there, (i, omega (arith, h, l), e))
Settled-le j k clock old new inside l (inr once) = inr once

-- The timer at hand is settled for good by its own round.
fire-first :
    (clock : ℕ → ℕ) (k j : ℕ) (m : TimerManager) (p : ℕ) (ps : List ℕ)
    (cbs : List (Option Callback))
    → contains ps p ≡ false
    → contains m.timers p ≡ false
    → Settled k clock
        (m.store p)
        ((fire clock j (settle m p (clock k)) ps cbs).0.store p)
        (contains (fire clock j (settle m p (clock k)) ps cbs).0.timers p)
fire-first clock k j m p ps cbs out c =
    let (same, inside) = fire-other clock j (settle m p (clock k)) ps cbs p out in
    elim (Bool-cases (m.store p).recurring) [
      | inl again ↦ inl (
        again,
        ground (arith, inside, settle-contains m p (clock k) p),
        (k, omega arith, ground (arith, same, settle-store m p (clock k))),
      )
      | inr once ↦ inr (
        once,
        ground (arith, inside, settle-contains m p (clock k) p),
        ground (arith, same, settle-store m p (clock k)),
      )
    ]

pub fire-expired :
    (clock : ℕ → ℕ) (k : ℕ) (m : TimerManager) (ps : List ℕ) (cbs : List (Option Callback)) (q : ℕ)
    → IsDistinct ps
    → contains ps q ≡ true
    → ((r : ℕ) → contains ps r ≡ true → contains m.timers r ≡ false)
    → Settled k clock
        (m.store q)
        ((fire clock k m ps cbs).0.store q)
        (contains (fire clock k m ps cbs).0.timers q)
unfolding fire
fire-expired clock k m [] cbs q d c out = cc
fire-expired clock k m (p ∷ ps) cbs q d c out = elim (Bool-cases (p == q)) [
  | inl hit ↦
      subst
        (λ r.
          Settled k clock (m.store r) ((fire clock k m (p ∷ ps) cbs).0.store r)
            (contains (fire clock k m (p ∷ ps) cbs).0.timers r))
        ((==_iff p q).0 hit) (fire-first clock k _ m p ps _ d.0 (out p (ground arith)))
  | inr miss ↦
      let next = (if (m.store p).recurring then k + 1 else k) in
      Settled-le k next clock (m.store q) _ _ (ground arith) (
        rw (settle-store_ne m p (clock k) q miss) at (
          fire-expired clock next (settle m p (clock k)) ps (cbs ++ (m.store p).cb ∷ []) q d.1
            (ground arith) (λ r h. ground (arith, settle-contains m p (clock k) r, out r, d.0))))
]
