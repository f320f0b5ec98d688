-- ===== src/IoManager/Idle/Reports.antt =====
-- The loop over the events that epoll_wait reports.
use fiber_async.Prelude.{
  ℕ, suc, ◌+◌, ◌≡◌, refl, sym, subst, ap, ◌∙◌, inl, inr, List, [], ◌∷◌, ◌++◌, map, some, Bool, true,
  false, ◌||◌, ◌&&◌, arith, if◌then◌else◌, ◌==◌, get_elem?, ok, length, length-append, Option-cases,
}
use native.Mathlib.Nat.{add-zero}
use mathlib.Core.Path.{ap₂}
use mathlib.Core.List.{append-nil, append_assoc}
use fiber_async.IoManager.{
  Event, event_none, event_read, event_write, has, FdContext, Posted, Task, IoManager, Ready,
  process_event,
}
use fiber_async.IoManager.Interest.{Epoll}
use fiber_async.IoManager.Contexts.{bit}
use fiber_async.IoManager.Events.{waits_for, same_event}
use fiber_async.IoManager.Firing.{IsShort, tasks}
use fiber_async.IoManager.Processing.{happens_read, happens_write, process_event_lem}
use fiber_async.IoManager.Idle.{Report, pipe, ready_at, handle_reports}

-- Whether an event of a descriptor happens by a report, at a table of contexts.
abbrev pub happens : List FdContext → ℕ → Ready → Event → Bool
happens cs n r event_none = false
happens cs n r event_read = waits_for cs n event_read && (r.readable || r.failed)
happens cs n r event_write = waits_for cs n event_write && (r.writable || r.failed)

-- epoll reports, of a descriptor that waits for something, nothing that it does not wait for.
abbrev pub Fits : List FdContext → ℕ → Ready → Type 0
Fits cs n r =
    ((waits_for cs n event_read || waits_for cs n event_write) ≡ true)
    × (r.readable ≡ true → waits_for cs n event_read ≡ true)
    × (r.writable ≡ true → waits_for cs n event_write ≡ true)

abbrev pub reported : List Report → ℕ → Bool
reported [] k = false
reported (pipe ∷ rs) k = reported rs k
reported (ready_at n r ∷ rs) k = if n == k then true else reported rs k

-- Each descriptor is reported once, and fits.
abbrev pub AllFit : List FdContext → List Report → Type 0
AllFit cs [] = Unit {0}
AllFit cs (pipe ∷ rs) = AllFit cs rs
AllFit cs (ready_at n r ∷ rs) = Fits cs n r × (reported rs n ≡ false) × AllFit cs rs

-- How many events happen by the reports.
abbrev pub count_happens : List FdContext → List Report → ℕ
count_happens cs [] = 0
count_happens cs (pipe ∷ rs) = count_happens cs rs
count_happens cs (ready_at n r ∷ rs) =
    (bit (happens cs n r event_read) + bit (happens cs n r event_write)) + count_happens cs rs

-- Whether some report makes an event happen.
abbrev pub happened : List FdContext → List Report → ℕ → Event → Bool
happened cs [] k event = false
happened cs (pipe ∷ rs) k event = happened cs rs k event
happened cs (ready_at n r ∷ rs) k event =
    if n == k && happens cs n r event then true else happened cs rs k event

-- Reports of other descriptors mean the same at a table that differs at `n` alone.
module _ (cs cs' : List FdContext) (n : ℕ)
    (same : (k : ℕ) (other : Event)
      → (n == k) ≡ false
      → waits_for cs' k other ≡ waits_for cs k other) where
  same_happens :
      (k : ℕ) (r : Ready) (event : Event)
      → (n == k) ≡ false
      → happens cs' k r event ≡ happens cs k r event
  same_happens k r event_none apart = refl
  same_happens k r event_read apart =
      ap (λ b. b && (r.readable || r.failed)) (same k event_read apart)
  same_happens k r event_write apart =
      ap (λ b. b && (r.writable || r.failed)) (same k event_write apart)

  pub same_fit : (rs : List Report) → reported rs n ≡ false → AllFit cs rs → AllFit cs' rs
  same_fit [] out h = tt
  same_fit (pipe ∷ rs) out h = same_fit rs out h
  same_fit (ready_at k r ∷ rs) out ((some_event, in_read, in_write), once, h) =
      let apart : (n == k) ≡ false = ground arith in
      let reads = same k event_read apart in
      let writes = same k event_write apart in
      (
        (ap₂ ◌||◌ reads writes ∙ some_event, λ b. reads ∙ in_read b, λ b. writes ∙ in_write b),
        once,
        same_fit rs (ground arith) h,
      )

  same_count :
      (rs : List Report) → reported rs n ≡ false → count_happens cs' rs ≡ count_happens cs rs
  same_count [] out = refl
  same_count (pipe ∷ rs) out = same_count rs out
  same_count (ready_at k r ∷ rs) out =
      let apart : (n == k) ≡ false = ground arith in
      omega (
        arith,
        ap bit (same_happens k r event_read apart),
        ap bit (same_happens k r event_write apart),
        same_count rs (ground arith),
      )

  same_happened :
      (rs : List Report) (k : ℕ) (event : Event)
      → reported rs n ≡ false
      → happened cs' rs k event ≡ happened cs rs k event
  same_happened [] k event out = refl
  same_happened (pipe ∷ rs) k event out = same_happened rs k event out
  same_happened (ready_at j r ∷ rs) k event out =
      let apart : (n == j) ≡ false = ground arith in
      ground (arith, same_happens j r event apart, same_happened rs k event (ground arith))

length-map {ℓ κ} :
    {A : Type ℓ} {B : Type κ} (f : A → B) (xs : List A) → length (map f xs) ≡ length xs
length-map f [] = refl
length-map f (x ∷ xs) = ap suc (length-map f xs)

two_tasks :
    (b w : Bool) (s t : Task)
    → length ((if b then s ∷ [] else []) ++ (if w then t ∷ [] else [])) ≡ bit b + bit w
two_tasks true true s t = refl
two_tasks true false s t = refl
two_tasks false true s t = refl
two_tasks false false s t = refl

masks :
    (cs : List FdContext) (n : ℕ) (c : FdContext) (r : Ready) (k : ℕ) (other : Event)
    → get_elem? cs n ≡ some c
    → (if n == k
          && (same_event event_read other && happens_read c r
              || same_event event_write other && happens_write c r)
        then false
        else waits_for cs k other)
      ≡ (if n == k && happens cs n r other then false else waits_for cs k other)
unfolding has
masks cs n c r k event_none here = ground (arith, here)
masks cs n c r k event_read here = ground (arith, here)
masks cs n c r k event_write here = ground (arith, here)

module _ (e : Epoll) where
  -- One report, in terms of what is waited for.
  pub report_lem :
      (m : IoManager e) (n : ℕ) (r : Ready) (owed : ℕ)
      → IsShort e m owed
      → Fits m.contexts n r
      → (m' : IoManager e) × (ps : List Posted) × (process_event e m n r ≡ ok m')
        × IsShort e m' (
            owed
            + (bit (happens m.contexts n r event_read) + bit (happens m.contexts n r event_write)))
        × ((k : ℕ) (other : Event)
            → waits_for m'.contexts k other ≡ (
                if n == k && happens m.contexts n r other
                then false
                else waits_for m.contexts k other))
        × (m'.posted ≡ m.posted ++ ps)
        × (length ps
            ≡ bit (happens m.contexts n r event_read) + bit (happens m.contexts n r event_write))
  unfolding has
  report_lem m n r owed v fits = elim (Option-cases (get_elem? m.contexts n)) [
    | inl past ↦ absurd (ground (arith, fits.0))
    | inr (c, here) ↦
        let reads : happens m.contexts n r event_read ≡ happens_read c r = ground (arith, here) in
        let writes : happens m.contexts n r event_write ≡ happens_write c r =
          ground (arith, here) in
        let (m', ps, runs, short, waits, posted, named) =
          process_event_lem e m n c r owed v here (λ h. ground (arith, here, fits.1 h))
            (λ h. ground (arith, here, fits.2 h)) in
        (
          m',
          ps,
          runs,
          rw (reads, writes) short,
          λ k other. waits k other ∙ masks m.contexts n c r k other here,
          posted,
          sym (length-map tasks ps) ∙ ap length named ∙ two_tasks _ _ _ _ ∙ rw (reads, writes) refl,
        )
  ]

  -- When every descriptor is reported once, and with nothing that is not waited for, the loop always
  -- returns. It posts one task for each event that happens, and these events are no longer waited for;
  -- all others still are. The count is short by one more for each event.
  pub handle_reports_lem :
      (m : IoManager e) (rs : List Report) (owed : ℕ)
      → IsShort e m owed
      → AllFit m.contexts rs
      → (m' : IoManager e) × (ps : List Posted) × (handle_reports e m rs ≡ ok m')
        × IsShort e m' (owed + count_happens m.contexts rs)
        × ((k : ℕ) (other : Event)
            → waits_for m'.contexts k other
              ≡ (if happened m.contexts rs k other then false else waits_for m.contexts k other))
        × (m'.posted ≡ m.posted ++ ps)
        × (length ps ≡ count_happens m.contexts rs)
  unfolding handle_reports
  handle_reports_lem m [] owed v h =
      (m, [], refl, rw add-zero v, λ k other. refl, sym (append-nil m.posted), refl)
  handle_reports_lem m (pipe ∷ rs) owed v h = handle_reports_lem m rs owed v h
  handle_reports_lem m (ready_at n r ∷ rs) owed v (fits, once, h) =
      let (a, ps, runs, short, waits, posted, many) = report_lem m n r owed v fits in
      let elsewhere : (k : ℕ) (other : Event)
          → (n == k) ≡ false
          → waits_for a.contexts k other ≡ waits_for m.contexts k other =
        λ k other apart. waits k other ∙ rw apart refl in
      let (z, qs, goes, short', waits', posted', many') =
        handle_reports_lem a rs
          (owed
            + (bit (happens m.contexts n r event_read) + bit (happens m.contexts n r event_write)))
          short (same_fit m.contexts a.contexts n elsewhere rs once h) in
      let count = same_count m.contexts a.contexts n elsewhere rs once in
      (
        z,
        ps ++ qs,
        rw runs goes,
        subst (IsShort e z) (omega (arith, count)) short',
        λ k other.
            waits' k other
            ∙ ground (
              arith,
              same_happened m.contexts a.contexts n elsewhere rs k other once,
              waits k other,
            ),
        posted' ∙ ap (λ l. l ++ qs) posted ∙ append_assoc m.posted ps qs,
        length-append ps qs ∙ omega (arith, many, many', count),
      )
