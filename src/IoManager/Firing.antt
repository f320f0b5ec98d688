-- ===== src/IoManager/Firing.antt =====
-- What the idle loop does for the events that epoll reports, and what that does to the count.
use fiber_async.Prelude.{
  ℕ, zero, suc, ◌+◌, ◌≡◌, refl, sym, subst, ap, ◌∙◌, List, [], ◌∷◌, ◌++◌, map, some, Bool, true,
  false, ◌||◌, ◌&&◌, arith, if◌then◌else◌, ◌==◌, set, get_elem?, ok, Outcome, sub64, add64, ◌>>=◌,
  pos,
}
use mathlib.Core.Path.{ap₂}
use mathlib.Core.List.{append-nil, append_assoc, map-append}
use fiber_async.IoManager.{
  Event, event_none, event_read, event_write, has, without, is_nothing, blank, FdContext,
  set_event_context, Posted, Task, trigger_event, IoManager, del_event, fire_event,
}
use fiber_async.IoManager.Interest.{Mask, CtlOp, ctl_mod, ctl_del, needs_entry, Epoll}
use fiber_async.IoManager.Contexts.{get_elem?-lt, get_elem?-set, bit, total-set}
use fiber_async.IoManager.Invariant.{
  IsConsistent, dropped, dropped-IsTidy, unregister_runs, ctl_total, replace-IsConsistent,
  has-is_nothing, entry-registered, weight-without, mask_of,
}
use fiber_async.IoManager.Events.{
  waits_for, same_event, task_of, context_of, trigger_event_lem, waits_for-dropped,
}

set-set {ℓ} : {A : Type ℓ} (xs : List A) (n : ℕ) (a b : A) → set (set xs n a) n b ≡ set xs n b
set-set [] n a b = refl
set-set (x ∷ xs) zero a b = refl
set-set (x ∷ xs) (suc n) a b = ap (◌∷◌ x) (set-set xs n a b)

-- A context whose event has been triggered, before `delEvent`.
abbrev fired : FdContext → Event → FdContext
fired c event = set_event_context c event blank

fired-events : (c : FdContext) (event : Event) → (fired c event).events ≡ c.events
unfolding set_event_context
fired-events c event_none = refl
fired-events c event_read = refl
fired-events c event_write = refl

fired-fd : (c : FdContext) (event : Event) → (fired c event).fd ≡ c.fd
unfolding set_event_context
fired-fd c event_none = refl
fired-fd c event_read = refl
fired-fd c event_write = refl

dropped-fired : (c : FdContext) (event : Event) → dropped (fired c event) event ≡ dropped c event
unfolding set_event_context
dropped-fired c event_none = refl
dropped-fired c event_read = refl
dropped-fired c event_write = refl

abbrev pub tasks : Posted → Task
tasks p = p.task

pub has_read : (m : Mask) → m.read ≡ true → has m event_read ≡ true
unfolding has
has_read m h = h

-- The context after the first of the last two `if`s of the loop's body.
after_read : Bool → FdContext → FdContext
after_read true c = dropped c event_read
after_read false c = c

after_read_lem :
    (b : Bool) (c : FdContext) → after_read b c ≡ (if b then dropped c event_read else c)
unfolding after_read
after_read_lem true c = refl
after_read_lem false c = refl

has_write :
    (b : Bool) (c : FdContext)
    → c.events.write ≡ true
    → has (after_read b c).events event_write ≡ true
unfolding has after_read without
has_write true c h = h
has_write false c h = h

write_task :
    (b w : Bool) (c : FdContext)
    → (if w then task_of (context_of (after_read b c) event_write) ∷ [] else [])
      ≡ (if w then task_of c.on_write ∷ [] else [])
unfolding after_read set_event_context
write_task true w c = refl
write_task false w c = refl

module _ (e : Epoll) where
  -- The manager agrees with its table and with epoll, but its count is `owed` short.
  abbrev pub IsShort : IoManager e → ℕ → Type 0
  IsShort m owed = IsConsistent e (record m { pending = add64 m.pending owed })

  del_fired :
      (m : IoManager e) (n : ℕ) (c : FdContext) (event : Event) (k : e.Kernel)
      → get_elem? m.contexts n ≡ some c
      → has c.events event ≡ true
      → e.ctl m.kernel
          (if is_nothing (without c.events event) then ctl_del else ctl_mod)
          n
          (record { mask = without c.events event; edge = false })
        ≡ some k
      → del_event e m (pos n) event
        ≡ ok (
          record m {
            contexts = set m.contexts n (dropped c event);
            kernel = k;
            pending = sub64 m.pending 1;
          },
          true,
        )
  unfolding del_event
  del_fired m n c event k here on done =
      ground (arith, get_elem?-lt m.contexts n here, unregister_runs e m n c event k done)

  fire_runs :
      (m m₂ : IoManager e) (n : ℕ) (c : FdContext) (event : Event) (p : Posted) (found : Bool)
      → get_elem? m.contexts n ≡ some c
      → trigger_event c event ≡ ok (fired c event, p)
      → c.fd ≡ n
      → del_event e
          (record m { contexts = set m.contexts n (fired c event); posted = m.posted ++ p ∷ [] })
          (pos n)
          event
        ≡ ok (m₂, found)
      → fire_event e m n event ≡ ok (record m₂ { pending = sub64 m₂.pending 1 })
  unfolding fire_event
  fire_runs m m₂ n c event p found here triggers index deletes = ground (arith, fired-fd c event)

  -- Triggering and deleting an event that is waited for leaves the count one more short: `delEvent`
  -- has counted the event off already.
  fire_event_lem :
      (m : IoManager e) (n : ℕ) (c : FdContext) (event : Event) (owed : ℕ)
      → IsShort m owed
      → get_elem? m.contexts n ≡ some c
      → has c.events event ≡ true
      → (m' : IoManager e) × (p : Posted) × (fire_event e m n event ≡ ok m')
        × IsShort m' (owed + 1)
        × (m'.contexts ≡ set m.contexts n (dropped c event))
        × (m'.posted ≡ m.posted ++ p ∷ [])
        × (p.task ≡ task_of (context_of c event))
  fire_event_lem m n c event owed v here on =
      let mm : IoManager e = record m { pending = add64 m.pending owed } in
      let rest = without c.events event in
      let op : CtlOp = if is_nothing rest then ctl_del else ctl_mod in
      let needed : needs_entry op ≡ true = ground arith in
      let (k, done, effect) =
        ctl_total e mm n c op (record { mask = rest; edge = false }) v here
          (has-is_nothing c.events event on) needed in
      let (p, triggers, task, scheduler) = trigger_event_lem n c event (v.tidy n c here) on in
      let c' = fired c event in
      let m₁ : IoManager e = record m {
        contexts = set m.contexts n c';
        posted = m.posted ++ p ∷ [];
      } in
      let inside : get_elem? m₁.contexts n ≡ some c' =
        ground (arith, get_elem?-set m.contexts n c' n (get_elem?-lt m.contexts n here)) in
      let table =
        set-set m.contexts n c' (dropped c' event)
        ∙ ap (set m.contexts n) (dropped-fired c event) in
      let m' : IoManager e = record m {
        contexts = set (set m.contexts n c') n (dropped c' event);
        kernel = k;
        pending = sub64 (sub64 m.pending 1) 1;
        posted = m.posted ++ p ∷ [];
      } in
      (
        m',
        p,
        fire_runs m _ n c event p true here triggers (v.tidy n c here).index (
            del_fired m₁ n c' event k inside (rw (fired-events c event) on)
              (rw (fired-events c event) done)),
        replace-IsConsistent e mm (record m' { pending = add64 m'.pending (owed + 1) }) n c
            (dropped c event) v here (dropped-IsTidy n c event (v.tidy n c here)) table
            (λ i. ap mask_of (effect i) ∙ entry-registered rest (n == i) (e.interest m.kernel i))
            (omega (
              arith,
              v.count,
              weight-without c.events event on,
              total-set m.contexts n c (dropped c event) here,
            )),
        table,
        refl,
        task,
      )

  -- One of the two last `if`s of the loop's body.
  pub maybe_fire :
      (m : IoManager e) (n : ℕ) (c : FdContext) (event : Event) (owed : ℕ) (b : Bool)
      → IsShort m owed
      → get_elem? m.contexts n ≡ some c
      → (b ≡ true → has c.events event ≡ true)
      → (m' : IoManager e) × (ps : List Posted) × ((if b then fire_event e m n event else ok m)
          ≡ ok m')
        × IsShort m' (owed + bit b)
        × (m'.contexts ≡ (if b then set m.contexts n (dropped c event) else m.contexts))
        × (m'.posted ≡ m.posted ++ ps)
        × (map tasks ps ≡ (if b then task_of (context_of c event) ∷ [] else []))
  maybe_fire m n c event owed true v here on =
      let (m', p, runs, short, table, posted, task) =
        fire_event_lem m n c event owed v here (on refl) in
      (m', p ∷ [], runs, short, table, posted, ap (λ t. t ∷ []) task)
  maybe_fire m n c event owed false v here on =
      (m, [], refl, subst (IsShort m) (omega arith) v, refl, sym (append-nil m.posted), refl)

  pub IsConsistent-IsShort : (m : IoManager e) → IsConsistent e m → IsShort m 0
  IsConsistent-IsShort m v = record {
    tidy = v.tidy;
    entry = v.entry;
    count = omega (arith, v.count);
    large = v.large;
  }

  -- The two last `if`s, where `reads` and `writes` are events that are waited for.
  unfoldable pub both : IoManager e → ℕ → Bool → Bool → Outcome (IoManager e)
  both m n reads writes = (if reads then fire_event e m n event_read else ok m) >>= λ m₁.
      if writes then fire_event e m₁ n event_write else ok m₁

  pub both_lem :
      (m : IoManager e) (n : ℕ) (c : FdContext) (owed : ℕ) (reads writes : Bool)
      → IsShort m owed
      → get_elem? m.contexts n ≡ some c
      → (reads ≡ true → c.events.read ≡ true)
      → (writes ≡ true → c.events.write ≡ true)
      → (m' : IoManager e) × (ps : List Posted) × (both m n reads writes ≡ ok m')
        × IsShort m' (owed + (bit reads + bit writes))
        × ((k : ℕ) (other : Event)
            → waits_for m'.contexts k other ≡ (
                if n == k
                  && (same_event event_read other && reads
                      || same_event event_write other && writes)
                then false
                else waits_for m.contexts k other))
        × (m'.posted ≡ m.posted ++ ps)
        × (map tasks ps
            ≡ (if reads then task_of c.on_read ∷ [] else [])
              ++ (if writes then task_of c.on_write ∷ [] else []))
  unfolding both
  both_lem m n c owed reads writes v here in_read in_write =
      let (m₁, ps, runs₁, short₁, table₁, posted₁, tasks₁) =
        maybe_fire m n c event_read owed reads v here (λ b. has_read c.events (in_read b)) in
      let c₁ = after_read reads c in
      let here₁ : get_elem? m₁.contexts n ≡ some c₁ = ground (
        arith,
        table₁,
        after_read_lem reads c,
        get_elem?-set m.contexts n (dropped c event_read) n (get_elem?-lt m.contexts n here),
      ) in
      let (m₂, qs, runs₂, short₂, table₂, posted₂, tasks₂) =
        maybe_fire m₁ n c₁ event_write (owed + bit reads) writes short₁ here₁
          (λ b. has_write reads c (in_write b)) in
      (
        m₂,
        ps ++ qs,
        rw runs₁ runs₂,
        subst (IsShort m₂) (omega arith) short₂,
        λ k other. ground (
          arith,
          table₁,
          table₂,
          waits_for-dropped m.contexts n c event_read k other here,
          waits_for-dropped m₁.contexts n c₁ event_write k other here₁,
        ),
        posted₂ ∙ ap (λ xs. xs ++ qs) posted₁ ∙ append_assoc m.posted ps qs,
        map-append tasks ps qs ∙ ap₂ ◌++◌ tasks₁ (tasks₂ ∙ write_task reads writes c),
      )
