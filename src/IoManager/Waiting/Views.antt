-- ===== src/IoManager/Waiting/Views.antt =====
-- The effects of an event that happens and of a report, as changes to what the manager promises.
use fiber_async.Prelude.{
  ℕ, ◌≡◌, refl, sym, ◌∙◌, ap, inl, inr, List, some, none, Bool, true, false, ◌||◌, ◌&&◌, arith,
  if◌then◌else◌, get_elem?, ok, fail, Outcome, Option-cases, >>=-eq-ok,
}
use fiber_async.IoManager.{
  Event, event_read, event_write, has, FdContext, Ready, IoManager, fire_event, process_event,
}
use fiber_async.IoManager.Interest.{Epoll}
use fiber_async.IoManager.Contexts.{get_elem?-lt, get_elem?-set}
use fiber_async.IoManager.Invariant.{dropped}
use fiber_async.IoManager.Firing.{IsShort, both, maybe_fire, has_read}
use fiber_async.IoManager.Processing.{happens_read, happens_write, process_runs}
use fiber_async.IoManager.Waiting.{Promise, hand_over, take, perform, report, waiting_at, view}
use fiber_async.IoManager.Waiting.Effects.{put-nothing, Wakes}
use fiber_async.IoManager.Waiting.Reports.{fire_event-Wakes, fd-blanked}

pub Promise-ext :
    (s t : Promise)
    → ((k : ℕ) (event : Event) → s.waiting k event ≡ t.waiting k event)
    → s.posted ≡ t.posted
    → s ≡ t
Promise-ext s t w p = λ i. record { waiting = λ k event. w k event i; posted = p i }

-- Nothing is handed over where nothing waits.
pub take-nothing :
    (s : Promise) (n : ℕ) (event : Event) → s.waiting n event ≡ none → take s n event ≡ s
take-nothing s n event h = ap (λ o. hand_over o s n event) h

-- Nothing comes to wait by a task's being handed over.
take-still :
    (s : Promise) (n : ℕ) (event : Event) (b : Bool) (k : ℕ) (other : Event)
    → s.waiting k other ≡ none
    → (if b then take s n event else s).waiting k other ≡ none
take-still s n event false k other h = h
take-still s n event true k other h = elim (Option-cases (s.waiting n event)) [
  | inl nothing ↦ rw (take-nothing s n event nothing) h
  | inr (p, waits) ↦ ap (λ o. (hand_over o s n event).waiting k other) waits ∙ ground (arith, h)
]

-- A report of an event that nothing waits for hands nothing over.
take_if :
    (s : Promise) (n : ℕ) (event : Event) (waits asked : Bool)
    → (waits ≡ false → s.waiting n event ≡ none)
    → (if waits && asked then take s n event else s) ≡ (if asked then take s n event else s)
take_if s n event true asked h = refl
take_if s n event false true h = sym (take-nothing s n event (h refl))
take_if s n event false false h = refl

quiet_read :
    (cs : List FdContext) (n : ℕ) (c : FdContext)
    → get_elem? cs n ≡ some c
    → c.events.read ≡ false
    → waiting_at cs n event_read ≡ none
unfolding has
quiet_read cs n c here off = ground (arith, here)

quiet_write :
    (cs : List FdContext) (n : ℕ) (c : FdContext)
    → get_elem? cs n ≡ some c
    → c.events.write ≡ false
    → waiting_at cs n event_write ≡ none
unfolding has
quiet_write cs n c here off = ground (arith, here)

module _ (e : Epoll) where
  pub Wakes-view :
      (m m' : IoManager e) (n : ℕ) (event : Event)
      → Wakes e m m' n event
      → view e m' ≡ take (view e m) n event
  Wakes-view m m' n event w = elim (Option-cases (waiting_at m.contexts n event)) [
    | inl nothing ↦
        Promise-ext (view e m') (view e m)
          (λ k other.
            w.forgets k other ∙ put-nothing (waiting_at m.contexts) n event k other nothing)
          (rw nothing at w.hands_over)
        ∙ sym (take-nothing (view e m) n event nothing)
    | inr (p, waits) ↦
        Promise-ext (view e m') (hand_over (some p) (view e m) n event) w.forgets
          (rw waits at w.hands_over)
        ∙ sym (ap (λ o. hand_over o (view e m) n event) waits)
  ]

  view_of : IoManager e → Outcome (IoManager e) → Promise
  view_of d (ok m) = view e m
  view_of d (fail r) = view e d

  first_fires :
      (m m₁ : IoManager e) (n : ℕ) (c : FdContext) (event : Event) (owed : ℕ) (b : Bool)
      → IsShort e m owed
      → get_elem? m.contexts n ≡ some c
      → (b ≡ true → has c.events event ≡ true)
      → (if b then fire_event e m n event else ok m) ≡ ok m₁
      → (view e m₁ ≡ (if b then take (view e m) n event else view e m))
        × ((c₁ : FdContext) × (get_elem? m₁.contexts n ≡ some c₁) × (c₁.fd ≡ n))
  first_fires m m₁ n c event owed true v here on h =
      let index = (v.tidy n c here).index in
      let (a, ps, runs, short, table, posted, named) =
        maybe_fire e m n c event owed true v here on in
      let same : a ≡ m₁ = cc (runs, h) in
      let there : get_elem? a.contexts n ≡ some (dropped c event) = ground (
        arith,
        table,
        get_elem?-set m.contexts n (dropped c event) n (get_elem?-lt m.contexts n here),
      ) in
      (
        Wakes-view m m₁ n event (fire_event-Wakes e m m₁ n c event here index h),
        (dropped c event, rw same at there, fd-blanked c event ∙ index),
      )
  first_fires m m₁ n c event owed false v here on h =
      let same : m ≡ m₁ = cc (h) in (rw same refl, (c, rw same at here, (v.tidy n c here).index))

  second_fires :
      (m₁ m' : IoManager e) (n : ℕ) (c₁ : FdContext) (event : Event) (b : Bool)
      → get_elem? m₁.contexts n ≡ some c₁
      → c₁.fd ≡ n
      → (if b then fire_event e m₁ n event else ok m₁) ≡ ok m'
      → view e m' ≡ (if b then take (view e m₁) n event else view e m₁)
  unfolding view_of
  second_fires m₁ m' n c₁ event true here index h =
      Wakes-view m₁ m' n event (fire_event-Wakes e m₁ m' n c₁ event here index h)
  second_fires m₁ m' n c₁ event false here index h = ap (view_of m') (sym h)

  pub process_event-view :
      (m m' : IoManager e) (n : ℕ) (c : FdContext) (r : Ready) (owed : ℕ)
      → IsShort e m owed
      → get_elem? m.contexts n ≡ some c
      → (r.readable ≡ true → c.events.read ≡ true)
      → (r.writable ≡ true → c.events.write ≡ true)
      → process_event e m n r ≡ ok m'
      → view e m' ≡ perform (report n r) (view e m)
  unfolding both
  process_event-view m m' n c r owed v here in_read in_write h =
      let goes : both e m n (happens_read c r) (happens_write c r) ≡ ok m' =
        sym (process_runs e m n c r here in_read in_write) ∙ h in
      let (m₁, first, second) =
        >>=-eq-ok (if happens_read c r then fire_event e m n event_read else ok m) _ goes in
      let (half, (c₁, here₁, index₁)) =
        first_fires m m₁ n c event_read owed (happens_read c r) v here
          (λ b. has_read c.events (ground arith)) first in
      let reads = r.readable || r.failed in
      let writes = r.writable || r.failed in
      let s = view e m in
      let s₁ : Promise = if c.events.read && reads then take s n event_read else s in
      let quiet : c.events.write ≡ false → s₁.waiting n event_write ≡ none = λ off.
        take-still s n event_read (happens_read c r) n event_write
          (quiet_write m.contexts n c here off) in
      second_fires m₁ m' n c₁ event_write (happens_write c r) here₁ index₁ second
      ∙ ap (λ z. if happens_write c r then take z n event_write else z) half
      ∙ take_if s₁ n event_write c.events.write writes quiet
      ∙ ap (λ z. if writes then take z n event_write else z)
          (take_if s n event_read c.events.read reads (quiet_read m.contexts n c here))
