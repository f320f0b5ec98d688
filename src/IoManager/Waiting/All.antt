-- ===== src/IoManager/Waiting/All.antt =====
-- The effect of cancelAll, as a change to what the manager promises.
use fiber_async.Prelude.{
  ℕ, ◌≡◌, refl, sym, ◌∙◌, ap, inl, inr, List, [], ◌∷◌, ◌++◌, Option, some, none, Bool, true, false,
  arith, if◌then◌else◌, ◌==◌, get_elem?, set, ok, Outcome, sub64, pos, ◌>>=◌, Bool-cases,
  Option-cases, >>=-eq-ok,
}
use fiber_async.IoManager.{
  Event, event_none, event_read, event_write, has, is_nothing, FdContext, Posted, IoManager,
  trigger_event, cancel_one, cancel_all,
}
use fiber_async.IoManager.Interest.{Epoll, no_events}
use fiber_async.IoManager.Contexts.{get_elem?-lt}
use fiber_async.IoManager.Events.{same_event}
use fiber_async.IoManager.Pending.{drops, silences}
use fiber_async.IoManager.Waiting.{
  Promise, put, hand_over, take, perform, wake_all, waiting_in, waiting_at, view,
}
use fiber_async.IoManager.Waiting.Effects.{
  waiting_in-none, waiting_at-set, put-nothing, trigger_inv,
}
use fiber_async.IoManager.Waiting.Reports.{waiting_in-blanked}
use fiber_async.IoManager.Waiting.Views.{Promise-ext}

abbrev given : Option Posted → List Posted → List Posted
given none ps = ps
given (some p) ps = ps ++ p ∷ []

take-posted :
    (s : Promise) (n : ℕ) (event : Event)
    → (take s n event).posted ≡ given (s.waiting n event) s.posted
take-posted s n event = elim (Option-cases (s.waiting n event)) [
  | inl nothing ↦
      ap (λ o. (hand_over o s n event).posted) nothing ∙ sym (ap (λ o. given o s.posted) nothing)
  | inr (p, waits) ↦
      ap (λ o. (hand_over o s n event).posted) waits ∙ sym (ap (λ o. given o s.posted) waits)
]

take-waiting :
    (s : Promise) (n : ℕ) (event : Event) (k : ℕ) (other : Event)
    → (take s n event).waiting k other ≡ put s.waiting n event none k other
take-waiting s n event k other = elim (Option-cases (s.waiting n event)) [
  | inl nothing ↦
      ap (λ o. (hand_over o s n event).waiting k other) nothing
      ∙ sym (put-nothing s.waiting n event k other nothing)
  | inr (p, waits) ↦ ap (λ o. (hand_over o s n event).waiting k other) waits
]

waiting_in-silent :
    (c : FdContext) (other : Event) → waiting_in (record c { events = no_events }) other ≡ none
unfolding has
waiting_in-silent c event_none = refl
waiting_in-silent c event_read = refl
waiting_in-silent c event_write = refl

waiting_at-none : (cs : List FdContext) (k : ℕ) → waiting_at cs k event_none ≡ none
waiting_at-none cs k = elim (Option-cases (get_elem? cs k)) [
  | inl past ↦ ground (arith, past)
  | inr (c, here) ↦ ground (arith, here, waiting_in-none c)
]

both_none :
    (w : ℕ → Event → Option Posted) (n k : ℕ) (other : Event)
    → w n event_none ≡ none
    → put (put w n event_read none) n event_write none k other
      ≡ (if n == k then none else w k other)
both_none w n k event_none h = ground (arith, h)
both_none w n k event_read h = ground arith
both_none w n k event_write h = ground arith

all_none :
    (cs : List FdContext) (n k : ℕ) (other : Event)
    → waiting_at cs n event_read ≡ none
    → waiting_at cs n event_write ≡ none
    → waiting_at cs k other ≡ (if n == k then none else waiting_at cs k other)
all_none cs n k event_none reads writes = ground (arith, waiting_at-none cs k)
all_none cs n k event_read reads writes = ground arith
all_none cs n k event_write reads writes = ground arith

here_at :
    (cs : List FdContext) (n : ℕ) (c : FdContext) (event : Event)
    → get_elem? cs n ≡ some c
    → waiting_at cs n event ≡ waiting_in c event
here_at cs n c event here = ground (arith, here)

nothing_waits :
    (cs : List FdContext) (n : ℕ) (c : FdContext) (event : Event)
    → get_elem? cs n ≡ some c
    → is_nothing c.events ≡ true
    → waiting_at cs n event ≡ none
unfolding is_nothing has
nothing_waits cs n c event_none here nothing = waiting_at-none cs n
nothing_waits cs n c event_read here nothing = ground (arith, here)
nothing_waits cs n c event_write here nothing = ground (arith, here)

put_apart :
    (w : ℕ → Event → Option Posted) (n : ℕ)
    → put w n event_read none n event_write ≡ w n event_write
put_apart w n = ground arith

take_both :
    (s : Promise) (n : ℕ)
    → (take (take s n event_read) n event_write).posted
      ≡ given (s.waiting n event_write) (given (s.waiting n event_read) s.posted)
take_both s n =
    let s₁ = take s n event_read in
    let kept : s₁.waiting n event_write ≡ s.waiting n event_write =
      take-waiting s n event_read n event_write ∙ put_apart s.waiting n in
    take-posted s₁ n event_write
    ∙ ap (λ o. given o s₁.posted) kept
    ∙ ap (given (s.waiting n event_write)) (take-posted s n event_read)

module _ (e : Epoll) where
  -- What one of the tests of cancelAll does where it triggers the event.
  abbrev triggers_one : IoManager e → FdContext → Event → Outcome (IoManager e × FdContext)
  triggers_one m c event = do
    (c', p) ← trigger_event c event
    ok (record m { posted = m.posted ++ p ∷ []; pending = sub64 m.pending 1 }, c')

  abbrev OneDone : IoManager e → IoManager e → FdContext → FdContext → Event → Type 0
  OneDone m a c c' event =
      (a.contexts ≡ m.contexts)
      × (a.posted ≡ given (waiting_in c event) m.posted)
      × ((other : Event)
          → same_event event other ≡ false
          → waiting_in c' other ≡ waiting_in c other)

  triggered_one :
      (m a : IoManager e) (c c' : FdContext) (event : Event)
      → triggers_one m c event ≡ ok (a, c')
      → OneDone m a c c' event
  triggered_one m a c c' event h =
      let ((d, p), fired, h₁) = >>=-eq-ok (trigger_event c event) _ h in
      let (blanked, waits) = trigger_inv c d event p fired in
      let same : d ≡ c' = cc (h₁) in
      (
        cc (h₁),
        rw waits (cc (h₁)),
        λ other apart. rw (blanked ∙ same) at (waiting_in-blanked c event other apart),
      )

  cancel_one_inv :
      (m a : IoManager e) (c c' : FdContext) (event : Event)
      → cancel_one e m c event ≡ ok (a, c')
      → OneDone m a c c' event
  unfolding cancel_one
  cancel_one_inv m a c c' event h = elim (Bool-cases (has c.events event)) [
    | inl on ↦ triggered_one m a c c' event (ground (arith, h))
    | inr off ↦ (ground (arith, h), ground (arith, h), λ other apart. ground (arith, h))
  ]

  drops_inv :
      (m m' : IoManager e) (n : ℕ) (c : FdContext) (b : Bool)
      → drops e m n c ≡ ok (m', b)
      → (m'.contexts ≡ set m.contexts n (record c { events = no_events })) × (m'.posted ≡ m.posted)
  drops_inv m m' n c b h = ground (arith, h)

  -- What cancelAll leaves: nothing waits at the descriptor, and its tasks are handed over.
  record Silences (m m' : IoManager e) (n : ℕ) : Type 0 where
    silent :
        (k : ℕ) (other : Event)
        → waiting_at m'.contexts k other ≡ (if n == k then none else waiting_at m.contexts k other)
    hands_over :
        m'.posted
        ≡ given
            (waiting_at m.contexts n event_write)
            (given (waiting_at m.contexts n event_read) m.posted)

  Silences-view :
      (m m' : IoManager e) (n : ℕ) → Silences m m' n → view e m' ≡ perform (wake_all n) (view e m)
  Silences-view m m' n w =
      let s = view e m in
      let s₁ = take s n event_read in
      Promise-ext (view e m') (take s₁ n event_write)
        (λ k other.
          w.silent k other
          ∙ sym (both_none s.waiting n k other (waiting_at-none m.contexts n))
          ∙ ground
              (arith, take-waiting s₁ n event_write k other, take-waiting s n event_read k other))
        (w.hands_over ∙ sym (take_both s n))

  unchanged :
      (m m' : IoManager e) (n : ℕ)
      → waiting_at m.contexts n event_read ≡ none
      → waiting_at m.contexts n event_write ≡ none
      → m'.contexts ≡ m.contexts
      → m'.posted ≡ m.posted
      → Silences m m' n
  unchanged m m' n reads writes table posted = record {
    silent = λ k other. rw table (all_none m.contexts n k other reads writes);
    hands_over = rw (reads, writes) posted;
  }

  silences_runs :
      (m m' : IoManager e) (n : ℕ) (c : FdContext) (b : Bool)
      → get_elem? m.contexts n ≡ some c
      → silences e m n c ≡ ok (m', b)
      → Silences m m' n
  silences_runs m m' n c b here h =
      let ((m₁, c₁), first, h₁) = >>=-eq-ok (cancel_one e m c event_read) _ h in
      let ((m₂, c₂), second, h₂) = >>=-eq-ok (cancel_one e m₁ c₁ event_write) _ h₁ in
      let (table₁, posted₁, kept₁) = cancel_one_inv m m₁ c c₁ event_read first in
      let (table₂, posted₂, kept₂) = cancel_one_inv m₁ m₂ c₁ c₂ event_write second in
      let (table, posted) = drops_inv m₂ m' n c₂ b h₂ in
      let same : m₂.contexts ≡ m.contexts = table₂ ∙ table₁ in
      record {
        silent = λ k other. rw (table ∙ ap (λ z. set z n (record c₂ { events = no_events })) same) (
            waiting_at-set m.contexts n c (record c₂ { events = no_events }) k other here
            ∙ ap (λ z. if n == k then z else waiting_at m.contexts k other)
                (waiting_in-silent c₂ other));
        hands_over =
            rw (here_at m.contexts n c event_read here, here_at m.contexts n c event_write here)
              (posted
                ∙ posted₂
                ∙ ap (λ o. given o m₁.posted) (kept₁ event_write refl)
                ∙ ap (given (waiting_in c event_write)) posted₁);
      }

  -- cancelAll that returns, on every branch.
  pub cancel_all-view :
      (m m' : IoManager e) (n : ℕ) (found : Bool)
      → cancel_all e m (pos n) ≡ ok (m', found)
      → view e m' ≡ perform (wake_all n) (view e m)
  unfolding cancel_all
  cancel_all-view m m' n found h = elim (Option-cases (get_elem? m.contexts n)) [
    | inl past ↦ Silences-view m m' n (
        unchanged m m' n (ground (arith, past)) (ground (arith, past)) (ground (arith, h, past))
          (ground (arith, h, past)))
    | inr (c, here) ↦ elim (Bool-cases (is_nothing c.events)) [
      | inl nothing ↦ Silences-view m m' n (
          unchanged m m' n (nothing_waits m.contexts n c event_read here nothing)
            (nothing_waits m.contexts n c event_write here nothing) (ground (arith, h, here))
            (ground (arith, h, here)))
      | inr some_event ↦
          let runs : silences e m n c ≡ ok (m', found) =
            ground (arith, h, get_elem?-lt m.contexts n here) in
          Silences-view m m' n (silences_runs m m' n c found here runs)
    ]
  ]
