-- ===== src/IoManager/Waiting/Reports.antt =====
-- What handling a report of epoll, and cancelAll, do to the table, whenever they return.
use fiber_async.Prelude.{
  ℕ, ◌≡◌, refl, sym, ◌∙◌, ap, List, [], ◌∷◌, ◌++◌, some, false, arith, get_elem?, set, ok, fail,
  Outcome, pos, sub64, ◌>>=◌, >>=-eq-ok,
}
use fiber_async.IoManager.{
  Event, event_none, event_read, event_write, has, blank, FdContext, Posted, IoManager,
  set_event_context, trigger_event, del_event, fire_event,
}
use fiber_async.IoManager.Interest.{Epoll}
use fiber_async.IoManager.Contexts.{get_elem?-lt}
use fiber_async.IoManager.Events.{same_event}
use fiber_async.IoManager.Waiting.{waiting_in}
use fiber_async.IoManager.Waiting.Effects.{
  waiting_at-set, trigger_inv, Forgets, del_event-Forgets, Wakes,
}

pub waiting_in-blanked :
    (c : FdContext) (event other : Event)
    → same_event event other ≡ false
    → waiting_in (set_event_context c event blank) other ≡ waiting_in c other
unfolding has set_event_context
waiting_in-blanked c event_none other h = refl
waiting_in-blanked c event_read event_none h = refl
waiting_in-blanked c event_read event_read h = cc
waiting_in-blanked c event_read event_write h = refl
waiting_in-blanked c event_write event_none h = refl
waiting_in-blanked c event_write event_read h = refl
waiting_in-blanked c event_write event_write h = cc

pub fd-blanked : (c : FdContext) (event : Event) → (set_event_context c event blank).fd ≡ c.fd
unfolding set_event_context
fd-blanked c event_none = refl
fd-blanked c event_read = refl
fd-blanked c event_write = refl

module _ (e : Epoll) where
  -- What `idle` does for one event from its call of triggerEvent on.
  abbrev fires : IoManager e → ℕ → FdContext → Event → Outcome (IoManager e)
  fires m n c event = do
    (c', p) ← trigger_event c event
    (m₂, found) ←
        del_event e (record m { contexts = set m.contexts n c'; posted = m.posted ++ p ∷ [] })
          (pos c'.fd) event
    ok (record m₂ { pending = sub64 m₂.pending 1 })

  fire_runs :
      (m m' : IoManager e) (n : ℕ) (c : FdContext) (event : Event)
      → get_elem? m.contexts n ≡ some c
      → fire_event e m n event ≡ ok m'
      → fires m n c event ≡ ok m'
  unfolding fire_event
  fire_runs m m' n c event here h = ground (arith, h, get_elem?-lt m.contexts n here)

  contexts_of : IoManager e → Outcome (IoManager e) → List FdContext
  contexts_of d (ok m) = m.contexts
  contexts_of d (fail r) = d.contexts

  posted_by : IoManager e → Outcome (IoManager e) → List Posted
  posted_by d (ok m) = m.posted
  posted_by d (fail r) = d.posted

  -- A context whose event context is blanked, and then dropped by delEvent.
  blanked-Wakes :
      (m m₁ m' : IoManager e) (n : ℕ) (c : FdContext) (event : Event) (p : Posted)
      → get_elem? m.contexts n ≡ some c
      → waiting_in c event ≡ some p
      → m₁.contexts ≡ set m.contexts n (set_event_context c event blank)
      → Forgets e m₁ m' n event
      → m'.posted ≡ m.posted ++ p ∷ []
      → Wakes e m m' n event
  blanked-Wakes m m₁ m' n c event p here waits table forgets posted = record {
    forgets = λ k other. ground (
      arith,
      forgets k other,
      table,
      waiting_at-set m.contexts n c (set_event_context c event blank) k other here,
      waiting_in-blanked c event other,
      here,
    );
    hands_over = rw (here, waits) posted;
  }

  -- One event that happens: its task is handed over.
  pub fire_event-Wakes :
      (m m' : IoManager e) (n : ℕ) (c : FdContext) (event : Event)
      → get_elem? m.contexts n ≡ some c
      → c.fd ≡ n
      → fire_event e m n event ≡ ok m'
      → Wakes e m m' n event
  unfolding contexts_of posted_by
  fire_event-Wakes m m' n c event here index h =
      let ((c', p), fired, h₁) =
        >>=-eq-ok (trigger_event c event) _ (fire_runs m m' n c event here h) in
      let (blanked, waits) = trigger_inv c c' event p fired in
      let m₁ : IoManager e = record m {
        contexts = set m.contexts n c';
        posted = m.posted ++ p ∷ [];
      } in
      let ((m₂, found), deletes, h₂) = >>=-eq-ok (del_event e m₁ (pos c'.fd) event) _ h₁ in
      let same : c'.fd ≡ n = ap (λ z. z.fd) (sym blanked) ∙ fd-blanked c event ∙ index in
      let (forgets, kept) = del_event-Forgets e m₁ m₂ n event found (rw same at deletes) in
      let contexts : m₂.contexts ≡ m'.contexts = ap (contexts_of m') h₂ in
      let posted : m₂.posted ≡ m'.posted = ap (posted_by m') h₂ in
      blanked-Wakes m m₁ m' n c event p here waits (ap (set m.contexts n) (sym blanked))
        (λ k other. rw contexts at (forgets k other)) (sym posted ∙ kept)
