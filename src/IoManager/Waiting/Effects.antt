-- ===== src/IoManager/Waiting/Effects.antt =====
-- What the operations of src/iomanager.cc do to the table, whenever they return.
use fiber_async.Prelude.{
  ℕ, ◌≡◌, refl, sym, ◌>>=◌, inl, inr, List, [], ◌∷◌, ◌++◌, Option, some, none, Bool, true, arith,
  if◌then◌else◌, ◌==◌, get_elem?, set, ok, Outcome, pos, Bool-cases, Option-cases, >>=-eq-ok,
}
use fiber_async.IoManager.{
  Event, event_none, event_read, event_write, has, without, blank, FdContext, Posted, IoManager,
  set_event_context, trigger_event, unregister, del_event, cancel_event,
}
use fiber_async.IoManager.Interest.{Epoll}
use fiber_async.IoManager.Contexts.{get_elem?-lt, get_elem?-set}
use fiber_async.IoManager.Invariant.{dropped}
use fiber_async.IoManager.Events.{same_event, same_event-eq}
use fiber_async.IoManager.Pending.{triggers}
use fiber_async.IoManager.Waiting.{put, waiting_in, waiting_at}

-- An event that is never waited for.
pub waiting_in-none : (c : FdContext) → waiting_in c event_none ≡ none
unfolding has
waiting_in-none c = refl

waiting_in-dropped :
    (c : FdContext) (event other : Event)
    → waiting_in (dropped c event) other
      ≡ (if same_event event other then none else waiting_in c other)
unfolding has without set_event_context
waiting_in-dropped c event_none event_none = refl
waiting_in-dropped c event_none event_read = refl
waiting_in-dropped c event_none event_write = refl
waiting_in-dropped c event_read event_none = refl
waiting_in-dropped c event_read event_read = refl
waiting_in-dropped c event_read event_write = refl
waiting_in-dropped c event_write event_none = refl
waiting_in-dropped c event_write event_read = refl
waiting_in-dropped c event_write event_write = refl

pub waiting_at-set :
    (cs : List FdContext) (n : ℕ) (c d : FdContext) (k : ℕ) (other : Event)
    → get_elem? cs n ≡ some c
    → waiting_at (set cs n d) k other
      ≡ (if n == k then waiting_in d other else waiting_at cs k other)
waiting_at-set cs n c d k other here =
    ground (arith, get_elem?-set cs n d k (get_elem?-lt cs n here))

pub waiting_at-dropped :
    (cs : List FdContext) (n : ℕ) (c : FdContext) (event : Event) (k : ℕ) (other : Event)
    → get_elem? cs n ≡ some c
    → waiting_at (set cs n (dropped c event)) k other ≡ put (waiting_at cs) n event none k other
waiting_at-dropped cs n c event k other here =
    ground (
      arith,
      waiting_at-set cs n c (dropped c event) k other here,
      waiting_in-dropped c event other,
    )

-- Forgetting an event that is not waited for changes nothing.
pub put-nothing :
    (w : ℕ → Event → Option Posted) (n : ℕ) (event : Event) (k : ℕ) (other : Event)
    → w n event ≡ none
    → put w n event none k other ≡ w k other
put-nothing w n event k other h = ground (arith, same_event-eq event other)

pub trigger_inv :
    (c c' : FdContext) (event : Event) (p : Posted)
    → trigger_event c event ≡ ok (c', p)
    → (set_event_context c event blank ≡ c') × (waiting_in c event ≡ some p)
unfolding trigger_event
trigger_inv c c' event_none p h = ground (arith, h)
trigger_inv c c' event_read p h = ground (arith, h)
trigger_inv c c' event_write p h = ground (arith, h)

events-blanked :
    (c : FdContext) (event : Event)
    → record (set_event_context c event blank) {
      events = without (set_event_context c event blank).events event;
    }
      ≡ dropped c event
unfolding set_event_context
events-blanked c event_none = refl
events-blanked c event_read = refl
events-blanked c event_write = refl

module _ (e : Epoll) where
  unregister_any :
      (m m' : IoManager e) (n : ℕ) (d : FdContext) (event : Event)
      → unregister e m n d event ≡ ok m'
      → (m'.contexts ≡ set m.contexts n (record d { events = without d.events event }))
        × (m'.posted ≡ m.posted)
  unfolding unregister
  unregister_any m m' n d event h = ground (arith, h)

  pub unregister_inv :
      (m m' : IoManager e) (n : ℕ) (c : FdContext) (event : Event)
      → unregister e m n (set_event_context c event blank) event ≡ ok m'
      → (m'.contexts ≡ set m.contexts n (dropped c event)) × (m'.posted ≡ m.posted)
  unregister_inv m m' n c event h =
      rw (events-blanked c event) at
        (unregister_any m m' n (set_event_context c event blank) event h)

  -- The event's task no longer waits, and everything else does as before.
  abbrev pub Forgets : IoManager e → IoManager e → ℕ → Event → Type 0
  Forgets m m' n event =
      (k : ℕ) (other : Event)
      → waiting_at m'.contexts k other ≡ put (waiting_at m.contexts) n event none k other

  same-Forgets :
      (m m' : IoManager e) (n : ℕ) (event : Event)
      → m'.contexts ≡ m.contexts
      → waiting_at m.contexts n event ≡ none
      → Forgets m m' n event
  same-Forgets m m' n event same nothing k other =
      rw same (sym (put-nothing (waiting_at m.contexts) n event k other nothing))

  -- What delEvent does from its epoll_ctl on.
  abbrev takes_out : IoManager e → ℕ → FdContext → Event → Outcome (IoManager e × Bool)
  takes_out m n c event = do
    m' ← unregister e m n (set_event_context c event blank) event
    ok (m', true)

  del_runs :
      (m m' : IoManager e) (n : ℕ) (c : FdContext) (event : Event) (found : Bool)
      → get_elem? m.contexts n ≡ some c
      → has c.events event ≡ true
      → del_event e m (pos n) event ≡ ok (m', found)
      → unregister e m n (set_event_context c event blank) event ≡ ok m'
  unfolding del_event
  del_runs m m' n c event found here on h =
      let goes : takes_out m n c event ≡ ok (m', found) =
        ground (arith, h, get_elem?-lt m.contexts n here) in
      let (a, done, same) =
        >>=-eq-ok (unregister e m n (set_event_context c event blank) event) _ goes in
      cc (done, same)

  -- delEvent that returns, on every branch.
  pub del_event-Forgets :
      (m m' : IoManager e) (n : ℕ) (event : Event) (found : Bool)
      → del_event e m (pos n) event ≡ ok (m', found)
      → Forgets m m' n event × (m'.posted ≡ m.posted)
  unfolding del_event
  del_event-Forgets m m' n event found h = elim (Option-cases (get_elem? m.contexts n)) [
    | inl past ↦
        (same-Forgets m m' n event (ground (arith, h)) (ground (arith, past)), ground (arith, h))
    | inr (c, here) ↦ elim (Bool-cases (has c.events event)) [
      | inl on ↦
          let (table, posted) =
            unregister_inv m m' n c event (del_runs m m' n c event found here on h) in
          (λ k other. rw table (waiting_at-dropped m.contexts n c event k other here), posted)
      | inr off ↦
          (same-Forgets m m' n event (ground (arith, h)) (ground (arith, here)), ground (arith, h))
    ]
  ]

  -- The event's task is handed over, if it waits; everything else is as before.
  pub record Wakes (m m' : IoManager e) (n : ℕ) (event : Event) : Type 0 where
    pub forgets : Forgets m m' n event
    pub hands_over :
        m'.posted
        ≡ elim (waiting_at m.contexts n event) [ none ↦ m.posted | some p ↦ m.posted ++ p ∷ [] ]

  cancel_runs :
      (m m' : IoManager e) (n : ℕ) (c : FdContext) (event : Event) (found : Bool)
      → get_elem? m.contexts n ≡ some c
      → has c.events event ≡ true
      → cancel_event e m (pos n) event ≡ ok (m', found)
      → (p : Posted) × (waiting_in c event ≡ some p)
        × (unregister e
              (record m { posted = m.posted ++ p ∷ [] })
              n
              (set_event_context c event blank)
              event
            ≡ ok m')
  unfolding cancel_event
  cancel_runs m m' n c event found here on h =
      let goes : triggers e m n c event ≡ ok (m', found) =
        ground (arith, h, get_elem?-lt m.contexts n here) in
      let ((c', p), fired, h₁) = >>=-eq-ok (trigger_event c event) _ goes in
      let (a, done, same) =
        >>=-eq-ok (unregister e (record m { posted = m.posted ++ p ∷ [] }) n c' event) _ h₁ in
      let (blanked, waits) = trigger_inv c c' event p fired in
      (p, waits, rw blanked (cc (done, same)))

  -- cancelEvent that returns, on every branch.
  pub cancel_event-Wakes :
      (m m' : IoManager e) (n : ℕ) (event : Event) (found : Bool)
      → cancel_event e m (pos n) event ≡ ok (m', found)
      → Wakes m m' n event
  unfolding cancel_event
  cancel_event-Wakes m m' n event found h = elim (Option-cases (get_elem? m.contexts n)) [
    | inl past ↦ record {
      forgets = same-Forgets m m' n event (ground (arith, h)) (ground (arith, past));
      hands_over = ground (arith, h);
    }
    | inr (c, here) ↦ elim (Bool-cases (has c.events event)) [
      | inl on ↦
          let (p, waits, runs) = cancel_runs m m' n c event found here on h in
          let (table, posted) =
            unregister_inv (record m { posted = m.posted ++ p ∷ [] }) m' n c event runs in
          record {
            forgets = λ k other. rw table (waiting_at-dropped m.contexts n c event k other here);
            hands_over = rw (here, waits) posted;
          }
      | inr off ↦ record {
        forgets = same-Forgets m m' n event (ground (arith, h)) (ground (arith, here));
        hands_over = ground (arith, h, here);
      }
    ]
  ]
