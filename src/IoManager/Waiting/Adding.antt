-- ===== src/IoManager/Waiting/Adding.antt =====
-- The effect of addEvent, as a change to what the manager promises.
use fiber_async.Prelude.{
  ℕ, ◌*◌, ◌/◌, ◌≤◌, ◌≡◌, ◌≢◌, refl, sym, ◌∙◌, ap, inl, inr, List, Option, some, none, false, arith,
  if◌then◌else◌, ltb, length, get_elem?, set, ok, pos, Bool-cases, Option-cases,
}
use fiber_async.IoManager.{
  Event, event_none, event_read, event_write, has, with_event, EventContext, FdContext, new_context,
  Caller, Posted, IoManager, context_resize, set_event_context, fill_context, register, add_event,
}
use fiber_async.IoManager.Interest.{Epoll}
use fiber_async.IoManager.Contexts.{get_elem?-some, get_elem?-context_resize_old}
use fiber_async.IoManager.Events.{same_event}
use fiber_async.IoManager.Registration.{
  table, table_room, table_for_lem, grows, grow_slot, filled, added,
}
use fiber_async.IoManager.Waiting.{posted_of, perform, wait, waiting_in, waiting_at, view}
use fiber_async.IoManager.Waiting.Effects.{waiting_at-set}
use fiber_async.IoManager.Waiting.Views.{Promise-ext}

pub waiting_in-new : (k : ℕ) (event : Event) → waiting_in (new_context k) event ≡ none
unfolding has
waiting_in-new k event_none = refl
waiting_in-new k event_read = refl
waiting_in-new k event_write = refl

waiting_in-added :
    (c : FdContext) (event other : Event) (ec : EventContext)
    → event ≢ event_none
    → waiting_in (added c event ec) other
      ≡ (if same_event event other then posted_of ec else waiting_in c other)
unfolding has with_event set_event_context
waiting_in-added c event_none other ec h = absurd (h refl)
waiting_in-added c event_read event_none ec h = refl
waiting_in-added c event_read event_read ec h = refl
waiting_in-added c event_read event_write ec h = refl
waiting_in-added c event_write event_none ec h = refl
waiting_in-added c event_write event_read ec h = refl
waiting_in-added c event_write event_write ec h = refl

abbrev found_waiting : Event → Option FdContext → Option Posted
found_waiting event o = elim o [ none ↦ none | some c ↦ waiting_in c event ]

-- Growing the table makes nothing wait, and loses nothing that does.
waiting_at-table :
    (xs : List FdContext) (n k : ℕ) (event : Event)
    → 32 ≤ length xs
    → waiting_at (table xs n) k event ≡ waiting_at xs k event
waiting_at-table xs n k event large = elim (Bool-cases (ltb n (length xs))) [
  | inl fits ↦ rw fits refl
  | inr past ↦
      let size = n * 3 / 2 in
      let ys = context_resize 0 size xs in
      let slot : waiting_at ys k event ≡ waiting_at xs k event =
        elim (Option-cases (get_elem? xs k)) [
          | inr (c, here) ↦
              ap (found_waiting event)
                (get_elem?-context_resize_old 0 size xs k (grows xs n large past) here ∙ sym here)
          | inl none_old ↦ elim (Option-cases (get_elem? ys k)) [
            | inl nothing ↦ ap (found_waiting event) (nothing ∙ sym none_old)
            | inr (d, there) ↦ elim (grow_slot false xs size k there) [
              | inl old ↦ cc (old)
              | inr (new, fresh) ↦
                  ap (found_waiting event) (there ∙ ap some fresh)
                  ∙ waiting_in-new k event
                  ∙ sym (ap (found_waiting event) none_old)
            ]
          ]
        ] in
      rw past slot
]

fill_inv :
    (ec ec' : EventContext) (cb : Option ℕ) (who : Caller)
    → fill_context ec cb who ≡ ok ec'
    → filled cb who ≡ ec'
unfolding fill_context
fill_inv ec ec' (some f) who h = ground (arith, h)
fill_inv ec ec' none who h = ground (arith, h)

module _ (e : Epoll) where
  register_inv :
      (g m' : IoManager e) (n : ℕ) (c : FdContext) (event : Event) (cb : Option ℕ) (who : Caller)
      → event ≢ event_none
      → register e g n c event cb who ≡ ok m'
      → (m'.contexts ≡ set g.contexts n (added c event (filled cb who))) × (m'.posted ≡ g.posted)
  unfolding register
  register_inv g m' n c event_none cb who real h = absurd (real refl)
  register_inv g m' n c event_read cb who real h = grind (arith, fill_inv)
  register_inv g m' n c event_write cb who real h = grind (arith, fill_inv)

  abbrev grown : IoManager e → ℕ → IoManager e
  grown m n = record m { contexts = table m.contexts n }

  add_runs :
      (m : IoManager e) (n : ℕ) (c : FdContext) (event : Event) (cb : Option ℕ) (who : Caller)
      → 32 ≤ length m.contexts
      → get_elem? (table m.contexts n) n ≡ some c
      → add_event e m (pos n) event cb who ≡ register e (grown m n) n c event cb who
  unfolding add_event
  add_runs m n c event cb who large here = ground (arith, table_for_lem m.contexts n large)

  -- addEvent that returns.
  pub add_event-view :
      (m m' : IoManager e) (n : ℕ) (event : Event) (cb : Option ℕ) (who : Caller)
      → 32 ≤ length m.contexts
      → event ≢ event_none
      → add_event e m (pos n) event cb who ≡ ok m'
      → view e m' ≡ perform (wait n event (posted_of (filled cb who))) (view e m)
  add_event-view m m' n event cb who large real h =
      let xs = table m.contexts n in
      let (c, here) = get_elem?-some xs n (table_room m.contexts n large).0 in
      let (contexts, posted) =
        register_inv (grown m n) m' n c event cb who real
          (sym (add_runs m n c event cb who large here) ∙ h) in
      let c' = added c event (filled cb who) in
      Promise-ext (view e m') (perform (wait n event (posted_of (filled cb who))) (view e m))
        (λ k other. ground (
          arith,
          contexts,
          waiting_at-set xs n c c' k other here,
          waiting_in-added c event other (filled cb who) real,
          waiting_at-table m.contexts n k other large,
          here,
        ))
        posted
