-- ===== src/IoManager/Waiting/Refines.antt =====
-- Any sequence of calls on a manager, as commands to what it promises.
use fiber_async.Prelude.{
  ℕ, ◌+◌, ◌≡◌, refl, ◌∙◌, ap, inl, inr, List, [], ◌∷◌, none, arith, get_elem?, Option-cases,
}
use fiber_async.IoManager.{Event, context_resize, IoManager, new_io_manager}
use fiber_async.IoManager.Interest.{Epoll}
use fiber_async.IoManager.Contexts.{get_elem?-context_resize}
use fiber_async.IoManager.Registration.{filled}
use fiber_async.IoManager.Reach.{
  Step, adds, deletes, cancels, cancels_all, handles, Reach, start, later, Reach-IsShort,
}
use fiber_async.IoManager.Firing.{IsShort}
use fiber_async.IoManager.Waiting.{
  Promise, Command, wait, forget, wake, wake_all, report, perform, replay, posted_of, waiting_at,
  view,
}
use fiber_async.IoManager.Waiting.Effects.{del_event-Forgets, cancel_event-Wakes}
use fiber_async.IoManager.Waiting.Views.{Promise-ext, Wakes-view, process_event-view}
use fiber_async.IoManager.Waiting.All.{cancel_all-view}
use fiber_async.IoManager.Waiting.Adding.{add_event-view, waiting_in-new}

-- Nothing waits, and nothing was handed over.
abbrev pub nothing_promised : Promise
nothing_promised = record { waiting = λ k event. none; posted = [] }

new_slots : (k : ℕ) (event : Event) → waiting_at (context_resize 0 32 []) k event ≡ none
new_slots k event = elim (Option-cases (get_elem? (context_resize 0 32 []) k)) [
  | inl nothing ↦ ground (arith, nothing)
  | inr (c, here) ↦ elim (get_elem?-context_resize 0 32 [] k here) [
    | inl old ↦ cc
    | inr (past, fresh) ↦ ground (arith, here, fresh, waiting_in-new (0 + k) event)
  ]
]

module _ (e : Epoll) where
  -- The command that a call is.
  abbrev pub command : {m m' : IoManager e} {fired : ℕ} → Step e m m' fired → Command
  command (adds n event cb who real scheduled ready accepts free h) =
      wait n event (posted_of (filled cb who))
  command (deletes n event found h) = forget n event
  command (cancels n event found h) = wake n event
  command (cancels_all n found h) = wake_all n
  command (handles n c r here in_read in_write h count) = report n r

  abbrev pub commands : {m : IoManager e} {owed : ℕ} → Reach e m owed → List Command
  commands (start k empty) = []
  commands (later r st) = command st ∷ commands r

  start-view : (k : e.Kernel) → view e (new_io_manager e k) ≡ nothing_promised
  unfolding new_io_manager
  start-view k = Promise-ext (view e (new_io_manager e k)) nothing_promised new_slots refl

  pub Step-view :
      {m m' : IoManager e} {fired : ℕ} (owed : ℕ) (st : Step e m m' fired)
      → IsShort e m owed
      → view e m' ≡ perform (command st) (view e m)
  Step-view {m} {m'} owed (adds n event cb who real scheduled ready accepts free h) v =
      add_event-view e m m' n event cb who v.large real h
  Step-view {m} {m'} owed (deletes n event found h) v =
      let (forgets, posted) = del_event-Forgets e m m' n event found h in
      Promise-ext (view e m') (perform (forget n event) (view e m)) forgets posted
  Step-view {m} {m'} owed (cancels n event found h) v =
      Wakes-view e m m' n event (cancel_event-Wakes e m m' n event found h)
  Step-view {m} {m'} owed (cancels_all n found h) v = cancel_all-view e m m' n found h
  Step-view {m} {m'} owed (handles n c r here in_read in_write h count) v =
      process_event-view e m m' n c r owed v here in_read in_write h

  -- What a manager keeps of its promise, after any sequence of calls on a new one and of events that
  -- epoll reports of those waited for, is what the same commands make of a promise to nobody: which
  -- task waits for which event of which descriptor, and which tasks were handed to which schedulers,
  -- in order.
  pub Reach-refines :
      {m : IoManager e} {owed : ℕ} (r : Reach e m owed)
      → view e m ≡ replay (commands r) nothing_promised
  Reach-refines (start k empty) = start-view k
  Reach-refines (later {owed = owed} r st) =
      Step-view owed st (Reach-IsShort e r) ∙ ap (perform (command st)) (Reach-refines r)
