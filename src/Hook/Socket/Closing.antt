-- ===== src/Hook/Socket/Closing.antt =====
-- What close leaves, and the calls on a descriptor after it.
use fiber_async.Prelude.{
  ℕ, ◌≡◌, refl, ◌∙◌, List, [], ◌∷◌, ◌++◌, map, none, some, Bool, true, false, arith, if◌then◌else◌,
  ◌==◌, ok, pos, get_elem?,
}
use fiber_async.FdManager.Slots.{slot, get_there, del_lem}
use fiber_async.IoManager.{Event, event_read, event_write, has, Posted, Task, Caller}
use fiber_async.IoManager.Interest.{Epoll}
use fiber_async.IoManager.Events.{waits_for, task_of, context_of}
use fiber_async.IoManager.Firing.{IsShort, tasks}
use fiber_async.IoManager.Short.{cancel_all_runs}
use fiber_async.Hook.{no_status}
use fiber_async.Hook.Io.{Arm, World, Round, returned}
use fiber_async.Hook.Io.Passing.{do_io-unhooked}
use fiber_async.Hook.Socket.{Call, transfer, close}

module _ (e : Epoll) where
  -- The tasks of those that wait for an event on a descriptor.
  abbrev pub tasks_on : World e → ℕ → Event → List Task
  tasks_on w n event = elim (get_elem? w.io.contexts n) [
    | none ↦ []
    | some c ↦ if has c.events event then task_of (context_of c event) ∷ [] else []
  ]

  module _ (w : World e) (owed n p : ℕ) (v : IsShort e w.io owed)
      (here : slot w.fds n ≡ some p) where
    -- With hooks and an IOManager that is consistent but for its count, closing a descriptor with a
    -- context always returns. Nothing waits for it any longer, and those that did are posted once
    -- each, reading first; its context is gone; all waits and contexts of other descriptors and the
    -- timers are as before.
    pub close_lem :
        (w' : World e) × (ps : List Posted) × (close e true w (pos n) true ≡ ok w')
        × IsShort e w'.io owed
        × ((k : ℕ) (other : Event)
            → waits_for w'.io.contexts k other
              ≡ (if n == k then false else waits_for w.io.contexts k other))
        × (w'.io.posted ≡ w.io.posted ++ ps)
        × (map tasks ps ≡ tasks_on w n event_read ++ tasks_on w n event_write)
        × ((k : ℕ) → slot w'.fds k ≡ (if n == k then none else slot w.fds k))
        × (w'.fds.ctxs ≡ w.fds.ctxs)
        × (w'.timers ≡ w.timers)
    unfolding close
    close_lem =
        let (io, runs, short, silent, (ps, posted, named)) =
          cancel_all_runs e w.io owed n event_read v in
        let (fds, deletes, same, size, slots) = del_lem w.fds n in
        (
          record w { fds = fds; io = io },
          ps,
          rw (get_there w.fds n p false no_status 0 here, runs, deletes) refl,
          short,
          silent,
          posted,
          named,
          slots,
          same,
          refl,
        )

    -- After that, a call that moves data on the descriptor goes to the system once, with whatever it
    -- answers, until the descriptor is opened again.
    pub transfer-close :
        (arm : Arm) (call : Call) (who : Caller) (manager : Bool) (r : Round e)
        (rs : List (Round e))
        → (w' : World e) × (close e true w (pos n) true ≡ ok w')
          × (transfer e arm true w' call (pos n) who manager (r ∷ rs) ≡ ok (returned w' r.answer 1))
    unfolding transfer
    transfer-close arm call who manager r rs =
        let (w', ps, runs, short, silent, posted, named, slots, same, timers) = close_lem in
        let gone : slot w'.fds n ≡ none = ground (arith, slots n) in
        (w', runs, do_io-unhooked e arm true w' _ n r rs refl (rw gone refl) ∙ rw gone refl)
