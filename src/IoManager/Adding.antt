-- ===== src/IoManager/Adding.antt =====
-- addEvent, on every branch but that of a table it cannot index.
use fiber_async.Prelude.{
  ℕ, ◌≡◌, ◌≢◌, refl, sym, ap, ◌∙◌, inl, inr, Option, some, Bool, true, false, ◌||◌, ◌&&◌, arith,
  if◌then◌else◌, ◌==◌, set, get_elem?, ok, fail, Failure, is_some, add64, Bool-cases, Option-cases,
  pos,
}
use fiber_async.IoManager.{
  Event, event_none, event_read, event_write, has, with_event, is_nothing, EventContext, FdContext,
  Caller, register, IoManager, add_event, set_event_context,
}
use fiber_async.IoManager.Interest.{Mask, ctl_add, ctl_mod, EpollEvent, Epoll}
use fiber_async.IoManager.Contexts.{get_elem?-lt, get_elem?-set, get_elem?-some, total-set}
use fiber_async.IoManager.Invariant.{IsConsistent, mask_of, replace-IsConsistent, ctl_total}
use fiber_async.IoManager.Events.{waits_for, same_event, context_of}
use fiber_async.IoManager.Registration.{
  table, table_for_lem, table_room, grown, grown-IsConsistent, grown_waits, filled, filled_ready,
  added, added-IsTidy, has-added, weight-added, register_runs,
}

context_of-added :
    (c : FdContext) (event : Event) (ec : EventContext)
    → event ≢ event_none
    → context_of (added c event ec) event ≡ ec
unfolding set_event_context
context_of-added c event_none ec h = absurd (h refl)
context_of-added c event_read ec h = refl
context_of-added c event_write ec h = refl

mask_if :
    (b : Bool) (ev : EpollEvent) (old : Option EpollEvent) (x : Option Mask)
    → x ≡ some ev.mask
    → mask_of (if b then some ev else old) ≡ (if b then x else mask_of old)
mask_if true ev old x h = sym h
mask_if false ev old x h = refl

module _ (e : Epoll) where
  -- epoll takes a new entry for the descriptor: there is memory, and it can be polled.
  abbrev pub Accepts : IoManager e → ℕ → Type 0
  Accepts m n =
      (ev : EpollEvent)
      → is_some (e.interest m.kernel n) ≡ false
      → is_some (e.ctl m.kernel ctl_add n ev) ≡ true

  pub ctl_either :
      (m : IoManager e) (n : ℕ) (c : FdContext) (ev : EpollEvent)
      → IsConsistent e m
      → get_elem? m.contexts n ≡ some c
      → Accepts m n
      → (k : e.Kernel) × (e.ctl m.kernel (if is_nothing c.events then ctl_add else ctl_mod) n ev
          ≡ some k)
        × ((i : ℕ) → e.interest k i ≡ (if n == i then some ev else e.interest m.kernel i))
  unfolding is_nothing
  ctl_either m n c ev v here accepts = elim (Bool-cases (is_nothing c.events)) [
    | inl fresh ↦ elim (Option-cases (e.ctl m.kernel ctl_add n ev)) [
      | inl refused ↦ absurd (ground (arith, accepts ev, v.entry n))
      | inr (k, done) ↦ (k, rw fresh done, e.ctl_effect m.kernel ctl_add n ev k done)
    ]
    | inr old ↦
        let (k, done, effect) = ctl_total e m n c ctl_mod ev v here old refl in
        (k, rw old done, effect)
  ]

  module _ (m : IoManager e) (n : ℕ) (event : Event) (cb : Option ℕ) (who : Caller)
      (v : IsConsistent e m) where
    slot_there : (c : FdContext) × (get_elem? (table m.contexts n) n ≡ some c)
    slot_there = get_elem?-some (table m.contexts n) n (table_room m.contexts n v.large).0

    add_runs :
        (c : FdContext)
        → get_elem? (table m.contexts n) n ≡ some c
        → add_event e m (pos n) event cb who ≡ register e (grown e m n v) n c event cb who
    unfolding add_event
    add_runs c here = ground (arith, table_for_lem m.contexts n v.large)

    -- In a consistent manager, an event that is waited for already on a descriptor that is not negative is refused by an exception.
    pub add_event_twice :
        waits_for m.contexts n event ≡ true
        → add_event e m (pos n) event cb who ≡ fail Failure.thrown
    unfolding register
    add_event_twice h =
        let (c, here) = slot_there in add_runs c here ∙ ground (arith, grown_waits e m n v n event)

    -- In a consistent manager, called on a thread with a scheduler, with a callback or in a running fiber, for a descriptor
    -- that epoll accepts, `addEvent` of an event that is not waited for returns. Then this event is
    -- waited for, all others are as before, its callback or the calling fiber is stored with the
    -- scheduler, nothing is posted, and table, count and epoll still agree.
    pub add_event_lem :
        event ≢ event_none
        → is_some who.scheduler ≡ true
        → (is_some cb || who.running) ≡ true
        → Accepts m n
        → waits_for m.contexts n event ≡ false
        → (m' : IoManager e) × (c' : FdContext) × (add_event e m (pos n) event cb who ≡ ok m')
          × IsConsistent e m'
          × ((k : ℕ) (other : Event)
              → waits_for m'.contexts k other
                ≡ (if n == k && same_event event other then true else waits_for m.contexts k other))
          × (get_elem? m'.contexts n ≡ some c')
          × (context_of c' event ≡ filled cb who)
          × (m'.posted ≡ m.posted)
    add_event_lem real scheduled ready accepts free =
        let g = grown e m n v in
        let w = grown-IsConsistent e m n v in
        let (c, here) = slot_there in
        let inside = get_elem?-lt g.contexts n here in
        let not_yet : has c.events event ≡ false = ground (arith, grown_waits e m n v n event) in
        let ev : EpollEvent = record { mask = with_event c.events event; edge = true } in
        let (k, done, effect) = ctl_either g n c ev w here accepts in
        let c' = added c event (filled cb who) in
        let m' : IoManager e = record g {
          contexts = set g.contexts n c';
          kernel = k;
          pending = add64 g.pending 1;
        } in
        let tidy = w.tidy n c here in
        let (heavier, entry) = weight-added c event (filled cb who) real not_yet in
        (
          m',
          c',
          add_runs c here ∙ register_runs e g n c event cb who k tidy real not_yet ready done,
          replace-IsConsistent e g m' n c c' w here
              (added-IsTidy n c event (filled cb who) tidy (filled_ready cb who scheduled)) refl
              (λ i. ap mask_of (effect i) ∙ mask_if (n == i) ev (e.interest g.kernel i) _ entry)
              (omega (arith, w.count, heavier, total-set g.contexts n c c' here)),
          λ k' other. ground (
            arith,
            grown_waits e m n v k' other,
            get_elem?-set g.contexts n c' k' inside,
            has-added c event other (filled cb who) real,
          ),
          ground (arith, get_elem?-set g.contexts n c' n inside),
          context_of-added c event (filled cb who) real,
          refl,
        )
