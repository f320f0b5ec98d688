-- ===== src/IoManager/Invariant.antt =====
-- When the table of contexts, the count of pending events and epoll's interest list agree.
use fiber_async.Prelude.{
  ℕ, ◌+◌, ◌%◌, ◌≤◌, ◌≡◌, refl, ap, ◌∙◌, List, Option, some, none, Bool, true, false, not, ◌||◌,
  arith, if◌then◌else◌, ◌==◌, length, set, get_elem?, ok, is_some, u64_mod, sub64, length-set,
}
use fiber_async.IoManager.{
  Event, event_none, event_read, event_write, has, without, is_nothing, EventContext, blank,
  FdContext, set_event_context, Posted, IoManager, unregister,
}
use fiber_async.IoManager.Interest.{
  Mask, CtlOp, ctl_mod, ctl_del, EpollEvent, registered, needs_entry, Epoll,
}
use fiber_async.IoManager.Contexts.{get_elem?-lt, get_elem?-set, weight, total, total-set}

-- A context knows its index; where it waits for an event there is a scheduler to post to, and
-- where it does not its event context is blank.
pub record IsTidy (k : ℕ) (c : FdContext) : Type 0 where
  pub index : c.fd ≡ k
  pub read_blank : c.events.read ≡ false → c.on_read ≡ blank
  pub write_blank : c.events.write ≡ false → c.on_write ≡ blank
  pub read_ready : c.events.read ≡ true → is_some c.on_read.scheduler ≡ true
  pub write_ready : c.events.write ≡ true → is_some c.on_write.scheduler ≡ true

abbrev pub mask_of : Option EpollEvent → Option Mask
mask_of none = none
mask_of (some ev) = some ev.mask

-- What epoll should have for a descriptor.
abbrev pub entry_of : Option FdContext → Option Mask
entry_of none = none
entry_of (some c) = if not (c.events.read || c.events.write) then none else some c.events

module _ (e : Epoll) where
  pub record IsConsistent (m : IoManager e) : Type 0 where
    pub tidy : (k : ℕ) (c : FdContext) → get_elem? m.contexts k ≡ some c → IsTidy k c
    pub entry : (k : ℕ) → mask_of (e.interest m.kernel k) ≡ entry_of (get_elem? m.contexts k)
    pub count : m.pending ≡ total m.contexts % u64_mod
    pub large : 32 ≤ length m.contexts

  -- A new context in place of an old one.
  pub replace-IsConsistent :
      (m m' : IoManager e) (n : ℕ) (c c' : FdContext)
      → IsConsistent m
      → get_elem? m.contexts n ≡ some c
      → IsTidy n c'
      → m'.contexts ≡ set m.contexts n c'
      → ((i : ℕ)
          → mask_of (e.interest m'.kernel i)
            ≡ (if n == i then entry_of (some c') else mask_of (e.interest m.kernel i)))
      → m'.pending ≡ total (set m.contexts n c') % u64_mod
      → IsConsistent m'
  replace-IsConsistent m m' n c c' v here tidy table kernel count =
      let inside = get_elem?-lt m.contexts n here in
      record {
        tidy = λ k d h.
            ground (arith, table, get_elem?-set m.contexts n c' k inside, v.tidy k d, tidy, h);
        entry =
            λ k. ground (arith, table, kernel k, get_elem?-set m.contexts n c' k inside, v.entry k);
        count = rw table count;
        large = ground (arith, table, length-set m.contexts n c', v.large);
      }

  some_of : {A : Type 0} (o : Option A) → is_some o ≡ true → (a : A) × (o ≡ some a)
  some_of none h = cc
  some_of (some a) h = (a, refl)

  -- A change or removal of the entry of a descriptor that some event is waited for on.
  pub ctl_total :
      (m : IoManager e) (n : ℕ) (c : FdContext) (op : CtlOp) (ev : EpollEvent)
      → IsConsistent m
      → get_elem? m.contexts n ≡ some c
      → is_nothing c.events ≡ false
      → needs_entry op ≡ true
      → (k : e.Kernel) × (e.ctl m.kernel op n ev ≡ some k)
        × ((i : ℕ) → e.interest k i ≡ (if n == i then registered op ev else e.interest m.kernel i))
  unfolding is_nothing
  ctl_total m n c op ev v here waits entry =
      let there : is_some (e.interest m.kernel n) ≡ true = ground (arith, v.entry n) in
      let (k, done) = some_of _ (e.ctl_succeeds m.kernel op n ev there entry) in
      (k, done, e.ctl_effect m.kernel op n ev k done)

  pub posted-IsConsistent :
      (m : IoManager e) (ps : List Posted)
      → IsConsistent m
      → IsConsistent (record m { posted = ps })
  posted-IsConsistent m ps v = record {
    tidy = v.tidy;
    entry = v.entry;
    count = v.count;
    large = v.large;
  }

-- A context that no longer waits for an event.
abbrev pub dropped : FdContext → Event → FdContext
dropped c event = record (set_event_context c event blank) { events = without c.events event }

pub dropped-IsTidy :
    (n : ℕ) (c : FdContext) (event : Event) → IsTidy n c → IsTidy n (dropped c event)
unfolding set_event_context without
dropped-IsTidy n c event_none t = t
dropped-IsTidy n c event_read t = record {
  index = t.index;
  read_blank = λ h. refl;
  write_blank = t.write_blank;
  read_ready = λ h. cc;
  write_ready = t.write_ready;
}
dropped-IsTidy n c event_write t = record {
  index = t.index;
  read_blank = t.read_blank;
  write_blank = λ h. refl;
  read_ready = t.read_ready;
  write_ready = λ h. cc;
}

pub weight-without :
    (m : Mask) (event : Event) → has m event ≡ true → weight (without m event) + 1 ≡ weight m
unfolding has without
weight-without m event_none h = cc
weight-without m event_read h = ground arith
weight-without m event_write h = ground arith

events-set_event_context :
    (c : FdContext) (event : Event) (ec : EventContext)
    → (set_event_context c event ec).events ≡ c.events
unfolding set_event_context
events-set_event_context c event_none ec = refl
events-set_event_context c event_read ec = refl
events-set_event_context c event_write ec = refl

pub has-is_nothing : (m : Mask) (event : Event) → has m event ≡ true → is_nothing m ≡ false
unfolding has is_nothing
has-is_nothing m event_none h = cc
has-is_nothing m event_read h = ground arith
has-is_nothing m event_write h = ground arith

-- The entry that unregistering an event leaves.
pub entry-registered :
    (rest : Mask) (here : Bool) (old : Option EpollEvent)
    → mask_of (
        if here
        then registered
            (if is_nothing rest then ctl_del else ctl_mod)
            (record { mask = rest; edge = false })
        else old)
      ≡ (if here then (if not (rest.read || rest.write) then none else some rest) else mask_of old)
unfolding is_nothing
entry-registered rest here old = ground arith

module _ (e : Epoll) where
  pub unregister_runs :
      (m : IoManager e) (n : ℕ) (c : FdContext) (event : Event) (k : e.Kernel)
      → e.ctl m.kernel
          (if is_nothing (without c.events event) then ctl_del else ctl_mod)
          n
          (record { mask = without c.events event; edge = false })
        ≡ some k
      → unregister e m n (set_event_context c event blank) event
        ≡ ok (record m {
          contexts = set m.contexts n (dropped c event);
          kernel = k;
          pending = sub64 m.pending 1;
        })
  unfolding unregister set_event_context
  unregister_runs m n c event_none k h = rw h
  unregister_runs m n c event_read k h = rw h
  unregister_runs m n c event_write k h = rw h

  -- Taking out an event that is waited for succeeds, and keeps everything in agreement.
  pub unregister_lem :
      (m : IoManager e) (n : ℕ) (c : FdContext) (event : Event)
      → IsConsistent e m
      → get_elem? m.contexts n ≡ some c
      → has c.events event ≡ true
      → (m' : IoManager e) × (unregister e m n (set_event_context c event blank) event ≡ ok m')
        × IsConsistent e m'
        × (m'.contexts ≡ set m.contexts n (dropped c event))
        × (m'.posted ≡ m.posted)
        × (m'.pending ≡ sub64 m.pending 1)
  unfolding unregister
  unregister_lem m n c event v here waits =
      let rest = without c.events event in
      let op : CtlOp = if is_nothing rest then ctl_del else ctl_mod in
      let ev : EpollEvent = record { mask = rest; edge = false } in
      let needed : needs_entry op ≡ true = ground arith in
      let (k, done, effect) =
        ctl_total e m n c op ev v here (has-is_nothing c.events event waits) needed in
      let m' : IoManager e = record m {
        contexts = set m.contexts n (dropped c event);
        kernel = k;
        pending = sub64 m.pending 1;
      } in
      (
        m',
        unregister_runs m n c event k done,
        replace-IsConsistent e m m' n c (dropped c event) v here
            (dropped-IsTidy n c event (v.tidy n c here)) refl
            (λ i. ap mask_of (effect i) ∙ entry-registered rest (n == i) (e.interest m.kernel i))
            (omega (
              arith,
              v.count,
              weight-without c.events event waits,
              total-set m.contexts n c (dropped c event) here,
            )),
        refl,
        refl,
        refl,
      )
