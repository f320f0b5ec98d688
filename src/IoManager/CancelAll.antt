-- ===== src/IoManager/CancelAll.antt =====
-- cancelAll, on every branch.
use fiber_async.Prelude.{
  Option, ℕ, ◌≡◌, refl, sym, ap, ◌∙◌, inl, inr, List, [], ◌∷◌, ◌++◌, map, some, none, Bool, true,
  false, ◌||◌, arith, if◌then◌else◌, ◌==◌, set, get_elem?, ok, Bool-cases, Option-cases, pos, sub64,
  is_some, u64_mod, ◌%◌,
}
use mathlib.Core.List.{append-nil, append_assoc, map-append}
use fiber_async.IoManager.{
  Event, event_none, event_read, event_write, has, is_nothing, blank, FdContext, set_event_context,
  Posted, Task, trigger_event, IoManager, cancel_one, cancel_all,
}
use fiber_async.IoManager.Interest.{no_events, ctl_del, Epoll, EpollEvent, registered}
use fiber_async.IoManager.Contexts.{get_elem?-lt, get_elem?-set, get_elem?-some, total, total-set}
use fiber_async.IoManager.Invariant.{mask_of, IsTidy, IsConsistent, replace-IsConsistent, ctl_total}
use fiber_async.IoManager.Events.{waits_for, task_of, context_of}
use fiber_async.IoManager.Firing.{tasks}

-- Triggering an event needs no more of the context than a scheduler to post to.
trigger_ready :
    (c : FdContext) (event : Event)
    → has c.events event ≡ true
    → is_some (context_of c event).scheduler ≡ true
    → (p : Posted) × (trigger_event c event ≡ ok (set_event_context c event blank, p))
      × (p.task ≡ task_of (context_of c event))
unfolding trigger_event
trigger_ready c event_none h r = cc
trigger_ready c event_read h r = elim (Option-cases c.on_read.scheduler) [
  | inl e ↦ absurd (ground arith)
  | inr (s, e) ↦ (record { scheduler = s; task = task_of c.on_read }, ground arith, refl)
]
trigger_ready c event_write h r = elim (Option-cases c.on_write.scheduler) [
  | inl e ↦ absurd (ground arith)
  | inr (s, e) ↦ (record { scheduler = s; task = task_of c.on_write }, ground arith, refl)
]

abbrev cleared : FdContext → Event → FdContext
cleared c event = if has c.events event then set_event_context c event blank else c

no_entry :
    (here : Bool) (old : Option EpollEvent)
    → mask_of (if here then registered ctl_del (record { mask = no_events; edge = false }) else old)
      ≡ (if here then none else mask_of old)
no_entry true old = refl
no_entry false old = refl

module _ (e : Epoll) where
  -- One of the two tests of cancelAll.
  cancel_one_lem :
      (m : IoManager e) (c : FdContext) (event : Event)
      → (has c.events event ≡ true → is_some (context_of c event).scheduler ≡ true)
      → (m' : IoManager e) × (ps : List Posted) × (cancel_one e m c event
          ≡ ok (m', cleared c event))
        × (m'.contexts ≡ m.contexts)
        × (m'.kernel ≡ m.kernel)
        × (m'.pending ≡ (if has c.events event then sub64 m.pending 1 else m.pending))
        × (m'.posted ≡ m.posted ++ ps)
        × (map tasks ps ≡ (if has c.events event then task_of (context_of c event) ∷ [] else []))
  unfolding cancel_one
  cancel_one_lem m c event ready = elim (Bool-cases (has c.events event)) [
    | inl on ↦
        let (p, runs, task) = trigger_ready c event on (ready on) in
        (
          record m { posted = m.posted ++ p ∷ []; pending = sub64 m.pending 1 },
          p ∷ [],
          rw (on, runs, cancel_one),
          refl,
          refl,
          rw on,
          refl,
          rw on (ap (λ t. t ∷ []) task),
        )
    | inr off ↦ (m, [], rw (off, cancel_one), refl, refl, rw off, sym (append-nil m.posted), rw off)
  ]

  abbrev silent : FdContext → FdContext
  silent c = record (cleared (cleared c event_read) event_write) { events = no_events }

  silent-IsTidy : (n : ℕ) (c : FdContext) → IsTidy n c → IsTidy n (silent c)
  unfolding has set_event_context
  silent-IsTidy n c t = record {
    index = ground (arith, t.index);
    read_blank = λ h. ground (arith, t.read_blank);
    write_blank = λ h. ground (arith, t.write_blank);
    read_ready = λ h. cc;
    write_ready = λ h. cc;
  }

  module _ (m : IoManager e) (n : ℕ) (v : IsConsistent e m) where
    abbrev pub Silences : IoManager e → Type 0
    Silences m' =
        (k : ℕ) (other : Event)
        → waits_for m'.contexts k other ≡ (if n == k then false else waits_for m.contexts k other)

    abbrev pub posted_by : Event → List Task
    posted_by event = elim (get_elem? m.contexts n) [
      | none ↦ []
      | some c ↦ if has c.events event then task_of (context_of c event) ∷ [] else []
    ]

    abbrev anything : Bool
    anything = waits_for m.contexts n event_read || waits_for m.contexts n event_write

    some_waits :
        anything ≡ true
        → (c : FdContext) × (get_elem? m.contexts n ≡ some c) × (is_nothing c.events ≡ false)
    unfolding is_nothing has
    some_waits h = elim (Option-cases (get_elem? m.contexts n)) [
      | inl past ↦ absurd (ground arith)
      | inr (c, here) ↦ (c, here, ground arith)
    ]

    cancel_all_nothing : anything ≡ false → cancel_all e m (pos n) ≡ ok (m, false)
    unfolding cancel_all is_nothing has
    cancel_all_nothing h = ground (arith, get_elem?-some m.contexts n)

    Silences-nothing : anything ≡ false → Silences m
    unfolding has
    Silences-nothing h k event_none = ground arith
    Silences-nothing h k event_read = ground arith
    Silences-nothing h k event_write = ground arith

    posted_by-nothing : anything ≡ false → posted_by event_read ++ posted_by event_write ≡ []
    posted_by-nothing h = ground arith

    cancel_all_runs :
        (c : FdContext) (a b : IoManager e) (k : e.Kernel)
        → get_elem? m.contexts n ≡ some c
        → is_nothing c.events ≡ false
        → cancel_one e m c event_read ≡ ok (a, cleared c event_read)
        → cancel_one e a (cleared c event_read) event_write
          ≡ ok (b, cleared (cleared c event_read) event_write)
        → e.ctl b.kernel ctl_del n (record { mask = no_events; edge = false }) ≡ some k
        → cancel_all e m (pos n)
          ≡ ok (record b { contexts = set b.contexts n (silent c); kernel = k }, true)
    unfolding cancel_all
    cancel_all_runs c a b k here some_event first second done =
        ground (arith, get_elem?-lt m.contexts n here)

    second_ready :
        (c : FdContext)
        → IsTidy n c
        → has (cleared c event_read).events event_write ≡ true
        → is_some (context_of (cleared c event_read) event_write).scheduler ≡ true
    unfolding has set_event_context
    second_ready c t h = ground (arith, t.write_ready)

    first_ready :
        (c : FdContext)
        → IsTidy n c
        → has c.events event_read ≡ true
        → is_some (context_of c event_read).scheduler ≡ true
    unfolding has
    first_ready c t h = t.read_ready h

    kept_by_first :
        (c : FdContext)
        → (has (cleared c event_read).events event_write ≡ has c.events event_write)
          × (context_of (cleared c event_read) event_write ≡ context_of c event_write)
    unfolding has set_event_context
    kept_by_first c = (ground arith, ground arith)

    kept_task :
        (c : FdContext)
        → (if has (cleared c event_read).events event_write
            then task_of (context_of (cleared c event_read) event_write) ∷ []
            else [])
          ≡ (if has c.events event_write then task_of (context_of c event_write) ∷ [] else [])
    unfolding has set_event_context
    kept_task c = ground arith

    posted_by_here :
        (c : FdContext) (event : Event)
        → get_elem? m.contexts n ≡ some c
        → posted_by event ≡ (if has c.events event then task_of (context_of c event) ∷ [] else [])
    posted_by_here c event here = rw (here, posted_by)

    Silences-set :
        (c : FdContext)
        → get_elem? m.contexts n ≡ some c
        → (k : ℕ) (other : Event)
        → waits_for (set m.contexts n (silent c)) k other
          ≡ (if n == k then false else waits_for m.contexts k other)
    unfolding has
    Silences-set c here k event_none =
        ground (arith, get_elem?-set m.contexts n (silent c) k (get_elem?-lt m.contexts n here))
    Silences-set c here k event_read =
        ground (arith, get_elem?-set m.contexts n (silent c) k (get_elem?-lt m.contexts n here))
    Silences-set c here k event_write =
        ground (arith, get_elem?-set m.contexts n (silent c) k (get_elem?-lt m.contexts n here))

    count_down :
        (c : FdContext) (x y : ℕ)
        → get_elem? m.contexts n ≡ some c
        → x ≡ (if has c.events event_read then sub64 m.pending 1 else m.pending)
        → y ≡ (if has c.events event_write then sub64 x 1 else x)
        → y ≡ total (set m.contexts n (silent c)) % u64_mod
    unfolding has
    count_down c x y here first second =
        ground (arith, v.count, total-set m.contexts n c (silent c) here)

    cancel_all_something :
        (c : FdContext)
        → get_elem? m.contexts n ≡ some c
        → is_nothing c.events ≡ false
        → (m' : IoManager e) × (ps : List Posted) × (cancel_all e m (pos n) ≡ ok (m', true))
          × IsConsistent e m'
          × Silences m'
          × (m'.posted ≡ m.posted ++ ps)
          × (map tasks ps ≡ posted_by event_read ++ posted_by event_write)
    cancel_all_something c here some_event =
        let t = v.tidy n c here in
        let (a, ps, first, table, kernel, count, posted, named) =
          cancel_one_lem m c event_read (first_ready c t) in
        let (b, qs, second, table', kernel', count', posted', named') =
          cancel_one_lem a (cleared c event_read) event_write (second_ready c t) in
        let (k, done, effect) =
          ctl_total e m n c ctl_del (record { mask = no_events; edge = false }) v here some_event
            refl in
        let same_kernel : b.kernel ≡ m.kernel = kernel' ∙ kernel in
        let same_table : b.contexts ≡ m.contexts = table' ∙ table in
        let m' : IoManager e = record b { contexts = set b.contexts n (silent c); kernel = k } in
        let kept = kept_by_first c in
        let reads : map tasks ps ≡ posted_by event_read =
          named ∙ sym (posted_by_here c event_read here) in
        let writes : map tasks qs ≡ posted_by event_write =
          named' ∙ kept_task c ∙ sym (posted_by_here c event_write here) in
        (
          m',
          ps ++ qs,
          cancel_all_runs c a b k here some_event first second (rw same_kernel done),
          replace-IsConsistent e m m' n c (silent c) v here (silent-IsTidy n c t)
              (ap (λ z. set z n (silent c)) same_table)
              (λ i. ap mask_of (effect i) ∙ no_entry (n == i) (e.interest m.kernel i))
              (count_down c a.pending b.pending here count (rw kept.0 at count')),
          λ j other. rw same_table (Silences-set c here j other),
          posted' ∙ ap (λ z. z ++ qs) posted ∙ append_assoc m.posted ps qs,
          map-append tasks ps qs
              ∙ ap (λ z. z ++ map tasks qs) reads
              ∙ ap (λ z. posted_by event_read ++ z) writes,
        )

    -- In a consistent manager, `cancelAll` on a descriptor that is not negative always returns: whether
    -- any event was waited for. None is any longer, other descriptors are as before, the tasks of those
    -- that were are posted once each, reading first, and table, count and epoll still agree.
    pub cancel_all_lem :
        (m' : IoManager e) × (ps : List Posted) × (cancel_all e m (pos n) ≡ ok (m', anything))
        × IsConsistent e m'
        × Silences m'
        × (m'.posted ≡ m.posted ++ ps)
        × (map tasks ps ≡ posted_by event_read ++ posted_by event_write)
    cancel_all_lem = elim (Bool-cases anything) [
      | inl waits ↦
          let (c, here, some_event) = some_waits waits in
          rw waits (cancel_all_something c here some_event)
      | inr idle ↦ (
        m,
        [],
        rw idle (cancel_all_nothing idle),
        v,
        Silences-nothing idle,
        sym (append-nil m.posted),
        sym (posted_by-nothing idle),
      )
    ]
