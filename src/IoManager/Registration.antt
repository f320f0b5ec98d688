-- ===== src/IoManager/Registration.antt =====
-- addEvent.
use fiber_async.Prelude.{
  ℕ, zero, suc, ◌+◌, ◌*◌, ◌/◌, ◌≤◌, ◌<◌, ◌≡◌, ◌≢◌, refl, sym, ap, ◌∙◌, ◌⊎◌, inl, inr, List, [], ◌∷◌,
  Option, some, none, Bool, true, false, ◌||◌, arith, if◌then◌else◌, ltb, length, set, get_elem?,
  ok, is_some, add64, Bool-cases, Option-cases,
}
use fiber_async.IoManager.{
  Event, event_none, event_read, event_write, has, with_event, is_nothing, EventContext, blank,
  FdContext, new_context, set_event_context, context_resize, table_for, Caller, fill_context,
  register, IoManager,
}
use fiber_async.IoManager.Interest.{Mask, ctl_add, ctl_mod, Epoll}
use fiber_async.IoManager.Contexts.{
  get_elem?-lt, get_elem?-some, weight, length-context_resize, get_elem?-context_resize,
  get_elem?-context_resize_old, total-context_resize,
}
use fiber_async.IoManager.Invariant.{IsTidy, IsConsistent, entry_of}
use fiber_async.IoManager.Events.{waits_for, same_event}

-- The table that `addEvent` works on: the old one, or one with room for descriptor `n`.
abbrev pub table : List FdContext → ℕ → List FdContext
table xs n = if ltb n (length xs) then xs else context_resize 0 (n * 3 / 2) xs

pub set-same {ℓ} :
    {A : Type ℓ} (xs : List A) (n : ℕ) (x : A) → get_elem? xs n ≡ some x → set xs n x ≡ xs
set-same [] n x h = refl
set-same (y ∷ ys) zero x h = ground arith
set-same (y ∷ ys) (suc n) x h = ap (◌∷◌ y) (set-same ys n x h)

pub grow_slot :
    (b : Bool) (xs : List FdContext) (size k : ℕ) {c : FdContext}
    → get_elem? (if b then xs else context_resize 0 size xs) k ≡ some c
    → (get_elem? xs k ≡ some c) ⊎ ((length xs ≤ k) × (c ≡ new_context k))
grow_slot true xs size k h = inl h
grow_slot false xs size k h = elim (get_elem?-context_resize 0 size xs k h) [
  | inl old ↦ inl old
  | inr (past, fresh) ↦ inr (past, fresh ∙ ap new_context (omega arith))
]

grow_entry :
    (b : Bool) (xs : List FdContext) (size k : ℕ)
    → length xs ≤ size
    → entry_of (get_elem? (if b then xs else context_resize 0 size xs) k)
      ≡ entry_of (get_elem? xs k)
grow_entry true xs size k l = refl
grow_entry false xs size k l = elim (Option-cases (get_elem? xs k)) [
  | inl nothing ↦ elim (Option-cases (get_elem? (context_resize 0 size xs) k)) [
    | inl e ↦ rw (nothing, e)
    | inr (c, e) ↦ elim (get_elem?-context_resize 0 size xs k e) [
      | inl old ↦ cc
      | inr (past, fresh) ↦ rw (nothing, e, fresh)
    ]
  ]
  | inr (c, e) ↦ rw (e, get_elem?-context_resize_old 0 size xs k l e)
]

abbrev pub waits_of : Option Mask → Event → Bool
waits_of none event = false
waits_of (some m) event = has m event

-- Whether an event is waited for can be told from what epoll should have.
waits_for-entry :
    (xs : List FdContext) (k : ℕ) (event : Event)
    → waits_for xs k event ≡ waits_of (entry_of (get_elem? xs k)) event
unfolding has
waits_for-entry xs k event_none = ground arith
waits_for-entry xs k event_read = ground arith
waits_for-entry xs k event_write = ground arith

new_context-IsTidy : (k : ℕ) → IsTidy k (new_context k)
new_context-IsTidy k = record {
  index = refl;
  read_blank = λ h. refl;
  write_blank = λ h. refl;
  read_ready = λ h. cc;
  write_ready = λ h. cc;
}

module _ (xs : List FdContext) (n : ℕ) (large : 32 ≤ length xs) where
  pub table_room : (n < length (table xs n)) × (length xs ≤ length (table xs n))
  table_room = ground (arith, length-context_resize 0 (n * 3 / 2) xs)

  -- The size asked for makes room, since the table has at least two slots.
  pub grows : ltb n (length xs) ≡ false → length xs ≤ n * 3 / 2
  grows h = ground arith

  pub table_for_lem : table_for xs n ≡ ok (table xs n)
  unfolding table_for
  table_for_lem = elim (Bool-cases (ltb n (length xs))) [
    | inl fits ↦ rw (fits, table_for)
    | inr past ↦
        let size = n * 3 / 2 in
        let grown = context_resize 0 size xs in
        let room : n < length grown = ground (arith, length-context_resize 0 size xs) in
        let (c, here) = get_elem?-some grown n room in
        let tidy : record c { fd = n } ≡ c = elim (get_elem?-context_resize 0 size xs n here) [
          | inl old ↦ absurd (ground (arith, get_elem?-lt xs n old))
          | inr (p, fresh) ↦ ground arith
        ] in
        let same : set grown n c ≡ grown = set-same grown n c here in
        ground (arith, past, here, tidy, same, room)
  ]

module _ (e : Epoll) (m : IoManager e) (n : ℕ) (v : IsConsistent e m) where
  abbrev pub grown : IoManager e
  grown = record m { contexts = table m.contexts n }

  pub grown-IsConsistent : IsConsistent e grown
  grown-IsConsistent = elim (Bool-cases (ltb n (length m.contexts))) [
    | inl fits ↦
        rw fits (record { tidy = v.tidy; entry = v.entry; count = v.count; large = v.large })
    | inr past ↦
        let size = n * 3 / 2 in
        let l = grows m.contexts n v.large past in
        rw past (record {
          tidy = λ k c h. elim (grow_slot false m.contexts size k h) [
            | inl old ↦ v.tidy k c old
            | inr (p, fresh) ↦ rw fresh (new_context-IsTidy k)
          ];
          entry = λ k. v.entry k ∙ sym (grow_entry false m.contexts size k l);
          count = rw (total-context_resize 0 size m.contexts l) v.count;
          large = omega (arith, length-context_resize 0 size m.contexts, v.large);
        })
  ]

  pub grown_waits :
      (k : ℕ) (event : Event) → waits_for grown.contexts k event ≡ waits_for m.contexts k event
  grown_waits k event =
      waits_for-entry grown.contexts k event
      ∙ ap (λ o. waits_of o event) (sym (grown-IsConsistent.entry k) ∙ v.entry k)
      ∙ sym (waits_for-entry m.contexts k event)

-- What `addEvent` stores: the callback, or the calling fiber where there is none.
abbrev pub filled : Option ℕ → Caller → EventContext
filled (some f) who = record { scheduler = who.scheduler; fiber = none; cb = some f }
filled none who = record { scheduler = who.scheduler; fiber = some who.fiber; cb = none }

abbrev pub added : FdContext → Event → EventContext → FdContext
added c event ec = set_event_context (record c { events = with_event c.events event }) event ec

fill_blank :
    (cb : Option ℕ) (who : Caller)
    → (is_some cb || who.running) ≡ true
    → fill_context blank cb who ≡ ok (filled cb who)
unfolding fill_context
fill_blank (some f) who h = refl
fill_blank none who h = rw h

pub filled_ready :
    (cb : Option ℕ) (who : Caller)
    → is_some who.scheduler ≡ true
    → is_some (filled cb who).scheduler ≡ true
filled_ready (some f) who h = h
filled_ready none who h = h

pub added-IsTidy :
    (n : ℕ) (c : FdContext) (event : Event) (ec : EventContext)
    → IsTidy n c
    → is_some ec.scheduler ≡ true
    → IsTidy n (added c event ec)
unfolding set_event_context with_event
added-IsTidy n c event_none ec t h = t
added-IsTidy n c event_read ec t h = record {
  index = t.index;
  read_blank = λ e. cc;
  write_blank = t.write_blank;
  read_ready = λ e. h;
  write_ready = t.write_ready;
}
added-IsTidy n c event_write ec t h = record {
  index = t.index;
  read_blank = t.read_blank;
  write_blank = λ e. cc;
  read_ready = t.read_ready;
  write_ready = λ e. h;
}

pub has-added :
    (c : FdContext) (event other : Event) (ec : EventContext)
    → event ≢ event_none
    → has (added c event ec).events other
      ≡ (if same_event event other then true else has c.events other)
unfolding has with_event set_event_context
has-added c event_none other ec h = absurd (h refl)
has-added c event_read event_none ec h = refl
has-added c event_read event_read ec h = refl
has-added c event_read event_write ec h = refl
has-added c event_write event_none ec h = refl
has-added c event_write event_read ec h = refl
has-added c event_write event_write ec h = refl

pub weight-added :
    (c : FdContext) (event : Event) (ec : EventContext)
    → event ≢ event_none
    → has c.events event ≡ false
    → (weight (added c event ec).events ≡ weight c.events + 1)
      × (entry_of (some (added c event ec)) ≡ some (with_event c.events event))
unfolding has with_event set_event_context
weight-added c event_none ec h f = absurd (h refl)
weight-added c event_read ec h f = (ground arith, ground arith)
weight-added c event_write ec h f = (ground arith, ground arith)

module _ (e : Epoll) where
  pub register_runs :
      (m : IoManager e) (n : ℕ) (c : FdContext) (event : Event) (cb : Option ℕ) (who : Caller)
      (k : e.Kernel)
      → IsTidy n c
      → event ≢ event_none
      → has c.events event ≡ false
      → (is_some cb || who.running) ≡ true
      → e.ctl m.kernel
          (if is_nothing c.events then ctl_add else ctl_mod)
          n
          (record { mask = with_event c.events event; edge = true })
        ≡ some k
      → register e m n c event cb who
        ≡ ok (record m {
          contexts = set m.contexts n (added c event (filled cb who));
          kernel = k;
          pending = add64 m.pending 1;
        })
  unfolding register
  register_runs m n c event_none cb who k t h free ready done = absurd (h refl)
  register_runs m n c event_read cb who k t h free ready done =
      ground (arith, t.read_blank free, fill_blank cb who ready)
  register_runs m n c event_write cb who k t h free ready done =
      ground (arith, t.write_blank free, fill_blank cb who ready)
