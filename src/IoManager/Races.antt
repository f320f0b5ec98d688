-- ===== src/IoManager/Races.antt =====
-- Two threads in addEvent of src/iomanager.cc: it gives up the read lock under which it looked at the
-- size of the table, and does not look again under the write lock.
pub mod Tests
use fiber_async.Prelude.{
  ℕ, length-set, get_elem?_of_le, ◌*◌, ◌/◌, ◌≤◌, ◌<◌, ◌≡◌, ◌≢◌, refl, ◌∙◌, ap, inl, inr, List,
  Option, some, none, true, false, ◌||◌, arith, ◌==◌, length, get_elem?, set, ok, Outcome, ◌>>=◌,
  is_some, pos, at, put_at, add64,
}
use fiber_async.IoManager.{
  Event, event_none, event_read, event_write, has, with_event, FdContext, Caller, IoManager,
  context_resize, table_for, register, add_event, del_event, cancel_event,
}
use fiber_async.IoManager.Interest.{EpollEvent, Epoll}
use fiber_async.IoManager.Contexts.{
  get_elem?-lt, get_elem?-set, get_elem?-some, length-context_resize, get_elem?-context_resize,
}
use fiber_async.IoManager.Invariant.{IsConsistent}
use fiber_async.IoManager.Events.{waits_for, same_event}
use fiber_async.IoManager.Registration.{set-same, filled, added, has-added, register_runs}
use fiber_async.IoManager.Adding.{Accepts, ctl_either, add_event_lem}

-- The part under the write lock.
pub grow : List FdContext → ℕ → Outcome (List FdContext)
grow xs n = do
  let grown = context_resize 0 (n * 3 / 2) xs
  c ← at grown (pos n)
  put_at grown (pos n) (record c { fd = n })

table_for_late : (xs : List FdContext) (n : ℕ) → length xs ≤ n → table_for xs n ≡ grow xs n
unfolding table_for grow
table_for_late xs n past = ground arith

same_event_self : (event : Event) → same_event event event ≡ true
same_event_self event_none = refl
same_event_self event_read = refl
same_event_self event_write = refl

module _ (e : Epoll) where
  -- addEvent from there on.
  pub add_event_late : IoManager e → ℕ → Event → Option ℕ → Caller → Outcome (IoManager e)
  unfolding grow
  add_event_late m n event cb who = do
    contexts ← grow m.contexts n
    c ← at contexts (pos n)
    register e (record m { contexts = contexts }) n c event cb who

  -- Where nothing happens in between, this is what addEvent does on a table that is too small.
  pub add_event-eq_late :
      (m : IoManager e) (n : ℕ) (event : Event) (cb : Option ℕ) (who : Caller)
      → length m.contexts ≤ n
      → add_event e m (pos n) event cb who ≡ add_event_late m n event cb who
  unfolding add_event_late add_event
  add_event-eq_late m n event cb who past = rw (table_for_late m.contexts n past) refl

  abbrev resized : IoManager e → ℕ → IoManager e
  resized m n = record m { contexts = context_resize 0 (n * 3 / 2) m.contexts }

  module _ (m : IoManager e) (n : ℕ) (v : IsConsistent e m) (inside : n < length m.contexts)
      (wide : 2 ≤ n) where
    kept_slot :
        (c : FdContext) × (get_elem? m.contexts n ≡ some c)
        × (get_elem? (resized m n).contexts n ≡ some c)
    kept_slot =
        let room : n < length (resized m n).contexts =
          ground (arith, length-context_resize 0 (n * 3 / 2) m.contexts) in
        let (c, there) = get_elem?-some (resized m n).contexts n room in
        elim (get_elem?-context_resize 0 (n * 3 / 2) m.contexts n there) [
          | inl old ↦ (c, old, there)
          | inr (past, fresh) ↦ absurd (omega (arith, inside, past))
        ]

    late_runs :
        (c : FdContext) (event : Event) (cb : Option ℕ) (who : Caller)
        → c.fd ≡ n
        → get_elem? (resized m n).contexts n ≡ some c
        → add_event_late m n event cb who ≡ register e (resized m n) n c event cb who
    unfolding add_event_late grow
    late_runs c event cb who index there =
        let tidy : record c { fd = n } ≡ c = ground arith in
        let same = set-same (resized m n).contexts n c there in
        ground (arith, there, tidy, same, get_elem?-lt (resized m n).contexts n there)

    -- The late call registers its own event, and leaves no context from the size that it chose on.
    late_lem :
        (event : Event) (cb : Option ℕ) (who : Caller)
        → event ≢ event_none
        → (is_some cb || who.running) ≡ true
        → Accepts e m n
        → waits_for m.contexts n event ≡ false
        → (m' : IoManager e) × (add_event_late m n event cb who ≡ ok m')
          × (waits_for m'.contexts n event ≡ true)
          × ((k : ℕ) → n * 3 / 2 ≤ k → get_elem? m'.contexts k ≡ none)
          × ((k : ℕ) → (n == k) ≡ false → e.interest m'.kernel k ≡ e.interest m.kernel k)
    late_lem event cb who real ready accepts free =
        let (c, here, there) = kept_slot in
        let t = v.tidy n c here in
        let inside' = get_elem?-lt (resized m n).contexts n there in
        let not_yet : has c.events event ≡ false = ground (arith, here) in
        let ev : EpollEvent = record { mask = with_event c.events event; edge = true } in
        let (k, done, effect) = ctl_either e m n c ev v here accepts in
        let c' = added c event (filled cb who) in
        let m' : IoManager e = record m {
          contexts = set (resized m n).contexts n c';
          kernel = k;
          pending = add64 m.pending 1;
        } in
        (
          m',
          late_runs c event cb who t.index there
              ∙ register_runs e (resized m n) n c event cb who k t real not_yet ready done,
          ground (
            arith,
            get_elem?-set (resized m n).contexts n c' n inside',
            has-added c event event (filled cb who) real,
            same_event_self event,
          ),
          λ i past. get_elem?_of_le (set (resized m n).contexts n c') i (
              omega (
                arith,
                length-set (resized m n).contexts n c',
                length-context_resize 0 (n * 3 / 2) m.contexts,
                past,
              )),
          λ i apart. effect i ∙ rw apart refl,
        )

  nothing_past :
      (m : IoManager e) (n : ℕ) (event : Event)
      → get_elem? m.contexts n ≡ none
      → (waits_for m.contexts n event ≡ false)
        × (del_event e m (pos n) event ≡ ok (m, false))
        × (cancel_event e m (pos n) event ≡ ok (m, false))
  unfolding del_event cancel_event
  nothing_past m n event past = (
    ground (arith, past),
    ground (arith, past, get_elem?-some m.contexts n),
    ground (arith, past, get_elem?-some m.contexts n),
  )

  registered_at :
      (m : IoManager e) (n : ℕ) (c : FdContext) (event : Event)
      → IsConsistent e m
      → get_elem? m.contexts n ≡ some c
      → has c.events event ≡ true
      → is_some (e.interest m.kernel n) ≡ true
  unfolding has
  registered_at m n c event_none v here on = cc
  registered_at m n c event_read v here on = ground (arith, v.entry n)
  registered_at m n c event_write v here on = ground (arith, v.entry n)

  -- In a consistent manager whose table has no more slots than `b`, `b * 3 / 2` at most `a`, a thread
  -- adds an event of `a` while another is in addEvent for `b`, has looked at the table and not yet
  -- grown it; both on threads with a scheduler, with callbacks or in running fibers, and epoll accepts
  -- the two descriptors whenever they are added. Both calls return, but the second cuts the table off
  -- before `a`: the first's context is not in the table, delEvent and cancelEvent do not find its event,
  -- and epoll still has the descriptor. Had the second looked after the first, the table would have
  -- both events.
  pub add_orders :
      (m : IoManager e) (a b : ℕ) (event other : Event) (cb cb' : Option ℕ) (who who' : Caller)
      → IsConsistent e m
      → length m.contexts ≤ b
      → b * 3 / 2 ≤ a
      → event ≢ event_none
      → other ≢ event_none
      → is_some who.scheduler ≡ true
      → is_some who'.scheduler ≡ true
      → (is_some cb || who.running) ≡ true
      → (is_some cb' || who'.running) ≡ true
      → ((z : IoManager e) → Accepts e z a)
      → ((z : IoManager e) → Accepts e z b)
      → (m₁ : IoManager e) × (add_event e m (pos a) event cb who ≡ ok m₁)
        × ((m₂ : IoManager e) × (add_event_late m₁ b other cb' who' ≡ ok m₂)
            × (waits_for m₂.contexts b other ≡ true)
            × (get_elem? m₂.contexts a ≡ none)
            × (del_event e m₂ (pos a) event ≡ ok (m₂, false))
            × (cancel_event e m₂ (pos a) event ≡ ok (m₂, false))
            × (is_some (e.interest m₂.kernel a) ≡ true))
        × ((m₃ : IoManager e) × (add_event e m₁ (pos b) other cb' who' ≡ ok m₃)
            × (waits_for m₃.contexts b other ≡ true)
            × (waits_for m₃.contexts a event ≡ true))
  add_orders m a b event other cb cb' who who' v small far real real' sched sched' ready ready'
        accepts accepts' =
      let absent : (n : ℕ) (ev : Event)
          → length m.contexts ≤ n
          → waits_for m.contexts n ev ≡ false =
        λ n ev past. (nothing_past m n ev (get_elem?_of_le m.contexts n past)).0 in
      let large = v.large in
      let (m₁, c₁, runs₁, v₁, waits₁, here₁, stored, posted) =
        add_event_lem e m a event cb who v real sched ready (accepts m)
          (absent a event (omega arith)) in
      let apart : (b == a) ≡ false = ground arith in
      let inside : b < length m₁.contexts = omega (arith, get_elem?-lt m₁.contexts a here₁) in
      let on : waits_for m₁.contexts a event ≡ true =
        waits₁ a event ∙ ground (arith, same_event_self event) in
      let still : waits_for m₁.contexts b other ≡ false =
        waits₁ b other ∙ ground (arith, absent b other small) in
      let (m₂, runs₂, waits₂, cut, kernel) =
        late_lem m₁ b v₁ inside (omega arith) other cb' who' real' ready' (accepts' m₁) still in
      let (lost, undeleted, uncancelled) = nothing_past m₂ a event (cut a far) in
      let (m₃, c₃, runs₃, v₃, waits₃, here₃, stored₃, posted₃) =
        add_event_lem e m₁ b other cb' who' v₁ real' sched' ready' (accepts' m₁) still in
      (
        m₁,
        runs₁,
        (
          m₂,
          runs₂,
          waits₂,
          cut a far,
          undeleted,
          uncancelled,
          ap is_some (kernel a apart)
              ∙ registered_at m₁ a c₁ event v₁ here₁ (ground (arith, on, here₁)),
        ),
        (
          m₃,
          runs₃,
          waits₃ b other ∙ ground (arith, same_event_self other),
          waits₃ a event ∙ ground (arith, on),
        ),
      )
