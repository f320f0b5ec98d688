-- ===== src/IoManager/Pending.antt =====
-- No operation but `stopping` reads the count of pending events: it is only moved.
use fiber_async.Prelude.{
  get_elem?, leb, length, ◌||◌, set, at, [], ◌∷◌, ◌++◌, ℕ, if◌then◌else◌, ◌≡◌, ap, ◌∙◌, inl, inr,
  Option, Bool, true, false, arith, ok, Outcome, ◌>>=◌, sub64, add64, Bool-cases, Option-cases, pos,
  >>=-eq-ok,
}
use fiber_async.IoManager.{
  Event, FdContext, IoManager, Caller, add_event, register, unregister, del_event, cancel_event,
  cancel_one, cancel_all, is_nothing, trigger_event, table_for, event_read, event_write, has,
  asserted,
}
use fiber_async.IoManager.Interest.{Epoll, ctl_del, no_events}

module _ (e : Epoll) where
  abbrev pub with_pending : IoManager e → ℕ → IoManager e
  with_pending m p = record m { pending = p }

  pub unregister-pending :
      (m : IoManager e) (p n : ℕ) (c : FdContext) (event : Event) (m' : IoManager e)
      → unregister e (with_pending m p) n c event ≡ ok m'
      → unregister e m n c event ≡ ok (with_pending m' (sub64 m.pending 1))
  unfolding unregister
  unregister-pending m p n c event m' h = ground (arith, h)

  pub register-pending :
      (m : IoManager e) (p n : ℕ) (c : FdContext) (event : Event) (cb : Option ℕ) (who : Caller)
      (m' : IoManager e)
      → register e (with_pending m p) n c event cb who ≡ ok m'
      → register e m n c event cb who ≡ ok (with_pending m' (add64 m.pending 1))
  unfolding register
  register-pending m p n c event cb who m' h = ground (arith, h)

  pub del_event-pending :
      (m : IoManager e) (p n : ℕ) (event : Event) (m' : IoManager e) (b : Bool)
      → del_event e (with_pending m p) (pos n) event ≡ ok (m', b)
      → del_event e m (pos n) event
        ≡ ok (with_pending m' (if b then sub64 m.pending 1 else m.pending), b)
  unfolding del_event
  del_event-pending m p n event m' b h = grind (arith, unregister-pending)

  pub add_event-pending :
      (m : IoManager e) (p n : ℕ) (event : Event) (cb : Option ℕ) (who : Caller) (m' : IoManager e)
      → add_event e (with_pending m p) (pos n) event cb who ≡ ok m'
      → add_event e m (pos n) event cb who ≡ ok (with_pending m' (add64 m.pending 1))
  unfolding add_event
  add_event-pending m p n event cb who m' h =
      let (xs, found, h₁) = >>=-eq-ok (table_for m.contexts n) _ h in
      let (c, here, h₂) = >>=-eq-ok (at xs (pos n)) _ h₁ in
      ground
        (arith, found, here, register-pending (record m { contexts = xs }) p n c event cb who m' h₂)

  -- What cancelEvent does from its call of `triggerEvent` on.
  abbrev pub triggers : IoManager e → ℕ → FdContext → Event → Outcome (IoManager e × Bool)
  triggers m n c event = do
    (c', posted) ← trigger_event c event
    m' ← unregister e (record m { posted = m.posted ++ posted ∷ [] }) n c' event
    ok (m', true)

  triggers-pending :
      (m : IoManager e) (p n : ℕ) (c : FdContext) (event : Event) (m' : IoManager e) (b : Bool)
      → triggers (with_pending m p) n c event ≡ ok (m', b)
      → triggers m n c event ≡ ok (with_pending m' (sub64 m.pending 1), true) × (b ≡ true)
  triggers-pending m p n c event m' b h =
      let ((c', posted), fired, h₁) = >>=-eq-ok (trigger_event c event) _ h in
      let (a, done, h₂) = >>=-eq-ok (unregister e _ n c' event) _ h₁ in
      ground (
        arith,
        fired,
        h₂,
        unregister-pending (record m { posted = m.posted ++ posted ∷ [] }) p n c' event a done,
      )

  pub cancel_event-pending :
      (m : IoManager e) (p n : ℕ) (event : Event) (m' : IoManager e) (b : Bool)
      → cancel_event e (with_pending m p) (pos n) event ≡ ok (m', b)
      → cancel_event e m (pos n) event
        ≡ ok (with_pending m' (if b then sub64 m.pending 1 else m.pending), b)
  unfolding cancel_event
  cancel_event-pending m p n event m' b h = grind (arith, triggers-pending)

  -- cancelAll counts off one for each event that it triggers.
  abbrev pub counted_off : Bool → ℕ → ℕ
  counted_off b p = if b then sub64 p 1 else p

  cancel_one-pending :
      (m : IoManager e) (p : ℕ) (c : FdContext) (event : Event) (m' : IoManager e) (c' : FdContext)
      → cancel_one e (with_pending m p) c event ≡ ok (m', c')
      → cancel_one e m c event
        ≡ ok (with_pending m' (counted_off (has c.events event) m.pending), c')
  unfolding cancel_one
  cancel_one-pending m p c event m' c' h = grind arith

  cancel_one_counts :
      (m a : IoManager e) (c c' : FdContext) (event : Event)
      → cancel_one e m c event ≡ ok (a, c')
      → a.pending ≡ counted_off (has c.events event) m.pending
  cancel_one_counts m a c c' event h = cc (cancel_one-pending m m.pending c event a c' h, h)

  -- What cancelAll does after its two tests.
  abbrev pub drops : IoManager e → ℕ → FdContext → Outcome (IoManager e × Bool)
  drops m n c = do
    k ← asserted (e.ctl m.kernel ctl_del n (record { mask = no_events; edge = false }))
    ok (
      record m { contexts = set m.contexts n (record c { events = no_events }); kernel = k },
      true,
    )

  drops-pending :
      (m : IoManager e) (p n : ℕ) (c : FdContext) (m' : IoManager e) (b : Bool)
      → drops m n c ≡ ok (m', b)
      → (drops (with_pending m p) n c ≡ ok (with_pending m' p, b))
        × (m'.pending ≡ m.pending)
        × (b ≡ true)
  drops-pending m p n c m' b h = ground (arith, h)

  -- What cancelAll does to a context that waits for something.
  abbrev pub silences : IoManager e → ℕ → FdContext → Outcome (IoManager e × Bool)
  silences m n c = do
    (m₁, c₁) ← cancel_one e m c event_read
    (m₂, c₂) ← cancel_one e m₁ c₁ event_write
    drops m₂ n c₂

  silences-pending :
      (m : IoManager e) (p n : ℕ) (c : FdContext) (m' : IoManager e) (b : Bool)
      → silences (with_pending m p) n c ≡ ok (m', b)
      → (x : Bool) × (y : Bool) × (silences m n c
          ≡ ok (with_pending m' (counted_off y (counted_off x m.pending)), true))
        × (m'.pending ≡ counted_off y (counted_off x p))
        × (b ≡ true)
  silences-pending m p n c m' b h =
      let ((a, c₁), first, h₁) = >>=-eq-ok (cancel_one e (with_pending m p) c event_read) _ h in
      let ((z, c₂), second, h₂) = >>=-eq-ok (cancel_one e a c₁ event_write) _ h₁ in
      glue a z c₁ c₂ first second h₂
    where
      glue :
          (a z : IoManager e) (c₁ c₂ : FdContext)
          → cancel_one e (with_pending m p) c event_read ≡ ok (a, c₁)
          → cancel_one e a c₁ event_write ≡ ok (z, c₂)
          → drops z n c₂ ≡ ok (m', b)
          → (x : Bool) × (y : Bool) × (silences m n c
              ≡ ok (with_pending m' (counted_off y (counted_off x m.pending)), true))
            × (m'.pending ≡ counted_off y (counted_off x p))
            × (b ≡ true)
      glue a z c₁ c₂ first second last =
          let x = has c.events event_read in
          let y = has c₁.events event_write in
          let q = counted_off x m.pending in
          let (dropped, count, is) = drops-pending z (counted_off y q) n c₂ m' b last in
          let one = cancel_one-pending m p c event_read a c₁ first in
          let two = cancel_one-pending (with_pending a q) a.pending c₁ event_write z c₂ second in
          (
            x,
            y,
            rw (one, two) (rw is at dropped),
            count
                ∙ cancel_one_counts a z c₁ c₂ event_write second
                ∙ ap (counted_off y) (cancel_one_counts (with_pending m p) a c c₁ event_read first),
            is,
          )

  pub cancel_all-pending :
      (m : IoManager e) (p n : ℕ) (m' : IoManager e) (b : Bool)
      → cancel_all e (with_pending m p) (pos n) ≡ ok (m', b)
      → (x : Bool) × (y : Bool) × (cancel_all e m (pos n)
          ≡ ok (with_pending m' (counted_off y (counted_off x m.pending)), b))
        × (m'.pending ≡ counted_off y (counted_off x p))
  unfolding cancel_all
  cancel_all-pending m p n m' b h = elim (Option-cases (get_elem? m.contexts n)) [
    | inl past ↦ (false, false, ground (arith, h), ground (arith, h))
    | inr (c, here) ↦ elim (Bool-cases (leb (length m.contexts) n || is_nothing c.events)) [
      | inl nothing ↦ (false, false, ground (arith, h), ground (arith, h))
      | inr something ↦
          let runs : silences (with_pending m p) n c ≡ ok (m', b) = ground (arith, h) in
          let (x, y, goes, count, is) = silences-pending m p n c m' b runs in
          (x, y, ground (arith, goes), count)
    ]
  ]
