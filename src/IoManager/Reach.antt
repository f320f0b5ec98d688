-- ===== src/IoManager/Reach.antt =====
-- Any sequence of calls on a manager, and of events that epoll reports.
use fiber_async.Prelude.{
  ℕ, ◌+◌, ◌≡◌, ◌≢◌, refl, sym, subst, ◌∙◌, Option, none, some, Bool, true, false, ◌||◌, arith,
  get_elem?, ok, is_some, add64, pos,
}
use native.Mathlib.Nat.{add-zero}
use fiber_async.IoManager.{
  Event, event_none, FdContext, IoManager, Caller, Ready, new_io_manager, add_event, del_event,
  cancel_event, cancel_all, process_event,
}
use fiber_async.IoManager.Interest.{Epoll}
use fiber_async.IoManager.Contexts.{bit}
use fiber_async.IoManager.Invariant.{IsConsistent}
use fiber_async.IoManager.Initial.{new_io_manager-IsConsistent}
use fiber_async.IoManager.Events.{waits_for, del_event_lem, cancel_event_lem}
use fiber_async.IoManager.Adding.{Accepts, add_event_lem}
use fiber_async.IoManager.CancelAll.{cancel_all_lem}
use fiber_async.IoManager.Firing.{IsShort, IsConsistent-IsShort}
use fiber_async.IoManager.Processing.{happens_read, happens_write, process_event_lem}
use fiber_async.IoManager.Pending.{
  with_pending, counted_off, add_event-pending, del_event-pending, cancel_event-pending,
  cancel_all-pending,
}

module _ (e : Epoll) where
  -- One call, or one event reported; `fired` is the number of events that happened in it. addEvent
  -- stands here where it returns.
  pub data Step (m : IoManager e) : IoManager e → ℕ → Type 0 where
    adds :
        {m' : IoManager e} (n : ℕ) (event : Event) (cb : Option ℕ) (who : Caller)
        → event ≢ event_none
        → is_some who.scheduler ≡ true
        → (is_some cb || who.running) ≡ true
        → Accepts e m n
        → waits_for m.contexts n event ≡ false
        → add_event e m (pos n) event cb who ≡ ok m'
        → Step m m' 0
    deletes :
        {m' : IoManager e} (n : ℕ) (event : Event) (found : Bool)
        → del_event e m (pos n) event ≡ ok (m', found)
        → Step m m' 0
    cancels :
        {m' : IoManager e} (n : ℕ) (event : Event) (found : Bool)
        → cancel_event e m (pos n) event ≡ ok (m', found)
        → Step m m' 0
    cancels_all :
        {m' : IoManager e} (n : ℕ) (found : Bool)
        → cancel_all e m (pos n) ≡ ok (m', found)
        → Step m m' 0
    handles :
        {m' : IoManager e} (n : ℕ) (c : FdContext) (r : Ready) {fired : ℕ}
        → get_elem? m.contexts n ≡ some c
        → (r.readable ≡ true → c.events.read ≡ true)
        → (r.writable ≡ true → c.events.write ≡ true)
        → process_event e m n r ≡ ok m'
        → fired ≡ bit (happens_read c r) + bit (happens_write c r)
        → Step m m' fired

  -- From the constructor on, with the number of events that have happened.
  pub data Reach : IoManager e → ℕ → Type 0 where
    start : (k : e.Kernel) → ((i : ℕ) → e.interest k i ≡ none) → Reach (new_io_manager e k) 0
    later :
        {m m' : IoManager e} {owed fired : ℕ}
        → Reach m owed
        → Step m m' fired
        → Reach m' (owed + fired)

  -- A manager whose count differs, from one that is consistent.
  moved-IsShort :
      (m : IoManager e) (q owed : ℕ)
      → IsConsistent e m
      → m.pending ≡ add64 q owed
      → IsShort e (with_pending e m q) owed
  moved-IsShort m q owed v h = record {
    tidy = v.tidy;
    entry = v.entry;
    count = sym h ∙ v.count;
    large = v.large;
  }

  abbrev full : IoManager e → ℕ → IoManager e
  full m owed = with_pending e m (add64 m.pending owed)

  counted_off-add64 :
      (b : Bool) (p q owed : ℕ)
      → p ≡ add64 q owed
      → counted_off e b p ≡ add64 (counted_off e b q) owed
  counted_off-add64 true p q owed h = omega arith
  counted_off-add64 false p q owed h = h

  -- Each call, at a manager that is `owed` short, from the same call at one that is not.
  pub add_event-IsShort :
      (m m' : IoManager e) (owed n : ℕ) (event : Event) (cb : Option ℕ) (who : Caller)
      → IsShort e m owed
      → event ≢ event_none
      → is_some who.scheduler ≡ true
      → (is_some cb || who.running) ≡ true
      → Accepts e m n
      → waits_for m.contexts n event ≡ false
      → add_event e m (pos n) event cb who ≡ ok m'
      → IsShort e m' owed
  add_event-IsShort m m' owed n event cb who v real scheduled ready accepts free h =
      let (a, c, runs, w, others, here, filled, posted) =
        add_event_lem e (full m owed) n event cb who v real scheduled ready accepts free in
      let count : a.pending ≡ add64 (full m owed).pending 1 =
        cc (add_event-pending e (full m owed) (full m owed).pending n event cb who a runs, runs) in
      let same : with_pending e a (add64 m.pending 1) ≡ m' =
        cc (add_event-pending e m (full m owed).pending n event cb who a runs, h) in
      subst (λ z. IsShort e z owed) same
        (moved-IsShort a (add64 m.pending 1) owed w (omega (arith, count)))

  del_event-IsShort :
      (m m' : IoManager e) (owed n : ℕ) (event : Event) (b : Bool)
      → IsShort e m owed
      → del_event e m (pos n) event ≡ ok (m', b)
      → IsShort e m' owed
  del_event-IsShort m m' owed n event b v h =
      let (a, runs, w, others, posted) = del_event_lem e (full m owed) n event v in
      let found = waits_for m.contexts n event in
      let count : a.pending ≡ counted_off e found (full m owed).pending =
        cc (del_event-pending e (full m owed) (full m owed).pending n event a found runs, runs) in
      let same : with_pending e a (counted_off e found m.pending) ≡ m' =
        cc (del_event-pending e m (full m owed).pending n event a found runs, h) in
      subst (λ z. IsShort e z owed) same
        (moved-IsShort a (counted_off e found m.pending) owed w
          (count ∙ counted_off-add64 found (full m owed).pending m.pending owed refl))

  pub cancel_event-IsShort :
      (m m' : IoManager e) (owed n : ℕ) (event : Event) (b : Bool)
      → IsShort e m owed
      → cancel_event e m (pos n) event ≡ ok (m', b)
      → IsShort e m' owed
  cancel_event-IsShort m m' owed n event b v h =
      let (a, runs, w, others, posted, nothing) = cancel_event_lem e (full m owed) n event v in
      let found = waits_for m.contexts n event in
      let count : a.pending ≡ counted_off e found (full m owed).pending =
        cc
          (cancel_event-pending e (full m owed) (full m owed).pending n event a found runs, runs) in
      let same : with_pending e a (counted_off e found m.pending) ≡ m' =
        cc (cancel_event-pending e m (full m owed).pending n event a found runs, h) in
      subst (λ z. IsShort e z owed) same
        (moved-IsShort a (counted_off e found m.pending) owed w
          (count ∙ counted_off-add64 found (full m owed).pending m.pending owed refl))

  pub cancel_all-IsShort :
      (m m' : IoManager e) (owed n : ℕ) (b : Bool)
      → IsShort e m owed
      → cancel_all e m (pos n) ≡ ok (m', b)
      → IsShort e m' owed
  cancel_all-IsShort m m' owed n b v h =
      let (a, ps, runs, w, others, posted, named) = cancel_all_lem e (full m owed) n v in
      let (x, y, goes, count) = cancel_all-pending e m (full m owed).pending n a _ runs in
      let q = counted_off e y (counted_off e x m.pending) in
      let same : with_pending e a q ≡ m' = cc (goes, h) in
      subst (λ z. IsShort e z owed) same
        (moved-IsShort a q owed w (
          count
          ∙ counted_off-add64 y _ (counted_off e x m.pending) owed
              (counted_off-add64 x (full m owed).pending m.pending owed refl)))

  pub Step-IsShort :
      {m m' : IoManager e} {fired : ℕ} (owed : ℕ)
      → Step m m' fired
      → IsShort e m owed
      → IsShort e m' (owed + fired)
  Step-IsShort {m} {m'} owed (adds n event cb who real scheduled ready accepts free h) v =
      rw add-zero (add_event-IsShort m m' owed n event cb who v real scheduled ready accepts free h)
  Step-IsShort {m} {m'} owed (deletes n event b h) v =
      rw add-zero (del_event-IsShort m m' owed n event b v h)
  Step-IsShort {m} {m'} owed (cancels n event b h) v =
      rw add-zero (cancel_event-IsShort m m' owed n event b v h)
  Step-IsShort {m} {m'} owed (cancels_all n b h) v =
      rw add-zero (cancel_all-IsShort m m' owed n b v h)
  Step-IsShort {m} {m'} owed (handles n c r here in_read in_write h fired) v =
      let (a, ps, runs, short, others, posted, named) =
        process_event_lem e m n c r owed v here in_read in_write in
      let same : a ≡ m' = cc in
      rw fired (
        subst (λ z. IsShort e z (owed + (bit (happens_read c r) + bit (happens_write c r)))) same
          short)

  -- After any sequence of calls on a new manager and of events that epoll reports of those waited for,
  -- table and epoll agree, every context that waits has a scheduler to post to, and the count of
  -- pending events is short of the number waited for by exactly the number of events that have
  -- happened, modulo 2^64.
  pub Reach-IsShort : {m : IoManager e} {owed : ℕ} → Reach m owed → IsShort e m owed
  Reach-IsShort (start k empty) =
      IsConsistent-IsShort e (new_io_manager e k) (new_io_manager-IsConsistent e k empty)
  Reach-IsShort (later {owed = owed} r st) = Step-IsShort owed st (Reach-IsShort r)
