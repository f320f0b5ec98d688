-- ===== src/IoManager/Tests.antt =====
-- A concrete epoll and manager, and the theorems on the manager applied to them.
use fiber_async.Prelude.{
  u64_max, sym, ap, ◌∙◌, ℕ, ◌+◌, ◌≡◌, ◌≢◌, refl, List, [], ◌∷◌, ◌++◌, map, none, some, Option, Bool,
  true, false, ◌||◌, ◌&&◌, not, ok, arith, if◌then◌else◌, ◌==◌, is_some, pos, get_elem?, update,
}
use fiber_async.IoManager.{
  Event, event_none, event_read, event_write, has, FdContext, Caller, Posted, IoManager,
  new_io_manager, add_event, cancel_event, process_event, stopping, context_resize, Ready,
}
use fiber_async.IoManager.Interest.{CtlOp, EpollEvent, registered, needs_entry, Epoll}
use fiber_async.IoManager.Contexts.{bit, total}
use fiber_async.IoManager.Invariant.{IsConsistent}
use fiber_async.IoManager.Events.{
  waits_for, same_event, task_of, context_of, Without, PostedFor, cancel_event_lem,
}
use fiber_async.IoManager.Registration.{filled}
use fiber_async.IoManager.Firing.{IsShort, IsConsistent-IsShort, tasks}
use fiber_async.IoManager.Processing.{
  happens_read, happens_write, process_event_lem, short_never_stops,
}
use fiber_async.IoManager.Initial.{new_io_manager-IsConsistent}
use fiber_async.IoManager.Reach.{Reach, start, later, adds}
use fiber_async.IoManager.Adding.{Accepts, add_event_lem}

-- An interest list that is a function, and an epoll_ctl that refuses only as EEXIST and ENOENT.
abbrev pub Interests : Type 0
Interests = ℕ → Option EpollEvent

abbrev pub same_bool : Bool → Bool → Bool
same_bool true b = b
same_bool false b = not b

abbrev pub ctl_on : Interests → CtlOp → ℕ → EpollEvent → Option Interests
ctl_on k op n ev =
    if same_bool (is_some (k n)) (needs_entry op)
    then some (update k n (registered op ev))
    else none

pub some_of_if : (b : Bool) (x y : Interests) → (if b then some x else none) ≡ some y → x ≡ y
some_of_if true x y h = cc
some_of_if false x y h = cc

pub simple_epoll-effect :
    (k : Interests) (op : CtlOp) (n : ℕ) (ev : EpollEvent) (k' : Interests)
    → ctl_on k op n ev ≡ some k'
    → (i : ℕ) → k' i ≡ (if n == i then registered op ev else k i)
simple_epoll-effect k op n ev k' h i = sym (ap (λ f. f i) (some_of_if _ _ k' h))

pub simple_epoll-entry :
    (k : Interests) (op : CtlOp) (n : ℕ) (ev : EpollEvent) (k' : Interests)
    → ctl_on k op n ev ≡ some k'
    → is_some (k n) ≡ needs_entry op
simple_epoll-entry k op n ev k' h = ground arith

pub simple_epoll-succeeds :
    (k : Interests) (op : CtlOp) (n : ℕ) (ev : EpollEvent)
    → is_some (k n) ≡ true
    → needs_entry op ≡ true
    → is_some (ctl_on k op n ev) ≡ true
simple_epoll-succeeds k op n ev h g = ground arith

abbrev pub simple_epoll : Epoll
simple_epoll = record {
  Kernel = Interests;
  interest = λ k. k;
  ctl = ctl_on;
  ctl_effect = simple_epoll-effect;
  ctl_entry = simple_epoll-entry;
  ctl_succeeds = simple_epoll-succeeds;
}

-- A new manager; then one where descriptor 5 waits for input, with callback 10 on scheduler 1.
abbrev pub new_one : IoManager simple_epoll
new_one = new_io_manager simple_epoll (λ _. none)

pub new_one-IsConsistent : IsConsistent simple_epoll new_one
new_one-IsConsistent = new_io_manager-IsConsistent simple_epoll (λ _. none) (λ i. refl)

abbrev pub caller : Caller
caller = record { scheduler = some 1; fiber = 6; running = true }

pub read_is_real : event_read ≢ event_none
read_is_real h = cc

pub five-Accepts : Accepts simple_epoll new_one 5
unfolding new_io_manager
five-Accepts ev h = refl

pub simple_epoll-Accepts : (m : IoManager simple_epoll) (n : ℕ) → Accepts simple_epoll m n
simple_epoll-Accepts m n ev h = ground arith

pub three_silent : waits_for new_one.contexts 3 event_read ≡ false
unfolding new_io_manager has
three_silent = refl

no_wait : waits_for new_one.contexts 5 event_read ≡ false
unfolding new_io_manager has
no_wait = refl

add_event_lem_example :
    (m' : IoManager simple_epoll) × (c' : FdContext) × (add_event simple_epoll new_one
        (pos 5)
        event_read
        (some 10)
        caller
      ≡ ok m')
    × IsConsistent simple_epoll m'
    × ((k : ℕ) (other : Event)
        → waits_for m'.contexts k other ≡ (
            if 5 == k && same_event event_read other
            then true
            else waits_for new_one.contexts k other))
    × (get_elem? m'.contexts 5 ≡ some c')
    × (context_of c' event_read ≡ filled (some 10) caller)
    × (m'.posted ≡ new_one.posted)
add_event_lem_example =
    add_event_lem simple_epoll new_one 5 event_read (some 10) caller new_one-IsConsistent
      read_is_real refl refl five-Accepts no_wait

five_silent : waits_for new_one.contexts 5 event_write ≡ false
unfolding new_io_manager has
five_silent = refl

pub with_five :
    (m' : IoManager simple_epoll) × (c' : FdContext) × IsConsistent simple_epoll m'
    × (waits_for m'.contexts 5 event_read ≡ true)
    × (get_elem? m'.contexts 5 ≡ some c')
    × (waits_for m'.contexts 5 event_write ≡ false)
    × Reach simple_epoll m' 0
with_five =
    let (m', c', runs, v, waits, here, stored, posted) =
      add_event_lem simple_epoll new_one 5 event_read (some 10) caller new_one-IsConsistent
        read_is_real refl refl five-Accepts no_wait in
    (
      m',
      c',
      v,
      waits 5 event_read,
      here,
      waits 5 event_write ∙ five_silent,
      later (start (λ _. none) (λ i. refl))
          (adds 5 event_read (some 10) caller read_is_real refl refl five-Accepts no_wait runs),
    )

abbrev pub five : IoManager simple_epoll
five = with_five.0

pub five-IsConsistent : IsConsistent simple_epoll five
five-IsConsistent = with_five.2

pub five_waits : waits_for five.contexts 5 event_read ≡ true
five_waits = with_five.3

cancel_event_lem_example :
    (m' : IoManager simple_epoll) × (cancel_event simple_epoll five (pos 5) event_read
      ≡ ok (m', waits_for five.contexts 5 event_read))
    × IsConsistent simple_epoll m'
    × Without simple_epoll five 5 event_read five-IsConsistent m'
    × PostedFor simple_epoll five 5 event_read five-IsConsistent m'
    × (waits_for five.contexts 5 event_read ≡ false → m'.posted ≡ five.posted)
cancel_event_lem_example = cancel_event_lem simple_epoll five 5 event_read five-IsConsistent

abbrev pub readable : Ready
readable = record { readable = true; writable = false; failed = false }

abbrev pub context_five : FdContext
context_five = with_five.1

pub five_reads : context_five.events.read ≡ true
unfolding has
five_reads = ground (arith, with_five.4, with_five.3)

pub five-Reach : Reach simple_epoll five 0
five-Reach = with_five.6

pub five-context : get_elem? five.contexts 5 ≡ some context_five
five-context = with_five.4

-- The same descriptor waiting for both directions.
write_is_real : event_write ≢ event_none
write_is_real h = cc

five_not_writing : waits_for five.contexts 5 event_write ≡ false
five_not_writing = with_five.5

pub with_both :
    (m' : IoManager simple_epoll) × (c' : FdContext) × IsConsistent simple_epoll m'
    × (waits_for m'.contexts 5 event_read ≡ true)
    × (waits_for m'.contexts 5 event_write ≡ true)
    × (get_elem? m'.contexts 5 ≡ some c')
with_both =
    let (m', c', runs, v, waits, here, stored, posted) =
      add_event_lem simple_epoll five 5 event_write (some 11) caller five-IsConsistent write_is_real
        refl refl (simple_epoll-Accepts five 5) five_not_writing in
    (m', c', v, waits 5 event_read ∙ five_waits, waits 5 event_write, here)

abbrev pub two_way : IoManager simple_epoll
two_way = with_both.0

abbrev pub context_two_way : FdContext
context_two_way = with_both.1

pub two_way-IsConsistent : IsConsistent simple_epoll two_way
two_way-IsConsistent = with_both.2

pub two_way-context : get_elem? two_way.contexts 5 ≡ some context_two_way
two_way-context = with_both.5

pub two_way_reads : context_two_way.events.read ≡ true
unfolding has
two_way_reads = ground (arith, two_way-context, with_both.3)

pub two_way_writes : context_two_way.events.write ≡ true
unfolding has
two_way_writes = ground (arith, two_way-context, with_both.4)

process_event_lem_example :
    (m' : IoManager simple_epoll) × (ps : List Posted) × (process_event simple_epoll five 5 readable
      ≡ ok m')
    × IsShort simple_epoll m'
        (0 + (bit (happens_read context_five readable) + bit (happens_write context_five readable)))
    × ((k : ℕ) (other : Event)
        → waits_for m'.contexts k other ≡ (
            if 5 == k
              && (same_event event_read other && happens_read context_five readable
                  || same_event event_write other && happens_write context_five readable)
            then false
            else waits_for five.contexts k other))
    × (m'.posted ≡ five.posted ++ ps)
    × (map tasks ps
        ≡ (if happens_read context_five readable then task_of context_five.on_read ∷ [] else [])
          ++ (if happens_write context_five readable
              then task_of context_five.on_write ∷ []
              else []))
process_event_lem_example =
    process_event_lem simple_epoll five 5 context_five readable 0
      (IsConsistent-IsShort simple_epoll five five-IsConsistent) with_five.4 (λ _. five_reads)
      (λ h. cc)

-- What is left once the only event has been handled: a count of 0 - 1 - 1 + 1, which has wrapped.
abbrev wrapped : IoManager simple_epoll
wrapped = record new_one { pending = u64_max }

wrapped-IsShort : IsShort simple_epoll wrapped 1
unfolding new_io_manager
wrapped-IsShort = record {
  tidy = new_one-IsConsistent.tidy;
  entry = new_one-IsConsistent.entry;
  count = new_one-IsConsistent.count;
  large = new_one-IsConsistent.large;
}

nothing_waits : total wrapped.contexts ≡ 0
unfolding new_io_manager context_resize
nothing_waits = refl

short_never_stops_example : stopping simple_epoll wrapped true 0 ≡ false
short_never_stops_example =
    short_never_stops simple_epoll wrapped 1 true 0 wrapped-IsShort nothing_waits (omega arith)
      (omega arith)
