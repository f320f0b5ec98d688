-- ===== src/IoManager/Races/Tests.antt =====
-- Two threads that add events of descriptors 100 and 40 to a new manager.
use fiber_async.Prelude.{
  ◌≡◌, refl, get_elem?, none, some, true, false, arith, ok, pos, is_some, length, ◌≤◌,
}
use fiber_async.IoManager.{
  IoManager, event_read, new_io_manager, context_resize, add_event, del_event, cancel_event,
}
use fiber_async.IoManager.Events.{waits_for}
use fiber_async.IoManager.Tests.{
  simple_epoll, simple_epoll-Accepts, new_one, new_one-IsConsistent, caller, read_is_real,
}
use fiber_async.IoManager.Races.{add_event_late, add_orders}

new_one_small : length new_one.contexts ≤ 40
unfolding new_io_manager context_resize
new_one_small = omega arith

add_orders_example :
    (m₁ : IoManager simple_epoll) × (add_event simple_epoll new_one
        (pos 100)
        event_read
        (some 10)
        caller
      ≡ ok m₁)
    × ((m₂ : IoManager simple_epoll) × (add_event_late simple_epoll m₁ 40 event_read
            (some 11)
            caller
          ≡ ok m₂)
        × (waits_for m₂.contexts 40 event_read ≡ true)
        × (get_elem? m₂.contexts 100 ≡ none)
        × (del_event simple_epoll m₂ (pos 100) event_read ≡ ok (m₂, false))
        × (cancel_event simple_epoll m₂ (pos 100) event_read ≡ ok (m₂, false))
        × (is_some (simple_epoll.interest m₂.kernel 100) ≡ true))
    × ((m₃ : IoManager simple_epoll) × (add_event simple_epoll m₁
            (pos 40)
            event_read
            (some 11)
            caller
          ≡ ok m₃)
        × (waits_for m₃.contexts 40 event_read ≡ true)
        × (waits_for m₃.contexts 100 event_read ≡ true))
add_orders_example =
    add_orders simple_epoll new_one 100 40 event_read event_read (some 10) (some 11) caller caller
      new_one-IsConsistent new_one_small (omega arith) read_is_real read_is_real refl refl refl refl
      (λ z. simple_epoll-Accepts z 100) (λ z. simple_epoll-Accepts z 40)
