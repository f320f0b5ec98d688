-- ===== src/Hook/Socket/Tests.antt =====
-- A socket that is made, given a timeout and closed, and the theorems on it applied to it.
use fiber_async.Prelude.{
  ℕ, ◌+◌, ◌*◌, ◌/◌, ◌≡◌, refl, List, [], ◌∷◌, ◌++◌, map, none, some, true, false, ok, pos, arith,
  ◌==◌, if◌then◌else◌,
}
use fiber_async.FdManager.{FdManager, get_timeout}
use fiber_async.FdManager.Slots.{slot}
use fiber_async.IoManager.{Event, event_read, event_write, Posted}
use fiber_async.IoManager.Events.{waits_for}
use fiber_async.IoManager.Firing.{IsShort, tasks}
use fiber_async.IoManager.Tests.{simple_epoll, five}
use fiber_async.Hook.Io.{World}
use fiber_async.Hook.Io.Tests.{socket_fds, no_timers, five-IsShort}
use fiber_async.Hook.Socket.{setsockopt, close}
use fiber_async.Hook.Socket.Closing.{tasks_on, close_lem}
use fiber_async.Hook.Socket.Timeouts.{direction, opposite, setsockopt-get_timeout}

setsockopt-get_timeout_example :
    (m' : FdManager) × (setsockopt true socket_fds (pos 3) true (direction true) 2 500999 ≡ ok m')
    × (slot m' 3 ≡ some 9)
    × (get_timeout (m'.ctxs 9) (direction true) ≡ 2 * 1000 + 500999 / 1000)
    × (get_timeout (m'.ctxs 9) (opposite true) ≡ get_timeout (socket_fds.ctxs 9) (opposite true))
    × ((q : ℕ) → (9 == q) ≡ false → m'.ctxs q ≡ socket_fds.ctxs q)
    × (m'.datas ≡ socket_fds.datas)
setsockopt-get_timeout_example =
    setsockopt-get_timeout socket_fds 3 9 2 500999 refl (omega arith) true

-- Descriptor 5 has a context, and waits to read with callback 10.
abbrev reading_world : World simple_epoll
reading_world = record {
  fds = record socket_fds { datas = none ∷ none ∷ none ∷ none ∷ none ∷ some 9 ∷ [] };
  timers = no_timers;
  io = five;
}

close_lem_example :
    (w' : World simple_epoll) × (ps : List Posted) × (close simple_epoll true reading_world
        (pos 5)
        true
      ≡ ok w')
    × IsShort simple_epoll w'.io 0
    × ((k : ℕ) (other : Event)
        → waits_for w'.io.contexts k other
          ≡ (if 5 == k then false else waits_for reading_world.io.contexts k other))
    × (w'.io.posted ≡ reading_world.io.posted ++ ps)
    × (map tasks ps
        ≡ tasks_on simple_epoll reading_world 5 event_read
          ++ tasks_on simple_epoll reading_world 5 event_write)
    × ((k : ℕ) → slot w'.fds k ≡ (if 5 == k then none else slot reading_world.fds k))
    × (w'.fds.ctxs ≡ reading_world.fds.ctxs)
    × (w'.timers ≡ reading_world.timers)
close_lem_example = close_lem simple_epoll reading_world 0 5 9 five-IsShort refl
