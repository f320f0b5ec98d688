-- ===== src/Lib.antt =====
-- fiber_async: an asynchronous runtime of fibers in C++. A Scheduler runs tasks, which are fibers
-- or callbacks, on its threads; an IOManager is a Scheduler whose idle fiber waits in epoll and
-- hands to the scheduler the tasks of the descriptors that are ready and the callbacks of the
-- timers that are due; hooked system calls of a socket register the calling fiber and yield.
--
-- Timer: include/timer.hpp and src/timer.cc. `TimerManager` has the heap of Timer objects and the
--   std::set, a list in the comparator's order. `cancel`, `refresh`, `reset`, `add_timer`,
--   `list_expired_cb` and `get_next_timer` are the operations of the same names. Timer/Order is
--   about the comparator, Timer/Set about the set, Timer/Invariant and Timer/Reach about the
--   invariant, Timer/Fired, Timer/Expiry and Timer/Due about listExpiredCb, Timer/Added about
--   add_timer, Timer/Armed about a timer that is waited for through any other calls, Timer/Wait
--   about the time to sleep, Timer/Reschedule about refresh and reset, Timer/Rollover about the
--   clock.
-- IoManager: include/iomanager.hpp and src/iomanager.cc. `IoManager` has the table of contexts,
--   the count of pending events, the tasks posted to schedulers and the state of epoll. epoll is
--   the parameter `Epoll` of IoManager/Interest, with what epoll_ctl(2) documents. `process_event`
--   is what `idle` does with one event that epoll_wait reports. IoManager/Invariant says when
--   table, count and epoll agree; IoManager/Initial, IoManager/Adding, IoManager/Events,
--   IoManager/CancelAll and IoManager/Processing are about the operations; IoManager/Reach and
--   IoManager/Short are about them at a manager whose count is short. IoManager/Idle has one turn
--   of the loop of `idle`, with the timers of the same manager; IoManager/Idle/Woken is about a
--   timer that is past due, IoManager/Idle/Handled about the tasks that the reports hand over.
--   IoManager/Waiting has an abstract manager, a map from descriptors and events to tasks, and
--   what each operation is on it: Waiting/Effects is about the operations on one event,
--   Waiting/Reports and Waiting/Views about what happens, Waiting/All about cancelAll,
--   Waiting/Adding about addEvent, Waiting/Refines about sequences of
--   operations. IoManager/Races has two threads in addEvent. IoManager/Pipe has `tickle` and its
--   pipe, which is the parameter `Pipe`; IoManager/Lifecycle has constructor and destructor.
-- Scheduler: include/scheduler.hpp and src/scheduler.cc. `pick` is the search of the queue in
--   `run`, `turn`, `finish` and `idle_round` are the steps of a thread in `run`. Scheduler/System
--   lets any number of threads interleave; Scheduler/Drained is about the tasks. Scheduler/Tasks
--   has `run_task`, what one thread does with the fiber of the task that it picked, and
--   Scheduler/Tasks/Caller has `run` in the root fiber of the thread that made the scheduler.
--   Scheduler/Pool has the constructor, `start` and `stop`, over the threads of Thread.
-- Thread: include/thread.hpp and src/thread.cc. pthreads is the parameter `Pthreads`.
-- Fiber: include/fiber.hpp and src/fiber.cc, the fibers of one thread. swapcontext saves and takes
--   up a flow, named by the fiber whose code it is. Fiber/Switch and Fiber/Misuse are about single
--   calls, Fiber/Orderly about any sequence of them on a worker thread, Fiber/Stints about one
--   resume with the return to the main fiber, Fiber/Calling about the thread that made a
--   scheduler.
-- FdManager: include/fd_manager.hpp and src/fd_manager.cc, the table of descriptors.
--   FdManager/Slots and FdManager/Init are about table and contexts, FdManager/Locking about the
--   lock, FdManager/Races about threads that call `get` at the same time.
-- Hook: src/hook.cc. Hook has fcntl and ioctl where they handle O_NONBLOCK; the system's own are
--   the parameter `System`; Hook/Commands has the other commands of fcntl. Hook/Io has do_io over
--   the answers of the system, with the timers and the manager that it registers with:
--   Hook/Io/First and Hook/Io/Calm are about what it returns, Hook/Io/Waiting about one wait,
--   Hook/Io/Passing about calls that it does not hook, Hook/Io/Races about the event and the
--   timeout in either order. Hook/Sleep has the sleep family, and Hook/Sleep/Resumed its way
--   through timers and idle loop; Hook/Socket has socket, accept, the calls that move data, close
--   and setsockopt.
-- Lock: include/mutex.hpp, the scoped locks and the CAS lock. Lock/Mutexes has the classes that
--   the scoped locks wrap; pthreads is the parameter `PthreadLocks`. Lock/Mutexes/Restores runs a
--   scope on them.
-- Prelude: helpers. `Outcome` is how a call ends: with a value, by an abort, by an exception, or
--   in undefined behaviour; Prelude/Words has the wrap-around of 64 bits; Prelude/Vector has
--   vectors and their indexing by an int.
--
-- Addresses, callbacks and fibers are natural numbers. uint64_t is a number with its wrap-around
-- written out, where the source adds or subtracts. The loops of the modelled code run over lists,
-- and do_io over the sequence of the system's answers; only `drain` takes fuel, of which one more
-- than the bytes in the pipe is enough. A clock is the sequence of its readings. The steps of
-- threads are atomic where the source holds a mutex.
--
-- Not modelled: connect, which is commented out; the requests of ioctl that are passed on;
-- addConditionTimer, which do_io calls and no class declares, and is a parameter; how the root
-- fiber shares the queue with the threads; output; Semaphore; the examples.
mod Prelude
pub mod Lock
pub mod Thread
pub mod Fiber
pub mod FdManager
pub mod IoManager
pub mod Scheduler
pub mod Timer
pub mod Hook
