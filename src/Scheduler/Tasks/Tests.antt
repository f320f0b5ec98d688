-- ===== src/Scheduler/Tasks/Tests.antt =====
-- A worker thread that runs a callback, which makes a fiber.
use fiber_async.Prelude.{some, none, false, true}
use fiber_async.Fiber.{new_fiber}
use fiber_async.Scheduler.{ScheduleTask}
use fiber_async.Scheduler.Tasks.{Stretch}

-- The code makes the fiber 3, registers itself and yields.
abbrev makes_and_waits : Stretch
makes_and_waits = record { acts = λ a. new_fiber a 3 (some 9) 0 true; ends = false; holders = 1 }

abbrev callback_5 : ScheduleTask
callback_5 = record { fiber = none; cb = some 5; thread = none }
