-- ===== src/IoManager/Waiting/Tests.antt =====
-- A concrete manager, and what it keeps of its promise.
use fiber_async.Prelude.{◌≡◌}
use fiber_async.IoManager.Tests.{simple_epoll}
use fiber_async.IoManager.Idle.Tests.{one_handled}
use fiber_async.IoManager.Waiting.{view, replay}
use fiber_async.IoManager.Waiting.Refines.{nothing_promised, commands, Reach-refines}

-- Descriptor 5 was added, and then found to be readable.
Reach-refines_example :
    view simple_epoll one_handled.0 ≡ replay (commands simple_epoll one_handled.1) nothing_promised
Reach-refines_example = Reach-refines simple_epoll one_handled.1
