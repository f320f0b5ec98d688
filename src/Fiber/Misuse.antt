-- ===== src/Fiber/Misuse.antt =====
-- Calls that a fiber's state forbids.
use fiber_async.Prelude.{ℕ, ◌≡◌, ◌≢◌, Option, true, fail, Failure, arith}
use fiber_async.Fiber.{ready, term, FiberThread, resume, yield_fiber, reset, destroy}

-- The program aborts when a fiber that is not READY is resumed, one that is READY yields, one that
-- has not ended or has no stack of its own is reset, and one with a stack that has not ended is
-- destroyed.
pub illegal_call :
    (t : FiberThread) (f : ℕ) (cb : Option ℕ)
    → ((t.fibers f).state ≢ ready → resume t f ≡ fail Failure.aborted)
      × ((t.fibers f).state ≡ ready → yield_fiber t f ≡ fail Failure.aborted)
      × ((t.fibers f).state ≢ term → reset t f cb ≡ fail Failure.aborted)
      × ((t.fibers f).stack ≢ true → reset t f cb ≡ fail Failure.aborted)
      × ((t.fibers f).stack ≡ true → (t.fibers f).state ≢ term → destroy t f ≡ fail Failure.aborted)
unfolding resume yield_fiber reset destroy
illegal_call t f cb = (
  λ h. ground arith,
  λ h. ground arith,
  λ h. ground arith,
  λ h. ground arith,
  λ h k. ground arith,
)
