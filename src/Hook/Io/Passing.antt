-- ===== src/Hook/Io/Passing.antt =====
-- Calls of do_io that it does not hook.
use fiber_async.Prelude.{
  ℕ, ◌≡◌, refl, inl, inr, List, ◌∷◌, none, some, Bool, true, false, not, ◌||◌, ◌&&◌, arith,
  if◌then◌else◌, ok, pos, Bool-cases, Option-cases,
}
use fiber_async.FdManager.{FdManager}
use fiber_async.FdManager.Slots.{slot, get_absent, get_there}
use fiber_async.IoManager.Interest.{Epoll}
use fiber_async.Hook.{no_status}
use fiber_async.Hook.Io.{failed_with, Arm, World, Round, Request, returned, pass, do_io, ebadf}

-- Whether the thread is hooked and the descriptor has a context that is closed; or one of a socket
-- that is open and that its user has not set non-blocking.
abbrev pub closed_here : FdManager → Bool → ℕ → Bool
closed_here m enabled n =
    enabled && elim (slot m n) [ none ↦ false | some p ↦ (m.ctxs p).is_closed ]

abbrev pub hooked : FdManager → Bool → ℕ → Bool
hooked m enabled n = enabled && elim (slot m n) [
  | none ↦ false
  | some p ↦ not (m.ctxs p).is_closed && ((m.ctxs p).is_socket && not (m.ctxs p).user_nonblock)
]

module _ (e : Epoll) where
  -- do_io on a call that it does not hook, because hooks are off, or the descriptor has no context,
  -- or its context is not of an open socket, or its user has set it non-blocking: it does not wait.
  -- On a context that is closed the system is not called, and the call fails with EBADF; else the
  -- system is called once and do_io returns its answer, EINTR and EAGAIN included. Contexts, timers
  -- and events are as before.
  pub do_io-unhooked :
      (arm : Arm) (enabled : Bool) (w : World e) (q : Request e) (n : ℕ) (r : Round e)
      (rs : List (Round e))
      → q.fd ≡ pos n
      → hooked w.fds enabled n ≡ false
      → do_io e arm enabled w q (r ∷ rs)
        ≡ ok (
            if closed_here w.fds enabled n
            then returned w (failed_with ebadf) 0
            else returned w r.answer 1)
  unfolding do_io pass
  do_io-unhooked arm false w q n r rs fd off = refl
  do_io-unhooked arm true w q n r rs fd off = elim (Option-cases (slot w.fds n)) [
    | inl nothing ↦ rw (fd, get_absent w.fds n no_status 0 nothing, nothing) refl
    | inr (p, here) ↦ elim (Bool-cases (w.fds.ctxs p).is_closed) [
      | inl closed ↦ rw (fd, get_there w.fds n p false no_status 0 here, here, closed) refl
      | inr unclosed ↦
          let not_ours : (not (w.fds.ctxs p).is_socket || (w.fds.ctxs p).user_nonblock) ≡ true =
            ground arith in
          rw (fd, get_there w.fds n p false no_status 0 here, here, unclosed, not_ours) refl
    ]
  ]
