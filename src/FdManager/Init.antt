-- ===== src/FdManager/Init.antt =====
-- What a new descriptor context says, and its timeouts.
use fiber_async.Prelude.{
  ℕ, ◌≡◌, ◌↔◌, ◌≢◌, refl, Option, some, none, Bool, true, false, arith, u64_max, ℤ,
}
use fiber_async.FdManager.{
  FdCtx, Flags, FileStatus, OptName, so_rcvtimeo, so_sndtimeo, new_fd_ctx, set_timeout, get_timeout,
}

-- The descriptor's O_NONBLOCK after the call: as an F_SETFL made it, or as it was.
abbrev pub kernel_nonblock : FileStatus → Option Flags → Bool
kernel_nonblock st none = st.flags.nonblock
kernel_nonblock st (some f) = f.nonblock

-- A new context is hooked exactly if fstat succeeds and says that the descriptor is a socket; then
-- the descriptor is non-blocking in the kernel, although its user did not ask for that. No other
-- descriptor has its flags set. There are no timeouts.
pub new_fd_ctx_lem :
    (fd : ℤ) (st : FileStatus)
    → let (c, set) = new_fd_ctx fd st in
      ((c.sys_nonblock ≡ true) ↔ (st.stat ≡ some true))
      × (c.is_socket ≡ c.sys_nonblock)
      × ((c.is_init ≡ false) ↔ (st.stat ≡ none))
      × (c.sys_nonblock ≡ true → kernel_nonblock st set ≡ true)
      × (c.sys_nonblock ≡ false → set ≡ none)
      × (c.user_nonblock ≡ false)
      × (c.recv_timeout ≡ u64_max)
      × (c.send_timeout ≡ u64_max)
unfolding new_fd_ctx
new_fd_ctx_lem fd st = (
  (λ h. ground arith, λ h. ground arith),
  ground arith,
  (λ h. ground arith, λ h. ground arith),
  λ h. ground arith,
  λ h. ground arith,
  ground arith,
  ground arith,
  ground arith,
)

-- A timeout that is set is read back, and the two timeouts are independent; every option name but
-- SO_RCVTIMEO goes to the send timeout.
pub get_timeout-set_timeout :
    (c : FdCtx) (a b : OptName) (v : ℕ)
    → (get_timeout (set_timeout c a v) a ≡ v)
      × (a ≢ so_rcvtimeo → b ≢ so_rcvtimeo → get_timeout (set_timeout c a v) b ≡ v)
      × (get_timeout (set_timeout c so_rcvtimeo v) so_sndtimeo ≡ get_timeout c so_sndtimeo)
      × (get_timeout (set_timeout c so_sndtimeo v) so_rcvtimeo ≡ get_timeout c so_rcvtimeo)
unfolding get_timeout set_timeout
get_timeout-set_timeout c a b v = (ground arith, λ h k. ground arith, refl, refl)

-- The context of a new socket, which later calls are hooked by.
pub new_fd_ctx_socket :
    (fd : ℤ) (st : FileStatus)
    → st.stat ≡ some true
    → ((new_fd_ctx fd st).0.is_closed ≡ false)
      × ((new_fd_ctx fd st).0.is_socket ≡ true)
      × ((new_fd_ctx fd st).0.user_nonblock ≡ false)
      × ((opt : OptName) → get_timeout (new_fd_ctx fd st).0 opt ≡ u64_max)
unfolding new_fd_ctx get_timeout
new_fd_ctx_socket fd st h = (ground arith, ground arith, ground arith, λ opt. ground arith)
