-- ===== src/Hook.antt =====
-- src/hook.cc: fcntl with F_SETFL and F_GETFL, and ioctl with FIONBIO, as they are hooked.
-- The system's own functions are the parameter `k`. A descriptor's flags are an int, which is the bit
-- O_NONBLOCK and the 31 other bits; -1 has them all.
pub mod Commands
pub mod Nonblock
pub mod Sleep
pub mod Io
pub mod Socket
pub mod Tests
use fiber_async.Prelude.{
  ℕ, Option, some, none, Bool, true, false, not, ◌||◌, if◌then◌else◌, Outcome, ok, ◌>>=◌, update, ℤ,
  ◌≡◌,
}
use fiber_async.FdManager.{FdCtx, Flags, FileStatus, FdManager, get, set_user_nonblock}

-- The system's fcntl and ioctl. A call that returns -1 is `none`.
pub record System : Type 1 where
  pub Kernel : Type 0
  pub getfl : Kernel → ℤ → Flags
  pub setfl : Kernel → ℤ → Flags → Option Kernel
  pub fionbio : Kernel → ℤ → Bool → Option Kernel
  -- A call that succeeds leaves O_NONBLOCK as it was asked for.
  pub setfl_effect :
      (k : Kernel) (fd : ℤ) (f : Flags) (k' : Kernel)
      → setfl k fd f ≡ some k'
      → (getfl k' fd).nonblock ≡ f.nonblock
  pub fionbio_effect :
      (k : Kernel) (fd : ℤ) (b : Bool) (k' : Kernel)
      → fionbio k fd b ≡ some k'
      → (getfl k' fd).nonblock ≡ b

-- FdMgr::GetInstance()->get(fd), which creates nothing.
abbrev pub no_status : FileStatus
no_status = record { stat = none; flags = record { nonblock = false; rest = 0 } }

abbrev pub look_up : FdManager → ℤ → Outcome (FdManager × Option ℕ)
look_up m fd = get m fd false no_status 0

-- `ctx->isClose() || !ctx->isSocket()`.
abbrev pub unhooked : FdCtx → Bool
unhooked c = c.is_closed || not c.is_socket

module _ (k : System) where
  pub record Hooked : Type 0 where
    pub fds : FdManager
    pub kernel : k.Kernel

  -- What the system's call leaves, and whether it succeeded.
  abbrev pub after : Hooked → Option k.Kernel → Hooked × Bool
  after s none = (s, false)
  after s (some kernel) = (record s { kernel = kernel }, true)

  abbrev pub user_wants : FdManager → ℕ → Bool → FdManager
  user_wants m p b = record m { ctxs = update m.ctxs p (set_user_nonblock (m.ctxs p) b) }

  -- fcntl(fd, F_SETFL, arg).
  pub fcntl_setfl : Hooked → ℤ → Flags → Outcome (Hooked × Bool)
  fcntl_setfl s fd arg = do
    (fds, found) ← look_up s.fds fd
    elim found [
      | none ↦ ok (after s (k.setfl s.kernel fd arg))
      | some p ↦
          if unhooked (fds.ctxs p)
          then ok (after s (k.setfl s.kernel fd arg))
          else ok (
              after (record s { fds = user_wants fds p arg.nonblock })
                (k.setfl s.kernel fd (record arg { nonblock = (fds.ctxs p).sys_nonblock })))
    ]

  -- fcntl(fd, F_GETFL).
  pub fcntl_getfl : Hooked → ℤ → Outcome Flags
  fcntl_getfl s fd = do
    let arg = k.getfl s.kernel fd
    (fds, found) ← look_up s.fds fd
    elim found [
      | none ↦ ok arg
      | some p ↦
          if unhooked (fds.ctxs p)
          then ok arg
          else ok (record arg { nonblock = (fds.ctxs p).user_nonblock })
    ]

  -- ioctl(fd, FIONBIO, arg).
  pub ioctl_fionbio : Hooked → ℤ → Bool → Outcome (Hooked × Bool)
  ioctl_fionbio s fd user_nonblock = do
    (fds, found) ← look_up s.fds fd
    elim found [
      | none ↦ ok (after s (k.fionbio s.kernel fd user_nonblock))
      | some p ↦
          if unhooked (fds.ctxs p)
          then ok (after s (k.fionbio s.kernel fd user_nonblock))
          else ok (
              after (record s { fds = user_wants fds p user_nonblock })
                (k.fionbio s.kernel fd user_nonblock))
    ]
