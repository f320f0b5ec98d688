-- ===== src/Hook/Nonblock.antt =====
-- O_NONBLOCK as the user and as the kernel see it.
use fiber_async.Prelude.{ℕ, ◌≡◌, refl, some, Bool, true, false, arith, ok, pos}
use fiber_async.FdManager.{Flags, set_user_nonblock}
use fiber_async.FdManager.Slots.{slot, get_there}
use fiber_async.Hook.{
  System, Hooked, fcntl_setfl, fcntl_getfl, ioctl_fionbio, unhooked, user_wants, no_status,
}

module _ (k : System) (s : Hooked k) (n p : ℕ) (here : slot s.fds n ≡ some p)
    (hooked : unhooked (s.fds.ctxs p) ≡ false) where
  abbrev marked : Bool → k.Kernel → Hooked k
  marked wants kernel = record { fds = user_wants k s.fds p wants; kernel = kernel }

  reads_back :
      (wants : Bool) (kernel : k.Kernel)
      → fcntl_getfl k (marked wants kernel) (pos n)
        ≡ ok (record (k.getfl kernel (pos n)) { nonblock = wants })
  unfolding fcntl_getfl set_user_nonblock
  reads_back wants kernel =
      ground (arith, get_there (marked wants kernel).fds n p false no_status 0 here, hooked)

  setfl_runs :
      (arg : Flags) (kernel : k.Kernel)
      → k.setfl s.kernel (pos n) (record arg { nonblock = (s.fds.ctxs p).sys_nonblock })
        ≡ some kernel
      → fcntl_setfl k s (pos n) arg ≡ ok (marked arg.nonblock kernel, true)
  unfolding fcntl_setfl
  setfl_runs arg kernel done =
      ground (arith, get_there s.fds n p false no_status 0 here, hooked, done)

  ioctl_runs :
      (wants : Bool) (kernel : k.Kernel)
      → k.fionbio s.kernel (pos n) wants ≡ some kernel
      → ioctl_fionbio k s (pos n) wants ≡ ok (marked wants kernel, true)
  unfolding ioctl_fionbio
  ioctl_runs wants kernel done =
      ground (arith, get_there s.fds n p false no_status 0 here, hooked, done)

  -- On a socket that has a context and is not closed, F_SETFL, when the system's call succeeds, leaves
  -- the kernel's O_NONBLOCK as the context has it for the system, whatever the user asks for; and
  -- F_GETFL then gives the user the O_NONBLOCK that he asked for.
  pub setfl-getfl :
      (arg : Flags) (kernel : k.Kernel)
      → k.setfl s.kernel (pos n) (record arg { nonblock = (s.fds.ctxs p).sys_nonblock })
        ≡ some kernel
      → (t : Hooked k) × (r : Flags) × (fcntl_setfl k s (pos n) arg ≡ ok (t, true))
        × ((k.getfl t.kernel (pos n)).nonblock ≡ (s.fds.ctxs p).sys_nonblock)
        × (fcntl_getfl k t (pos n) ≡ ok r)
        × (r.nonblock ≡ arg.nonblock)
  setfl-getfl arg kernel done = (
    marked arg.nonblock kernel,
    record (k.getfl kernel (pos n)) { nonblock = arg.nonblock },
    setfl_runs arg kernel done,
    k.setfl_effect s.kernel (pos n) (record arg { nonblock = (s.fds.ctxs p).sys_nonblock }) kernel
        done,
    reads_back arg.nonblock kernel,
    refl,
  )

  -- On a socket that has a context and is not closed, FIONBIO, when the system's call succeeds, is
  -- read back by F_GETFL, but it gives the kernel the user's wish: the kernel's O_NONBLOCK may then
  -- differ from what the context has for the system, which stays.
  pub fionbio-getfl :
      (wants : Bool) (kernel : k.Kernel)
      → k.fionbio s.kernel (pos n) wants ≡ some kernel
      → (t : Hooked k) × (r : Flags) × (ioctl_fionbio k s (pos n) wants ≡ ok (t, true))
        × ((k.getfl t.kernel (pos n)).nonblock ≡ wants)
        × ((t.fds.ctxs p).sys_nonblock ≡ (s.fds.ctxs p).sys_nonblock)
        × (fcntl_getfl k t (pos n) ≡ ok r)
        × (r.nonblock ≡ wants)
  unfolding set_user_nonblock
  fionbio-getfl wants kernel done = (
    marked wants kernel,
    record (k.getfl kernel (pos n)) { nonblock = wants },
    ioctl_runs wants kernel done,
    k.fionbio_effect s.kernel (pos n) wants kernel done,
    ground arith,
    reads_back wants kernel,
    refl,
  )
