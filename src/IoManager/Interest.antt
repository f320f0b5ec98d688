-- ===== src/IoManager/Interest.antt =====
-- epoll as the program uses it: the interest list of one epoll instance, and epoll_ctl. The entry of
-- the tickle pipe, which the constructor makes and no other operation touches, is left out of
-- `interest`.
use fiber_async.Prelude.{
  ℕ, ◌≡◌, Option, some, none, Bool, true, false, ◌==◌, if◌then◌else◌, is_some,
}

-- READ is EPOLLIN (0x1) and WRITE is EPOLLOUT (0x4).
pub record Mask : Type 0 where
  pub read : Bool
  pub write : Bool

-- NONE.
abbrev pub no_events : Mask
no_events = record { read = false; write = false }

pub data CtlOp : Type 0 where
  ctl_add ctl_mod ctl_del : CtlOp

-- The events of an epoll_event; `edge` is EPOLLET.
pub record EpollEvent : Type 0 where
  pub mask : Mask
  pub edge : Bool

abbrev pub registered : CtlOp → EpollEvent → Option EpollEvent
registered ctl_add ev = some ev
registered ctl_mod ev = some ev
registered ctl_del ev = none

abbrev pub needs_entry : CtlOp → Bool
needs_entry ctl_add = false
needs_entry ctl_mod = true
needs_entry ctl_del = true

-- What epoll_ctl(2) documents. `ctl` is `none` where the call returns -1.
pub record Epoll : Type 1 where
  pub Kernel : Type 0
  pub interest : Kernel → ℕ → Option EpollEvent
  pub ctl : Kernel → CtlOp → ℕ → EpollEvent → Option Kernel
  -- A call that succeeds changes the entry of its descriptor alone.
  pub ctl_effect :
      (k : Kernel) (op : CtlOp) (n : ℕ) (ev : EpollEvent) (k' : Kernel)
      → ctl k op n ev ≡ some k'
      → (i : ℕ) → interest k' i ≡ (if n == i then registered op ev else interest k i)
  -- EEXIST and ENOENT.
  pub ctl_entry :
      (k : Kernel) (op : CtlOp) (n : ℕ) (ev : EpollEvent) (k' : Kernel)
      → ctl k op n ev ≡ some k'
      → is_some (interest k n) ≡ needs_entry op
  -- On a descriptor that is registered, the change or removal of its entry succeeds.
  pub ctl_succeeds :
      (k : Kernel) (op : CtlOp) (n : ℕ) (ev : EpollEvent)
      → is_some (interest k n) ≡ true
      → needs_entry op ≡ true
      → is_some (ctl k op n ev) ≡ true
