-- ===== src/Hook/Socket.antt =====
-- src/hook.cc: socket, accept and the calls that move data, close, and setsockopt, as they are hooked.
-- What the system's own functions answer is an argument: `answer` of socket is the descriptor that it
-- returns, and `st` and `p` are the kernel's status of a descriptor and the address of a new context.
pub mod Opening
pub mod Closing
pub mod Timeouts
pub mod Tests
use fiber_async.Prelude.{
  ℕ, ◌+◌, ◌*◌, ◌/◌, ◌^◌, none, some, List, Bool, true, false, not, if◌then◌else◌, Outcome, ok,
  ◌>>=◌, ◌>>◌, ℤ, pos, negsuc, update, ltb, defined_if,
}
use fiber_async.FdManager.{
  FdManager, FileStatus, OptName, so_rcvtimeo, so_sndtimeo, so_other, get, del, set_timeout,
}
use fiber_async.IoManager.{Event, event_read, event_write, Caller, cancel_all}
use fiber_async.IoManager.Interest.{Epoll}
use fiber_async.Hook.{look_up}
use fiber_async.Hook.Io.{Arm, World, Round, Ended, returned, pending, do_io}

-- The calls that go through do_io.
pub data Call : Type 0 where
  accept_call read_call readv_call recv_call recvfrom_call recvmsg_call : Call
  write_call writev_call send_call sendto_call sendmsg_call : Call

-- The event that each waits for, and the option that its timeout is under.
pub waits_on : Call → Event × OptName
waits_on accept_call = (event_read, so_rcvtimeo)
waits_on read_call = (event_read, so_rcvtimeo)
waits_on readv_call = (event_read, so_rcvtimeo)
waits_on recv_call = (event_read, so_rcvtimeo)
waits_on recvfrom_call = (event_read, so_rcvtimeo)
waits_on recvmsg_call = (event_read, so_rcvtimeo)
waits_on write_call = (event_write, so_sndtimeo)
waits_on writev_call = (event_write, so_sndtimeo)
waits_on send_call = (event_write, so_sndtimeo)
waits_on sendto_call = (event_write, so_sndtimeo)
waits_on sendmsg_call = (event_write, so_sndtimeo)

abbrev is_failed : ℤ → Bool
is_failed (pos n) = false
is_failed (negsuc n) = true

-- socket, and the descriptor that it returns. The system fails with -1.
pub socket : Bool → FdManager → ℤ → FileStatus → ℕ → Outcome (FdManager × ℤ)
socket enabled m answer st p =
    if not enabled
    then ok (m, answer)
    else if is_failed answer
    then ok (m, answer)
    else (do (m', found) ← get m answer true st p; ok (m', answer))

-- setsockopt, but for the system's own call, in which every branch ends; `at_socket` is whether
-- `level` is SOL_SOCKET. The time is not negative; its sum is computed in a signed 64-bit integer.
pub setsockopt : Bool → FdManager → ℤ → Bool → OptName → ℕ → ℕ → Outcome FdManager
setsockopt false m fd at_socket opt sec usec = ok m
setsockopt true m fd false opt sec usec = ok m
setsockopt true m fd true (so_other k) sec usec = ok m
setsockopt true m fd true opt sec usec = do
  (m', found) ← look_up m fd
  elim found [
    | none ↦ ok m'
    | some p ↦ do
      defined_if (ltb (sec * 1000 + usec / 1000) (2 ^ 63))
      ok (record m' {
        ctxs = update m'.ctxs p (set_timeout (m'.ctxs p) opt (sec * 1000 + usec / 1000));
      })
  ]

module _ (e : Epoll) where
  -- read, readv, recv, recvfrom, recvmsg, write, writev, send, sendto and sendmsg; and what accept
  -- begins with.
  pub transfer :
      Arm → Bool → World e → Call → ℤ → Caller → Bool → List (Round e) → Outcome (Ended e)
  unfolding waits_on
  transfer arm enabled w call fd who manager rs =
      do_io e arm enabled w
        (record {
          fd = fd;
          event = (waits_on call).0;
          timeout_so = (waits_on call).1;
          who = who;
          manager = manager;
        })
        rs

  -- accept.
  pub accept :
      Arm → Bool → World e → ℤ → Caller → Bool → List (Round e) → FileStatus → ℕ → Outcome (Ended e)
  unfolding transfer
  accept arm enabled w s who manager rs st p =
      transfer arm enabled w accept_call s who manager rs >>= λ ended. elim ended [
        | pending w' calls ↦ ok (pending w' calls)
        | returned w' a calls ↦ if is_failed a.value then ok (returned w' a calls) else (do
          (fds, found) ← get w'.fds a.value true st p
          ok (returned (record w' { fds = fds }) a calls))
      ]

  -- close, up to the system's own call, in which every branch ends; `manager` is whether
  -- IOManager::GetThis() is not null.
  pub close : Bool → World e → ℤ → Bool → Outcome (World e)
  close enabled w fd manager =
      if not enabled
      then ok w
      else look_up w.fds fd >>= λ (fds, found). elim found [
        | none ↦ ok (record w { fds = fds })
        | some p ↦ (if manager then cancel_all e w.io fd else ok (w.io, false)) >>= λ (io, any).
            del fds fd >>= λ fds'. ok (record w { fds = fds'; io = io })
      ]
