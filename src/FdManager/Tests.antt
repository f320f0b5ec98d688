-- ===== src/FdManager/Tests.antt =====
-- A concrete table of descriptors, and the theorems on it applied to it.
use fiber_async.Prelude.{
  ◌≡◌, ◌↔◌, not, ◌&&◌, is_some, ℕ, Option, none, some, true, false, arith, pos, replicate, ok, refl,
  [], ◌∷◌,
}
use fiber_async.FdManager.{FdCtx, FileStatus, FdManager}
use fiber_async.FdManager.Locking.{get_calls, del_calls, is_socket, get_calls-IsBalanced_iff}
use fiber_async.Lock.Scoped.{IsBalanced}
use fiber_async.FdManager.Races.{Phase, looking, returned, interleave, get_orders}
use fiber_async.FdManager.Slots.{slot, Gets, get_lem}

abbrev pub any_ctx : FdCtx
any_ctx = record {
  is_init = false;
  is_socket = false;
  sys_nonblock = false;
  user_nonblock = false;
  is_closed = false;
  fd = pos 0;
  recv_timeout = 0;
  send_timeout = 0;
}

abbrev pub socket : FileStatus
socket = record { stat = some true; flags = record { nonblock = false; rest = 2 } }

abbrev pub fds : FdManager
fds = record { ctxs = λ _. any_ctx; datas = replicate 64 none }

get_lem_example : (m' : FdManager) × (r : Option ℕ) × Gets fds 100 true socket 3 m' r
get_lem_example = get_lem fds 100 socket 3 (omega arith) true

get_calls-IsBalanced_iff_example :
    (IsBalanced (get_calls fds 6 true socket)
      ↔ ((not (is_some (slot fds 6)) && (true && is_socket socket)) ≡ false))
    × IsBalanced del_calls
get_calls-IsBalanced_iff_example = get_calls-IsBalanced_iff fds 6 true socket

get_orders_example :
    ((m' : FdManager) × (phases : ℕ → Phase) × (interleave fds
          (pos 6)
          socket
          (λ i. i)
          (λ k. looking)
          (1 ∷ 1 ∷ 2 ∷ 2 ∷ [])
        ≡ ok (m', phases))
      × (phases 1 ≡ returned (some 1))
      × (phases 2 ≡ returned (some 1))
      × (slot m' 6 ≡ some 1))
    × ((m' : FdManager) × (phases : ℕ → Phase) × (interleave fds
            (pos 6)
            socket
            (λ i. i)
            (λ k. looking)
            (1 ∷ 2 ∷ 1 ∷ 2 ∷ [])
          ≡ ok (m', phases))
        × (phases 1 ≡ returned (some 1))
        × (phases 2 ≡ returned (some 2))
        × (slot m' 6 ≡ some 2))
get_orders_example = get_orders fds 6 socket (omega arith) refl (λ i. i) 1 2 refl
