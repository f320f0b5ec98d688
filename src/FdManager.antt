-- ===== src/FdManager.antt =====
-- include/fd_manager.hpp and src/fd_manager.cc: what is kept for each file descriptor. An FdCtx::ptr
-- is a number, the address of the object, and `ctxs` is the heap of these objects; the vector
-- `m_datas` holds nullable pointers. What the kernel answers about a descriptor is an argument.
pub mod Init
pub mod Slots
pub mod Locking
pub mod Races
pub mod Tests
use fiber_async.Prelude.{
  ℕ, zero, suc, List, Option, some, none, Bool, true, false, not, ◌||◌, if◌then◌else◌, Outcome, ok,
  ◌>>=◌, is_some, update, u64_max, ℤ, pos, negsuc, at, put_at, size_le, resize, replicate, scaled,
}

pub record FdCtx : Type 0 where
  pub is_init : Bool
  pub is_socket : Bool
  pub sys_nonblock : Bool
  pub user_nonblock : Bool
  pub is_closed : Bool
  pub fd : ℤ
  pub recv_timeout : ℕ
  pub send_timeout : ℕ

-- The flags of fcntl: the bit O_NONBLOCK, and the other bits.
pub record Flags : Type 0 where
  pub nonblock : Bool
  pub rest : ℕ

-- What fstat (`none` for -1, otherwise S_ISSOCK of the mode) and fcntl(F_GETFL) answer.
pub record FileStatus : Type 0 where
  pub stat : Option Bool
  pub flags : Flags

-- A socket option's name.
pub data OptName : Type 0 where
  so_rcvtimeo so_sndtimeo : OptName
  so_other : ℕ → OptName

-- The two results of fstat, as `init` stores them.
pub store_stat : Option Bool → FdCtx → FdCtx
store_stat none c = record c { is_init = false; is_socket = false }
store_stat (some socket) c = record c { is_init = true; is_socket = socket }

-- FdCtx::init. With it comes the argument of the fcntl(F_SETFL) that it makes, if it makes one.
pub init : FdCtx → FileStatus → FdCtx × Option Flags
unfolding store_stat
init c st =
    if c.is_init
    then (c, none)
    else (let c' =
          store_stat st.stat (record c { recv_timeout = u64_max; send_timeout = u64_max }) in
        (
          record c' { sys_nonblock = c'.is_socket; user_nonblock = false; is_closed = false },
          if c'.is_socket
              then (if st.flags.nonblock then none else some (record st.flags { nonblock = true }))
              else none,
        ))

-- The constructor FdCtx(fd).
pub new_fd_ctx : ℤ → FileStatus → FdCtx × Option Flags
unfolding init
new_fd_ctx fd st =
    init
      (record {
        is_init = false;
        is_socket = false;
        sys_nonblock = false;
        user_nonblock = false;
        is_closed = false;
        fd = fd;
        recv_timeout = u64_max;
        send_timeout = u64_max;
      })
      st

pub set_timeout : FdCtx → OptName → ℕ → FdCtx
set_timeout c so_rcvtimeo v = record c { recv_timeout = v }
set_timeout c so_sndtimeo v = record c { send_timeout = v }
set_timeout c (so_other n) v = record c { send_timeout = v }

unfoldable pub get_timeout : FdCtx → OptName → ℕ
get_timeout c so_rcvtimeo = c.recv_timeout
get_timeout c so_sndtimeo = c.send_timeout
get_timeout c (so_other n) = c.send_timeout

unfoldable pub set_user_nonblock : FdCtx → Bool → FdCtx
set_user_nonblock c v = record c { user_nonblock = v }

pub record FdManager : Type 0 where
  pub ctxs : ℕ → FdCtx
  pub datas : List (Option ℕ)

-- The constructor: 64 null pointers.
pub new_fd_manager : (ℕ → FdCtx) → FdManager
new_fd_manager ctxs = record { ctxs = ctxs; datas = replicate 64 none }

-- The part of `get` under the write lock; `p` is the address of the new object.
pub create : FdManager → ℤ → FileStatus → ℕ → Outcome (FdManager × Option ℕ)
create m fd st p = do
  let grown = if size_le m.datas fd then resize none (scaled fd) m.datas else m.datas
  datas ← put_at grown fd (some p)
  ok (record m { ctxs = update m.ctxs p (new_fd_ctx fd st).0; datas = datas }, some p)

abbrev is_minus_one : ℤ → Bool
is_minus_one (negsuc zero) = true
is_minus_one (negsuc (suc n)) = false
is_minus_one (pos n) = false

-- FdManager::get.
pub get : FdManager → ℤ → Bool → FileStatus → ℕ → Outcome (FdManager × Option ℕ)
get m fd auto_create st p =
    if is_minus_one fd
    then ok (m, none)
    else if size_le m.datas fd
    then (if not auto_create then ok (m, none) else create m fd st p)
    else (do
      d ← at m.datas fd
      if is_some d || not auto_create then ok (m, d) else create m fd st p)

-- FdManager::del.
pub del : FdManager → ℤ → Outcome FdManager
del m fd =
    if size_le m.datas fd
    then ok m
    else (do datas ← put_at m.datas fd none; ok (record m { datas = datas }))
