-- ===== src/Hook/Socket/Opening.antt =====
-- What socket makes of a new descriptor.
use fiber_async.Prelude.{
  ℕ, ◌≡◌, refl, ap, ◌∙◌, none, some, Bool, true, false, arith, ◌==◌, ok, pos, u64_max, update,
}
use fiber_async.FdManager.{FdManager, FdCtx, FileStatus, get_timeout, new_fd_ctx}
use fiber_async.FdManager.Slots.{slot, IsLarge, get_lem}
use fiber_async.FdManager.Init.{new_fd_ctx_socket}
use fiber_async.Hook.Io.Passing.{hooked}
use fiber_async.Hook.Socket.{socket}
use fiber_async.Hook.Socket.Timeouts.{direction}

update_same : (f : ℕ → FdCtx) (p : ℕ) (c : FdCtx) → update f p c p ≡ c
update_same f p c = ground arith

-- With hooks and a table of at least 64 slots, socket on a new descriptor that the kernel says is a
-- socket returns it with a context that later calls are hooked by: it is open, and not non-blocking
-- for its user. Its two timeouts are (uint64_t)-1, which is none, and other descriptors are as before.
pub socket_lem :
    (m : FdManager) (n p : ℕ) (st : FileStatus)
    → IsLarge m
    → slot m n ≡ none
    → st.stat ≡ some true
    → (m' : FdManager) × (socket true m (pos n) st p ≡ ok (m', pos n))
      × (slot m' n ≡ some p)
      × (hooked m' true n ≡ true)
      × ((b : Bool) → get_timeout (m'.ctxs p) (direction b) ≡ u64_max)
      × ((k : ℕ) → (n == k) ≡ false → slot m' k ≡ slot m k)
unfolding socket
socket_lem m n p st large nothing is_a_socket =
    let (m', r, g) = get_lem m n st p large true in
    let (unclosed, sock, plain, times) = new_fd_ctx_socket (pos n) st is_a_socket in
    let made : r ≡ some p = ground (arith, g.found) in
    let there : slot m' n ≡ some p = ground (arith, g.slots n, made) in
    let heap : m'.ctxs ≡ update m.ctxs p (new_fd_ctx (pos n) st).0 = ground (arith, g.heap) in
    let ctx : m'.ctxs p ≡ (new_fd_ctx (pos n) st).0 =
      ap (λ (f : ℕ → FdCtx). f p) heap ∙ update_same m.ctxs p (new_fd_ctx (pos n) st).0 in
    (
      m',
      rw g.runs refl,
      there,
      ground (arith, there, ctx, unclosed, sock, plain),
      λ b. ap (λ c. get_timeout c (direction b)) ctx ∙ times (direction b),
      λ k other. ground (arith, g.slots k),
    )
