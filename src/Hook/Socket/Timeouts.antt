-- ===== src/Hook/Socket/Timeouts.antt =====
-- A timeout that setsockopt sets, and what else it changes.
use fiber_async.Prelude.{
  ℕ, ◌+◌, ◌*◌, ◌/◌, ◌^◌, ◌<◌, ◌≡◌, refl, some, true, false, arith, ok, pos, ◌==◌, lt→ltb, update,
  Bool,
}
use fiber_async.FdManager.{
  FdCtx, FdManager, OptName, so_rcvtimeo, so_sndtimeo, get_timeout, set_timeout,
}
use fiber_async.FdManager.Slots.{slot, get_there}
use fiber_async.FdManager.Init.{get_timeout-set_timeout}
use fiber_async.Hook.{no_status}
use fiber_async.Hook.Socket.{setsockopt}

-- One of the two timeouts, and the other.
abbrev pub direction : Bool → OptName
direction true = so_rcvtimeo
direction false = so_sndtimeo

abbrev pub opposite : Bool → OptName
opposite true = so_sndtimeo
opposite false = so_rcvtimeo

module _ (m : FdManager) (n p sec usec : ℕ) (here : slot m n ≡ some p)
    (fits : sec * 1000 + usec / 1000 < 2 ^ 63) where
  abbrev changed : Bool → FdManager
  changed b = record m {
    ctxs = update m.ctxs p (set_timeout (m.ctxs p) (direction b) (sec * 1000 + usec / 1000));
  }

  setsockopt_runs :
      (b : Bool) → setsockopt true m (pos n) true (direction b) sec usec ≡ ok (changed b)
  unfolding setsockopt
  setsockopt_runs true =
      rw (get_there m n p false no_status 0 here, lt→ltb (sec * 1000 + usec / 1000) (2 ^ 63) fits)
        refl
  setsockopt_runs false =
      rw (get_there m n p false no_status 0 here, lt→ltb (sec * 1000 + usec / 1000) (2 ^ 63) fits)
        refl

  set_direction :
      (b : Bool) (c : FdCtx) (v : ℕ)
      → (get_timeout (set_timeout c (direction b) v) (direction b) ≡ v)
        × (get_timeout (set_timeout c (direction b) v) (opposite b) ≡ get_timeout c (opposite b))
  set_direction true c v =
      let (same, both, kept, kept') = get_timeout-set_timeout c so_rcvtimeo so_rcvtimeo v in
      (same, kept)
  set_direction false c v =
      let (same, both, kept, kept') = get_timeout-set_timeout c so_sndtimeo so_sndtimeo v in
      (same, kept')

  -- With hooks, setsockopt of SO_RCVTIMEO or SO_SNDTIMEO on a descriptor with a context, for a time of
  -- fewer than 2^63 milliseconds, always returns. The calls that look this timeout up then find the
  -- time in milliseconds, rounded down; the other timeout, the other contexts and the table are as
  -- before.
  pub setsockopt-get_timeout :
      (b : Bool)
      → (m' : FdManager) × (setsockopt true m (pos n) true (direction b) sec usec ≡ ok m')
        × (slot m' n ≡ some p)
        × (get_timeout (m'.ctxs p) (direction b) ≡ sec * 1000 + usec / 1000)
        × (get_timeout (m'.ctxs p) (opposite b) ≡ get_timeout (m.ctxs p) (opposite b))
        × ((q : ℕ) → (p == q) ≡ false → m'.ctxs q ≡ m.ctxs q)
        × (m'.datas ≡ m.datas)
  setsockopt-get_timeout b =
      let (same, kept) = set_direction b (m.ctxs p) (sec * 1000 + usec / 1000) in
      (
        changed b,
        setsockopt_runs b,
        here,
        ground (arith, same),
        ground (arith, kept),
        λ q other. ground arith,
        refl,
      )
