-- ===== src/Thread/Join.antt =====
-- Which id a thread is joined by.
use fiber_async.Prelude.{
  ℕ, ◌≡◌, refl, Option, none, some, true, false, ◌==◌, ok, fail, Failure, arith, Option-cases, inl,
  inr,
}
use fiber_async.Thread.{
  Pthreads, Thread, Locals, thread_func, new_thread, join, drop_thread, waited,
}

-- A thread, from its constructor on: not begun, or with the id that the kernel gave it.
pub data Begun (self : ℕ) (t : Thread) : Thread → Option ℕ → Type 0 where
  not_yet : Begun self t t none
  begun :
      {t' : Thread} {ls : Locals} {f : ℕ} (gettid : ℕ)
      → thread_func self gettid t ≡ ok (t', ls, f)
      → Begun self t t' (some gettid)

module _ (k : Pthreads) where
  Begun-pid :
      {self : ℕ} {t t' : Thread} {id : Option ℕ} → t.pid ≡ none → Begun self t t' id → t'.pid ≡ id
  unfolding thread_func
  Begun-pid fresh not_yet = fresh
  Begun-pid {t = t} fresh (begun gettid h) = elim (Option-cases t.cb) [
    | inl e ↦ ground (arith, h)
    | inr (f, e) ↦ ground (arith, h)
  ]

  new_thread-pid :
      (kernel kernel' : k.Kernel) (t : Thread) (cb : Option ℕ) (name : ℕ)
      → new_thread k kernel cb name ≡ ok (kernel', t)
      → (t.pid ≡ none) × (k.joinable kernel' t.tid ≡ true)
  unfolding new_thread
  new_thread-pid kernel kernel' t cb name h = elim (Option-cases (k.create kernel)) [
    | inl e ↦ ground (arith, h)
    | inr ((kernel'', tid), e) ↦
        let made = k.create_joinable kernel kernel'' tid e in ground (arith, h, made)
  ]

  kept-tid : {self : ℕ} {t t' : Thread} {id : Option ℕ} → Begun self t t' id → t'.tid ≡ t.tid
  unfolding thread_func
  kept-tid not_yet = refl
  kept-tid {t = t} (begun gettid h) = elim (Option-cases t.cb) [
    | inl e ↦ ground (arith, h)
    | inr (f, e) ↦ ground (arith, h)
  ]

  -- No id that the kernel gave the thread names a joinable thread to pthreads.
  abbrev pub NotJoinable : k.Kernel → Option ℕ → Type 0
  NotJoinable κ none = Unit {0}
  NotJoinable κ (some g) = ((g == 0) ≡ false) × (k.joinable κ g ≡ false)

  pub misses :
      (κ : k.Kernel) (t : Thread) (id : Option ℕ)
      → t.pid ≡ id
      → NotJoinable κ id
      → (join k κ t ≡ fail Failure.undefined) × (drop_thread k κ t ≡ fail Failure.undefined)
  unfolding join drop_thread
  misses κ t none h n = (rw h refl, rw h refl)
  misses κ t (some g) h (real, not_one) = (rw (h, real, not_one) refl, rw (h, real, not_one) refl)

  -- A thread that its constructor has made, whether it has begun or not, at any time when its own
  -- pthread id can be joined, and the id that the kernel gave it is none that pthreads can join: its
  -- `join` and its destructor are undefined behaviour, where pthread_join of its pthread id would
  -- return.
  pub join_misses :
      (kernel kernel' : k.Kernel) (t t' : Thread) (cb : Option ℕ) (name self : ℕ) (id : Option ℕ)
      (κ κ' : k.Kernel)
      → new_thread k kernel cb name ≡ ok (kernel', t)
      → Begun self t t' id
      → k.joinable κ t.tid ≡ true
      → k.join κ t.tid ≡ some κ'
      → NotJoinable κ id
      → (join k κ t' ≡ fail Failure.undefined)
        × (drop_thread k κ t' ≡ fail Failure.undefined)
        × (waited k κ t'.tid ≡ ok κ')
  join_misses kernel kernel' t t' cb name self id κ κ' made b ours joins not_one =
      let (fresh, can) = new_thread-pid kernel kernel' t cb name made in
      let (joining, dropping) = misses κ t' id (Begun-pid fresh b) not_one in
      (joining, dropping, rw (kept-tid b, ours, joins) refl)
