-- ===== src/IoManager/Idle/Handled.antt =====
-- The loop over the events that epoll_wait reports, as what it hands over to schedulers.
use fiber_async.Prelude.{
  ℕ, ◌≡◌, refl, ◌∙◌, ap, sym, inl, inr, List, [], ◌∷◌, false, arith, ok, ◌>>=◌, get_elem?,
  Option-cases, ◌==◌,
}
use fiber_async.IoManager.{Event, has, Ready, IoManager, process_event}
use fiber_async.IoManager.Interest.{Epoll}
use fiber_async.IoManager.Events.{waits_for}
use fiber_async.IoManager.Firing.{IsShort}
use fiber_async.IoManager.Waiting.{Promise, perform, report, view}
use fiber_async.IoManager.Waiting.Views.{process_event-view}
use fiber_async.IoManager.Idle.{Report, pipe, ready_at, handle_reports}
use fiber_async.IoManager.Idle.Reports.{Fits, AllFit, same_fit, report_lem}

-- The reports, one after the other, on the abstract manager.
abbrev pub handled : List Report → Promise → Promise
handled [] s = s
handled (pipe ∷ rs) s = handled rs s
handled (ready_at n r ∷ rs) s = handled rs (perform (report n r) s)

module _ (e : Epoll) where
  report-view :
      (m m' : IoManager e) (n : ℕ) (r : Ready) (owed : ℕ)
      → IsShort e m owed
      → Fits m.contexts n r
      → process_event e m n r ≡ ok m'
      → view e m' ≡ perform (report n r) (view e m)
  unfolding has
  report-view m m' n r owed v fits h = elim (Option-cases (get_elem? m.contexts n)) [
    | inl past ↦ absurd (ground (arith, fits.0))
    | inr (c, here) ↦
        process_event-view e m m' n c r owed v here (λ b. ground (arith, here, fits.1 b))
          (λ b. ground (arith, here, fits.2 b)) h
  ]

  pub handle_reports-view :
      (m m' : IoManager e) (rs : List Report) (owed : ℕ)
      → IsShort e m owed
      → AllFit m.contexts rs
      → handle_reports e m rs ≡ ok m'
      → view e m' ≡ handled rs (view e m)
  unfolding handle_reports
  handle_reports-view m m' [] owed v h runs = let same : m ≡ m' = cc in ap (view e) (sym same)
  handle_reports-view m m' (pipe ∷ rs) owed v h runs = handle_reports-view m m' rs owed v h runs
  handle_reports-view m m' (ready_at n r ∷ rs) owed v (fits, once, h) runs =
      let (a, ps, goes, short, waits, posted, many) = report_lem e m n r owed v fits in
      let elsewhere : (k : ℕ) (other : Event)
          → (n == k) ≡ false
          → waits_for a.contexts k other ≡ waits_for m.contexts k other =
        λ k other apart. waits k other ∙ rw apart refl in
      let rest : handle_reports e a rs ≡ ok m' =
        ap (λ o. o >>= λ z. handle_reports e z rs) (sym goes) ∙ runs in
      handle_reports-view a m' rs _ short (same_fit m.contexts a.contexts n elsewhere rs once h)
        rest
      ∙ ap (handled rs) (report-view m a n r owed v fits goes)
