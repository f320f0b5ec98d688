-- ===== src/IoManager/Idle/Woken.antt =====
-- What a turn of the idle loop posts for a timer that is armed and past due.
use fiber_async.Prelude.{
  ℤ, ℕ, ◌≡◌, ◌<◌, refl, ap, ◌∙◌, List, [], ◌∷◌, ◌++◌, Option, some, Bool, true, false, arith, ok,
  contains, length, ◌==◌,
}
use mathlib.Core.List.{append_assoc}
use fiber_async.Timer.{TimerManager, Callback}
use fiber_async.Timer.Armed.{IsArmed, late_cbs}
use fiber_async.IoManager.{Posted, run_cb, IoManager, stopping}
use fiber_async.IoManager.Interest.{Epoll}
use fiber_async.IoManager.Firing.{IsShort}
use fiber_async.IoManager.Idle.{Report, reports, Turned, yields, task_of_cb, post_cbs, idle_turn}
use fiber_async.IoManager.Idle.Reports.{AllFit}
use fiber_async.IoManager.Idle.Turn.{timer_tasks, idle_turn_lem}

post_cbs-append :
    (self : ℕ) (a b : List (Option Callback))
    → post_cbs self (a ++ b) ≡ post_cbs self a ++ post_cbs self b
unfolding post_cbs
post_cbs-append self [] b = refl
post_cbs-append self (x ∷ a) b =
    ap (λ l. record { scheduler = self; task = task_of_cb x } ∷ l) (post_cbs-append self a b)

post_cbs-split :
    (self : ℕ) (cb : Callback) (a b : List (Option Callback))
    → post_cbs self (a ++ some cb ∷ b)
      ≡ post_cbs self a ++ record { scheduler = self; task = run_cb cb } ∷ post_cbs self b
unfolding post_cbs task_of_cb
post_cbs-split self cb a b = post_cbs-append self a (some cb ∷ b)

length_pos : (xs : List ℕ) (p : ℕ) → contains xs p ≡ true → (length xs == 0) ≡ false
length_pos [] p h = cc
length_pos (x ∷ xs) p h = ground arith

-- A turn that serves the reports and posts, among others, the task.
abbrev pub Posts : (e : Epoll) → IoManager e → Posted → Turned e → Type 0
Posts e m task t =
    (m' : IoManager e) × (tm' : TimerManager) × (ms : ℤ) × (before : List Posted) × (after : List
      Posted)
    × (t ≡ yields m' tm' ms)
    × (m'.posted ≡ m.posted ++ (before ++ task ∷ after))

module _ (e : Epoll) (m : IoManager e) (tm : TimerManager) (self owed : ℕ) (clock : ℕ → ℕ)
    (mark : ℕ) (rs : List Report) (v : IsShort e m owed) (fresh : contains tm.timers mark ≡ false)
    (fit : AllFit m.contexts rs) where
  -- A turn after an armed timer's due time, on reports that are each of another descriptor and fit what
  -- is waited for, does not stop, whatever the scheduler says, always comes to its `yield`, and posts
  -- the timer's callback to the manager.
  pub armed_posted :
      (p due : ℕ) (cb : Callback) (later : ℕ) (scheduler_stopping : Bool)
      → IsArmed tm p due cb
      → due < clock 0
      → (t : Turned e) × (idle_turn e m tm self scheduler_stopping later (reports rs) clock mark
          ≡ ok t)
        × Posts e m (record { scheduler = self; task = run_cb cb }) t
  unfolding stopping
  armed_posted p due cb later scheduler_stopping armed late =
      let (t, runs, (m', tm'', wait, ps, is, valid, short, posted, many, handed, waits)) =
        idle_turn_lem e m tm self owed clock mark rs v armed.valid fresh fit scheduler_stopping
          later (ground (arith, length_pos tm.timers p armed.held)) in
      let (a, b, split) = late_cbs armed (clock 0) mark late in
      (
        t,
        runs,
        (
          m',
          tm'',
          wait,
          post_cbs self a,
          post_cbs self b ++ ps,
          is,
          posted
              ∙ append_assoc m.posted (timer_tasks tm self (clock 0) mark) ps
              ∙ ap (λ l. m.posted ++ (l ++ ps))
                  (ap (post_cbs self) split ∙ post_cbs-split self cb a b)
              ∙ ap (λ l. m.posted ++ l)
                  (append_assoc (post_cbs self a)
                    (record { scheduler = self; task = run_cb cb } ∷ post_cbs self b) ps),
        ),
      )
