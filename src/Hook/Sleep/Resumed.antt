-- ===== src/Hook/Sleep/Resumed.antt =====
-- A fiber that has called sleep, usleep or nanosleep, and the idle loop of its IOManager.
use fiber_async.Prelude.{
  ℕ, ◌+◌, ◌*◌, ◌/◌, ◌^◌, ◌≡◌, ◌<◌, refl, ◌∙◌, Option, List, some, Bool, true, false, ◌++◌, Outcome,
  ok, contains, u32_mod, u64_mod,
}
use fiber_async.Timer.{TimerManager, Callback, add_timer, list_expired_cb}
use fiber_async.Timer.Invariant.{IsValid}
use fiber_async.Timer.Added.{with_timer}
use fiber_async.Timer.Armed.{
  Meanwhile, Meanwhile-IsArmed, Meanwhile-same, added-IsArmed, early_cbs, early_look,
}
use fiber_async.Timer.Expiry.{rolled_over}
use fiber_async.Timer.Fired.{cbs_of}
use fiber_async.IoManager.{run_cb, IoManager}
use fiber_async.IoManager.Interest.{Epoll}
use fiber_async.IoManager.Firing.{IsShort}
use fiber_async.IoManager.Idle.{Report, reports, Turned, idle_turn}
use fiber_async.IoManager.Idle.Reports.{AllFit}
use fiber_async.IoManager.Idle.Woken.{Posts, armed_posted}
use fiber_async.Hook.Sleep.{Slept, yields, sleep_for, sleep, usleep, nanosleep}
use fiber_async.Hook.Sleep.Wakes.{sleep_ms_lem, nanosleep_ms_lem}

-- A hooked call whose arithmetic does not wrap, and the milliseconds that it is asked for.
pub data Sleeper (tm : TimerManager) (p : ℕ) (cb : Callback) (now : ℕ)
    : Outcome Slept → ℕ → Type 0 where
  by_sleep :
      (seconds : ℕ)
      → seconds * 1000 < u32_mod
      → Sleeper tm p cb now (sleep true (some tm) p seconds cb now) (seconds * 1000)
  by_usleep : (usec : ℕ) → Sleeper tm p cb now (usleep true (some tm) p usec cb now) (usec / 1000)
  by_nanosleep :
      (tv_sec tv_nsec : ℕ)
      → tv_sec * 1000 + tv_nsec / 1000000 < 2 ^ 31
      → Sleeper tm p cb now
          (nanosleep true (some tm) p tv_sec tv_nsec cb now)
          (tv_sec * 1000 + tv_nsec / 1000000)

Sleeper_lem :
    {tm : TimerManager} {p now ms : ℕ} {cb : Callback} {s : Outcome Slept}
    → Sleeper tm p cb now s ms
    → s ≡ sleep_for true (some tm) p ms cb now
unfolding sleep usleep nanosleep
Sleeper_lem (by_sleep seconds whole) = rw (sleep_ms_lem seconds whole) refl
Sleeper_lem (by_usleep usec) = refl
Sleeper_lem (by_nanosleep tv_sec tv_nsec whole) = rw (nanosleep_ms_lem tv_sec tv_nsec whole) refl

module _ (tm : TimerManager) (p : ℕ) (cb : Callback) (now : ℕ) (w : IsValid tm)
    (fresh : contains tm.timers p ≡ false) where
  -- The timers as the call leaves them.
  abbrev pub asleep : ℕ → TimerManager
  asleep ms = with_timer tm p ms (some cb) false now fresh

  Sleeper-eq :
      {s : Outcome Slept} {ms : ℕ}
      → Sleeper tm p cb now s ms
      → s ≡ ok (yields (asleep ms) (add_timer tm p ms (some cb) false now).1)
  unfolding sleep_for
  Sleeper-eq call = Sleeper_lem call

  -- A fiber calls sleep, usleep or nanosleep on valid timers, at the time `now`, for a time of `ms`
  -- milliseconds that does not wrap: the call yields. After it come any calls on the timers, of whatever
  -- threads, that do not cancel or move the fiber's timer, with those of listExpiredCb at clock readings
  -- before `now + ms` that are not a rollover. Another such call of listExpiredCb then hands out the
  -- callbacks of other timers only, and leaves the fiber's timer in the set, as it was.
  pub Sleeper-held :
      {s : Outcome Slept} {ms : ℕ} {tm' : TimerManager} (clock : ℕ → ℕ) (mark : ℕ)
      (cbs : List (Option Callback))
      → Sleeper tm p cb now s ms
      → now + ms < u64_mod
      → Meanwhile p (now + ms) (asleep ms) tm'
      → contains tm'.timers mark ≡ false
      → rolled_over tm' (clock 0) ≡ false
      → clock 0 < now + ms
      → (notified : Bool) × (ps : List ℕ) × (s ≡ ok (yields (asleep ms) notified))
        × ((list_expired_cb tm' clock mark cbs).1 ≡ cbs ++ cbs_of tm'.store ps)
        × (contains ps p ≡ false)
        × ((list_expired_cb tm' clock mark cbs).0.store p ≡ (asleep ms).store p)
        × (contains (list_expired_cb tm' clock mark cbs).0.timers p ≡ true)
  Sleeper-held {ms = ms} clock mark cbs call small while unmarked forward early =
      let start = added-IsArmed tm p ms cb false now fresh w small in
      let armed = Meanwhile-IsArmed start while in
      let (ps, handed, others) = early_cbs armed clock mark cbs unmarked forward early in
      let (same, inside) = early_look armed clock mark cbs unmarked forward early in
      (
        (add_timer tm p ms (some cb) false now).1,
        ps,
        Sleeper-eq call,
        handed,
        others,
        same ∙ Meanwhile-same start while,
        inside ∙ armed.held,
      )

  module _ (e : Epoll) (m : IoManager e) (self owed : ℕ) (clock : ℕ → ℕ) (mark : ℕ)
      (rs : List Report) (v : IsShort e m owed) (fit : AllFit m.contexts rs) where
    -- A fiber calls sleep, usleep or nanosleep on valid timers, at the time `now`, for a time of `ms`
    -- milliseconds that does not wrap: the call yields. After it come any calls on the timers, of
    -- whatever threads, that do not cancel or move the fiber's timer, with those of listExpiredCb at
    -- clock readings before `now + ms` that are not a rollover; so any turns of the idle loop. A turn of
    -- the idle loop after that time, on reports that are each of another descriptor and fit what the
    -- manager then waits for, does not stop the thread, always comes to its `yield`, and posts to the
    -- manager the callback that the call gave to its timer.
    pub Sleeper-Posts :
        {s : Outcome Slept} {ms : ℕ} {tm' : TimerManager} (later : ℕ) (scheduler_stopping : Bool)
        → Sleeper tm p cb now s ms
        → now + ms < u64_mod
        → Meanwhile p (now + ms) (asleep ms) tm'
        → contains tm'.timers mark ≡ false
        → now + ms < clock 0
        → (notified : Bool) × (t : Turned e) × (s ≡ ok (yields (asleep ms) notified))
          × (idle_turn e m tm' self scheduler_stopping later (reports rs) clock mark ≡ ok t)
          × Posts e m (record { scheduler = self; task = run_cb cb }) t
    Sleeper-Posts {ms = ms} {tm' = tm'} later scheduler_stopping call small while unmarked late =
        let armed = Meanwhile-IsArmed (added-IsArmed tm p ms cb false now fresh w small) while in
        let (t, runs, posts) =
          armed_posted e m tm' self owed clock mark rs v unmarked fit p (now + ms) cb later
            scheduler_stopping armed late in
        ((add_timer tm p ms (some cb) false now).1, t, Sleeper-eq call, runs, posts)
