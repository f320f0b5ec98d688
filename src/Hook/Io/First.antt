-- ===== src/Hook/Io/First.antt =====
-- What do_io returns, against the answers of the system.
use fiber_async.Prelude.{
  ℕ, zero, suc, ◌+◌, ◌≡◌, refl, ap, ◌∙◌, ◌⊎◌, sym, inl, inr, List, [], ◌∷◌, Option, none, some,
  Bool, true, false, arith, ok, pos, length,
}
use fiber_async.FdManager.{get_timeout}
use fiber_async.FdManager.Slots.{slot, get_there}
use fiber_async.IoManager.Interest.{Epoll}
use fiber_async.Hook.{no_status}
use fiber_async.Hook.Io.{
  Answer, failed_with, Kind, interrupted, would_block, final, kind_of, Arm, World, Round, Request,
  Ended, returned, pending, park, unpark, retry, do_io,
}

pub Kind-cases : (k : Kind) → (k ≡ interrupted) ⊎ ((k ≡ would_block) ⊎ (k ≡ final))
Kind-cases interrupted = inl refl
Kind-cases would_block = inr (inl refl)
Kind-cases final = inr (inr refl)

zero_or_suc : (n : ℕ) → (n ≡ 0) ⊎ ((c : ℕ) × (n ≡ suc c))
zero_or_suc zero = inl refl
zero_or_suc (suc n) = inr (n, refl)

module _ (e : Epoll) where
  -- Whether a round is the last: the system answers otherwise than by EINTR or EAGAIN, or the wait
  -- ends by the timeout.
  unfoldable pub stops : Round e → Bool
  stops r = elim (kind_of r.answer) [
    | interrupted ↦ false
    | final ↦ true
    | would_block ↦ elim r.cancelled [ zero ↦ false | suc c ↦ true ]
  ]

  unfoldable pub answer_of : Round e → Answer
  answer_of r = elim (kind_of r.answer) [ would_block ↦ failed_with r.cancelled | _ ↦ r.answer ]

  abbrev one_more : Option (Round e × ℕ) → Option (Round e × ℕ)
  one_more none = none
  one_more (some (r, k)) = some (r, suc k)

  -- The first round that is the last, and its number.
  unfoldable pub first : List (Round e) → Option (Round e × ℕ)
  unfolding stops
  first [] = none
  first (r ∷ rs) = elim (stops r) [ true ↦ some (r, 1) | false ↦ one_more (first rs) ]

  -- No wait fails.
  abbrev pub Goes : Arm → World e → Request e → ℕ → List (Round e) → Type 0
  Goes arm w q to [] = Unit {0}
  Goes arm w q to (r ∷ rs) = elim (kind_of r.answer) [
    | interrupted ↦ Goes arm w q to rs
    | final ↦ Unit {0}
    | would_block ↦
        (waiting : World e) × (w' : World e) × (park e arm w q to r ≡ ok waiting)
        × (unpark e (r.others waiting) to r ≡ ok w')
        × Goes arm w' q to rs
  ]

  abbrev pub ended : World e → ℕ → ℕ → Option (Round e × ℕ) → Ended e
  ended w calls rounds none = pending w (calls + rounds)
  ended w calls rounds (some (r, k)) = returned w (answer_of r) (calls + k)

  ended-one_more :
      (w : World e) (calls rounds : ℕ) (o : Option (Round e × ℕ))
      → ended w (calls + 1) rounds o ≡ ended w calls (suc rounds) (one_more o)
  ended-one_more w calls rounds none = ap (pending w) (omega arith)
  ended-one_more w calls rounds (some (r, k)) = ap (returned w (answer_of r)) (omega arith)

  first-stops : (r : Round e) (rs : List (Round e)) → stops r ≡ true → first (r ∷ rs) ≡ some (r, 1)
  unfolding first
  first-stops r rs h = rw (h, first) refl

  first-goes_on :
      (r : Round e) (rs : List (Round e)) → stops r ≡ false → first (r ∷ rs) ≡ one_more (first rs)
  unfolding first
  first-goes_on r rs h = rw (h, first) refl

  goes_on :
      (r : Round e)
      → ((kind_of r.answer ≡ interrupted) ⊎ ((kind_of r.answer ≡ would_block) × (r.cancelled ≡ 0)))
      → stops r ≡ false
  unfolding stops
  goes_on r (inl is) = rw (is, stops) refl
  goes_on r (inr (is, none_yet)) = rw (is, none_yet, stops) refl

  halts :
      (r : Round e)
      → ((kind_of r.answer ≡ final)
          ⊎ ((kind_of r.answer ≡ would_block) × ((c : ℕ) × (r.cancelled ≡ suc c))))
      → stops r ≡ true
  unfolding stops
  halts r (inl is) = rw (is, stops) refl
  halts r (inr (is, (c, some_code))) = rw (is, some_code, stops) refl

  answer_final : (r : Round e) → kind_of r.answer ≡ final → answer_of r ≡ r.answer
  unfolding answer_of
  answer_final r is = rw (is, answer_of) refl

  answer_waited :
      (r : Round e) → kind_of r.answer ≡ would_block → answer_of r ≡ failed_with r.cancelled
  unfolding answer_of
  answer_waited r is = rw (is, answer_of) refl

  module _ (arm : Arm) (q : Request e) (to : ℕ) where
    again :
        (w : World e) (calls : ℕ) (r : Round e) (rs : List (Round e))
        → stops r ≡ false
        → ended w (calls + 1) (length rs) (first rs)
          ≡ ended w calls (suc (length rs)) (first (r ∷ rs))
    again w calls r rs h =
        ended-one_more w calls (length rs) (first rs)
        ∙ ap (ended w calls (suc (length rs))) (sym (first-goes_on r rs h))

    last :
        (w : World e) (calls : ℕ) (r : Round e) (rs : List (Round e)) (a : Answer)
        → stops r ≡ true
        → answer_of r ≡ a
        → returned w a (calls + 1) ≡ ended w calls (suc (length rs)) (first (r ∷ rs))
    last w calls r rs a h mine =
        ap (λ b. returned w b (calls + 1)) (sym mine)
        ∙ ap (ended w calls (suc (length rs))) (sym (first-stops r rs h))

    retry_again :
        (w waiting w' : World e) (calls : ℕ) (r : Round e) (rs : List (Round e))
        → kind_of r.answer ≡ would_block
        → park e arm w q to r ≡ ok waiting
        → unpark e (r.others waiting) to r ≡ ok w'
        → r.cancelled ≡ 0
        → retry e arm w q to calls (r ∷ rs) ≡ retry e arm w' q to (calls + 1) rs
    unfolding retry
    retry_again w waiting w' calls r rs is parks unparks none_yet =
        rw (is, parks, unparks, none_yet, retry) refl

    retry_timed_out :
        (w waiting w' : World e) (calls c : ℕ) (r : Round e) (rs : List (Round e))
        → kind_of r.answer ≡ would_block
        → park e arm w q to r ≡ ok waiting
        → unpark e (r.others waiting) to r ≡ ok w'
        → r.cancelled ≡ suc c
        → retry e arm w q to calls (r ∷ rs) ≡ ok (returned w' (failed_with (suc c)) (calls + 1))
    unfolding retry
    retry_timed_out w waiting w' calls c r rs is parks unparks some_code =
        rw (is, parks, unparks, some_code, retry) refl

    retry_lem :
        (w : World e) (calls : ℕ) (rs : List (Round e))
        → Goes arm w q to rs
        → (w' : World e) × (retry e arm w q to calls rs
            ≡ ok (ended w' calls (length rs) (first rs)))
    unfolding retry first
    retry_lem w calls [] h = (w, ap (λ n. ok (pending w n)) (omega arith))
    retry_lem w calls (r ∷ rs) h = elim (Kind-cases (kind_of r.answer)) [
      | inl is ↦
          let (w', runs) = retry_lem w (calls + 1) rs (rw (is, Goes) at h) in
          (w', rw (is, retry) (runs ∙ ap ok (again w' calls r rs (goes_on r (inl is)))))
      | inr (inl is) ↦
          let (waiting, w', parks, unparks, rest) = rw (is, Goes) at h in
          elim (zero_or_suc r.cancelled) [
            | inl none_yet ↦
                let (z, runs) = retry_lem w' (calls + 1) rs rest in
                (
                  z,
                  retry_again w waiting w' calls r rs is parks unparks none_yet
                      ∙ runs
                      ∙ ap ok (again z calls r rs (goes_on r (inr (is, none_yet)))),
                )
            | inr (c, some_code) ↦ (
              w',
              retry_timed_out w waiting w' calls c r rs is parks unparks some_code
                  ∙ ap ok (
                      last w' calls r rs (failed_with (suc c)) (halts r (inr (is, (c, some_code))))
                        (answer_waited r is ∙ ap failed_with some_code)),
            )
          ]
      | inr (inr is) ↦ (
        w,
        rw (is, retry) (ap ok (last w calls r rs r.answer (halts r (inl is)) (answer_final r is))),
      )
    ]

    -- On a socket that has a context, is not closed and is not set non-blocking by its user, in a thread
    -- with hooks enabled, as long as no wait fails: do_io returns the first answer of the system that is
    -- neither EINTR nor EAGAIN, or -1 with the timer's errno if a wait ends by it before that, after as
    -- many calls of the system; and it does not return before there is such a round.
    pub do_io-first :
        (w : World e) (n p : ℕ) (rs : List (Round e))
        → q.fd ≡ pos n
        → slot w.fds n ≡ some p
        → (w.fds.ctxs p).is_closed ≡ false
        → (w.fds.ctxs p).is_socket ≡ true
        → (w.fds.ctxs p).user_nonblock ≡ false
        → to ≡ get_timeout (w.fds.ctxs p) q.timeout_so
        → Goes arm w q to rs
        → (w' : World e) × (do_io e arm true w q rs ≡ ok (ended w' 0 (length rs) (first rs)))
    unfolding do_io
    do_io-first w n p rs fd here is_open socket blocks limit h =
        let (w', runs) = retry_lem w 0 rs h in
        (
          w',
          rw (fd, get_there w.fds n p false no_status 0 here, ← limit, is_open, socket, blocks)
              runs,
        )
