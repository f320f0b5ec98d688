-- ===== src/FdManager/Locking.antt =====
-- The calls that FdManager::get and del make on m_mutex, on the thread that calls them. FdCtx::init
-- calls fcntl, which is the hooked one of src/hook.cc, and that looks the descriptor up by `get`.
use fiber_async.Prelude.{
  ℕ, ◌≡◌, ◌↔◌, refl, List, [], ◌∷◌, ◌++◌, some, none, Bool, true, false, arith, not, ◌||◌, ◌&&◌,
  is_some, pos, if◌then◌else◌, get_or, get_or_of_le, leb, leb→le, length, ◌∙◌, size_le, Bool-cases,
  inl, inr,
}
use fiber_async.FdManager.{FileStatus, FdManager}
use fiber_async.FdManager.Slots.{slot}
use fiber_async.Lock.{
  Call, rdlock, wrlock, unlock, read_scoped, write_scoped, unlocks, new_guard, unlock_guard,
  drop_guard, use_guard, acquire, scope,
}
use fiber_async.Lock.Scoped.{IsBalanced}

-- `get(fd, false)`: the read lock, to the end of the scope.
pub look_up_calls : List Call
unfolding scope new_guard use_guard drop_guard unlock_guard acquire
look_up_calls = scope read_scoped []

-- FdCtx::init: F_GETFL of a socket, and F_SETFL if it is not non-blocking.
pub init_calls : FileStatus → List Call
unfolding look_up_calls
init_calls st = elim st.stat [
  | none ↦ []
  | some false ↦ []
  | some true ↦ look_up_calls ++ (if st.flags.nonblock then [] else look_up_calls)
]

-- From `lock.unlock()` on: the new context is made under the write lock.
pub create_calls : FileStatus → List Call
unfolding init_calls scope new_guard use_guard drop_guard unlock_guard acquire
create_calls st =
    let w = new_guard write_scoped in
    scope read_scoped (unlocks ∷ [])
    ++ (drop_guard write_scoped (record w { calls = w.calls ++ init_calls st })).calls

-- FdManager::get on a descriptor that is not negative.
pub get_calls : FdManager → ℕ → Bool → FileStatus → List Call
unfolding create_calls look_up_calls
get_calls m n auto_create st =
    if size_le m.datas (pos n)
    then (if not auto_create then look_up_calls else create_calls st)
    else (if is_some (get_or m.datas n none) || not auto_create
        then look_up_calls
        else create_calls st)

-- FdManager::del.
pub del_calls : List Call
unfolding scope new_guard use_guard drop_guard unlock_guard acquire
del_calls = scope write_scoped []

abbrev pub is_socket : FileStatus → Bool
is_socket st = elim st.stat [ none ↦ false | some b ↦ b ]

create_calls-IsBalanced_iff :
    (st : FileStatus) → IsBalanced (create_calls st) ↔ (is_socket st ≡ false)
unfolding create_calls
create_calls-IsBalanced_iff st = (λ h. ground arith, λ h. ground arith)

create_calls_start :
    (st : FileStatus)
    → is_socket st ≡ true
    → (rest : List Call) × (create_calls st ≡ rdlock ∷ unlock ∷ wrlock ∷ rdlock ∷ rest)
unfolding create_calls
create_calls_start st h =
    (unlock ∷ ((if st.flags.nonblock then [] else look_up_calls) ++ unlock ∷ []), ground arith)

get_calls_lem :
    (m : FdManager) (n : ℕ) (auto_create : Bool) (st : FileStatus)
    → get_calls m n auto_create st
      ≡ (if is_some (slot m n) || not auto_create then look_up_calls else create_calls st)
unfolding get_calls
get_calls_lem m n auto_create st = elim (Bool-cases (leb (length m.datas) n)) [
  | inl past ↦
      rw (past, get_or_of_le none m.datas n (leb→le (length m.datas) n past)) (ground arith)
  | inr within ↦ rw within refl
]

look_up_calls-IsBalanced : IsBalanced look_up_calls
unfolding look_up_calls
look_up_calls-IsBalanced = refl

-- On a descriptor that is not negative, the calls of `get` on its own mutex are balanced, each lock
-- with its unlock and none while it is held, exactly unless it is to create the context of a socket.
-- Those of `del` are always balanced.
pub get_calls-IsBalanced_iff :
    (m : FdManager) (n : ℕ) (auto_create : Bool) (st : FileStatus)
    → (IsBalanced (get_calls m n auto_create st)
        ↔ ((not (is_some (slot m n)) && (auto_create && is_socket st)) ≡ false))
      × IsBalanced del_calls
unfolding del_calls
get_calls-IsBalanced_iff m n auto_create st =
    elim (Bool-cases (is_some (slot m n) || not auto_create)) [
      | inl early ↦ (
        (
          λ b. ground arith,
          λ h. rw (get_calls_lem m n auto_create st, early) look_up_calls-IsBalanced,
        ),
        refl,
      )
      | inr creating ↦ (
        (
          λ b. ground (
            arith,
            (create_calls-IsBalanced_iff st).0
                (rw (get_calls_lem m n auto_create st, creating) at b),
          ),
          λ h.
              rw (get_calls_lem m n auto_create st, creating)
                ((create_calls-IsBalanced_iff st).1 (ground arith)),
        ),
        refl,
      )
    ]

-- Then it asks for the read lock while it holds the write lock.
locks_itself :
    (m : FdManager) (n : ℕ) (st : FileStatus)
    → slot m n ≡ none
    → is_socket st ≡ true
    → (rest : List Call) × (get_calls m n true st ≡ rdlock ∷ unlock ∷ wrlock ∷ rdlock ∷ rest)
locks_itself m n st absent socket =
    let (rest, starts) = create_calls_start st socket in
    (rest, get_calls_lem m n true st ∙ rw absent starts)
