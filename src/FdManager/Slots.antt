-- ===== src/FdManager/Slots.antt =====
-- The descriptor table refines a partial map from descriptors to contexts.
use fiber_async.Prelude.{
  ℕ, ◌*◌, ◌/◌, ◌≤◌, ◌<◌, ◌≡◌, refl, ◌∙◌, List, Option, some, none, Bool, true, false, arith, not,
  ◌||◌, ok, is_some, update, pos, if◌then◌else◌, ◌==◌, leb, length, set, resize, length-resize,
  get_or, get_or-resize, get_elem?_of_lt, get_or_of_le, length-set, get_or-set, Bool-cases, inl,
  inr, lt→ltb,
}
use fiber_async.FdManager.{FileStatus, FdManager, new_fd_ctx, create, get, del}

-- The context of a descriptor, if there is one.
abbrev pub slot : FdManager → ℕ → Option ℕ
slot m n = get_or m.datas n none

-- The vector never has fewer entries than it was created with.
abbrev pub IsLarge : FdManager → Type 0
IsLarge m = 64 ≤ length m.datas

abbrev creates : FdManager → ℕ → Bool → Bool
creates m n auto_create = not (is_some (slot m n) || not auto_create)

-- What `get` does to the map, at a manager `m'` and a result `r`.
pub record Gets (m : FdManager) (n : ℕ) (auto_create : Bool) (st : FileStatus) (p : ℕ)
    (m' : FdManager) (r : Option ℕ) : Type 0 where
  pub runs : get m (pos n) auto_create st p ≡ ok (m', r)
  pub large : length m.datas ≤ length m'.datas
  pub found : r ≡ (if creates m n auto_create then some p else slot m n)
  pub slots : (k : ℕ) → slot m' k ≡ (if n == k then r else slot m k)
  pub heap :
      m'.ctxs
      ≡ (if creates m n auto_create then update m.ctxs p (new_fd_ctx (pos n) st).0 else m.ctxs)

abbrev pub grown : FdManager → ℕ → List (Option ℕ)
grown m n = if leb (length m.datas) n then resize none (n * 3 / 2) m.datas else m.datas

module _ (m : FdManager) (n : ℕ) (st : FileStatus) (p : ℕ) (large : IsLarge m) where
  pub grown_room : (n < length (grown m n)) × (length m.datas ≤ length (grown m n))
  grown_room = ground (arith, length-resize none (n * 3 / 2) m.datas)

  grown_same : (k : ℕ) → get_or (grown m n) k none ≡ slot m k
  grown_same k = ground (arith, get_or-resize none (n * 3 / 2) m.datas k)

  abbrev pub created : FdManager
  created = record m {
    ctxs = update m.ctxs p (new_fd_ctx (pos n) st).0;
    datas = set (grown m n) n (some p);
  }

  pub create_lem : create m (pos n) st p ≡ ok (created, some p)
  unfolding create
  create_lem = rw (lt→ltb n (length (grown m n)) grown_room.0)

  pub created_slots : (k : ℕ) → slot created k ≡ (if n == k then some p else slot m k)
  created_slots k =
      get_or-set none (grown m n) n (some p) k grown_room.0 ∙ ground (arith, grown_same k)

  slot_past : leb (length m.datas) n ≡ true → slot m n ≡ none
  slot_past e = get_or_of_le none m.datas n (ground arith)

  get-creates :
      (auto_create : Bool)
      → creates m n auto_create ≡ true
      → get m (pos n) auto_create st p ≡ ok (created, some p)
  unfolding get
  get-creates auto_create c = ground (arith, create_lem, slot_past, get_elem?_of_lt none m.datas n)

  get_keeps :
      (auto_create : Bool)
      → creates m n auto_create ≡ false
      → get m (pos n) auto_create st p ≡ ok (m, slot m n)
  unfolding get
  get_keeps auto_create c = ground (arith, slot_past, get_elem?_of_lt none m.datas n)

  -- In a table of at least 64 slots, `get` for a descriptor that is not negative always returns. It
  -- returns the descriptor's context;
  -- a new one if there is none and the caller asks for that, else a null pointer. The map changes
  -- at this descriptor alone, and the vector never shrinks.
  pub get_lem :
      (auto_create : Bool) → (m' : FdManager) × (r : Option ℕ) × Gets m n auto_create st p m' r
  get_lem auto_create = elim (Bool-cases (creates m n auto_create)) [
    | inl c ↦ (
      created,
      some p,
      record {
        runs = get-creates auto_create c;
        large = omega (arith, length-set (grown m n) n (some p), grown_room);
        found = rw c;
        slots = created_slots;
        heap = rw c;
      },
    )
    | inr c ↦ (
      m,
      slot m n,
      record {
        runs = get_keeps auto_create c;
        large = omega arith;
        found = rw c;
        slots = λ k. ground arith;
        heap = rw c;
      },
    )
  ]

found_again :
    (m : FdManager) (n : ℕ) (st st' : FileStatus) (p p' : ℕ) (again : Bool) (m' : FdManager)
    (r : Option ℕ)
    → IsLarge m
    → Gets m n true st p m' r
    → (q : ℕ) × (r ≡ some q) × (get m' (pos n) again st' p' ≡ ok (m', some q))
found_again m n st st' p p' again m' none large g = absurd (ground (arith, g.found))
found_again m n st st' p p' again m' (some q) large g =
    let here : slot m' n ≡ some q = ground (arith, g.slots n) in
    let kept : creates m' n again ≡ false = ground arith in
    (q, refl, rw here at (get_keeps m' n st' p' (omega (arith, g.large)) again kept))

-- In a table of at least 64 slots, `get` with `auto_create` for a descriptor that is not negative
-- never returns null, and what it returned is what any later `get` returns.
pub get-get :
    (m : FdManager) (n : ℕ) (st st' : FileStatus) (p p' : ℕ) (again : Bool)
    → IsLarge m
    → (m' : FdManager) × (q : ℕ) × (get m (pos n) true st p ≡ ok (m', some q))
      × (get m' (pos n) again st' p' ≡ ok (m', some q))
get-get m n st st' p p' again large =
    let (m', r, g) = get_lem m n st p large true in
    let (q, e, found) = found_again m n st st' p p' again m' r large g in
    (m', q, rw e at g.runs, found)

-- `del` of a descriptor that is not negative always returns, and takes out its context and no other.
pub del_lem :
    (m : FdManager) (n : ℕ)
    → (m' : FdManager) × (del m (pos n) ≡ ok m')
      × (m'.ctxs ≡ m.ctxs)
      × (length m'.datas ≡ length m.datas)
      × ((k : ℕ) → slot m' k ≡ (if n == k then none else slot m k))
unfolding del
del_lem m n = elim (Bool-cases (leb (length m.datas) n)) [
  | inl past ↦ (m, rw past, refl, refl, λ k. ground (arith, get_or_of_le none m.datas n))
  | inr inside ↦
      let m' = record m { datas = set m.datas n none } in
      (
        m',
        rw (inside, lt→ltb n (length m.datas) (ground arith)),
        refl,
        length-set m.datas n none,
        λ k. get_or-set none m.datas n none k (ground arith),
      )
]

-- What is there is found, and the manager stays as it is.
pub get_there :
    (m : FdManager) (n p : ℕ) (auto_create : Bool) (st : FileStatus) (q : ℕ)
    → slot m n ≡ some p
    → get m (pos n) auto_create st q ≡ ok (m, some p)
unfolding get
get_there m n p auto_create st q here =
    ground (arith, get_or_of_le none m.datas n, get_elem?_of_lt none m.datas n)

-- Nothing is found where there is nothing, and the manager stays as it is.
pub get_absent :
    (m : FdManager) (n : ℕ) (st : FileStatus) (q : ℕ)
    → slot m n ≡ none
    → get m (pos n) false st q ≡ ok (m, none)
unfolding get
get_absent m n st q nothing = ground (arith, get_elem?_of_lt none m.datas n)
