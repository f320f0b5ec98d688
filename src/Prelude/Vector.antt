-- ===== src/Prelude/Vector.antt =====
-- std::vector: indexing by an `int`, and `resize`.
use Prim.Native.Nat.{ℕ, zero, suc, ◌*◌, ◌/◌, ◌≤◌, ◌<◌}
use mathlib.Core.Path.{◌≡◌, refl, ap}
use mathlib.Core.Bool.{Bool, false}
use mathlib.Core.List.{List, [], ◌∷◌}
use mathlib.Core.Option.{none, some}
use native.Mathlib.Omega.{arith}
use fiber_async.Prelude.Tests.{◌==◌, leb, ltb, if◌then◌else◌}
use fiber_async.Prelude.Lists.{length, get_elem?, set}
use fiber_async.Prelude.Failures.{Outcome, ok, fail, Failure}

-- An `int`: `negsuc n` is -(n + 1).
pub data ℤ : Type 0 where
  pos : ℕ → ℤ
  negsuc : ℕ → ℤ

-- `v[i]`: undefined out of range.
abbrev pub at {ℓ} : {A : Type ℓ} → List A → ℤ → Outcome A
at xs (negsuc n) = fail Failure.undefined
at xs (pos i) = elim (get_elem? xs i) [ none ↦ fail Failure.undefined | some x ↦ ok x ]

-- `(int)v.size() <= i`.
abbrev pub size_le {ℓ} : {A : Type ℓ} → List A → ℤ → Bool
size_le xs (negsuc n) = false
size_le xs (pos i) = leb (length xs) i

-- `v.resize(n)`, with `d` for new elements.
abbrev pub resize {ℓ} : {A : Type ℓ} → A → ℕ → List A → List A
resize d zero xs = []
resize d (suc n) [] = d ∷ resize d n []
resize d (suc n) (x ∷ xs) = x ∷ resize d n xs

module _ {ℓ} {A : Type ℓ} where
  pub length-resize : (d : A) (n : ℕ) (xs : List A) → length (resize d n xs) ≡ n
  length-resize d zero xs = refl
  length-resize d (suc n) [] = ap suc (length-resize d n [])
  length-resize d (suc n) (x ∷ xs) = ap suc (length-resize d n xs)

  -- The element at an index, or `d` past the end: what does not change when a vector grows.
  abbrev pub get_or : List A → ℕ → A → A
  get_or [] i d = d
  get_or (x ∷ xs) zero d = x
  get_or (x ∷ xs) (suc i) d = get_or xs i d

  pub get_or-resize :
      (d : A) (n : ℕ) (xs : List A) (i : ℕ)
      → length xs ≤ n
      → get_or (resize d n xs) i d ≡ get_or xs i d
  get_or-resize d zero [] i h = refl
  get_or-resize d zero (x ∷ xs) i h = absurd (omega arith)
  get_or-resize d (suc n) [] zero h = refl
  get_or-resize d (suc n) [] (suc i) h = get_or-resize d n [] i (omega arith)
  get_or-resize d (suc n) (x ∷ xs) zero h = refl
  get_or-resize d (suc n) (x ∷ xs) (suc i) h = get_or-resize d n xs i (omega arith)

  pub get_elem?_of_lt :
      (d : A) (xs : List A) (i : ℕ) → i < length xs → get_elem? xs i ≡ some (get_or xs i d)
  get_elem?_of_lt d [] i h = elim h [ ]
  get_elem?_of_lt d (x ∷ xs) zero h = refl
  get_elem?_of_lt d (x ∷ xs) (suc i) h = get_elem?_of_lt d xs i (omega arith)

  pub get_elem?_of_le : (xs : List A) (i : ℕ) → length xs ≤ i → get_elem? xs i ≡ none
  get_elem?_of_le [] i h = refl
  get_elem?_of_le (x ∷ xs) zero h = absurd (omega arith)
  get_elem?_of_le (x ∷ xs) (suc i) h = get_elem?_of_le xs i (omega arith)

  pub get_or_of_le : (d : A) (xs : List A) (i : ℕ) → length xs ≤ i → get_or xs i d ≡ d
  get_or_of_le d [] i h = refl
  get_or_of_le d (x ∷ xs) zero h = absurd (omega arith)
  get_or_of_le d (x ∷ xs) (suc i) h = get_or_of_le d xs i (omega arith)

  pub length-set : (xs : List A) (i : ℕ) (v : A) → length (set xs i v) ≡ length xs
  length-set [] i v = refl
  length-set (x ∷ xs) zero v = refl
  length-set (x ∷ xs) (suc i) v = ap suc (length-set xs i v)

  pub get_or-set :
      (d : A) (xs : List A) (i : ℕ) (v : A) (j : ℕ)
      → i < length xs
      → get_or (set xs i v) j d ≡ (if i == j then v else get_or xs j d)
  get_or-set d [] i v j h = elim h [ ]
  get_or-set d (x ∷ xs) zero v zero h = refl
  get_or-set d (x ∷ xs) zero v (suc j) h = ground arith
  get_or-set d (x ∷ xs) (suc i) v zero h = ground arith
  get_or-set d (x ∷ xs) (suc i) v (suc j) h = ground (arith, get_or-set d xs i v j)

-- `v[i] = x`: undefined out of range.
abbrev pub put_at {ℓ} : {A : Type ℓ} → List A → ℤ → A → Outcome (List A)
put_at xs (negsuc n) v = fail Failure.undefined
put_at xs (pos i) v = if ltb i (length xs) then ok (set xs i v) else fail Failure.undefined

-- `i * 1.5`, converted to `size_t`, for an `int` that is not negative.
abbrev pub scaled : ℤ → ℕ
scaled (pos n) = n * 3 / 2
scaled (negsuc n) = 0
