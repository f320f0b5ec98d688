-- ===== src/Prelude/Lists.antt =====
-- Lists over the native numbers, membership as a Boolean test, and maps as functions.
use Prim.Native.Nat.{ℕ, zero, suc, ◌+◌}
use mathlib.Core.Path.{◌≡◌, refl}
use mathlib.Core.Bool.{Bool, true, false, ◌&&◌}
use mathlib.Core.List.{List, [], ◌∷◌, ◌++◌}
use mathlib.Core.Option.{Option, none, some}
use native.Mathlib.Omega.{arith}
use fiber_async.Prelude.Tests.{◌==◌, if◌then◌else◌}

module _ {ℓ} {A : Type ℓ} where
  abbrev pub length : List A → ℕ
  length [] = 0
  length (x ∷ xs) = suc (length xs)

  abbrev pub get_elem? : List A → ℕ → Option A
  get_elem? [] i = none
  get_elem? (x ∷ xs) zero = some x
  get_elem? (x ∷ xs) (suc i) = get_elem? xs i

  -- A write out of bounds changes nothing.
  abbrev pub set : List A → ℕ → A → List A
  set [] i v = []
  set (x ∷ xs) zero v = v ∷ xs
  set (x ∷ xs) (suc i) v = x ∷ set xs i v

  abbrev pub is_empty : List A → Bool
  is_empty [] = true
  is_empty (x ∷ xs) = false

  abbrev pub replicate : ℕ → A → List A
  replicate zero a = []
  replicate (suc n) a = a ∷ replicate n a

  abbrev pub take : ℕ → List A → List A
  take zero xs = []
  take (suc n) [] = []
  take (suc n) (x ∷ xs) = x ∷ take n xs

  pub length-append : (xs ys : List A) → length (xs ++ ys) ≡ length xs + length ys
  length-append [] ys = omega arith
  length-append (x ∷ xs) ys = omega (arith, length-append xs ys)

  -- `p != nullptr`, or a std::function that is not empty.
  abbrev pub is_some : Option A → Bool
  is_some none = false
  is_some (some a) = true

-- Every element satisfies `P`.
abbrev pub All {ℓ κ} : {A : Type ℓ} → (A → Type κ) → List A → Type κ
All P [] = Unit
All P (x ∷ xs) = P x × All P xs

abbrev pub contains : List ℕ → ℕ → Bool
contains [] p = false
contains (x ∷ xs) p = if x == p then true else contains xs p

-- The function `f`, changed at `p`.
abbrev pub update {ℓ} : {A : Type ℓ} → (ℕ → A) → ℕ → A → ℕ → A
update f p v q = if p == q then v else f q

-- The elements that pass a test, in order.
abbrev pub filter_by {ℓ} : {A : Type ℓ} → (A → Bool) → List A → List A
filter_by f [] = []
filter_by f (x ∷ xs) = if f x then x ∷ filter_by f xs else filter_by f xs

pub contains-filter_by :
    (f : ℕ → Bool) (xs : List ℕ) (p : ℕ) → contains (filter_by f xs) p ≡ (contains xs p && f p)
contains-filter_by f [] p = refl
contains-filter_by f (x ∷ xs) p = ground (arith, contains-filter_by f xs p)

-- No element occurs twice.
abbrev pub IsDistinct : List ℕ → Type 0
IsDistinct [] = Unit {0}
IsDistinct (x ∷ xs) = (contains xs x ≡ false) × IsDistinct xs

pub filter_by-IsDistinct :
    (f : ℕ → Bool) (xs : List ℕ) → IsDistinct xs → IsDistinct (filter_by f xs)
filter_by-IsDistinct f [] d = tt
filter_by-IsDistinct f (x ∷ xs) d =
    ground (arith, contains-filter_by f xs x, filter_by-IsDistinct f xs d.1)

pub filter_by_congr {ℓ} :
    {A : Type ℓ} (f g : A → Bool) (xs : List A)
    → All (λ x. f x ≡ g x) xs
    → filter_by f xs ≡ filter_by g xs
filter_by_congr f g [] h = refl
filter_by_congr f g (x ∷ xs) h = ground (arith, h.0, filter_by_congr f g xs h.1)

pub filter_by-eq-nil {ℓ} :
    {A : Type ℓ} (f : A → Bool) (xs : List A) → All (λ x. f x ≡ false) xs → filter_by f xs ≡ []
filter_by-eq-nil f [] h = refl
filter_by-eq-nil f (x ∷ xs) h = ground (arith, h.0, filter_by-eq-nil f xs h.1)

pub filter_by-eq_self {ℓ} :
    {A : Type ℓ} (f : A → Bool) (xs : List A) → All (λ x. f x ≡ true) xs → filter_by f xs ≡ xs
filter_by-eq_self f [] h = refl
filter_by-eq_self f (x ∷ xs) h = ground (arith, h.0, filter_by-eq_self f xs h.1)

-- What holds of every number that the list contains holds of all its elements.
pub All-contains {ℓ} :
    (P : ℕ → Type ℓ) (xs : List ℕ) → ((x : ℕ) → contains xs x ≡ true → P x) → All P xs
All-contains P [] h = tt
All-contains P (x ∷ xs) h = (h x (ground arith), All-contains P xs (λ y c. h y (ground arith)))
