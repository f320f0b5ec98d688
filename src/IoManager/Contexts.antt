-- ===== src/IoManager/Contexts.antt =====
-- The vector of contexts: what a write and a resize change, and how many events it waits for.
use fiber_async.Prelude.{
  ℕ, zero, suc, ◌+◌, ◌≤◌, ◌<◌, ◌≡◌, refl, ◌∙◌, ◌⊎◌, inl, inr, List, [], ◌∷◌, some, Bool, true,
  false, arith, if◌then◌else◌, ◌==◌, length, set, get_elem?, ap,
}
use fiber_async.IoManager.{FdContext, new_context, context_resize}
use fiber_async.IoManager.Interest.{Mask}

pub get_elem?-lt {ℓ} :
    {A : Type ℓ} (xs : List A) (n : ℕ) {x : A} → get_elem? xs n ≡ some x → n < length xs
get_elem?-lt [] n h = cc
get_elem?-lt (y ∷ ys) zero h = omega arith
get_elem?-lt (y ∷ ys) (suc n) h = omega (arith, get_elem?-lt ys n h)

pub get_elem?-set {ℓ} :
    {A : Type ℓ} (xs : List A) (n : ℕ) (v : A) (k : ℕ)
    → n < length xs
    → get_elem? (set xs n v) k ≡ (if n == k then some v else get_elem? xs k)
get_elem?-set [] n v k h = elim h [ ]
get_elem?-set (x ∷ xs) zero v zero h = refl
get_elem?-set (x ∷ xs) zero v (suc k) h = ground arith
get_elem?-set (x ∷ xs) (suc n) v zero h = ground arith
get_elem?-set (x ∷ xs) (suc n) v (suc k) h = ground (arith, get_elem?-set xs n v k)

pub get_elem?-some {ℓ} :
    {A : Type ℓ} (xs : List A) (n : ℕ) → n < length xs → (x : A) × (get_elem? xs n ≡ some x)
get_elem?-some [] n h = elim h [ ]
get_elem?-some (x ∷ xs) zero h = (x, refl)
get_elem?-some (x ∷ xs) (suc n) h = get_elem?-some xs n (omega arith)

abbrev pub bit : Bool → ℕ
bit true = 1
bit false = 0

-- How many of its two events a context waits for.
abbrev pub weight : Mask → ℕ
weight m = bit m.read + bit m.write

abbrev pub total : List FdContext → ℕ
total [] = 0
total (c ∷ cs) = weight c.events + total cs

pub total-set :
    (xs : List FdContext) (n : ℕ) (c d : FdContext)
    → get_elem? xs n ≡ some c
    → total (set xs n d) + weight c.events ≡ total xs + weight d.events
total-set [] n c d h = cc
total-set (x ∷ xs) zero c d h = ground arith
total-set (x ∷ xs) (suc n) c d h = omega (arith, total-set xs n c d h)

pub weight-le-total :
    (xs : List FdContext) (n : ℕ) (c : FdContext)
    → get_elem? xs n ≡ some c
    → weight c.events ≤ total xs
weight-le-total [] n c h = cc
weight-le-total (x ∷ xs) zero c h = ground arith
weight-le-total (x ∷ xs) (suc n) c h = omega (arith, weight-le-total xs n c h)

pub length-context_resize : (i n : ℕ) (xs : List FdContext) → length (context_resize i n xs) ≡ n
unfolding context_resize
length-context_resize i zero xs = refl
length-context_resize i (suc n) [] = ap suc (length-context_resize (suc i) n [])
length-context_resize i (suc n) (x ∷ xs) = ap suc (length-context_resize (suc i) n xs)

-- Growing leaves the old contexts where they are, and adds fresh ones.
pub get_elem?-context_resize :
    (i n : ℕ) (xs : List FdContext) (k : ℕ) {c : FdContext}
    → get_elem? (context_resize i n xs) k ≡ some c
    → (get_elem? xs k ≡ some c) ⊎ ((length xs ≤ k) × (c ≡ new_context (i + k)))
unfolding context_resize
get_elem?-context_resize i zero xs k h = cc
get_elem?-context_resize i (suc n) [] zero h = inr (omega arith, ground arith)
get_elem?-context_resize i (suc n) [] (suc k) h = elim (get_elem?-context_resize (suc i) n [] k h) [
  | inl e ↦ cc
  | inr (l, e) ↦ inr (omega arith, e ∙ ap new_context (omega arith))
]
get_elem?-context_resize i (suc n) (x ∷ xs) zero h = inl h
get_elem?-context_resize i (suc n) (x ∷ xs) (suc k) h =
    elim (get_elem?-context_resize (suc i) n xs k h) [
      | inl e ↦ inl e
      | inr (l, e) ↦ inr (omega arith, e ∙ ap new_context (omega arith))
    ]

pub get_elem?-context_resize_old :
    (i n : ℕ) (xs : List FdContext) (k : ℕ) {c : FdContext}
    → length xs ≤ n
    → get_elem? xs k ≡ some c
    → get_elem? (context_resize i n xs) k ≡ some c
unfolding context_resize
get_elem?-context_resize_old i n [] k l h = cc
get_elem?-context_resize_old i zero (x ∷ xs) k l h = absurd (omega arith)
get_elem?-context_resize_old i (suc n) (x ∷ xs) zero l h = h
get_elem?-context_resize_old i (suc n) (x ∷ xs) (suc k) l h =
    get_elem?-context_resize_old (suc i) n xs k (omega arith) h

pub total-context_resize :
    (i n : ℕ) (xs : List FdContext) → length xs ≤ n → total (context_resize i n xs) ≡ total xs
unfolding context_resize
total-context_resize i zero [] l = refl
total-context_resize i zero (x ∷ xs) l = absurd (omega arith)
total-context_resize i (suc n) [] l = omega (arith, total-context_resize (suc i) n [])
total-context_resize i (suc n) (x ∷ xs) l = omega (arith, total-context_resize (suc i) n xs)
