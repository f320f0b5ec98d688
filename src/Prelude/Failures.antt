-- ===== src/Prelude/Failures.antt =====
-- How a call can end: with a value, by `qc_assert` (std::abort), by a C++ exception, or in
-- undefined behaviour (a null or past-the-end dereference, an index out of range).
use mathlib.Core.Path.{◌≡◌, refl}
use mathlib.Core.Bool.{Bool, true, false}

pub data Failure : Type 0 where
  aborted : Failure
  thrown : Failure
  undefined : Failure

pub data Outcome {ℓ} (A : Type ℓ) : Type ℓ where
  fail : Failure → Outcome A
  ok : A → Outcome A

-- `qc_assert(b)`.
abbrev pub qc_assert : Bool → Outcome (Unit {0})
qc_assert true = ok tt
qc_assert false = fail aborted

-- `if (b) throw std::logic_error(...)`.
abbrev pub throw_if : Bool → Outcome (Unit {0})
throw_if true = fail thrown
throw_if false = ok tt

-- A use that is undefined behaviour unless `b` holds.
abbrev pub defined_if : Bool → Outcome (Unit {0})
defined_if true = ok tt
defined_if false = fail undefined

-- A statement and what follows it: nothing does once the call has ended by a failure.
infixl 5 ◌>>=◌ ◌>>◌
abbrev pub ◌>>=◌ {ℓ κ} :
    {Now : Type ℓ} {Next : Type κ} → Outcome Now → (Now → Outcome Next) → Outcome Next
fail reason >>= next = fail reason
ok value >>= next = next value

abbrev pub ◌>>◌ {ℓ} : {Next : Type ℓ} → Outcome (Unit {0}) → Outcome Next → Outcome Next
fail reason >> next = fail reason
ok done >> next = next

pub >>=-eq-ok {ℓ κ} :
    {A : Type ℓ} {B : Type κ} (m : Outcome A) (f : A → Outcome B) {b : B}
    → (m >>= f) ≡ ok b
    → (a : A) × (m ≡ ok a) × (f a ≡ ok b)
>>=-eq-ok (fail e) f h = cc
>>=-eq-ok (ok a) f h = (a, refl, h)
