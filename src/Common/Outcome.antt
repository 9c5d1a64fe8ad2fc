-- ===== src/Common/Outcome.antt =====
-- How a call ends: with a value, in `panic()` (a failed `assert` included), or in behaviour that
-- C leaves undefined, such as an access outside an array or a shift by the width.
use mathlib.Core.Bool.{Bool, true, false}

pub data Outcome {ℓ} (A : Type ℓ) : Type ℓ where
  done : A → Outcome A
  panic : Outcome A
  undefined : Outcome A

infixl 5 ◌>>=◌ ◌>>◌
abbrev pub ◌>>=◌ {ℓ κ} : {A : Type ℓ} {B : Type κ} → Outcome A → (A → Outcome B) → Outcome B
done a >>= k = k a
panic >>= k = panic
undefined >>= k = undefined

abbrev pub ◌>>◌ {ℓ} : {B : Type ℓ} → Outcome (Unit {0}) → Outcome B → Outcome B
m >> k = m >>= λ _. k

-- `assert(c)`
abbrev pub assert : Bool → Outcome (Unit {0})
assert true = done tt
assert false = panic

-- The use of a value that is only defined if the test holds.
abbrev pub defined : Bool → Outcome (Unit {0})
defined true = done tt
defined false = undefined
