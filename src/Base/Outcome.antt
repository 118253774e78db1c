-- ===== src/Base/Outcome.antt =====
-- A Go call: it returns a value, or it panics. `log.Panic` and the runtime's own panics both end
-- the process, since no part of the program recovers.
use mathlib.Core.Path.{◌≡◌, refl}
use mathlib.Core.Option.{Option, none, some}

pub data Fault : Type 0 where
  nil_dereference index_out_of_range divide_by_zero log_panic invalid_argument : Fault
  -- not a panic: a goroutine that others wait for waits for ever
  blocked : Fault

pub data Outcome {ℓ} (A : Type ℓ) : Type ℓ where
  ok : A → Outcome A
  panic : Fault → Outcome A

infixl 5 ◌>>=◌
abbrev pub ◌>>=◌ {ℓ κ} : {A : Type ℓ} {B : Type κ} → Outcome A → (A → Outcome B) → Outcome B
ok a >>= f = f a
panic e >>= f = panic e

-- The value, or the fault that its absence is.
abbrev pub require {ℓ} : {A : Type ℓ} → Fault → Option A → Outcome A
require e none = panic e
require e (some a) = ok a

-- The call returns, with a value of which `P` holds.
abbrev pub Returns {ℓ κ} : {A : Type ℓ} → Outcome A → (A → Type κ) → Type (ℓ ⊔ κ)
Returns {A} r P = (a : A) × (r ≡ ok a) × P a

-- A chain of two calls that returns has a first call that does.
pub >>=-eq-ok {ℓ κ} :
    {A : Type ℓ} {B : Type κ} (first : Outcome A) (then_do : A → Outcome B) {result : B}
    → (first >>= then_do) ≡ ok result
    → Returns first λ x. then_do x ≡ ok result
>>=-eq-ok (panic fault) then_do returned = cc
>>=-eq-ok (ok x) then_do returned = (x, refl, returned)

pub require-eq-ok {ℓ} :
    {A : Type ℓ} (e : Fault) (o : Option A) {a : A} → require e o ≡ ok a → o ≡ some a
require-eq-ok e none h = absurd (cc)
require-eq-ok e (some b) h = cc
