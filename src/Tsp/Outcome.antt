-- ===== src/Tsp/Outcome.antt =====
-- What a call of the solver yields: a value, an exception, or what C++ leaves undefined, such as an
-- access out of range, which no handler sees.
use assfire_suite.Base.{Error, Result, ok, err, Option, none, some}

pub data Outcome {ℓ} (A : Type ℓ) : Type ℓ where
  done : A → Outcome A
  throws : Error → Outcome A
  undefined : Outcome A

infixl 5 ◌>>=◌
abbrev pub ◌>>=◌ {ℓ κ} : {A : Type ℓ} {B : Type κ} → Outcome A → (A → Outcome B) → Outcome B
done a >>= f = f a
throws e >>= f = throws e
undefined >>= f = undefined

-- A call of code that throws or returns.
abbrev pub call {ℓ} : {A : Type ℓ} → Result A → Outcome A
call (ok a) = done a
call (err e) = throws e

-- An access that is undefined where there is nothing.
abbrev pub access {ℓ} : {A : Type ℓ} → Option A → Outcome A
access none = undefined
access (some a) = done a
