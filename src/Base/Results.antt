-- ===== src/Base/Results.antt =====
-- What a C++ call yields: a value, or an exception that leaves it.
use Prim.Native.String.{String}
use mathlib.Core.Path.{◌≡◌, refl}
use mathlib.Core.Logic.{◌⊎◌, inl, inr}
use mathlib.Core.Option.{Option, none, some}

-- The standard exceptions that the code throws. `exception` is a bare std::exception.
pub data Error : Type 0 where
  exception out_of_range : Error
  runtime_error invalid_argument : String → Error

pub data Result {ℓ} (Value : Type ℓ) : Type ℓ where
  err : Error → Result Value
  ok : Value → Result Value

abbrev pub of_option {ℓ} : {A : Type ℓ} → Option A → Error → Result A
of_option (some found) missing = ok found
of_option none missing = err missing

-- To split on whether a call returns.
pub Result-cases {ℓ} :
    {A : Type ℓ} (call : Result A)
    → ((value : A) × (call ≡ ok value)) ⊎ ((thrown : Error) × (call ≡ err thrown))
Result-cases (err thrown) = inr (thrown, refl)
Result-cases (ok value) = inl (value, refl)

module _ {ℓ κ} {A : Type ℓ} {B : Type κ} where
  infixl 5 ◌>>=◌
  -- The next call is made with the value of the first, unless that throws.
  abbrev pub ◌>>=◌ : Result A → (A → Result B) → Result B
  err thrown >>= next = err thrown
  ok value >>= next = next value

  -- A block that returns: its first call returns, and so does the rest.
  pub >>=-eq-ok :
      (first : Result A) (next : A → Result B) {end : B}
      → (first >>= next) ≡ ok end
      → (value : A) × (first ≡ ok value) × (next value ≡ ok end)
  >>=-eq-ok (err thrown) next returned = cc
  >>=-eq-ok (ok value) next returned = (value, refl, returned)

  -- A block that throws although all behind its first call returns: the first call throws.
  pub >>=-ok-eq-err :
      (first : Result A) (finish : A → B) {thrown : Error}
      → (first >>= λ value. ok (finish value)) ≡ err thrown
      → first ≡ err thrown
  >>=-ok-eq-err (err other) finish threw = cc
  >>=-ok-eq-err (ok value) finish threw = cc
