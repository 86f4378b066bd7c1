-- ===== src/Base/Actions.antt =====
-- C++ code that changes a world and may throw: the world that it leaves stands beside an exception
-- too. `Keeps` is an invariant of such code.
use mathlib.Core.Path.{◌≡◌, refl, ◌∙◌}
use mathlib.Core.Bool.{Bool, true, false}
use mathlib.Core.Option.{Option, none, some}
use assfire_suite.Base.Tests.{if◌then◌else◌}
use assfire_suite.Base.Results.{Error, Result, ok, err}

abbrev pub Action {ℓ} : Type ℓ → Type ℓ → Type ℓ
Action World Value = World → Result Value × World

module _ {ℓ} {World Value : Type ℓ} where
  abbrev pub pure : Value → Action World Value
  pure value w = (ok value, w)

  abbrev pub raise : Error → Action World Value
  raise e w = (err e, w)

  -- A value that was computed, or what computing it has thrown.
  abbrev pub of_result : Result Value → Action World Value
  of_result r w = (r, w)

  -- `none` is thrown as the exception.
  abbrev pub or_raise : Option Value → Error → Action World Value
  or_raise (some value) e w = (ok value, w)
  or_raise none e w = (err e, w)

module _ {ℓ} {World A B : Type ℓ} where
  -- What comes behind a call that has returned or thrown.
  abbrev pub continue : Result A → (A → Action World B) → Action World B
  continue (ok a) next w = next a w
  continue (err e) next w = (err e, w)

  infixl 5 ◌>>=◌ ◌>>◌
  unfoldable pub ◌>>=◌ : Action World A → (A → Action World B) → Action World B
  ◌>>=◌ first next w = continue (first w).0 next (first w).1

  abbrev pub ◌>>◌ : Action World A → Action World B → Action World B
  first >> second = first >>= λ _. second

  -- Behind a call that has returned, the block goes on.
  pub >>=-eq-next :
      (first : Action World A) (next : A → Action World B) (w v : World) (a : A)
      → first w ≡ (ok a, v)
      → (first >>= next) w ≡ next a v
  unfolding ◌>>=◌
  >>=-eq-next first next w v a e = rw e refl

  -- A call that has thrown ends the block.
  pub >>=-eq-thrown :
      (first : Action World A) (next : A → Action World B) (w v : World) (x : Error)
      → first w ≡ (err x, v)
      → (first >>= next) w ≡ (err x, v)
  unfolding ◌>>=◌
  >>=-eq-thrown first next w v x e = rw e refl

  -- A block that returns: its first call has returned, and so has the rest.
  pub >>=-returns :
      (first : Action World A) (next : A → Action World B) (w w' : World) (b : B)
      → (first >>= next) w ≡ (ok b, w')
      → (a : A) × (v : World) × (first w ≡ (ok a, v)) × (next a v ≡ (ok b, w'))
  unfolding ◌>>=◌
  >>=-returns first next w w' b e = continue-returns (first w) next e
    where
      continue-returns :
          (m : Result A × World) (next : A → Action World B) {w' : World} {b : B}
          → continue m.0 next m.1 ≡ (ok b, w')
          → (a : A) × (v : World) × (m ≡ (ok a, v)) × (next a v ≡ (ok b, w'))
      continue-returns (ok a, v) next e = (a, v, refl, e)
      continue-returns (err x, v) next e = cc

module _ {ℓ} {World A : Type ℓ} where
  abbrev pub handle : Result A → (Error → Action World A) → Action World A
  handle (ok a) handler w = (ok a, w)
  handle (err e) handler w = handler e w

  -- try { body } catch (const std::exception &e) { handler }
  unfoldable pub attempt : Action World A → (Error → Action World A) → Action World A
  attempt body handler w = handle (body w).0 handler (body w).1

  -- No handler runs behind a body that has returned, and one that has thrown is handled.
  pub attempt-returned :
      (body : Action World A) (handler : Error → Action World A) (w v : World) (a : A)
      → body w ≡ (ok a, v)
      → attempt body handler w ≡ (ok a, v)
  unfolding attempt
  attempt-returned body handler w v a e = rw e refl

  pub attempt-thrown :
      (body : Action World A) (handler : Error → Action World A) (w v : World) (x : Error)
      → body w ≡ (err x, v)
      → attempt body handler w ≡ handler x v
  unfolding attempt
  attempt-thrown body handler w v x e = rw e refl

-- `m` keeps P, whether it returns or throws.
pub record Keeps {ℓ} {World Value : Type ℓ} (P : World → Type ℓ) (m : Action World Value)
    : Type ℓ where
  pub at : (w : World) → P w → P (m w).1

module _ {ℓ} {World : Type ℓ} {P : World → Type ℓ} where
  pub Keeps-pure : {A : Type ℓ} (a : A) → Keeps P (pure a)
  Keeps-pure a = record { at = λ w h. h }

  pub Keeps-raise : {A : Type ℓ} (e : Error) → Keeps P (raise {Value = A} e)
  Keeps-raise e = record { at = λ w h. h }

  pub Keeps-of_result : {A : Type ℓ} (r : Result A) → Keeps P (of_result r)
  Keeps-of_result r = record { at = λ w h. h }

  pub Keeps-or_raise : {A : Type ℓ} (o : Option A) (e : Error) → Keeps P (or_raise o e)
  Keeps-or_raise (some a) e = record { at = λ w h. h }
  Keeps-or_raise none e = record { at = λ w h. h }

  pub Keeps-if :
      {A : Type ℓ} (b : Bool) (m n : Action World A)
      → Keeps P m
      → Keeps P n
      → Keeps P (if b then m else n)
  Keeps-if true m n km kn = km
  Keeps-if false m n km kn = kn

  pub Keeps-bind :
      {A B : Type ℓ} (m : Action World A) (next : A → Action World B)
      → Keeps P m
      → ((a : A) → Keeps P (next a))
      → Keeps P (m >>= next)
  unfolding ◌>>=◌
  Keeps-bind {A} {B} m next km kn = record { at = λ w h. behind (m w) (km.at w h) }
    where
      behind : (r : Result A × World) → P r.1 → P (continue r.0 next r.1).1
      behind (ok a, v) h = (kn a).at v h
      behind (err e, v) h = h

  pub Keeps-attempt :
      {A : Type ℓ} (m : Action World A) (handler : Error → Action World A)
      → Keeps P m
      → ((e : Error) → Keeps P (handler e))
      → Keeps P (attempt m handler)
  unfolding attempt
  Keeps-attempt {A} m handler km kh = record { at = λ w h. behind (m w) (km.at w h) }
    where
      behind : (r : Result A × World) → P r.1 → P (handle r.0 handler r.1).1
      behind (ok a, v) h = h
      behind (err e, v) h = (kh e).at v h

pub ruleset keeps_rules =
    (Keeps-pure, Keeps-raise, Keeps-of_result, Keeps-or_raise, Keeps-if, Keeps-bind, Keeps-attempt)

-- Wherever `m` returns, Q holds of its value and of the world behind it.
pub record Yields {ℓ} {World Value : Type ℓ} (Q : Value → World → Type ℓ) (m : Action World Value)
    : Type ℓ where
  pub at : (w w' : World) (a : Value) → m w ≡ (ok a, w') → Q a w'

module _ {ℓ} {World B : Type ℓ} {Q : B → World → Type ℓ} where
  pub Yields-bind :
      {A : Type ℓ} (first : Action World A) (next : A → Action World B)
      → ((a : A) → Yields Q (next a))
      → Yields Q (first >>= next)
  Yields-bind first next y = record {
    at = λ w w' b e. let (a, v, _, rest) = >>=-returns first next w w' b e in (y a).at v w' b rest;
  }

  pub Yields-if :
      (b : Bool) (m n : Action World B) → Yields Q m → Yields Q n → Yields Q (if b then m else n)
  Yields-if true m n y z = y
  Yields-if false m n y z = z

  pub Yields-attempt :
      (m : Action World B) (handler : Error → Action World B)
      → Yields Q m
      → ((e : Error) → Yields Q (handler e))
      → Yields Q (attempt m handler)
  unfolding attempt
  Yields-attempt m handler y z = record {
    at = λ w w' a e. behind (m w) (λ v b p. y.at w v b p) w' a e;
  }
    where
      behind :
          (r : Result B × World)
          → ((v : World) (b : B) → r ≡ (ok b, v) → Q b v)
          → (w' : World) (a : B) → handle r.0 handler r.1 ≡ (ok a, w')
          → Q a w'
      behind (ok b, v) y w' a e = y w' a e
      behind (err x, v) y w' a e = (z x).at v w' a e

-- `m` returns, from every world.
pub record IsTotal {ℓ} {World Value : Type ℓ} (m : Action World Value) : Type ℓ where
  pub at : (w : World) → (a : Value) × (w' : World) × (m w ≡ (ok a, w'))

module _ {ℓ} {World : Type ℓ} where
  pub pure-IsTotal : {A : Type ℓ} (a : A) → IsTotal {World = World} (pure a)
  pure-IsTotal a = record { at = λ w. (a, w, refl) }

  pub bind-IsTotal :
      {A B : Type ℓ} (first : Action World A) (next : A → Action World B)
      → IsTotal first
      → ((a : A) → IsTotal (next a))
      → IsTotal (first >>= next)
  unfolding ◌>>=◌
  bind-IsTotal first next t u = record {
    at = λ w. let (a, v, e) = t.at w in let (b, w', p) = (u a).at v in (b, w', rw e p);
  }

  pub if-IsTotal :
      {A : Type ℓ} (b : Bool) (m n : Action World A)
      → IsTotal m
      → IsTotal n
      → IsTotal (if b then m else n)
  if-IsTotal true m n t u = t
  if-IsTotal false m n t u = u

  -- Where nothing is thrown, no handler runs.
  pub attempt-total :
      {A : Type ℓ} (m : Action World A) (handler : Error → Action World A) (w : World)
      → IsTotal m
      → attempt m handler w ≡ m w
  unfolding attempt
  attempt-total m handler w t = let (a, v, e) = t.at w in rw e refl

  pub attempt-IsTotal :
      {A : Type ℓ} (m : Action World A) (handler : Error → Action World A)
      → IsTotal m
      → IsTotal (attempt m handler)
  attempt-IsTotal m handler t = record {
    at = λ w. let (a, v, e) = t.at w in (a, v, attempt-total m handler w t ∙ e);
  }
