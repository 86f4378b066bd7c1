-- ===== src/Base/Decimal.antt =====
-- std::to_string of an integer: its decimal digits as character codes, behind a minus sign if it is
-- negative.
use Prim.Native.Nat.{ℕ, zero, suc, ◌+◌, ◌-◌, ◌*◌, ◌/◌, ◌%◌, ◌≤◌, ◌<◌}
use mathlib.Core.Path.{◌≡◌, refl, ap, sym, ◌∙◌}
use mathlib.Core.Logic.{inl, inr}
use mathlib.Core.List.{List, [], ◌∷◌, ◌++◌}
use native.Mathlib.Omega.{arith}
use assfire_suite.Base.Tests.{ltb, if◌then◌else◌, Bool-cases, ltb→lt, lt→ltb}
use assfire_suite.Base.Lists.{All}
use assfire_suite.Base.Int.{ℤ, pos, negsuc}

-- With fuel beyond the number, which falls at each round.
digits_within : ℕ → ℕ → List ℕ
digits_within zero n = []
digits_within (suc fuel) n =
    let front = digits_within fuel (n / 10) in
    if ltb n 10 then (n + 48) ∷ [] else front ++ (n % 10 + 48) ∷ []

unfoldable pub digits : ℕ → List ℕ
unfolding digits_within
digits n = digits_within (suc n) n

unfoldable pub to_string : ℤ → List ℕ
unfolding digits
to_string (pos n) = digits n
to_string (negsuc n) = 45 ∷ digits (suc n)

-- More fuel gives the same digits.
digits_within-eq : (f g n : ℕ) → n < f → n < g → digits_within f n ≡ digits_within g n
unfolding digits_within
digits_within-eq zero g n h k = elim h [ ]
digits_within-eq (suc f) zero n h k = elim k [ ]
digits_within-eq (suc f) (suc g) n h k = elim (Bool-cases (ltb n 10)) [
  | inl e ↦ rw e
  | inr e ↦ rw (e, digits_within-eq f g (n / 10) (ground arith) (ground arith))
]

pub digits_one : (n : ℕ) → n < 10 → digits n ≡ (n + 48) ∷ []
unfolding digits
digits_one n h = rw (lt→ltb n 10 h)

pub digits_more : (n : ℕ) → 10 ≤ n → digits n ≡ digits (n / 10) ++ (n % 10 + 48) ∷ []
unfolding digits
digits_more n h = elim (Bool-cases (ltb n 10)) [
  | inl e ↦ absurd (omega (arith, ltb→lt n 10 e))
  | inr e ↦ rw e (
      ap (λ (ds : List ℕ). ds ++ (n % 10 + 48) ∷ [])
        (digits_within-eq n (suc (n / 10)) (n / 10) (omega arith) (omega arith)))
]

-- A last digit more.
pub digits_snoc : (a b : ℕ) → 1 ≤ a → b < 10 → digits (10 * a + b) ≡ digits a ++ (b + 48) ∷ []
digits_snoc a b h k =
    let q : (10 * a + b) / 10 ≡ a = omega arith in
    let r : (10 * a + b) % 10 ≡ b = omega arith in
    digits_more (10 * a + b) (omega arith) ∙ rw (q, r)

pub to_string-pos : (n : ℕ) → to_string (pos n) ≡ digits n
unfolding to_string
to_string-pos n = refl

-- The number that a list of digits stands for, behind `acc`.
value : ℕ → List ℕ → ℕ
value acc [] = acc
value acc (c ∷ cs) = value (acc * 10 + (c - 48)) cs

value-append : (acc : ℕ) (xs ys : List ℕ) → value acc (xs ++ ys) ≡ value (value acc xs) ys
unfolding value
value-append acc [] ys = refl
value-append acc (x ∷ xs) ys = value-append (acc * 10 + (x - 48)) xs ys

value-digits_within : (f n : ℕ) → n < f → value 0 (digits_within f n) ≡ n
unfolding digits_within value
value-digits_within zero n h = elim h [ ]
value-digits_within (suc f) n h = elim (Bool-cases (ltb n 10)) [
  | inl e ↦ rw e (omega arith)
  | inr e ↦
      rw (e, value-append 0 (digits_within f (n / 10)) ((n % 10 + 48) ∷ []))
        (rw (value-digits_within f (n / 10) (ground arith)) (omega arith))
]

digits-injective : (m n : ℕ) → digits m ≡ digits n → m ≡ n
unfolding digits
digits-injective m n e =
    sym (value-digits_within (suc m) m (omega arith))
    ∙ ap (value 0) e
    ∙ value-digits_within (suc n) n (omega arith)

All-append : (P : ℕ → Type 0) (xs ys : List ℕ) → All P xs → All P ys → All P (xs ++ ys)
All-append P [] ys h k = k
All-append P (x ∷ xs) ys h k = (h.0, All-append P xs ys h.1 k)

digits_within-All : (f n : ℕ) → All (λ c. 48 ≤ c) (digits_within f n)
unfolding digits_within
digits_within-All zero n = tt
digits_within-All (suc f) n = elim (Bool-cases (ltb n 10)) [
  | inl e ↦ rw e (omega arith, tt)
  | inr e ↦ rw e (
      All-append (λ c. 48 ≤ c) (digits_within f (n / 10)) ((n % 10 + 48) ∷ [])
        (digits_within-All f (n / 10)) (omega arith, tt))
]

digits_no_minus : (n : ℕ) (cs : List ℕ) → digits n ≡ 45 ∷ cs → ⊥
unfolding digits
digits_no_minus n cs e =
    let h : All (λ c. 48 ≤ c) (45 ∷ cs) = rw e at (digits_within-All (suc n) n) in
    omega (arith, h.0)

cons-tail : (x y : ℕ) (xs ys : List ℕ) → ◌≡◌ {A = List ℕ} (x ∷ xs) (y ∷ ys) → xs ≡ ys
cons-tail x y xs ys e = cc

cons-head : (x y : ℕ) (xs ys : List ℕ) → ◌≡◌ {A = List ℕ} (x ∷ xs) (y ∷ ys) → x ≡ y
cons-head x y xs ys e = cc

digits_above : (n : ℕ) → All (λ c. 48 ≤ c) (digits n)
unfolding digits
digits_above n = digits_within-All (suc n) n

above : (cs : List ℕ) → All (λ c. 48 ≤ c) cs → All (λ c. 33 ≤ c) cs
above [] h = tt
above (c ∷ cs) h = (omega arith, above cs h.1)

-- Different integers are printed differently.
pub to_string-injective : (a b : ℤ) → to_string a ≡ to_string b → a ≡ b
unfolding to_string
to_string-injective (pos m) (pos n) e = ap pos (digits-injective m n e)
to_string-injective (pos m) (negsuc n) e = absurd (digits_no_minus m _ e)
to_string-injective (negsuc m) (pos n) e = absurd (digits_no_minus n _ (sym e))
to_string-injective (negsuc m) (negsuc n) e =
    let s = digits-injective (suc m) (suc n) (cons-tail 45 45 _ _ e) in ap negsuc (omega arith)

-- What is printed holds no space.
pub to_string_no_space : (a : ℤ) → All (λ c. 33 ≤ c) (to_string a)
unfolding to_string
to_string_no_space (pos n) = above (digits n) (digits_above n)
to_string_no_space (negsuc n) = (omega arith, above (digits (suc n)) (digits_above (suc n)))

-- A list is split in one way at the first space.
pub split_unique :
    (xs xs' ys ys' : List ℕ)
    → All (λ c. 33 ≤ c) xs
    → All (λ c. 33 ≤ c) xs'
    → xs ++ 32 ∷ ys ≡ xs' ++ 32 ∷ ys'
    → (xs ≡ xs') × (ys ≡ ys')
split_unique [] [] ys ys' h k e = (refl, cons-tail 32 32 ys ys' e)
split_unique [] (x ∷ xs') ys ys' h k e = absurd (omega (arith, cons-head 32 x _ _ e, k.0))
split_unique (x ∷ xs) [] ys ys' h k e = absurd (omega (arith, cons-head x 32 _ _ e, h.0))
split_unique (x ∷ xs) (y ∷ xs') ys ys' h k e =
    let (p, q) = split_unique xs xs' ys ys' h.1 k.1 (cons-tail x y _ _ e) in
    (cc (cons-head x y _ _ e), q)
