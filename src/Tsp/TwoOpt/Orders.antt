-- ===== src/Tsp/TwoOpt/Orders.antt =====
-- The orders of the points 0, 1, ..., n - 1, as the state container reads them.
use mathlib.Core.List.{Perm, Mem, Memᴰ}
use mathlib.Core.List.Perm
use mathlib.Core.List.Memᴰ
use mathlib.Core.Logic.{∥∥₁_map, ∥∥₁_elim}
use mathlib.Core.Bool.{Bool-set}
use assfire_suite.Base.{
  ℕ, zero, suc, ◌+◌, ◌≤◌, ℤ, pos, geb_ℤ, ◌≡◌, refl, ap, inl, inr, true, false, List, [], ◌∷◌,
  length, arith,
}
use assfire_suite.Tsp.StateContainer.{all_below}
use assfire_suite.Tsp.TwoOpt.{iota}

pub length-iota : (i n : ℕ) → length (iota i n) ≡ n
length-iota i zero = refl
length-iota i (suc n) = ap suc (length-iota (suc i) n)

below_iota : (i n m : ℕ) (x : ℤ) → i + n ≤ m → Memᴰ x (iota i n) → geb_ℤ x (pos m) ≡ false
below_iota i zero m x h d = absurd (Memᴰ.not-nil d)
below_iota i (suc n) m x h d = elim (Memᴰ.cases_cons d) [
  | inl e ↦ rw e (ground arith)
  | inr d' ↦ below_iota (suc i) n m x (omega arith) d'
]

all_below-of_mem :
    (m : ℤ) (xs : List ℤ) → ((x : ℤ) → Mem x xs → geb_ℤ x m ≡ false) → all_below m xs ≡ true
all_below-of_mem m [] f = refl
all_below-of_mem m (x ∷ xs) f =
    rw (f x ∣ Memᴰ.head refl ∣₁)
      (all_below-of_mem m xs (λ y d. f y (∥∥₁_map d (λ d'. Memᴰ.tail d'))))

-- The check of a saved sequence accepts each order.
pub all_below-order : (n : ℕ) (xs : List ℤ) → Perm xs (iota 0 n) → all_below (pos n) xs ≡ true
all_below-order n xs p = all_below-of_mem (pos n) xs (λ x d.
    ∥∥₁_elim ((Perm.mem_iff p).0 d) (Bool-set _ _) (λ d'. below_iota 0 n n x (omega arith) d'))
