-- ===== src/Tsp/TwoOpt/Defined.antt =====
-- The estimator that the solver is given, with the total distance and the validator that accepts all,
-- has a meaning on all orders of the points.
use mathlib.Core.List.{Perm, Mem, Memᴰ}
use mathlib.Core.List.Perm
use mathlib.Core.List.Memᴰ
use mathlib.Core.Logic.{∥∥₁_map, ∥∥₁_elim}
use mathlib.Core.Bool.{Bool-set}
use assfire_suite.Base.{
  ℕ, zero, suc, ◌+◌, ◌≤◌, ltb, ℤ, pos, negsuc, ◌≡◌, refl, inl, inr, Bool, true, false, List, [],
  ◌∷◌, All, length, get_elem?_below, Result, Result-cases, arith,
}
use assfire_suite.Concepts.Double.{Double, Fpu}
use assfire_suite.Router.IndexedLocation.{IndexedLocation}
use assfire_suite.Router.RouteInfo.{RouteInfo}
use assfire_suite.Tsp.Outcome.{done}
use assfire_suite.Tsp.Estimator.{TspEstimator, nop_validate, location_of, estimate_from, estimate}
use assfire_suite.Tsp.TwoOpt.{iota}
use assfire_suite.Tsp.TwoOpt.Moves.{Defined, DefinedOn}

-- An index below n
abbrev index_ok : ℕ → ℤ → Bool
index_ok n (pos k) = ltb k n
index_ok n (negsuc k) = false

index_ok-iota : (i n m : ℕ) (x : ℤ) → i + n ≤ m → Memᴰ x (iota i n) → index_ok m x ≡ true
index_ok-iota i zero m x h d = absurd (Memᴰ.not-nil d)
index_ok-iota i (suc n) m x h d = elim (Memᴰ.cases_cons d) [
  | inl e ↦ rw e (ground arith)
  | inr d' ↦ index_ok-iota (suc i) n m x (omega arith) d'
]

All-of_mem :
    (n : ℕ) (xs : List ℤ)
    → ((x : ℤ) → Mem x xs → index_ok n x ≡ true)
    → All (λ x. index_ok n x ≡ true) xs
All-of_mem n [] f = tt
All-of_mem n (x ∷ xs) f =
    (f x ∣ Memᴰ.head refl ∣₁, All-of_mem n xs (λ y d. f y (∥∥₁_map d (λ d'. Memᴰ.tail d'))))

order-All : (n : ℕ) (xs : List ℤ) → Perm xs (iota 0 n) → All (λ x. index_ok n x ≡ true) xs
order-All n xs p = All-of_mem n xs (λ x d.
    ∥∥₁_elim ((Perm.mem_iff p).0 d) (Bool-set _ _) (λ d'. index_ok-iota 0 n n x (omega arith) d'))

order_not_empty : {P : Type 0} (n : ℕ) → Perm {A = ℤ} [] (iota 0 (suc n)) → P
order_not_empty n p =
    let e : true ≡ false =
      ∥∥₁_elim ((Perm.mem_iff p).1 ∣ Memᴰ.head refl ∣₁) (Bool-set true false)
        (λ d. absurd (Memᴰ.not-nil d)) in
    cc

module _ (fpu : Fpu) (get_route_info : IndexedLocation → IndexedLocation → Result RouteInfo)
    (ls : List IndexedLocation) where
  location_of-done :
      (n : ℕ) (x : ℤ)
      → n ≤ length ls
      → index_ok n x ≡ true
      → (l : IndexedLocation) × (location_of ls x ≡ done l)
  location_of-done n (pos k) h b =
      let (l, e) = get_elem?_below ls k (ground arith) in (l, rw e refl)
  location_of-done n (negsuc k) h b = cc

  estimate_from-Defined :
      (n : ℕ) (cost : Double) (a : ℤ) (xs : List ℤ)
      → n ≤ length ls
      → index_ok n a ≡ true
      → All (λ x. index_ok n x ≡ true) xs
      → Defined (estimate_from fpu get_route_info ls cost a xs)
  unfolding estimate_from
  estimate_from-Defined n cost a [] h p q = inl (_, refl)
  estimate_from-Defined n cost a (b ∷ xs) h p q =
      let (from, e) = location_of-done n a h p in
      let (to, f) = location_of-done n b h q.0 in
      elim (Result-cases (get_route_info from to)) [
        | inl (route, g) ↦
            rw (e, f, g)
              (estimate_from-Defined n (fpu.add cost route.distance.meters) b xs h q.0 q.1)
        | inr (x, g) ↦ rw (e, f, g) (inr (x, refl))
      ]

  -- The estimator of the total distance
  abbrev pub total_distance : TspEstimator
  total_distance = record {
    calculate_cost = λ xs. estimate fpu get_route_info ls xs;
    validate = λ xs. nop_validate xs;
  }

  -- If there is at least one point and each point has an indexed location, then the total distance
  -- of any order of the points is a cost or the distance matrix throws, and the validator answers:
  -- nothing is read out of range.
  pub total_distance-DefinedOn :
      (n : ℕ) → 1 ≤ n → n ≤ length ls → DefinedOn total_distance (iota 0 n)
  unfolding estimate
  total_distance-DefinedOn zero h k [] p = absurd (omega arith)
  total_distance-DefinedOn (suc n) h k [] p = order_not_empty n p
  total_distance-DefinedOn n h k (x ∷ xs) p =
      let all = order-All n (x ∷ xs) p in
      (estimate_from-Defined n _ x xs k all.0 all.1, inl (_, refl))
