-- ===== src/Tsp/TwoOpt/Moves.antt =====
-- One move of the search: a range of the sequence is reversed, and kept if this makes the solution
-- cheaper.
use mathlib.Core.List.{Perm}
use mathlib.Core.List.Perm
use assfire_suite.Base.{
  ℤ, ◌≡◌, refl, ap, subst, ◌∙◌, ◌⊎◌, inl, inr, Bool, true, false, Bool-cases, List, [], ◌∷◌, length,
  All, Error, if◌then◌else◌, arith,
}
use assfire_suite.Concepts.Double.{Fpu}
use assfire_suite.Tsp.Outcome.{Outcome, done, throws}
use assfire_suite.Tsp.Solution.{TspCost, TspValidationResult, TspSolution, cost_lt}
use assfire_suite.Tsp.Task.{TspTask}
use assfire_suite.Tsp.Estimator.{TspEstimator}
use assfire_suite.Tsp.TwoOpt.{
  State, Run, reverse_range, try_reversal, judge, roll_back, intermediate, publish_solution,
}
use assfire_suite.Tsp.TwoOpt.Next.{InRange}
use assfire_suite.Tsp.TwoOpt.Ranges.{reverse_range-within}

-- A call that returns or throws.
abbrev pub Defined {ℓ} : {A : Type ℓ} → Outcome A → Type ℓ
Defined {A = A} m = ((a : A) × (m ≡ done a)) ⊎ ((e : Error) × (m ≡ throws e))

-- The estimator has a meaning on the orders of the same points.
abbrev pub DefinedOn : TspEstimator → List ℤ → Type 0
DefinedOn estimator points =
    (xs : List ℤ)
    → Perm xs points
    → Defined (estimator.calculate_cost xs) × Defined (estimator.validate xs)

module _ (fpu : Fpu) where
  -- Each solution is cheaper than the one that was published before it.
  abbrev pub Descending : List TspSolution → Type 0
  Descending [] = Unit
  Descending (x ∷ []) = Unit
  Descending (x ∷ y ∷ older) = (cost_lt fpu x.cost y.cost ≡ true) × Descending (y ∷ older)

  Descending-cons :
      (x y : TspSolution) (older all : List TspSolution)
      → all ≡ y ∷ older
      → cost_lt fpu x.cost y.cost ≡ true
      → Descending all
      → Descending (x ∷ all)
  Descending-cons x y older all e t h = rw e (t, subst Descending e h)

  -- Between two moves: the sequence is that of the current solution, an order of the points; the
  -- current solution is the last published one; each published one is an order of the points and was
  -- cheaper than the one before; and none of them was published as final.
  pub record IsSearching (points : List ℤ) (r : Run) : Type 0 where
    pub current : r.sequence ≡ r.current_solution.sequence
    pub is_order : Perm r.sequence points
    pub complete : length r.sequence ≡ length points
    pub older : List TspSolution
    pub last : r.published ≡ r.current_solution ∷ older
    pub orders : All (λ s. Perm s.sequence points) r.published
    pub descending : Descending r.published
    pub not_final : All (λ s. s.is_final_solution ≡ false) r.published

module _ (fpu : Fpu) (estimator : TspEstimator) where
  -- One move, whatever computes it: the reversed sequence is accepted and published if it is valid and
  -- cheaper than the current solution, and refused otherwise.
  pub data Move (s : State) (r : Run) : Run → Type 0 where
    accepts :
        (ys : List ℤ) (v : TspValidationResult) (cost : TspCost)
        → reverse_range s.i s.j r.sequence ≡ done ys
        → estimator.validate ys ≡ done v
        → v.is_valid ≡ true
        → estimator.calculate_cost ys ≡ done cost
        → cost_lt fpu cost r.current_solution.cost ≡ true
        → Move s r (record r {
          sequence = ys;
          current_solution = intermediate ys cost v;
          published = intermediate ys cost v ∷ r.published;
        })
    refuses_invalid :
        (ys : List ℤ) (v : TspValidationResult)
        → reverse_range s.i s.j r.sequence ≡ done ys
        → estimator.validate ys ≡ done v
        → v.is_valid ≡ false
        → Move s r r
    refuses_costly :
        (ys : List ℤ) (v : TspValidationResult) (cost : TspCost)
        → reverse_range s.i s.j r.sequence ≡ done ys
        → estimator.validate ys ≡ done v
        → v.is_valid ≡ true
        → estimator.calculate_cost ys ≡ done cost
        → cost_lt fpu cost r.current_solution.cost ≡ false
        → Move s r r

  -- What a move makes of a run.
  abbrev pub Moved : List ℤ → State → Run → Outcome Run → Type 0
  Moved points s r m =
      ((r' : Run) × (m ≡ done r')
        × IsSearching fpu points r'
        × (r'.container ≡ r.container)
        × Move s r r')
      ⊎ ((e : Error) × (m ≡ throws e))

module _ (fpu : Fpu) (estimator : TspEstimator) (task : TspTask) (points : List ℤ) where
  -- A run that takes the move back is as it was.
  roll_back-Moved :
      (s : State) (ys : List ℤ) (r : Run)
      → IsSearching fpu points r
      → reverse_range s.i s.j ys ≡ done r.sequence
      → Move fpu estimator s r r
      → Moved fpu estimator points s r (roll_back fpu estimator task s.i s.j ys r)
  roll_back-Moved s ys r h e k = inl (r, rw e, h, refl, k)

  judge-Moved :
      (s : State) (ys : List ℤ) (v : TspValidationResult) (r : Run)
      → IsSearching fpu points r
      → Perm ys points
      → length ys ≡ length points
      → Defined (estimator.calculate_cost ys)
      → reverse_range s.i s.j ys ≡ done r.sequence
      → reverse_range s.i s.j r.sequence ≡ done ys
      → estimator.validate ys ≡ done v
      → v.is_valid ≡ true
      → Moved fpu estimator points s r (judge fpu estimator task s ys v r)
  unfolding judge
  judge-Moved s ys v r h p size (inr (e, q)) back there checked valid = inr (e, rw q)
  judge-Moved s ys v r h p size (inl (cost, q)) back there checked valid =
      elim (Bool-cases (cost_lt fpu cost r.current_solution.cost)) [
        | inl t ↦
            let found = intermediate ys cost v in
            let moved =
              publish_solution found (record r { sequence = ys; current_solution = found }) in
            let good : IsSearching fpu points moved = record {
              current = refl;
              is_order = p;
              complete = size;
              older = r.published;
              last = refl;
              orders = (p, h.orders);
              descending =
                  Descending-cons fpu found r.current_solution h.older r.published h.last t
                    h.descending;
              not_final = (refl, h.not_final);
            } in
            inl (moved, rw q (rw t), good, refl, accepts ys v cost there checked valid q t)
        | inr t ↦ rw q (
            rw t (roll_back-Moved s ys r h back (refuses_costly ys v cost there checked valid q t)))
      ]

  either-Moved :
      (s : State) (r : Run) (t : Bool) (x y : Outcome Run)
      → (t ≡ true → Moved fpu estimator points s r x)
      → (t ≡ false → Moved fpu estimator points s r y)
      → Moved fpu estimator points s r (if t then x else y)
  either-Moved s r true x y h k = h refl
  either-Moved s r false x y h k = k refl

  -- A move in range over an order of the points is made as `Move` says, and keeps what holds between
  -- moves, and the container; or the estimator throws.
  pub try_reversal-Moved :
      (s : State) (r : Run)
      → DefinedOn estimator points
      → InRange (length points) s
      → IsSearching fpu points r
      → Moved fpu estimator points s r (try_reversal fpu estimator task s r)
  unfolding try_reversal
  try_reversal-Moved s r d range h =
      let (ys, there, p, size, back) =
        reverse_range-within range.at_i range.at_j r.sequence (omega (arith, range.not_empty))
          (omega (arith, range.within, h.complete)) in
      let order = Perm.trans p h.is_order in
      let e = ap (λ (t : State). reverse_range t.i t.j r.sequence) range.is_at ∙ there in
      let f = ap (λ (t : State). reverse_range t.i t.j ys) range.is_at ∙ back in
      elim (d ys order).1 [
        | inr (x, q) ↦ inr (x, rw e (rw q))
        | inl (v, q) ↦
            let kept =
              either-Moved s r v.is_valid (judge fpu estimator task s ys v r)
                (roll_back fpu estimator task s.i s.j ys r)
                (λ valid.
                  judge-Moved s ys v r h order (size ∙ h.complete) (d ys order).0 f e q valid)
                (λ invalid. roll_back-Moved s ys r h f (refuses_invalid ys v e q invalid)) in
            rw e (rw q kept)
      ]
