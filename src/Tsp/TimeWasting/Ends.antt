-- ===== src/Tsp/TimeWasting/Ends.antt =====
-- The time wasting algorithm ends by itself, after a hundred rounds in all.
use assfire_suite.Base.{
  ℕ, zero, suc, ◌+◌, ◌-◌, ◌<◌, ◌≤◌, leb, pos, ◌≡◌, refl, ap, ◌∙◌, inl, inr, Bool, true, false,
  Bool-cases, if_true, leb→le, Option, none, some, length, arith,
}
use assfire_suite.Concepts.Double.{Fpu}
use assfire_suite.Tsp.Outcome.{done}
use assfire_suite.Tsp.Solution.{TspValidationResult}
use assfire_suite.Tsp.Task.{TspTask}
use assfire_suite.Tsp.Estimator.{TspEstimator}
use assfire_suite.Tsp.TwoOpt.{Run, intermediate, publish_solution}
use assfire_suite.Tsp.TimeWasting.{
  Counter, next_counter, waste, waste_time, save_counter_if, random_cost,
}

next_counter-last : (c : ℕ) → 99 ≤ c → next_counter (record { counter = pos c }) ≡ none
unfolding next_counter
next_counter-last c h = ground arith

next_counter-more :
    (c : ℕ)
    → c < 99
    → next_counter (record { counter = pos c }) ≡ some (record { counter = pos (suc c) })
unfolding next_counter
next_counter-more c h = ground arith

module _ (fpu : Fpu) (estimator : TspEstimator) (task : TspTask) (rand : ℕ → ℕ)
    (v : TspValidationResult) where
  waste-eq :
      (n : ℕ) (r : Run)
      → estimator.validate r.sequence ≡ done v
      → v.is_valid ≡ true
      → (r' : Run) × (waste fpu estimator task rand n r ≡ done (suc n, r'))
        × (r'.sequence ≡ r.sequence)
        × (r'.container ≡ r.container)
        × (length r'.published ≡ suc (length r.published))
  unfolding waste
  waste-eq n r h t =
      let found = intermediate r.sequence (random_cost fpu estimator task rand n) v in
      (
        publish_solution found (record r { current_solution = found }),
        rw h (if_true v.is_valid _ _ t),
        refl,
        refl,
        refl,
      )

  round :
      (fuel : ℕ) (reads : ℕ → Bool) (m n n' : ℕ) (s : Counter) (r r' : Run) (next : Option Counter)
      → reads m ≡ false
      → reads (suc m) ≡ false
      → waste fpu estimator task rand n r ≡ done (n', r')
      → next_counter s ≡ next
      → waste_time fpu estimator task rand (suc fuel) reads m n (some s) r
        ≡ waste_time fpu estimator task rand fuel reads
            (m + 2)
            n'
            next
            (save_counter_if fpu estimator task rand false next r')
  unfolding waste_time
  round fuel reads m n n' s r r' next h k e p = rw h (rw (e, p, k))

  finished :
      (fuel : ℕ) (reads : ℕ → Bool) (m n : ℕ) (r : Run)
      → 0 < fuel
      → waste_time fpu estimator task rand fuel reads m n none r ≡ some (done (none, r))
  unfolding waste_time
  finished zero reads m n r h = absurd (omega arith)
  finished (suc fuel) reads m n r h = refl

  -- If the validator accepts the sequence and the call is not interrupted, the loop ends by itself
  -- with fuel for the rounds that the counter leaves, has published a solution in each of them, and
  -- has left the sequence and the container as they were.
  pub waste_time_ends :
      (fuel : ℕ) (reads : ℕ → Bool) (m n c : ℕ) (r : Run)
      → ((i : ℕ) → reads i ≡ false)
      → estimator.validate r.sequence ≡ done v
      → v.is_valid ≡ true
      → c < 100
      → suc (100 - c) ≤ fuel
      → (r' : Run) × (waste_time fpu estimator task rand fuel reads m n
            (some (record { counter = pos c }))
            r
          ≡ some (done (none, r')))
        × (r'.sequence ≡ r.sequence)
        × (r'.container ≡ r.container)
        × (length r'.published ≡ length r.published + (100 - c))
  waste_time_ends zero reads m n c r off h t low f = absurd (omega arith)
  waste_time_ends (suc fuel) reads m n c r off h t low f =
      let (r', e, p, q, size) = waste-eq n r h t in
      elim (Bool-cases (leb 99 c)) [
        | inl last ↦ (
          r',
          round fuel reads m n (suc n) _ r r' none (off m) (off (suc m)) e
                (next_counter-last c (leb→le 99 c last))
              ∙ finished fuel reads (m + 2) (suc n) r' (omega arith),
          p,
          q,
          omega (arith, size, leb→le 99 c last),
        )
        | inr more ↦
            let small : c < 99 = ground arith in
            let (end, x, y, z, w) =
              waste_time_ends fuel reads (m + 2) (suc n) (suc c) r' off
                (ap estimator.validate p ∙ h) t (omega arith) (omega arith) in
            (
              end,
              round fuel reads m n (suc n) _ r r' (some _) (off m) (off (suc m)) e
                    (next_counter-more c small)
                  ∙ x,
              y ∙ p,
              z ∙ q,
              omega (arith, w, size),
            )
      ]
