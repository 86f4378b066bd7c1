-- ===== src/Tsp/TwoOpt/Solve.antt =====
-- What TwoOptTspAlgorithm::solveTsp promises of a whole call.
use mathlib.Core.List.Perm
use assfire_suite.Base.{
  ℕ, suc, ◌<◌, ◌≤◌, ◌≡◌, refl, sym, ap, subst, ◌∙◌, ◌⊎◌, inl, inr, Bool, false, lt→leb, Option,
  none, some, [], length, Error, arith,
}
use assfire_suite.Concepts.Double.{Fpu}
use assfire_suite.Tsp.Outcome.{Outcome, done, throws, undefined}
use assfire_suite.Tsp.Solution.{TspCost, TspValidationResult, as_final}
use assfire_suite.Tsp.Task.{TspTask}
use assfire_suite.Tsp.Estimator.{TspEstimator}
use assfire_suite.Tsp.StateContainer.{
  TspAlgorithmState, empty_state, reset, contains_two_opt_algorithm_state,
}
use assfire_suite.Tsp.TwoOpt.{
  State, Run, publish_solution, reverse_range, try_reversal, iota, validate_or_reset_saved_state,
  create_initial_solution, create_initial_state, load_state, search, start, publish_last,
  solve_from, solve_tsp, intermediate,
}
use assfire_suite.Tsp.TwoOpt.Orders.{length-iota}
use assfire_suite.Tsp.TwoOpt.Next.{InRange, at, left}
use assfire_suite.Tsp.TwoOpt.Moves.{DefinedOn, IsSearching}
use assfire_suite.Tsp.TwoOpt.Search.{
  Lasting, Saved, StopsInRange, Passes, search-Ended, search-finishes,
}

validate-fresh :
    (task : TspTask) (c : TspAlgorithmState)
    → contains_two_opt_algorithm_state c ≡ false
    → validate_or_reset_saved_state task c ≡ reset c
unfolding validate_or_reset_saved_state
validate-fresh task c h = rw h

reset-eq : (c : TspAlgorithmState) → reset c ≡ empty_state
unfolding reset
reset-eq c = refl

fresh-InRange : (n : ℕ) → 2 ≤ n → InRange n (at 0 2 0 n)
fresh-InRange n h = record {
  at_i = 0;
  at_j = 2;
  at_k = 0;
  is_at = refl;
  not_empty = omega arith;
  within = h;
  in_rounds = omega arith;
}

module _ (fpu : Fpu) (estimator : TspEstimator) (task : TspTask) where
  -- What a run on a fresh container computes, once the first solution is estimated.
  abbrev pub first_run : TspAlgorithmState → TspCost → TspValidationResult → Run
  first_run c cost v =
      start fpu estimator task (reset c) (intermediate (iota 0 (length task.points)) cost v)

  solve_tsp-fresh :
      (fuel : ℕ) (reads : ℕ → Bool) (c : TspAlgorithmState)
      → contains_two_opt_algorithm_state c ≡ false
      → solve_tsp fpu estimator task fuel reads c
        ≡ solve_from fpu estimator task fuel reads (reset c)
  unfolding solve_tsp
  solve_tsp-fresh fuel reads c h =
      ap (solve_from fpu estimator task fuel reads) (validate-fresh task c h)

  -- How a fresh call ends if its first solution cannot be estimated.
  solve-cost_throws :
      (fuel : ℕ) (reads : ℕ → Bool) (c : TspAlgorithmState) (e : Error)
      → estimator.calculate_cost (iota 0 (length task.points)) ≡ throws e
      → solve_from fpu estimator task fuel reads (reset c) ≡ some (throws e)
  unfolding solve_from create_initial_solution reset
  solve-cost_throws fuel reads c e h = rw (h, solve_from, create_initial_solution)

  solve-validate_throws :
      (fuel : ℕ) (reads : ℕ → Bool) (c : TspAlgorithmState) (cost : TspCost) (e : Error)
      → estimator.calculate_cost (iota 0 (length task.points)) ≡ done cost
      → estimator.validate (iota 0 (length task.points)) ≡ throws e
      → solve_from fpu estimator task fuel reads (reset c) ≡ some (throws e)
  unfolding solve_from create_initial_solution reset
  solve-validate_throws fuel reads c cost e p h = rw (p, h, solve_from, create_initial_solution)

  solve-search :
      (fuel : ℕ) (reads : ℕ → Bool) (c : TspAlgorithmState) (cost : TspCost)
      (v : TspValidationResult) (m : Option (Outcome (Option State × Run)))
      → estimator.calculate_cost (iota 0 (length task.points)) ≡ done cost
      → estimator.validate (iota 0 (length task.points)) ≡ done v
      → search fpu estimator task fuel reads 0
          (some (at 0 2 0 (length task.points)))
          (first_run c cost v)
        ≡ m
      → solve_from fpu estimator task fuel reads (reset c) ≡ elim m [
        | none ↦ none
        | some (throws e) ↦ some (throws e)
        | some undefined ↦ some undefined
        | some (done end) ↦ some (done (publish_last fpu estimator task end))
      ]
  unfolding solve_from create_initial_solution create_initial_state load_state reset
  solve-search fuel reads c cost v m p q e = rw (p, q, solve_from, create_initial_solution) (rw e)

  first_run-IsSearching :
      (c : TspAlgorithmState) (cost : TspCost) (v : TspValidationResult)
      → IsSearching fpu (iota 0 (length task.points)) (first_run c cost v)
  first_run-IsSearching c cost v = record {
    current = refl;
    is_order = Perm.refl (iota 0 (length task.points));
    complete = refl;
    older = [];
    last = refl;
    orders = (Perm.refl (iota 0 (length task.points)), tt);
    descending = tt;
    not_final = (refl, tt);
  }

  first_state-InRange :
      2 ≤ length task.points
      → InRange (length (iota 0 (length task.points))) (at 0 2 0 (length task.points))
  first_state-InRange h =
      subst (λ n. InRange n (at 0 2 0 (length task.points)))
        (sym (length-iota 0 (length task.points))) (fresh-InRange (length task.points) h)

  -- For a task of at least two points and a container with no state of this algorithm, with an
  -- estimator that returns or throws on each order of the points, and calls of isInterrupted that do
  -- not turn false again, solveTsp ends within the fuel given: with an exception of the estimator, or
  -- with a run that has published orders of the points only, all of them intermediate and each cheaper
  -- than the one before, and then the last again, as final unless the search was stopped. A search
  -- that was not stopped leaves the container empty. One that was stopped has answered false at each
  -- call of isInterrupted before the first that is true: if this stands at the head of a round, the
  -- container is left empty; if it stands at the end of one, the container holds the state that comes
  -- next with the last published order.
  pub two_opt_solves :
      (fuel : ℕ) (reads : ℕ → Bool) (c : TspAlgorithmState)
      → contains_two_opt_algorithm_state c ≡ false
      → 2 ≤ length task.points
      → DefinedOn estimator (iota 0 (length task.points))
      → Lasting reads
      → suc (left (at 0 2 0 (length task.points))) < fuel
      → ((s : Option State) × (r : Run) × (solve_tsp fpu estimator task fuel reads c
            ≡ some (done (publish_last fpu estimator task (s, r))))
          × IsSearching fpu (iota 0 (length task.points)) r
          × StopsInRange fpu estimator task (iota 0 (length task.points)) s
          × Saved fpu estimator task (iota 0 (length task.points)) reads empty_state s r)
        ⊎ ((e : Error) × (solve_tsp fpu estimator task fuel reads c ≡ some (throws e)))
  two_opt_solves fuel reads c fresh two d m f =
      let points = iota 0 (length task.points) in
      let begin = solve_tsp-fresh fuel reads c fresh in
      elim (d points (Perm.refl points)).0 [
        | inr (e, p) ↦ inr (e, begin ∙ solve-cost_throws fuel reads c e p)
        | inl (cost, p) ↦ elim (d points (Perm.refl points)).1 [
          | inr (e, q) ↦ inr (e, begin ∙ solve-validate_throws fuel reads c cost e p q)
          | inl (v, q) ↦
              elim (search-Ended fpu estimator task points fuel reads 0 0 _ (first_run c cost v) d m
                refl (λ j h. absurd (omega arith)) (first_state-InRange two)
                (first_run-IsSearching c cost v) f) [
                  | inr (e, x) ↦ inr (e, begin ∙ solve-search fuel reads c cost v _ p q x)
                  | inl (s, r, x, good, range, saved) ↦ inl (
                    s,
                    r,
                    begin ∙ solve-search fuel reads c cost v _ p q x,
                    good,
                    range,
                    subst (λ b. Saved fpu estimator task points reads b s r) (reset-eq c) saved,
                  )
                ]
        ]
      ]

  -- For a task of at least two points, a container with no state of this algorithm, an estimator that
  -- returns or throws on each order of the points, and no interrupt, solveTsp ends within the fuel
  -- given, with an exception of the estimator, or as follows. The first current solution is the order
  -- in which the points are given, with its estimates. Then each state from (0, 2, 0) on, up to the one
  -- without a next state, has its move: the sequence is reversed in the range of the state; if the
  -- result is valid and costs less than the current solution, it becomes the current solution and is
  -- published as intermediate; otherwise the sequence stays as it was. The current solution behind the
  -- last move is published as final, last.
  pub two_opt_finishes :
      (fuel : ℕ) (reads : ℕ → Bool) (c : TspAlgorithmState)
      → contains_two_opt_algorithm_state c ≡ false
      → 2 ≤ length task.points
      → DefinedOn estimator (iota 0 (length task.points))
      → ((n : ℕ) → reads n ≡ false)
      → suc (left (at 0 2 0 (length task.points))) < fuel
      → ((r : Run) × (solve_tsp fpu estimator task fuel reads c
            ≡ some (done (publish_solution (as_final r.current_solution) r)))
          × IsSearching fpu (iota 0 (length task.points)) r
          × ((cost : TspCost) × (v : TspValidationResult) × (estimator.calculate_cost
                  (iota 0 (length task.points))
                ≡ done cost)
              × (estimator.validate (iota 0 (length task.points)) ≡ done v)
              × Passes fpu estimator task
                  (iota 0 (length task.points))
                  (at 0 2 0 (length task.points))
                  (first_run c cost v)
                  r))
        ⊎ ((e : Error) × (solve_tsp fpu estimator task fuel reads c ≡ some (throws e)))
  two_opt_finishes fuel reads c fresh two d off f =
      let points = iota 0 (length task.points) in
      let begin = solve_tsp-fresh fuel reads c fresh in
      elim (d points (Perm.refl points)).0 [
        | inr (e, p) ↦ inr (e, begin ∙ solve-cost_throws fuel reads c e p)
        | inl (cost, p) ↦ elim (d points (Perm.refl points)).1 [
          | inr (e, q) ↦ inr (e, begin ∙ solve-validate_throws fuel reads c cost e p q)
          | inl (v, q) ↦
              elim (search-finishes fpu estimator task points fuel reads 0 _ (first_run c cost v) d
                off (first_state-InRange two) (first_run-IsSearching c cost v) f) [
                  | inr (e, x) ↦ inr (e, begin ∙ solve-search fuel reads c cost v _ p q x)
                  | inl (r, x, good, passes) ↦ inl (
                    r,
                    begin ∙ solve-search fuel reads c cost v _ p q x,
                    good,
                    (cost, v, p, q, passes),
                  )
                ]
        ]
      ]

  out_of_range :
      (r : Run)
      → length r.sequence ≡ length task.points
      → length task.points < 2
      → try_reversal fpu estimator task (at 0 2 0 (length task.points)) r ≡ undefined
  unfolding try_reversal reverse_range
  out_of_range r size h = rw (lt→leb 2 (length r.sequence) (omega (arith, size)))

  -- A task of fewer than two points sends the search out of the sequence: if the first order is
  -- estimated and the call is not interrupted at once, the first move reverses two entries of a
  -- sequence that does not have them, which is undefined.
  pub two_opt_undefined :
      (fuel : ℕ) (reads : ℕ → Bool) (c : TspAlgorithmState) (cost : TspCost)
      (v : TspValidationResult)
      → contains_two_opt_algorithm_state c ≡ false
      → length task.points < 2
      → estimator.calculate_cost (iota 0 (length task.points)) ≡ done cost
      → estimator.validate (iota 0 (length task.points)) ≡ done v
      → reads 0 ≡ false
      → solve_tsp fpu estimator task (suc fuel) reads c ≡ some undefined
  unfolding search
  two_opt_undefined fuel reads c cost v fresh small p q off =
      let run = first_run c cost v in
      let gone = out_of_range run (length-iota 0 (length task.points)) small in
      solve_tsp-fresh (suc fuel) reads c fresh
      ∙ solve-search (suc fuel) reads c cost v (some undefined) p q (rw off (rw gone))
