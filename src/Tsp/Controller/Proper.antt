-- ===== src/Tsp/Controller/Proper.antt =====
-- The 2-opt algorithm publishes nothing behind a final solution, as the controller needs it.
use assfire_suite.Base.{
  ℕ, suc, ◌<◌, ◌≤◌, ◌≡◌, refl, sym, subst, ◌∙◌, inl, inr, Bool, false, Option, none, some, length,
  All, Error,
}
use assfire_suite.Concepts.Double.{Fpu}
use assfire_suite.Tsp.Outcome.{Outcome, done, throws}
use assfire_suite.Tsp.Solution.{as_final}
use assfire_suite.Tsp.Task.{TspTask}
use assfire_suite.Tsp.Estimator.{TspEstimator}
use assfire_suite.Tsp.StateContainer.{TspAlgorithmState, contains_two_opt_algorithm_state}
use assfire_suite.Tsp.TwoOpt.{State, Run, iota, publish_last, solve_tsp}
use assfire_suite.Tsp.TwoOpt.Next.{at, left}
use assfire_suite.Tsp.TwoOpt.Moves.{DefinedOn, IsSearching}
use assfire_suite.Tsp.TwoOpt.Search.{Lasting}
use assfire_suite.Tsp.TwoOpt.Solve.{two_opt_solves}
use assfire_suite.Tsp.Controller.{Ran}
use assfire_suite.Tsp.Controller.Order.{IsProper, IsIntermediate, unfinished, finished}

-- A run that has come to its end, as the controller sees it.
abbrev pub ran_of : Run → Ran
ran_of r = record { published = r.published; container = r.container; thrown = none }

module _ (fpu : Fpu) (estimator : TspEstimator) (task : TspTask) where
  publish_last-IsProper :
      (s : Option State) (r : Run)
      → IsSearching fpu (iota 0 (length task.points)) r
      → IsProper (ran_of (publish_last fpu estimator task (s, r)))
  publish_last-IsProper none r h =
      finished (as_final r.current_solution) r.published r.container refl h.not_final
  publish_last-IsProper (some s) r h =
      let head = subst (λ ss. All IsIntermediate ss) h.last h.not_final in
      unfinished _ (head.0, h.not_final)

  outcome-eq :
      (r r' : Run) → ◌≡◌ {A = Option (Outcome Run)} (some (done r)) (some (done r')) → r ≡ r'
  outcome-eq r r' e = cc

  outcome-ne :
      {P : Type 0} (r : Run) (e : Error)
      → ◌≡◌ {A = Option (Outcome Run)} (some (done r)) (some (throws e))
      → P
  outcome-ne r e p = cc

  -- Where solveTsp returns within the fuel given, on a task of at least two points and a container with
  -- no state of this algorithm, with an estimator that returns or throws on each order of the points,
  -- and calls of isInterrupted that do not turn false again, it has published intermediate solutions
  -- only, or exactly one final solution, as the last: it is an algorithm as the controller needs it.
  pub two_opt-IsProper :
      (fuel : ℕ) (reads : ℕ → Bool) (c : TspAlgorithmState) (r : Run)
      → contains_two_opt_algorithm_state c ≡ false
      → 2 ≤ length task.points
      → DefinedOn estimator (iota 0 (length task.points))
      → Lasting reads
      → suc (left (at 0 2 0 (length task.points))) < fuel
      → solve_tsp fpu estimator task fuel reads c ≡ some (done r)
      → IsProper (ran_of r)
  two_opt-IsProper fuel reads c r fresh two d m f e =
      elim (two_opt_solves fpu estimator task fuel reads c fresh two d m f) [
        | inl (s, r', p, good, range, saved) ↦
            subst (λ x. IsProper (ran_of x)) (outcome-eq _ r (sym p ∙ e))
              (publish_last-IsProper s r' good)
        | inr (x, p) ↦ outcome-ne r x (sym e ∙ p)
      ]
