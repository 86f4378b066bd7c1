-- ===== src/Tsp/TimeWasting.antt =====
-- engine/assfire/tsp/engine/algorithms/TimeWastingTspAlgorithm.cpp: a hundred rounds of a second, each
-- with a random cost. The n-th call of std::rand gives `rand n`, and each call of isInterrupted reads
-- the next value of `reads`; the pauses are not modelled.
pub mod Ends
use assfire_suite.Base.{
  ℕ, zero, suc, ◌+◌, ◌%◌, ℤ, pos, suc_ℤ, geb_ℤ, Bool, true, not, List, [], ◌∷◌, length, Option,
  none, some, if◌then◌else◌,
}
use assfire_suite.Concepts.Double.{Fpu}
use assfire_suite.Tsp.Outcome.{Outcome, done, throws, undefined, ◌>>=◌}
use assfire_suite.Tsp.Solution.{TspCost, TspSolution, as_final}
use assfire_suite.Tsp.Task.{TspTask}
use assfire_suite.Tsp.Estimator.{TspEstimator}
use assfire_suite.Tsp.StateContainer.{
  TspAlgorithmState, AlgorithmInstance, not_set, two_opt_algorithm_state,
  time_wasting_algorithm_state, reset, set_points, set_sequence, can_be_used_for,
  contains_time_wasting_algorithm_state,
}
use assfire_suite.Tsp.TwoOpt.{Run, iota, intermediate, start, publish_solution}

-- The class State
pub record Counter : Type 0 where
  pub counter : ℤ

unfoldable pub next_counter : Counter → Option Counter
next_counter s =
    if geb_ℤ s.counter (pos 99) then none else some (record { counter = suc_ℤ s.counter })

-- The saved counter, where there is one, is too large.
pub is_over : AlgorithmInstance → Bool
is_over (time_wasting_algorithm_state c) = geb_ℤ c (pos 99)
is_over _ = true

unfoldable pub validate_or_reset_counter : TspTask → TspAlgorithmState → TspAlgorithmState
unfolding is_over
validate_or_reset_counter task saved =
    if not (contains_time_wasting_algorithm_state saved)
    then reset saved
    else if not (can_be_used_for saved task)
    then reset saved
    else if is_over saved.algorithm_instance
    then reset saved
    else saved

abbrev pub first_sequence : TspTask → TspAlgorithmState → List ℤ
first_sequence task saved =
    if contains_time_wasting_algorithm_state saved
    then saved.sequence
    else iota 0 (length task.points)

unfoldable pub load_counter : TspAlgorithmState → Option Counter
load_counter saved = elim saved.algorithm_instance [
  | not_set ↦ none
  | two_opt_algorithm_state i j k ↦ none
  | time_wasting_algorithm_state c ↦ some (record { counter = c })
]

unfoldable pub create_initial_counter : TspAlgorithmState → Counter
unfolding load_counter
create_initial_counter saved = elim (load_counter saved) [
  | none ↦ record { counter = pos 0 }
  | some s ↦ s
]

unfoldable pub save_counter : Counter → TspAlgorithmState → List ℤ → TspTask → TspAlgorithmState
unfolding reset
save_counter s container sequence task =
    record (set_sequence (set_points (reset container) task.points) sequence) {
      algorithm_instance = time_wasting_algorithm_state s.counter;
    }

module _ (fpu : Fpu) (estimator : TspEstimator) (task : TspTask) (rand : ℕ → ℕ) where
  -- TspCost(std::rand() % 100000)
  abbrev pub random_cost : ℕ → TspCost
  random_cost n = record { value = fpu.of_int64 (pos (rand n % 100000)) }

  -- The body of the loop up to nextState; `n` calls of std::rand have been made, and the number of
  -- calls behind it is returned.
  unfoldable pub waste : ℕ → Run → Outcome (ℕ × Run)
  waste n r = do
    v ← estimator.validate r.sequence
    let found = intermediate r.sequence (random_cost n) v
    if v.is_valid
        then done (suc n, publish_solution found (record r { current_solution = found }))
        else done (n, r)

  abbrev pub save_counter_if : Bool → Option Counter → Run → Run
  save_counter_if interrupted none r = r
  save_counter_if interrupted (some s) r =
      if interrupted
      then record r { container = save_counter s r.container r.current_solution.sequence task }
      else r

  -- The loop, with fuel; `m` calls of isInterrupted have been made.
  unfoldable pub waste_time :
      ℕ → (ℕ → Bool) → ℕ → ℕ → Option Counter → Run → Option (Outcome (Option Counter × Run))
  waste_time zero reads m n s r = none
  waste_time (suc fuel) reads m n none r = some (done (none, r))
  waste_time (suc fuel) reads m n (some s) r =
      if reads m then some (done (some s, r)) else elim (waste n r) [
        | throws e ↦ some (throws e)
        | undefined ↦ some undefined
        | done (n', r') ↦
            waste_time fuel reads (m + 2) n' (next_counter s)
              (save_counter_if (reads (suc m)) (next_counter s) r')
      ]

  abbrev pub publish_end : Option Counter × Run → Run
  publish_end (none, r) = publish_solution (as_final r.current_solution) r
  publish_end (some s, r) = publish_solution r.current_solution r

  abbrev pub first_solution : TspAlgorithmState → Outcome TspSolution
  first_solution saved = do
    cost ← estimator.calculate_cost (first_sequence task saved)
    v ← estimator.validate (first_sequence task saved)
    done (intermediate (first_sequence task saved) cost v)

  -- solveTsp
  unfoldable pub solve_tsp : ℕ → (ℕ → Bool) → TspAlgorithmState → Option (Outcome Run)
  solve_tsp fuel reads container =
      let saved = validate_or_reset_counter task container in
      elim (first_solution saved) [
        | throws e ↦ some (throws e)
        | undefined ↦ some undefined
        | done solution ↦
            elim (waste_time fuel reads 0 0 (some (create_initial_counter saved))
              (start fpu estimator task saved solution)) [
                | none ↦ none
                | some (throws e) ↦ some (throws e)
                | some undefined ↦ some undefined
                | some (done end) ↦ some (done (publish_end end))
              ]
      ]
