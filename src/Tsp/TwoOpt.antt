-- ===== src/Tsp/TwoOpt.antt =====
-- engine/assfire/tsp/engine/algorithms/TwoOptTspAlgorithm.cpp. One call of solveTsp is a run over the
-- controller's state container, with the solutions that it publishes, the latest first. Each call of
-- isInterrupted reads the next value of `reads`.
pub mod Next
pub mod Ranges
pub mod Orders
pub mod Moves
pub mod Defined
pub mod Search
pub mod Resume
pub mod Solve
mod Tests
use assfire_suite.Base.{
  ℕ, zero, suc, ◌+◌, ◌-◌, ◌≤◌, ℤ, pos, suc_ℤ, geb_ℤ, leb, Bool, true, false, ◌&&◌, ◌||◌, not, List,
  [], ◌∷◌, ◌++◌, length, take, drop, reverse, Option, none, some, if◌then◌else◌,
}
use assfire_suite.Concepts.Double.{Fpu}
use assfire_suite.Tsp.Outcome.{Outcome, done, throws, undefined, ◌>>=◌}
use assfire_suite.Tsp.Solution.{TspCost, TspValidationResult, TspSolution, as_final, cost_lt}
use assfire_suite.Tsp.Task.{TspTask}
use assfire_suite.Tsp.Estimator.{TspEstimator}
use assfire_suite.Tsp.StateContainer.{
  TspAlgorithmState, AlgorithmInstance, two_opt_algorithm_state, not_set,
  time_wasting_algorithm_state, reset, set_points, set_sequence, can_be_used_for,
  contains_two_opt_algorithm_state,
}

-- The class State
pub record State : Type 0 where
  pub i : ℤ
  pub j : ℤ
  pub k : ℤ
  pub size : ℤ

-- nextState, behind the test for an empty state: ++j, and where it runs over, ++i, and where that
-- runs over, ++k.
unfoldable pub next_state : State → Option State
next_state s =
    let j = suc_ℤ s.j in
    let i = suc_ℤ s.i in
    let next : State =
      if geb_ℤ j (suc_ℤ s.size)
      then (if geb_ℤ i s.size
          then record s { i = pos 0; j = pos 1; k = suc_ℤ s.k }
          else record s { i = i; j = suc_ℤ i })
      else record s { j = j } in
    if geb_ℤ next.k s.size then none else some next

-- std::reverse(begin + i, begin + j) of the standard library, undefined where this is no range of the
-- vector.
abbrev pub reverse_from : ℕ → ℕ → List ℤ → List ℤ
reverse_from i j xs = take i xs ++ reverse (take (j - i) (drop i xs)) ++ drop j xs

unfoldable pub reverse_range : ℤ → ℤ → List ℤ → Outcome (List ℤ)
reverse_range (pos i) (pos j) xs =
    if leb i j && leb j (length xs) then done (reverse_from i j xs) else undefined
reverse_range _ _ xs = undefined

-- validateOrResetSavedState
unfoldable pub is_inconsistent : AlgorithmInstance → ℤ → Bool
is_inconsistent (two_opt_algorithm_state i j k) size = geb_ℤ i size || geb_ℤ j size || geb_ℤ k size
is_inconsistent _ size = true

unfoldable pub validate_or_reset_saved_state : TspTask → TspAlgorithmState → TspAlgorithmState
unfolding is_inconsistent
validate_or_reset_saved_state task saved =
    if not (contains_two_opt_algorithm_state saved)
    then reset saved
    else if not (can_be_used_for saved task)
    then reset saved
    else if is_inconsistent saved.algorithm_instance (pos (length task.points))
    then reset saved
    else saved

-- 0, 1, ... for the points of the task, from `i` on.
abbrev pub iota : ℕ → ℕ → List ℤ
iota i zero = []
iota i (suc n) = pos i ∷ iota (suc i) n

abbrev pub initial_sequence : TspTask → TspAlgorithmState → List ℤ
initial_sequence task saved =
    if contains_two_opt_algorithm_state saved then saved.sequence else iota 0 (length task.points)

unfoldable pub load_state : TspTask → TspAlgorithmState → Option State
load_state task saved = elim saved.algorithm_instance [
  | not_set ↦ none
  | two_opt_algorithm_state i j k ↦
      some (record { i = i; j = j; k = k; size = pos (length task.points) })
  | time_wasting_algorithm_state c ↦ none
]

unfoldable pub create_initial_state : TspTask → TspAlgorithmState → State
unfolding load_state
create_initial_state task saved = elim (load_state task saved) [
  | none ↦ record { i = pos 0; j = pos 2; k = pos 0; size = pos (length task.points) }
  | some s ↦ s
]

unfoldable pub save_state : State → TspAlgorithmState → List ℤ → TspTask → TspAlgorithmState
unfolding reset
save_state s container sequence task =
    record (set_sequence (set_points (reset container) task.points) sequence) {
      algorithm_instance = two_opt_algorithm_state s.i s.j s.k;
    }

-- The local variables of solveTsp, with the container and the published solutions.
pub record Run : Type 0 where
  pub sequence : List ℤ
  pub current_solution : TspSolution
  pub container : TspAlgorithmState
  pub published : List TspSolution

-- TspSolution(sequence, cost, validation_result, false)
abbrev pub intermediate : List ℤ → TspCost → TspValidationResult → TspSolution
intermediate sequence cost validation_result = record {
  sequence = sequence;
  cost = cost;
  validation_result = validation_result;
  is_final_solution = false;
}

abbrev pub publish_solution : TspSolution → Run → Run
publish_solution s r = record r { published = s ∷ r.published }

module _ (fpu : Fpu) (estimator : TspEstimator) (task : TspTask) where
  unfoldable pub create_initial_solution : TspAlgorithmState → Outcome TspSolution
  create_initial_solution saved = do
    cost ← estimator.calculate_cost (initial_sequence task saved)
    validation_result ← estimator.validate (initial_sequence task saved)
    done (intermediate (initial_sequence task saved) cost validation_result)

  -- The second reversal, which undoes the first.
  abbrev pub roll_back : ℤ → ℤ → List ℤ → Run → Outcome Run
  roll_back i j sequence r = do
    back ← reverse_range i j sequence
    done (record r { sequence = back })

  -- A valid sequence is accepted if it costs less than the current solution.
  unfoldable pub judge : State → List ℤ → TspValidationResult → Run → Outcome Run
  judge s sequence validation_result r = do
    cost ← estimator.calculate_cost sequence
    let solution = intermediate sequence cost validation_result
    if cost_lt fpu cost r.current_solution.cost
        then done (
            publish_solution solution
              (record r { sequence = sequence; current_solution = solution }))
        else roll_back s.i s.j sequence r

  -- The body of the loop up to nextState.
  unfoldable pub try_reversal : State → Run → Outcome Run
  try_reversal s r = do
    sequence ← reverse_range s.i s.j r.sequence
    validation_result ← estimator.validate sequence
    if validation_result.is_valid
        then judge s sequence validation_result r
        else roll_back s.i s.j sequence r

  -- The end of the body: an interrupted run saves the state that comes next.
  abbrev pub save_if_interrupted : Bool → Option State → Run → Run
  save_if_interrupted interrupted none r = r
  save_if_interrupted interrupted (some s) r =
      if interrupted
      then record r { container = save_state s r.container r.current_solution.sequence task }
      else r

  -- The while loop; none is the end of the fuel. `n` calls of isInterrupted have been made.
  unfoldable pub search :
      ℕ → (ℕ → Bool) → ℕ → Option State → Run → Option (Outcome (Option State × Run))
  search zero reads n s r = none
  search (suc fuel) reads n none r = some (done (none, r))
  search (suc fuel) reads n (some s) r =
      if reads n then some (done (some s, r)) else elim (try_reversal s r) [
        | throws e ↦ some (throws e)
        | undefined ↦ some undefined
        | done r' ↦
            search fuel reads (n + 2) (next_state s)
              (save_if_interrupted (reads (suc n)) (next_state s) r')
      ]

  -- The last solution is published again, as final if the loop has come to its end.
  abbrev pub publish_last : Option State × Run → Run
  publish_last (none, r) = publish_solution (as_final r.current_solution) r
  publish_last (some s, r) = publish_solution r.current_solution r

  abbrev pub start : TspAlgorithmState → TspSolution → Run
  start container solution = record {
    sequence = solution.sequence;
    current_solution = solution;
    container = container;
    published = solution ∷ [];
  }

  -- solveTsp behind validateOrResetSavedState
  unfoldable pub solve_from : ℕ → (ℕ → Bool) → TspAlgorithmState → Option (Outcome Run)
  solve_from fuel reads saved = elim (create_initial_solution saved) [
    | throws e ↦ some (throws e)
    | undefined ↦ some undefined
    | done solution ↦
        elim (search fuel reads 0 (some (create_initial_state task saved)) (start saved solution)) [
          | none ↦ none
          | some (throws e) ↦ some (throws e)
          | some undefined ↦ some undefined
          | some (done end) ↦ some (done (publish_last end))
        ]
  ]

  -- solveTsp
  unfoldable pub solve_tsp : ℕ → (ℕ → Bool) → TspAlgorithmState → Option (Outcome Run)
  solve_tsp fuel reads container =
      solve_from fuel reads (validate_or_reset_saved_state task container)
