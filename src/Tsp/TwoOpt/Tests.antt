-- ===== src/Tsp/TwoOpt/Tests.antt =====
-- Runs of the 2-opt search over three points on a line, and its theorems at these runs.
use mathlib.Core.List.Perm
use assfire_suite.Base.{
  ℕ, suc, ◌+◌, ◌-◌, ◌<◌, ◌≤◌, ltb, leb, ◌==◌, ℤ, pos, pos_part, ◌≡◌, refl, ◌⊎◌, inl, Bool, true,
  false, Option, none, some, List, [], ◌∷◌, Error, ok, if◌then◌else◌, arith,
}
use assfire_suite.Concepts.Double.{Double, Fpu}
use assfire_suite.Concepts.Location
use assfire_suite.Router.Settings
use assfire_suite.Tsp.Outcome.{Outcome, done, throws, undefined}
use assfire_suite.Tsp.Solution.{TspCost, TspValidationResult, as_final, cost_lt}
use assfire_suite.Tsp.Task
use assfire_suite.Tsp.Task.{TspPoint, TspTask, TspSolverSettings}
use assfire_suite.Tsp.StateContainer.{empty_state, reset}
use assfire_suite.Tsp.Estimator.{TspEstimator, nop_validate}
use assfire_suite.Tsp.TwoOpt.{
  State, Run, iota, next_state, reverse_range, try_reversal, publish_last, publish_solution,
  intermediate, start, save_state, validate_or_reset_saved_state, create_initial_state,
  initial_sequence, solve_tsp, solve_from, create_initial_solution, load_state, search, judge,
}
use assfire_suite.Tsp.TwoOpt.Next.{InRange, at, left, left_at, next_state-InRange}
use assfire_suite.Tsp.TwoOpt.Moves.{DefinedOn, IsSearching, Moved, try_reversal-Moved}
use assfire_suite.Tsp.TwoOpt.Search.{Lasting, Saved, StopsInRange, Passes}
use assfire_suite.Tsp.TwoOpt.Resume.{saved_state_reloads, saved_state_lost}
use assfire_suite.Tsp.TwoOpt.Solve
use assfire_suite.Tsp.TwoOpt.Solve.{two_opt_solves, two_opt_finishes, two_opt_undefined}
use assfire_suite.Tsp.TwoOpt.Defined.{total_distance, total_distance-DefinedOn}
use assfire_suite.Router.IndexedLocation.{IndexedLocation}
use assfire_suite.Router.RouteInfo

abbrev double : ℕ → Double
double n = record { bits = n }

-- Doubles that are not negative are ordered as their bits are.
abbrev fpu : Fpu
fpu = record {
  add = λ a b. double (a.bits + b.bits);
  mul = λ a b. a;
  div = λ a b. a;
  fabs = λ a. a;
  round = λ a. a;
  lt = λ a b. ltb a.bits b.bits;
  le = λ a b. leb a.bits b.bits;
  to_int64 = λ a. pos a.bits;
  of_int64 = λ a. double (pos_part a);
}

-- The points 0, 1 and 2 stand at 0, 8 and 3 on a line.
abbrev place : ℤ → ℕ
place x = if pos_part x == 0 then 0 else if pos_part x == 1 then 8 else 3

abbrev way : ℕ → ℕ → ℕ
way a b = (a - b) + (b - a)

abbrev total : List ℤ → ℕ
total [] = 0
total (x ∷ []) = 0
total (x ∷ y ∷ xs) = way (place x) (place y) + total (y ∷ xs)

abbrev estimator : TspEstimator
estimator = record {
  calculate_cost = λ xs. done (record { value = double (total xs) });
  validate = nop_validate;
}

abbrev settings : TspSolverSettings
settings = record {
  routing_settings = record {
    engine_type = Settings.crowflight;
    route_provider_settings = Settings.default_settings;
    routing_profile = record { speed = record { meters_per_second = double 0 } };
  };
  estimator_settings = record {
    cost_function_settings = record {
      type = Task.TspCostFunctionType.default;
      total_distance_cost_function_settings = record { cost_per_km = double 0 };
    };
    validator_settings = record { type = Task.TspValidatorType.default };
  };
  algorithm_settings = record { algorithm_type = Task.auto };
}

abbrev point : ℕ → TspPoint
point n = record { id = pos (100 + n); location = Location.from_encoded_lat_lon (pos n) (pos 0) }

abbrev task : TspTask
task = record { points = point 0 ∷ point 1 ∷ point 2 ∷ []; solver_settings = settings }

estimator-DefinedOn : DefinedOn estimator (iota 0 3)
estimator-DefinedOn xs p = (inl (_, refl), inl (_, refl))

-- Interrupted at the sixth call of isInterrupted, and from then on.
abbrev interrupted : ℕ → Bool
interrupted n = leb 5 n

interrupted-Lasting : Lasting interrupted
interrupted-Lasting n m h e = ground arith

enough : suc (left (at 0 2 0 3)) < 64
unfolding left left_at
enough = omega arith

two_opt_solves_example :
    ((s : Option State) × (r : Run) × (solve_tsp fpu estimator task 64 interrupted empty_state
        ≡ some (done (publish_last fpu estimator task (s, r))))
      × IsSearching fpu (iota 0 3) r
      × StopsInRange fpu estimator task (iota 0 3) s
      × Saved fpu estimator task (iota 0 3) interrupted empty_state s r)
    ⊎ ((e : Error) × (solve_tsp fpu estimator task 64 interrupted empty_state ≡ some (throws e)))
two_opt_solves_example =
    two_opt_solves fpu estimator task 64 interrupted empty_state refl (omega arith)
      estimator-DefinedOn interrupted-Lasting enough

two_opt_finishes_example :
    ((r : Run) × (solve_tsp fpu estimator task 64 (λ n. false) empty_state
        ≡ some (done (publish_solution (as_final r.current_solution) r)))
      × IsSearching fpu (iota 0 3) r
      × ((cost : TspCost) × (v : TspValidationResult) × (estimator.calculate_cost (iota 0 3)
            ≡ done cost)
          × (estimator.validate (iota 0 3) ≡ done v)
          × Passes fpu estimator task
              (iota 0 3)
              (at 0 2 0 3)
              (Solve.first_run fpu estimator task empty_state cost v)
              r))
    ⊎ ((e : Error) × (solve_tsp fpu estimator task 64 (λ n. false) empty_state ≡ some (throws e)))
two_opt_finishes_example =
    two_opt_finishes fpu estimator task 64 (λ n. false) empty_state refl (omega arith)
      estimator-DefinedOn (λ n. refl) enough

-- What the last published solution is, and whether it is final.
abbrev last_published : Option (Outcome Run) → Option (List ℤ × Bool)
last_published (some (done r)) = elim r.published [
  | [] ↦ none
  | s ∷ older ↦ some (s.sequence, s.is_final_solution)
]
last_published _ = none

finished_run :
    last_published (solve_tsp fpu estimator task 64 (λ n. false) empty_state)
    ≡ some (pos 1 ∷ pos 2 ∷ pos 0 ∷ [], true)
unfolding solve_tsp solve_from validate_or_reset_saved_state create_initial_solution
    create_initial_state load_state search try_reversal judge reverse_range next_state save_state
    cost_lt reset
finished_run = refl

interrupted_run :
    last_published (solve_tsp fpu estimator task 64 interrupted empty_state)
    ≡ some (pos 1 ∷ pos 0 ∷ pos 2 ∷ [], false)
unfolding solve_tsp solve_from validate_or_reset_saved_state create_initial_solution
    create_initial_state load_state search try_reversal judge reverse_range next_state save_state
    cost_lt reset
interrupted_run = refl

state_at : (i j k : ℕ) → i < j → j ≤ 3 → k < 3 → InRange 3 (at i j k 3)
state_at i j k a b c = record {
  at_i = i;
  at_j = j;
  at_k = k;
  is_at = refl;
  not_empty = a;
  within = b;
  in_rounds = c;
}

next_state-InRange_example :
    (next_state (at 1 3 0 3) ≡ none)
    ⊎ ((t : State) × (next_state (at 1 3 0 3) ≡ some t)
        × InRange 3 t
        × (left t < left (at 1 3 0 3)))
next_state-InRange_example =
    next_state-InRange 3 (at 1 3 0 3) (state_at 1 3 0 (omega arith) (omega arith) (omega arith))

abbrev first_run : Run
first_run =
    start fpu estimator task empty_state
      (intermediate (iota 0 3) (record { value = double 13 }) (record { is_valid = true }))

first_run-IsSearching : IsSearching fpu (iota 0 3) first_run
first_run-IsSearching = record {
  current = refl;
  is_order = Perm.refl (iota 0 3);
  complete = refl;
  older = [];
  last = refl;
  orders = (Perm.refl (iota 0 3), tt);
  descending = tt;
  not_final = (refl, tt);
}

try_reversal-Moved_example :
    Moved fpu estimator
      (iota 0 3)
      (at 0 2 0 3)
      first_run
      (try_reversal fpu estimator task (at 0 2 0 3) first_run)
try_reversal-Moved_example =
    try_reversal-Moved fpu estimator task (iota 0 3) (at 0 2 0 3) first_run estimator-DefinedOn
      (state_at 0 2 0 (omega arith) (omega arith) (omega arith)) first_run-IsSearching

saved_state_reloads_example :
    (validate_or_reset_saved_state task (save_state (at 1 2 0 3) empty_state (iota 0 3) task)
      ≡ save_state (at 1 2 0 3) empty_state (iota 0 3) task)
    × (create_initial_state task (save_state (at 1 2 0 3) empty_state (iota 0 3) task) ≡ at 1 2 0 3)
    × (initial_sequence task (save_state (at 1 2 0 3) empty_state (iota 0 3) task) ≡ iota 0 3)
saved_state_reloads_example =
    saved_state_reloads (at 1 2 0 3) empty_state (iota 0 3) task
      (record {
        at_i = 1;
        at_j = 2;
        at_k = 0;
        is_at = refl;
        not_empty = omega arith;
        within = omega arith;
        in_rounds = omega arith;
      })
      (omega arith) (Perm.refl (iota 0 3), refl)

saved_state_lost_example :
    (create_initial_state task
        (validate_or_reset_saved_state task (save_state (at 1 3 0 3) empty_state (iota 0 3) task))
      ≡ at 0 2 0 3)
    × (initial_sequence task
          (validate_or_reset_saved_state task (save_state (at 1 3 0 3) empty_state (iota 0 3) task))
        ≡ iota 0 3)
saved_state_lost_example =
    saved_state_lost (at 1 3 0 3) empty_state (iota 0 3) task
      (record {
        at_i = 1;
        at_j = 3;
        at_k = 0;
        is_at = refl;
        not_empty = omega arith;
        within = omega arith;
        in_rounds = omega arith;
      })
      refl (Perm.refl (iota 0 3), refl)

abbrev single : TspTask
single = record { points = point 0 ∷ []; solver_settings = settings }

two_opt_undefined_example :
    solve_tsp fpu estimator single 1 (λ n. false) empty_state ≡ some undefined
two_opt_undefined_example =
    two_opt_undefined fpu estimator single 0 (λ n. false) empty_state (record { value = double 0 })
      (record { is_valid = true }) refl (omega arith) refl refl refl

abbrev point_at : ℕ → IndexedLocation
point_at n = record {
  id = pos n;
  index_tag = pos 1;
  location = Location.from_encoded_lat_lon (pos n) (pos 0);
}

abbrev three_points : List IndexedLocation
three_points = point_at 0 ∷ point_at 1 ∷ point_at 2 ∷ []

total_distance-DefinedOn_example :
    DefinedOn (total_distance fpu (λ a b. ok RouteInfo.zero) three_points) (iota 0 3)
total_distance-DefinedOn_example =
    total_distance-DefinedOn fpu (λ a b. ok RouteInfo.zero) three_points 3 (omega arith)
      (omega arith)
