-- ===== src/Tsp/Tests.antt =====
-- The theorems on the controller and on the time wasting algorithm at concrete runs.
use assfire_suite.Base.{
  ℕ, suc, ◌+◌, ◌-◌, ◌<◌, ltb, leb, pos, pos_part, ◌≡◌, refl, inl, inr, true, false, Bool-cases,
  runtime_error, none, some, [], ◌∷◌, length, arith,
}
use assfire_suite.Concepts.Double.{Double, Fpu}
use assfire_suite.Concepts.Location
use assfire_suite.Router.Settings
use assfire_suite.Tsp.Outcome.{done}
use assfire_suite.Tsp.Solution.{TspSolution, cost_lt}
use assfire_suite.Tsp.Task
use assfire_suite.Tsp.Task.{TspTask, TspSolverSettings}
use assfire_suite.Tsp.StateContainer.{empty_state, reset}
use assfire_suite.Tsp.Estimator.{TspEstimator, nop_validate}
use assfire_suite.Tsp.TwoOpt
use assfire_suite.Tsp.TwoOpt.{
  Run, iota, intermediate, start, validate_or_reset_saved_state, create_initial_solution,
  create_initial_state, load_state, solve_from, search, try_reversal, judge, reverse_range,
  next_state, save_state,
}
use assfire_suite.Tsp.TwoOpt.Next.{at, left, left_at}
use assfire_suite.Tsp.TwoOpt.Moves.{DefinedOn}
use assfire_suite.Tsp.Controller
use assfire_suite.Tsp.Controller.{Ran, Controller, TspSolutionListener}
use assfire_suite.Tsp.Controller.Order.{IsProper, finished}
use assfire_suite.Tsp.Controller.FinalOnce.{
  System, Reached, starts, steps, launches, publishes, ends, IsOnce, reached-IsOnce,
}
use assfire_suite.Tsp.Controller.Proper.{ran_of, two_opt-IsProper}
use assfire_suite.Tsp.TimeWasting.{waste_time}
use assfire_suite.Tsp.TimeWasting.Ends.{waste_time_ends}

abbrev double : ℕ → Double
double n = record { bits = n }

abbrev fpu : Fpu
fpu = record {
  add = λ a b. double (a.bits + b.bits);
  mul = λ a b. a;
  div = λ a b. a;
  fabs = λ a. a;
  round = λ a. a;
  lt = λ a b. ltb a.bits b.bits;
  le = λ a b. leb a.bits b.bits;
  to_int64 = λ a. pos a.bits;
  of_int64 = λ a. double (pos_part a);
}

-- Each order costs the number of its first point.
abbrev estimator : TspEstimator
estimator = record {
  calculate_cost =
      λ xs. done (record { value = double (elim xs [ [] ↦ 0 | x ∷ rest ↦ pos_part x ]) });
  validate = nop_validate;
}

abbrev settings : TspSolverSettings
settings = record {
  routing_settings = record {
    engine_type = Settings.crowflight;
    route_provider_settings = Settings.default_settings;
    routing_profile = record { speed = record { meters_per_second = double 0 } };
  };
  estimator_settings = record {
    cost_function_settings = record {
      type = Task.TspCostFunctionType.default;
      total_distance_cost_function_settings = record { cost_per_km = double 0 };
    };
    validator_settings = record { type = Task.TspValidatorType.default };
  };
  algorithm_settings = record { algorithm_type = Task.auto };
}

abbrev task : TspTask
task = record {
  points =
      record { id = pos 5; location = Location.from_encoded_lat_lon (pos 0) (pos 0) }
      ∷ record { id = pos 6; location = Location.from_encoded_lat_lon (pos 1) (pos 0) }
      ∷ [];
  solver_settings = settings;
}

estimator-DefinedOn : DefinedOn estimator (iota 0 2)
estimator-DefinedOn xs p = (inl (_, refl), inl (_, refl))

enough : suc (left (at 0 2 0 2)) < 32
unfolding left left_at
enough = omega arith

abbrev solution : TspSolution
solution = intermediate (iota 0 2) (record { value = double 0 }) (record { is_valid = true })

abbrev first_run : Run
first_run = start fpu estimator task empty_state solution

-- What an uninterrupted call ends with: nothing is cheaper than the first order.
abbrev end_run : Run
end_run = record first_run {
  published = record solution { is_final_solution = true } ∷ solution ∷ [];
}

solved : TwoOpt.solve_tsp fpu estimator task 32 (λ n. false) empty_state ≡ some (done end_run)
unfolding TwoOpt.solve_tsp solve_from validate_or_reset_saved_state create_initial_solution
    create_initial_state load_state search try_reversal judge reverse_range next_state save_state
    cost_lt reset
solved = refl

two_opt-IsProper_example : IsProper (ran_of end_run)
two_opt-IsProper_example =
    two_opt-IsProper fpu estimator task 32 (λ n. false) empty_state end_run refl (omega arith)
      estimator-DefinedOn (λ n m h e. e) enough solved

-- Callbacks are numbers here.
abbrev listener : TspSolutionListener ℕ ℕ
listener = record { on_next_solution = some 1; on_final_solution = some 2; on_error = some 3 }

abbrev launched : Controller ℕ ℕ
launched = Controller.launch_task ℕ ℕ (Controller.init ℕ ℕ empty_state listener)

-- Both solutions of the run are published, and the callback of the final one throws.
abbrev ended : System ℕ ℕ
ended = record {
  controller = Controller.end_task ℕ ℕ empty_state (some (runtime_error "callback")) (
      Controller.publish_solution ℕ ℕ (record solution { is_final_solution = true })
        (Controller.publish_solution ℕ ℕ solution launched));
  upcoming = [];
}

is_not_started : (Controller.init ℕ ℕ empty_state listener).is_started ≡ false
is_not_started = refl

is_started : launched.is_started ≡ true
unfolding Controller.launch_task
is_started = refl

is_started_still :
    (s : TspSolution) (c : Controller ℕ ℕ)
    → c.is_started ≡ true
    → (Controller.publish_solution ℕ ℕ s c).is_started ≡ true
unfolding Controller.publish_solution
is_started_still s c h = elim (Bool-cases s.is_final_solution) [ inl e ↦ rw e h | inr e ↦ rw e h ]

end_run-IsProper : IsProper (ran_of end_run)
end_run-IsProper = finished _ (solution ∷ []) empty_state refl (refl, tt)

ended-Reached : Reached ℕ ℕ ended
ended-Reached =
    let first = is_started_still solution launched is_started in
    let second = is_started_still (record solution { is_final_solution = true }) _ first in
    steps _ _
      (steps _ _
        (steps _ _
          (steps _ _ (starts empty_state listener)
            (launches _ [] (ran_of end_run) end_run-IsProper is_not_started is_started))
          (publishes _ solution _ is_started))
        (publishes _ (record solution { is_final_solution = true }) [] first))
      (ends _ [] empty_state (some (runtime_error "callback")) second)

reached-IsOnce_example : IsOnce ℕ ℕ ended
reached-IsOnce_example = reached-IsOnce ℕ ℕ ended ended-Reached

waste_time_ends_example :
    (r' : Run) × (waste_time fpu estimator task
        (λ n. n)
        8
        (λ n. false)
        0
        0
        (some (record { counter = pos 93 }))
        first_run
      ≡ some (done (none, r')))
    × (r'.sequence ≡ first_run.sequence)
    × (r'.container ≡ first_run.container)
    × (length r'.published ≡ length first_run.published + (100 - 93))
waste_time_ends_example =
    waste_time_ends fpu estimator task (λ n. n) (record { is_valid = true }) 8 (λ n. false) 0 0 93
      first_run (λ n. refl) refl refl (omega arith) (omega arith)
