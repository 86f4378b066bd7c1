-- ===== src/Tsp/Engine.antt =====
-- engine/assfire/tsp/engine/TspSolverEngine.cpp: what a session is built from. The session's controller
-- is in Controller. After the points are added to the distance matrix only routes are asked for, which
-- change its cache and none of its answers, so the estimator asks the matrix as it is then.
mod Correct
use assfire_suite.Base.{ℤ, List, [], ◌∷◌, Result, ok, err, invalid_argument, ◌>>=◌}
use assfire_suite.Concepts.Double.{Fpu}
use assfire_suite.Router.RouteInfo.{RouteInfo}
use assfire_suite.Router.IndexedLocation.{IndexedLocation}
use assfire_suite.Router.Settings.{DistanceMatrixCachingPolicy, DistanceMatrixErrorPolicy}
use assfire_suite.Router.Engine.{
  DistanceMatrix, RoutingContext, add_location, create_distance_matrix, get_route_info,
}
use assfire_suite.Tsp.Outcome.{Outcome}
use assfire_suite.Tsp.Solution.{TspCost, TspValidationResult}
use assfire_suite.Tsp.Task.{
  TspTask, TspPoint, TspAlgorithmType, TspCostFunctionType, TspValidatorType, TspRoutingSettings,
}
use assfire_suite.Tsp.Estimator.{TspEstimator, estimate, nop_validate}

-- The classes of algorithms
pub data Algorithm : Type 0 where
  two_opt_algorithm time_wasting_algorithm : Algorithm

-- What the controller of a session is made with, and the matrix behind it
pub record Session : Type 0 where
  pub algorithm : Algorithm
  pub estimator : TspEstimator
  pub indexed_locations : List IndexedLocation
  pub distance_matrix : DistanceMatrix

-- A type that is none of the enum's names, which throws, is not a value here.
abbrev pub create_algorithm : TspAlgorithmType → Algorithm
create_algorithm TspAlgorithmType.auto = two_opt_algorithm
create_algorithm TspAlgorithmType.two_opt = two_opt_algorithm
create_algorithm TspAlgorithmType.time_wasting = time_wasting_algorithm

pub index_locations : List TspPoint → DistanceMatrix → List IndexedLocation × DistanceMatrix
index_locations [] m = ([], m)
index_locations (pt ∷ pts) m =
    let added = add_location m pt.location in
    let rest = index_locations pts added.1 in (added.0 ∷ rest.0, rest.1)

abbrev pub create_cost_function :
    Fpu → TspCostFunctionType → List IndexedLocation × DistanceMatrix → List ℤ → Outcome TspCost
create_cost_function fpu TspCostFunctionType.default (indexed, m) =
    estimate fpu (λ a b. (get_route_info m a b).0) indexed
create_cost_function fpu TspCostFunctionType.total_distance (indexed, m) =
    estimate fpu (λ a b. (get_route_info m a b).0) indexed

abbrev pub create_validator : TspValidatorType → List ℤ → Outcome TspValidationResult
create_validator TspValidatorType.fail_on_any_violation = nop_validate
create_validator TspValidatorType.default = nop_validate

-- createDistanceMatrix, with the tag counter of the router
abbrev pub create_matrix : RoutingContext → ℤ → TspRoutingSettings → Result (DistanceMatrix × ℤ)
create_matrix context tag settings =
    create_distance_matrix context tag settings.engine_type
      DistanceMatrixCachingPolicy.full_matrix_precaching settings.routing_profile
      settings.route_provider_settings DistanceMatrixErrorPolicy.on_error_throw

abbrev pub session_of : Fpu → TspTask → List IndexedLocation × DistanceMatrix → Session
session_of fpu task (indexed, m) =
    let estimators = task.solver_settings.estimator_settings in
    record {
      algorithm = create_algorithm task.solver_settings.algorithm_settings.algorithm_type;
      estimator = record {
        calculate_cost =
            create_cost_function fpu estimators.cost_function_settings.type (indexed, m);
        validate = create_validator estimators.validator_settings.type;
      };
      indexed_locations = indexed;
      distance_matrix = m;
    }

-- solveTsp, up to the controller, with the tag counter behind it
unfoldable pub create_session : Fpu → RoutingContext → ℤ → TspTask → Result (Session × ℤ)
create_session fpu context tag task = do
  created ← create_matrix context tag task.solver_settings.routing_settings
  ok (session_of fpu task (index_locations task.points created.0), created.1)
