-- ===== src/Tsp/Task.antt =====
-- api/assfire/tsp/api: TspPoint, TspTask and the settings of the solver.
use assfire_suite.Base.{ℤ, List}
use assfire_suite.Concepts.Double.{Double}
use assfire_suite.Concepts.Location.{Location}
use assfire_suite.Router.Settings.{RouterEngineType, RouteProviderSettings, RoutingProfile}

pub data TspAlgorithmType : Type 0 where
  auto two_opt time_wasting : TspAlgorithmType

pub data TspCostFunctionType : Type 0 where
  default total_distance : TspCostFunctionType

pub data TspValidatorType : Type 0 where
  default fail_on_any_violation : TspValidatorType

pub record TotalDistanceTspCostFunctionSettings : Type 0 where
  pub cost_per_km : Double

pub record TspCostFunctionSettings : Type 0 where
  pub type : TspCostFunctionType
  pub total_distance_cost_function_settings : TotalDistanceTspCostFunctionSettings

pub record TspValidatorSettings : Type 0 where
  pub type : TspValidatorType

pub record TspEstimatorSettings : Type 0 where
  pub cost_function_settings : TspCostFunctionSettings
  pub validator_settings : TspValidatorSettings

pub record TspAlgorithmSettings : Type 0 where
  pub algorithm_type : TspAlgorithmType

pub record TspRoutingSettings : Type 0 where
  pub engine_type : RouterEngineType
  pub route_provider_settings : RouteProviderSettings
  pub routing_profile : RoutingProfile

pub record TspSolverSettings : Type 0 where
  pub routing_settings : TspRoutingSettings
  pub estimator_settings : TspEstimatorSettings
  pub algorithm_settings : TspAlgorithmSettings

pub record TspPoint : Type 0 where
  pub id : ℤ
  pub location : Location

pub record TspTask : Type 0 where
  pub points : List TspPoint
  pub solver_settings : TspSolverSettings
