-- ===== src/Scheduler/Engine.antt =====
-- engine/assfire/scheduler/engine: EngineWaybillSchedulerFactory.cpp and SchedulerEngine.cpp, with
-- WaybillScheduler.cpp and the settings of api/assfire/scheduler/api. An exception leaves the waybill
-- of scheduleWaybillInPlace half done; the result here is then the exception only.
pub mod Correct
use assfire_suite.Base.{ℤ, Result, ok, err, invalid_argument, ◌>>=◌}
use assfire_suite.Router.Settings.{RouterEngineType, RouteProviderSettings, RoutingProfile}
use assfire_suite.Scheduler.Waybill.{Waybill}
use assfire_suite.Scheduler.Linear
use assfire_suite.Scheduler.Linear.{RouteSource}
use assfire_suite.Scheduler.Bilinear

-- `other` is a value of the enum's type that is none of its names.
pub data WaybillSchedulingAlgorithmType : Type 0 where
  linear bilinear auto : WaybillSchedulingAlgorithmType
  other : ℤ → WaybillSchedulingAlgorithmType

pub record WaybillSchedulerSettings : Type 0 where
  pub router_engine_type : RouterEngineType
  pub route_provider_settings : RouteProviderSettings

-- The distance matrix provider of WaybillSchedulingContext, which may throw.
abbrev pub DistanceMatrixProvider : Type 0
DistanceMatrixProvider =
    RouterEngineType → RouteProviderSettings → RoutingProfile → Result RouteSource

-- WaybillScheduler, by its algorithm
abbrev pub WaybillScheduler : Type 0
WaybillScheduler = Waybill → Result Waybill

abbrev pub resolved : WaybillSchedulingAlgorithmType → WaybillSchedulingAlgorithmType
resolved auto = bilinear
resolved linear = linear
resolved bilinear = bilinear
resolved (other n) = other n

module _ (provider : DistanceMatrixProvider) where
  abbrev pub algorithm_of :
      WaybillSchedulingAlgorithmType
      → WaybillSchedulerSettings
      → RoutingProfile
      → Result WaybillScheduler
  algorithm_of linear settings profile = do
    matrix ← provider settings.router_engine_type settings.route_provider_settings profile
    ok (Linear.schedule_waybill matrix)
  algorithm_of bilinear settings profile = do
    matrix ← provider settings.router_engine_type settings.route_provider_settings profile
    ok (Bilinear.schedule_waybill matrix)
  algorithm_of _ settings profile =
      err (invalid_argument "Unknown waybill scheduling algorithm type")

  -- EngineWaybillSchedulerFactory::createWaybillScheduler
  unfoldable pub create_waybill_scheduler :
      WaybillSchedulingAlgorithmType
      → WaybillSchedulerSettings
      → RoutingProfile
      → Result WaybillScheduler
  create_waybill_scheduler type settings profile = algorithm_of (resolved type) settings profile

  -- SchedulerEngine::scheduleWaybill and scheduleWaybillInPlace
  unfoldable pub schedule_waybill :
      Waybill
      → WaybillSchedulingAlgorithmType
      → WaybillSchedulerSettings
      → RoutingProfile
      → Result Waybill
  schedule_waybill waybill type settings profile = do
    scheduler ← create_waybill_scheduler type settings profile
    scheduler waybill
