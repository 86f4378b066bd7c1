-- ===== src/Scheduler/Service/Tests.antt =====
-- The theorem on remote scheduling at a waybill of two stops.
use Prim.Native.String.{String}
use assfire_suite.Base.{pos, ◌≡◌, refl, [], ◌∷◌, ok, Error, some, false, arith}
use assfire_suite.Concepts.Distance
use assfire_suite.Concepts.Location
use assfire_suite.Concepts.Speed
use assfire_suite.Concepts.TimeInterval
use assfire_suite.Concepts.TimePoint
use assfire_suite.Router.Settings.{RouterEngineType, RoutingProfile, default_settings}
use assfire_suite.Router.Translators.{
  ProtoRouteProviderSettings, ProtoRouterEngineType, ProtoOsrmGeometry, settings_to_proto,
  settings_from_proto, engine_type_to_proto, engine_type_from_proto, geometry_to_proto,
  geometry_from_proto,
}
use assfire_suite.Scheduler.Waybill.{Waybill, WaybillAllocation, allocation, window}
use assfire_suite.Scheduler.Engine
use assfire_suite.Scheduler.Engine.{
  DistanceMatrixProvider, WaybillSchedulingAlgorithmType, WaybillSchedulerSettings,
}
use assfire_suite.Scheduler.Translators.{
  ProtoAlgorithmType, algorithm_type_to_proto, scheduler_settings_to_proto,
  scheduler_settings_from_proto,
}
use assfire_suite.Scheduler.Translators.RoundTrip.{IsSendableAllocation, without_indices}
use assfire_suite.Scheduler.Service.{schedule_waybill, remote_schedule_waybill, response_of}
use assfire_suite.Scheduler.Service.Remote.{received, remote_schedules}

abbrev what : Error → String
what e = "no route"

-- Ten minutes between any two places
abbrev provider : DistanceMatrixProvider
provider type settings profile = ok (λ a b.
    ok (record { distance = Distance.zero; duration = TimeInterval.from_seconds (pos 600) }))

abbrev settings : WaybillSchedulerSettings
settings = record {
  router_engine_type = RouterEngineType.crowflight;
  route_provider_settings = default_settings;
}

abbrev message : ProtoRouteProviderSettings
message = record {
  router_engine_type = ProtoRouterEngineType.crowflight;
  force_update = false;
  retrieve_waypoints = false;
  osrm_settings = some (record { geometry = ProtoOsrmGeometry.straight_line });
}

abbrev profile : RoutingProfile
profile = record { speed = Speed.from_meters_per_second Distance.zero.meters }

abbrev stop : WaybillAllocation
stop =
    allocation (TimePoint.from_epoch_seconds (pos 0)) (TimePoint.from_epoch_seconds (pos 0))
      (TimeInterval.from_seconds (pos 900)) (window (pos 0) (pos 7200) ∷ [])
      (Location.from_encoded_lat_lon (pos 1) (pos 2))

abbrev waybill : Waybill
waybill = record { work_shift = window (pos 0) (pos 86340); allocations = stop ∷ stop ∷ [] }

type_written :
    algorithm_type_to_proto WaybillSchedulingAlgorithmType.auto ≡ ok ProtoAlgorithmType.auto
unfolding algorithm_type_to_proto
type_written = refl

settings_written : scheduler_settings_to_proto settings ≡ ok message
unfolding scheduler_settings_to_proto settings_to_proto engine_type_to_proto geometry_to_proto
settings_written = refl

settings_read : scheduler_settings_from_proto message ≡ ok settings
unfolding scheduler_settings_from_proto settings_from_proto engine_type_from_proto
    geometry_from_proto
settings_read = refl

stop_sendable : IsSendableAllocation stop
stop_sendable = record {
  start_fits = omega arith;
  end_fits = omega arith;
  duration_fits = omega arith;
  windows_fit = ((omega arith, omega arith), tt);
  route_fits = omega arith;
  location_fits = (omega arith, omega arith);
}

remote_schedules_example :
    remote_schedule_waybill
      (λ request. response_of (schedule_waybill what provider request))
      WaybillSchedulingAlgorithmType.auto
      settings
      profile
      waybill
    ≡ received what (
        Engine.schedule_waybill provider
          (without_indices waybill)
          WaybillSchedulingAlgorithmType.auto
          settings
          profile)
remote_schedules_example =
    remote_schedules what provider WaybillSchedulingAlgorithmType.auto settings profile waybill
      ProtoAlgorithmType.auto message type_written settings_written settings_read
      ((omega arith, omega arith), (stop_sendable, (stop_sendable, tt)))
