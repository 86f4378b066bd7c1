-- ===== src/Scheduler/Translators.antt =====
-- apps/scheduler/proto/assfire/api/v1/scheduler: the messages of concepts.proto and service.proto as
-- records, and the translators of translators/*.cpp.
pub mod RoundTrip
use Prim.Native.String.{String}
use assfire_suite.Base.{
  ℤ, pos, List, [], map, Option, none, some, Result, ok, err, invalid_argument, ◌>>=◌,
}
use assfire_suite.Concepts.Translators.{
  ProtoLocation, ProtoTimeInterval, ProtoTimePoint, location_from_proto, location_to_proto,
  time_interval_from_proto, time_interval_to_proto, time_point_from_proto, time_point_to_proto,
}
use assfire_suite.Router.Translators.{
  ProtoRouteInfo, ProtoRouteProviderSettings, ProtoRoutingProfile, info_from_proto,
  summary_to_proto, settings_from_proto, settings_to_proto, engine_type_from_proto,
}
use assfire_suite.Scheduler.Waybill.{
  TimeWindow, WaybillAllocation, allocation, set_next_route_info, Waybill,
}
use assfire_suite.Scheduler.Engine.{WaybillSchedulingAlgorithmType, WaybillSchedulerSettings}

pub data ProtoAlgorithmType : Type 0 where
  unspecified linear bilinear auto : ProtoAlgorithmType
  other : ℤ → ProtoAlgorithmType

pub record ProtoTimeWindow : Type 0 where
  pub start_time : ProtoTimePoint
  pub end_time : ProtoTimePoint

pub record ProtoWaybillAllocation : Type 0 where
  pub start_time : ProtoTimePoint
  pub end_time : ProtoTimePoint
  pub planned_duration : ProtoTimeInterval
  pub time_windows : List ProtoTimeWindow
  pub next_route : Option ProtoRouteInfo
  pub location : ProtoLocation

pub record ProtoWaybill : Type 0 where
  pub work_shift : ProtoTimeWindow
  pub allocations : List ProtoWaybillAllocation

abbrev pub time_window_from_proto : ProtoTimeWindow → TimeWindow
time_window_from_proto p = record {
  start_time = time_point_from_proto p.start_time;
  end_time = time_point_from_proto p.end_time;
}

abbrev pub time_window_to_proto : TimeWindow → ProtoTimeWindow
time_window_to_proto w = record {
  start_time = time_point_to_proto w.start_time;
  end_time = time_point_to_proto w.end_time;
}

-- The route is set where the message has one.
abbrev pub with_next_route : Option ProtoRouteInfo → WaybillAllocation → WaybillAllocation
with_next_route none a = a
with_next_route (some r) a = set_next_route_info a (info_from_proto r)

unfoldable pub allocation_from_proto : ProtoWaybillAllocation → WaybillAllocation
allocation_from_proto p = with_next_route p.next_route (
    allocation (time_point_from_proto p.start_time) (time_point_from_proto p.end_time)
      (time_interval_from_proto p.planned_duration) (map time_window_from_proto p.time_windows)
      (location_from_proto p.location))

unfoldable pub allocation_to_proto : WaybillAllocation → ProtoWaybillAllocation
allocation_to_proto a = record {
  start_time = time_point_to_proto a.start_time;
  end_time = time_point_to_proto a.end_time;
  planned_duration = time_interval_to_proto a.planned_duration;
  time_windows = map time_window_to_proto a.time_windows;
  next_route = some (summary_to_proto a.next_route_info);
  location = location_to_proto a.location.location;
}

unfoldable pub waybill_from_proto : ProtoWaybill → Waybill
waybill_from_proto p = record {
  work_shift = time_window_from_proto p.work_shift;
  allocations = map allocation_from_proto p.allocations;
}

unfoldable pub waybill_to_proto : Waybill → ProtoWaybill
waybill_to_proto w = record {
  work_shift = time_window_to_proto w.work_shift;
  allocations = map allocation_to_proto w.allocations;
}

-- WaybillSchedulingAlgorithmTypeTranslator
unfoldable pub algorithm_type_from_proto :
    ProtoAlgorithmType → Result WaybillSchedulingAlgorithmType
algorithm_type_from_proto ProtoAlgorithmType.auto = ok WaybillSchedulingAlgorithmType.auto
algorithm_type_from_proto ProtoAlgorithmType.linear = ok WaybillSchedulingAlgorithmType.linear
algorithm_type_from_proto ProtoAlgorithmType.bilinear = ok WaybillSchedulingAlgorithmType.bilinear
algorithm_type_from_proto _ = err (invalid_argument "Unknown waybill scheduling algorithm type")

unfoldable pub algorithm_type_to_proto : WaybillSchedulingAlgorithmType → Result ProtoAlgorithmType
algorithm_type_to_proto WaybillSchedulingAlgorithmType.auto = ok ProtoAlgorithmType.auto
algorithm_type_to_proto WaybillSchedulingAlgorithmType.linear = ok ProtoAlgorithmType.linear
algorithm_type_to_proto WaybillSchedulingAlgorithmType.bilinear = ok ProtoAlgorithmType.bilinear
algorithm_type_to_proto (WaybillSchedulingAlgorithmType.other n) =
    err (invalid_argument "Unknown waybill scheduling algorithm type")

-- WaybillSchedulerSettingsTranslator; the message has one field, the settings of the provider.
unfoldable pub scheduler_settings_from_proto :
    ProtoRouteProviderSettings → Result WaybillSchedulerSettings
scheduler_settings_from_proto p = do
  route_provider_settings ← settings_from_proto p
  router_engine_type ← engine_type_from_proto p.router_engine_type
  ok (record {
    router_engine_type = router_engine_type;
    route_provider_settings = route_provider_settings;
  })

unfoldable pub scheduler_settings_to_proto :
    WaybillSchedulerSettings → Result ProtoRouteProviderSettings
scheduler_settings_to_proto s = settings_to_proto s.route_provider_settings s.router_engine_type
