-- ===== src/Scheduler/Service/Remote.antt =====
-- The scheduling client with the service behind its connector.
use Prim.Native.String.{String}
use assfire_suite.Base.{◌≡◌, refl, sym, Result, ok, err, Error, runtime_error, ◌>>=◌}
use assfire_suite.Router.Settings.{RoutingProfile}
use assfire_suite.Router.Translators.{ProtoRouteProviderSettings}
use assfire_suite.Scheduler.Waybill.{Waybill}
use assfire_suite.Scheduler.Engine
use assfire_suite.Scheduler.Engine.{
  DistanceMatrixProvider, WaybillSchedulingAlgorithmType, WaybillSchedulerSettings,
}
use assfire_suite.Scheduler.Translators.{
  ProtoAlgorithmType, waybill_from_proto, waybill_to_proto, algorithm_type_from_proto,
  algorithm_type_to_proto, scheduler_settings_from_proto, scheduler_settings_to_proto,
}
use assfire_suite.Scheduler.Translators.RoundTrip.{
  IsSendableWaybill, without_indices, waybill_round_trip,
}
use assfire_suite.Scheduler.Service.{
  schedule_waybill, remote_schedule_waybill, response_of, respond, check_code,
}

algorithm_type_round_trip :
    (type : WaybillSchedulingAlgorithmType) (p : ProtoAlgorithmType)
    → algorithm_type_to_proto type ≡ ok p
    → algorithm_type_from_proto p ≡ ok type
unfolding algorithm_type_to_proto algorithm_type_from_proto
algorithm_type_round_trip WaybillSchedulingAlgorithmType.linear p e =
    let same : ProtoAlgorithmType.linear ≡ p = cc in rw (sym same) refl
algorithm_type_round_trip WaybillSchedulingAlgorithmType.bilinear p e =
    let same : ProtoAlgorithmType.bilinear ≡ p = cc in rw (sym same) refl
algorithm_type_round_trip WaybillSchedulingAlgorithmType.auto p e =
    let same : ProtoAlgorithmType.auto ≡ p = cc in rw (sym same) refl
algorithm_type_round_trip (WaybillSchedulingAlgorithmType.other n) p e = cc

-- What the client's caller gets of what the engine gives on the server
abbrev pub received : (Error → String) → Result Waybill → Result Waybill
received what (ok w) = ok (waybill_from_proto (waybill_to_proto w))
received what (err e) = err (runtime_error (what e))

delivered :
    (what : Error → String) (r : Result Waybill)
    → (response_of (respond what r) >>= λ response. check_code response response.code)
      ≡ received what r
delivered what (ok w) = refl
delivered what (err e) = refl

-- If the algorithm and the settings of the client can be written as messages and the settings are read
-- back the same, and the waybill's times, durations and coordinates are within an int32, the client
-- whose connector is the service gives what the engine on the server gives for the waybill without
-- the indices of its locations: this result, once more sent and read, and for an exception of the engine
-- a runtime_error with its message.
pub remote_schedules :
    (what : Error → String) (provider : DistanceMatrixProvider)
    (type : WaybillSchedulingAlgorithmType) (settings : WaybillSchedulerSettings)
    (profile : RoutingProfile) (waybill : Waybill) (p : ProtoAlgorithmType)
    (message : ProtoRouteProviderSettings)
    → algorithm_type_to_proto type ≡ ok p
    → scheduler_settings_to_proto settings ≡ ok message
    → scheduler_settings_from_proto message ≡ ok settings
    → IsSendableWaybill waybill
    → remote_schedule_waybill
        (λ request. response_of (schedule_waybill what provider request))
        type
        settings
        profile
        waybill
      ≡ received what
          (Engine.schedule_waybill provider (without_indices waybill) type settings profile)
unfolding schedule_waybill remote_schedule_waybill
remote_schedules what provider type settings profile waybill p message a b c h =
    rw (a, b, c, algorithm_type_round_trip type p a, waybill_round_trip waybill h)
      (delivered what
        (Engine.schedule_waybill provider (without_indices waybill) type settings profile))
