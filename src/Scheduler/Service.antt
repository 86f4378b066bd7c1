-- ===== src/Scheduler/Service.antt =====
-- server/assfire/scheduler/SchedulerService.cpp and the client that calls it,
-- client/assfire/scheduler/RemoteWaybillSchedulingAlgorithm.cpp, RemoteSchedulerGrpcConnector.cpp and
-- SchedulerClient.cpp. `what` stands for the what() of the exceptions.
pub mod Remote
mod Tests
use Prim.Native.String.{String}
use assfire_suite.Base.{ℤ, pos, List, [], Result, ok, err, Error, runtime_error, ◌>>=◌}
use assfire_suite.Router.Settings.{RoutingProfile}
use assfire_suite.Router.Translators.{
  ProtoRouteProviderSettings, ProtoRoutingProfile, profile_from_proto, profile_to_proto,
}
use assfire_suite.Scheduler.Waybill.{Waybill}
use assfire_suite.Scheduler.Engine
use assfire_suite.Scheduler.Engine.{
  DistanceMatrixProvider, WaybillSchedulingAlgorithmType, WaybillSchedulerSettings,
}
use assfire_suite.Scheduler.Translators.{
  ProtoAlgorithmType, ProtoWaybill, waybill_from_proto, waybill_to_proto, algorithm_type_from_proto,
  algorithm_type_to_proto, scheduler_settings_from_proto, scheduler_settings_to_proto,
}

pub record ScheduleWaybillRequest : Type 0 where
  pub waybill : ProtoWaybill
  pub algorithm_type : ProtoAlgorithmType
  pub settings : ProtoRouteProviderSettings
  pub routing_profile : ProtoRoutingProfile

pub data ResponseCode : Type 0 where
  code_unspecified code_ok code_error : ResponseCode
  other_code : ℤ → ResponseCode

pub record ScheduleWaybillResponse : Type 0 where
  pub waybill : ProtoWaybill
  pub code : ResponseCode
  pub message : String

-- grpc::Status: OK, or UNKNOWN with its message
pub data GrpcStatus : Type 0 where
  grpc_ok : GrpcStatus
  grpc_unknown : String → GrpcStatus

-- ProtoWaybill()
abbrev pub empty_waybill : ProtoWaybill
empty_waybill = record {
  work_shift = record {
    start_time = record { epoch_seconds = pos 0 };
    end_time = record { epoch_seconds = pos 0 };
  };
  allocations = [];
}

module _ (what : Error → String) where
  -- The end of the try block, and the catch block
  abbrev pub respond : Result Waybill → ScheduleWaybillResponse × GrpcStatus
  respond (ok waybill) =
      (record { waybill = waybill_to_proto waybill; code = code_ok; message = "" }, grpc_ok)
  respond (err e) = (
    record { waybill = empty_waybill; code = code_error; message = what e },
    grpc_unknown (what e),
  )

  module _ (provider : DistanceMatrixProvider) where
    -- The call of the engine. Of the arguments that throw, C++ leaves open which is first.
    abbrev pub schedule_request : ScheduleWaybillRequest → Result Waybill
    schedule_request request = do
      type ← algorithm_type_from_proto request.algorithm_type
      settings ← scheduler_settings_from_proto request.settings
      Engine.schedule_waybill provider (waybill_from_proto request.waybill) type settings
          (profile_from_proto request.routing_profile)

    unfoldable pub schedule_waybill : ScheduleWaybillRequest → ScheduleWaybillResponse × GrpcStatus
    schedule_waybill request = respond (schedule_request request)

-- RemoteSchedulerGrpcConnector::scheduleWaybill, of what the call over gRPC gives
abbrev pub response_of : ScheduleWaybillResponse × GrpcStatus → Result ScheduleWaybillResponse
response_of (response, grpc_ok) = ok response
response_of (response, grpc_unknown message) = err (runtime_error message)

abbrev pub check_code : ScheduleWaybillResponse → ResponseCode → Result Waybill
check_code response code_ok = ok (waybill_from_proto response.waybill)
check_code response _ = err (runtime_error response.message)

-- RemoteWaybillSchedulingAlgorithm::scheduleWaybill, over a connector
unfoldable pub remote_schedule_waybill :
    (ScheduleWaybillRequest → Result ScheduleWaybillResponse)
    → WaybillSchedulingAlgorithmType
    → WaybillSchedulerSettings
    → RoutingProfile
    → Waybill
    → Result Waybill
remote_schedule_waybill connector type settings profile waybill = do
  proto_type ← algorithm_type_to_proto type
  message ← scheduler_settings_to_proto settings
  response ← connector (record {
    waybill = waybill_to_proto waybill;
    algorithm_type = proto_type;
    settings = message;
    routing_profile = profile_to_proto profile;
  })
  check_code response response.code
