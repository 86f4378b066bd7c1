-- ===== src/Router/Messages.antt =====
-- apps/router/proto/assfire/api/v1/router/service.proto: the messages of the router's service.
use Prim.Native.String.{String}
use assfire_suite.Base.{ℤ, List, []}
use assfire_suite.Concepts.Translators.{ProtoLocation}
use assfire_suite.Router.Translators.{
  ProtoRouteInfo, ProtoRouteProviderSettings, ProtoRoutingProfile,
}

pub data ResponseCode : Type 0 where
  unspecified code_ok code_error : ResponseCode
  other : ℤ → ResponseCode

pub record ResponseStatus : Type 0 where
  pub code : ResponseCode
  pub message : String

pub record GetSingleRouteRequest : Type 0 where
  pub origin : ProtoLocation
  pub destination : ProtoLocation
  pub settings : ProtoRouteProviderSettings
  pub routing_profile : ProtoRoutingProfile

pub record GetSingleRouteResponse : Type 0 where
  pub route_info : ProtoRouteInfo
  pub status : ResponseStatus

pub record GetRoutesBatchRequest : Type 0 where
  pub origins : List ProtoLocation
  pub destinations : List ProtoLocation
  pub settings : ProtoRouteProviderSettings
  pub routing_profile : ProtoRoutingProfile

pub record GetRoutesBatchResponse : Type 0 where
  pub route_infos : List ProtoRouteInfo
  pub status : ResponseStatus

-- GetRoutesBatchResponse(): nothing is set
abbrev pub empty_response : GetRoutesBatchResponse
empty_response = record { route_infos = []; status = record { code = unspecified; message = "" } }
