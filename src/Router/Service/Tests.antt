-- ===== src/Router/Service/Tests.antt =====
-- The theorems on the service at a request for all pairs of two locations.
use assfire_suite.Base.{
  pos, true, false, ◌≡◌, refl, List, [], ◌∷◌, map, length, ◌+◌, ◌^◌, ◌<◌, ap, to_string, ok, err,
  exception, runtime_error, some, ◌+ℤ◌, arith,
}
use assfire_suite.Base.Int32.{to_int32}
use assfire_suite.Concepts.Distance
use assfire_suite.Concepts.Location
use assfire_suite.Concepts.Location.{Location, from_encoded_lat_lon}
use assfire_suite.Concepts.Speed
use assfire_suite.Concepts.Translators.{location_from_proto, location_to_proto}
use assfire_suite.Router.RouteInfo
use assfire_suite.Router.RouteInfo.{RouteInfo}
use assfire_suite.Router.Matrix.{Matrix, at}
use assfire_suite.Router.LocationKey.{build_location_key}
use assfire_suite.Router.Provider.{Provider}
use assfire_suite.Router.Settings.{RouterEngineType, default_settings}
use assfire_suite.Router.Translators.{
  ProtoRouteProviderSettings, ProtoRouterEngineType, ProtoOsrmGeometry, engine_type_from_proto,
  engine_type_to_proto, geometry_from_proto, geometry_to_proto, settings_from_proto,
  settings_to_proto,
}
use assfire_suite.Router.Messages.{GetRoutesBatchRequest, GetRoutesBatchResponse}
use assfire_suite.Router.Engine.{RoutingContext, create_cache_wrapped_engine, create_engine}
use assfire_suite.Router.Client.{GrpcEngine, get_route_info_matrix, settings_message, new_locations}
use assfire_suite.Router.Client.Batch.{batch_request}
use assfire_suite.Router.Service.{status_ok, get_routes_batch}
use assfire_suite.Router.Service.Batch.{Answers, pairs_of, batch_writes_pairs}
use assfire_suite.Router.Service.Remote.{remote_matrix_is_infinite}

-- It knows no way.
abbrev provider : Provider
provider = record {
  get_single_route_info = λ a b. err (runtime_error "no way");
  get_single_route_details = λ a b. err (runtime_error "no way");
}

abbrev context : RoutingContext
context = record {
  providers = record {
    crowflight = λ profile. provider;
    euclidean = λ profile. provider;
    random = λ profile. provider;
    osrm = λ profile geometry. provider;
    cached = λ engine_type profile settings engine. engine;
  };
  cache_enabled = false;
  has_serializer_supplier = true;
}

abbrev engine : GrpcEngine
engine = record {
  client = record {
    get_route = λ request. err exception;
    get_routes_batch = λ request. ok (get_routes_batch context (pos 0) request).0;
  };
  engine_type = RouterEngineType.euclidean;
  settings = default_settings;
  routing_profile = record { speed = Speed.from_meters_per_second Distance.zero.meters };
}

abbrev message : ProtoRouteProviderSettings
message = record {
  router_engine_type = ProtoRouterEngineType.euclidean;
  force_update = false;
  retrieve_waypoints = false;
  osrm_settings = some (record { geometry = ProtoOsrmGeometry.straight_line });
}

abbrev here : Location
here = from_encoded_lat_lon (pos 1) (pos 2)

abbrev there : Location
there = from_encoded_lat_lon (pos 3) (pos 4)

abbrev places : List Location
places = here ∷ there ∷ []

abbrev two_way : GetRoutesBatchRequest
two_way = record (batch_request engine places places message) {
  origins = map location_to_proto places;
  destinations = map location_to_proto places;
}

type_read : engine_type_from_proto ProtoRouterEngineType.euclidean ≡ ok RouterEngineType.euclidean
unfolding engine_type_from_proto
type_read = refl

settings_read : settings_from_proto message ≡ ok default_settings
unfolding settings_from_proto geometry_from_proto
settings_read = refl

settings_written : settings_message engine true ≡ ok message
unfolding settings_to_proto engine_type_to_proto geometry_to_proto
settings_written = refl

made :
    create_cache_wrapped_engine context RouterEngineType.euclidean engine.routing_profile
      default_settings
    ≡ ok provider
unfolding create_cache_wrapped_engine create_engine
made = refl

both_asked : new_locations [] 0 places ≡ map location_to_proto places
unfolding new_locations build_location_key to_string
both_asked = refl

batch_writes_pairs_example :
    (written : List GetRoutesBatchResponse) × (get_routes_batch context (pos 0) two_way
      ≡ (written, status_ok, pos 0 +ℤ pos 1))
    × Answers written (
        pairs_of
          (map location_from_proto two_way.origins)
          (map location_from_proto two_way.destinations))
batch_writes_pairs_example =
    batch_writes_pairs context (pos 0) two_way RouterEngineType.euclidean default_settings provider
      type_read settings_read made (omega arith)

two_pairs : pairs_of places places ≡ (here, there) ∷ (there, here) ∷ []
unfolding Location.eqb
two_pairs = refl

request_few :
    length (batch_request engine places places message).origins
      + length (batch_request engine places places message).destinations
    < 2 ^ 32
request_few = rw both_asked (omega arith)

request_pairs :
    pairs_of
      (map location_from_proto (batch_request engine places places message).origins)
      (map location_from_proto (batch_request engine places places message).destinations)
    ≡ (here, there) ∷ (there, here) ∷ []
unfolding to_int32
request_pairs = rw both_asked two_pairs

here-ne-there : here ≡ there → there ≡ here → ⊥
here-ne-there p q = let e : pos 1 ≡ pos 3 = ap (λ (l : Location). l.latitude.encoded) p in cc

remote_matrix_is_infinite_example :
    (m : Matrix RouteInfo) × (get_route_info_matrix engine places places ≡ ok m)
    × (at m (pos 0) (pos 1) ≡ ok RouteInfo.infinity)
remote_matrix_is_infinite_example =
    remote_matrix_is_infinite context (pos 0) engine places places message
      RouterEngineType.euclidean default_settings provider ((here, there) ∷ []) there here 0 1 here
      there settings_written type_read settings_read made request_few (omega arith) request_pairs
      refl (omega arith, omega arith) (omega arith, omega arith) refl refl here-ne-there
