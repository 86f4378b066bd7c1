-- ===== src/Router/Service.antt =====
-- server/assfire/router/RouterService.hpp/.cpp: the handlers of the router's service. A stream is the
-- list of what is written to it.
pub mod Batch
pub mod Remote
mod Tests
use assfire_suite.Base.{ℤ, List, [], ◌∷◌, ◌++◌, map, if◌then◌else◌, Result, ok, err, Error, ◌>>=◌}
use assfire_suite.Concepts.Location.{Location}
use assfire_suite.Concepts.Translators.{ProtoLocation, location_from_proto, location_to_proto}
use assfire_suite.Router.RouteDetails.{RouteDetails}
use assfire_suite.Router.IndexedLocation
use assfire_suite.Router.IndexedLocation.{IndexedLocation}
use assfire_suite.Router.Settings.{DistanceMatrixCachingPolicy, DistanceMatrixErrorPolicy}
use assfire_suite.Router.Translators.{
  ProtoRouteProviderSettings, ProtoRoutingProfile, engine_type_from_proto, profile_from_proto,
  settings_from_proto, details_to_proto,
}
use assfire_suite.Router.Messages.{
  GetSingleRouteRequest, GetSingleRouteResponse, GetRoutesBatchRequest, GetRoutesBatchResponse,
  code_ok,
}
use assfire_suite.Router.Engine.{
  DistanceMatrix, RoutingContext, create_distance_matrix, add_location, get_route_details,
  get_route_details_at,
}

-- grpc::Status, where an error stands for the message that its what() gives
pub data Status : Type 0 where
  status_ok : Status
  status_unknown : Error → Status

-- What was written before the end, and how it ended
abbrev pub Written : Type 0 → Type 0
Written A = List GetRoutesBatchResponse × Result A

abbrev pub add_all : DistanceMatrix → List ProtoLocation → List IndexedLocation × DistanceMatrix
add_all m [] = ([], m)
add_all m (l ∷ ls) =
    let added = add_location m (location_from_proto l) in
    let rest = add_all added.1 ls in (added.0 ∷ rest.0, rest.1)

abbrev pub response_of : IndexedLocation → IndexedLocation → RouteDetails → GetRoutesBatchResponse
response_of from to details = record {
  route_infos =
      details_to_proto (location_to_proto from.location) (location_to_proto to.location) details
      ∷ [];
  status = record { code = code_ok; message = "" };
}

-- The body of the inner loop, where `rest` is what the rounds behind it do
abbrev pub write_route :
    IndexedLocation
    → IndexedLocation
    → Result RouteDetails
    → Written DistanceMatrix
    → Written DistanceMatrix
write_route from to (err e) rest = ([], err e)
write_route from to (ok details) rest =
    if IndexedLocation.eqb from to then rest else (response_of from to details ∷ rest.0, rest.1)

-- The inner loop
unfoldable pub write_row :
    DistanceMatrix → IndexedLocation → List IndexedLocation → Written DistanceMatrix
write_row m from [] = ([], ok m)
write_row m from (to ∷ tos) =
    let asked = get_route_details m from to in
    let rest = write_row asked.1 from tos in write_route from to asked.0 rest

abbrev pub after_row :
    Written DistanceMatrix → (DistanceMatrix → Written DistanceMatrix) → Written DistanceMatrix
after_row (written, err e) next = (written, err e)
after_row (written, ok m) next = let rest = next m in (written ++ rest.0, rest.1)

-- The outer loop
unfoldable pub write_rows :
    List IndexedLocation → List IndexedLocation → DistanceMatrix → Written DistanceMatrix
write_rows [] tos m = ([], ok m)
write_rows (from ∷ froms) tos m = after_row (write_row m from tos) (write_rows froms tos)

abbrev pub write_all : GetRoutesBatchRequest → DistanceMatrix → Written DistanceMatrix
write_all request m =
    let origins = add_all m request.origins in
    let destinations = add_all origins.1 request.destinations in
    write_rows origins.0 destinations.0 destinations.1

abbrev pub process_on :
    GetRoutesBatchRequest → ℤ → Result (DistanceMatrix × ℤ) → Written DistanceMatrix × ℤ
process_on request tag (err e) = (([], err e), tag)
process_on request tag (ok (m, next)) = (write_all request m, next)

abbrev pub status_of {ℓ} : {A : Type ℓ} → Result A → Status
status_of (ok a) = status_ok
status_of (err e) = status_unknown e

-- After a request that ended with an exception none is read.
abbrev pub after_request :
    Written DistanceMatrix × ℤ
    → (ℤ → List GetRoutesBatchResponse × Status × ℤ)
    → List GetRoutesBatchResponse × Status × ℤ
after_request ((written, err e), tag) next = (written, status_unknown e, tag)
after_request ((written, ok m), tag) next =
    let rest = next tag in (written ++ rest.0, rest.1, rest.2)

abbrev pub single_on :
    GetSingleRouteRequest → ℤ → Result (DistanceMatrix × ℤ) → Result GetSingleRouteResponse × ℤ
single_on request tag (err e) = (err e, tag)
single_on request tag (ok (m, next)) = (
  do
    details ←
        (get_route_details_at m (location_from_proto request.origin)
          (location_from_proto request.destination)).0
    ok (record {
      route_info = details_to_proto request.origin request.destination details;
      status = record { code = code_ok; message = "" };
    }),
  next,
)

module _ (context : RoutingContext) where
  -- The matrix that a request asks for. Of the arguments that throw, C++ leaves open which is first.
  abbrev pub matrix_for :
      ℤ
      → DistanceMatrixCachingPolicy
      → ProtoRoutingProfile
      → ProtoRouteProviderSettings
      → Result (DistanceMatrix × ℤ)
  matrix_for tag caching profile message = do
    engine_type ← engine_type_from_proto message.router_engine_type
    settings ← settings_from_proto message
    create_distance_matrix context tag engine_type caching (profile_from_proto profile) settings
        DistanceMatrixErrorPolicy.on_error_return_infinity

  unfoldable pub process_batch_request : ℤ → GetRoutesBatchRequest → Written DistanceMatrix × ℤ
  process_batch_request tag request =
      process_on request tag
        (matrix_for tag DistanceMatrixCachingPolicy.auto request.routing_profile request.settings)

  -- The third part is the tag counter behind the call.
  unfoldable pub get_routes_batch :
      ℤ → GetRoutesBatchRequest → List GetRoutesBatchResponse × Status × ℤ
  get_routes_batch tag request =
      let processed = process_batch_request tag request in
      (processed.0.0, status_of processed.0.1, processed.1)

  unfoldable pub get_streaming_routes_batch :
      List GetRoutesBatchRequest → ℤ → List GetRoutesBatchResponse × Status × ℤ
  get_streaming_routes_batch [] tag = ([], status_ok, tag)
  get_streaming_routes_batch (request ∷ requests) tag =
      after_request (process_batch_request tag request) (get_streaming_routes_batch requests)

  -- An exception is the status UNKNOWN with its message.
  unfoldable pub get_single_route : ℤ → GetSingleRouteRequest → Result GetSingleRouteResponse × ℤ
  get_single_route tag request = single_on request tag (
      matrix_for tag DistanceMatrixCachingPolicy.no_caching request.routing_profile
        request.settings)
