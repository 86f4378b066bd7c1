-- ===== src/Router/Client.antt =====
-- client/assfire/router/client/GrpcRouteProviderEngine.hpp/.cpp: a route provider that asks a server.
-- The transport is a parameter: what it answers is the list of the replies, or the exception that it
-- throws at the end.
pub mod Scatter
pub mod Cells
pub mod Batch
mod Tests
use Prim.Native.String.{String}
use assfire_suite.Base.{
  ℕ, zero, suc, ◌==◌, ℤ, pos, Bool, true, false, List, [], ◌∷◌, ◌++◌, length, get_elem?, Result, ok,
  err, runtime_error, ◌>>=◌, Text, text_eq, if◌then◌else◌,
}
use assfire_suite.Concepts.Location.{Location}
use assfire_suite.Concepts.Translators.{ProtoLocation, location_from_proto, location_to_proto}
use assfire_suite.Router.RouteInfo
use assfire_suite.Router.RouteInfo.{RouteInfo}
use assfire_suite.Router.RouteDetails
use assfire_suite.Router.RouteDetails.{RouteDetails}
use assfire_suite.Router.Settings.{RouterEngineType, RouteProviderSettings, RoutingProfile}
use assfire_suite.Router.Matrix.{Matrix, write, construct}
use assfire_suite.Router.LocationKey.{build_location_key}
use assfire_suite.Router.Messages.{
  ResponseCode, ResponseStatus, GetSingleRouteRequest, GetSingleRouteResponse,
  GetRoutesBatchRequest, GetRoutesBatchResponse, empty_response, unspecified, code_ok, code_error,
  other,
}
use assfire_suite.Router.Translators.{
  ProtoRouteInfo, ProtoRouteProviderSettings, ProtoRoutingProfile, info_from_proto,
  details_from_proto, settings_to_proto, profile_to_proto,
}

pub record ProtobufClient : Type 0 where
  pub get_route : GetSingleRouteRequest → Result GetSingleRouteResponse
  pub get_routes_batch : GetRoutesBatchRequest → Result (List GetRoutesBatchResponse)

pub record GrpcEngine : Type 0 where
  pub client : ProtobufClient
  pub engine_type : RouterEngineType
  pub settings : RouteProviderSettings
  pub routing_profile : RoutingProfile

-- std::unordered_multimap<std::string, int>; the order of what equal_range gives does not matter here.
abbrev pub Multimap : Type 0
Multimap = List (Text × ℕ)

abbrev pub contains : Text → Multimap → Bool
contains k [] = false
contains k ((j, v) ∷ m) = if text_eq j k then true else contains k m

pub equal_range : Text → Multimap → List ℕ
equal_range k [] = []
equal_range k ((j, v) ∷ m) = let rest = equal_range k m in if text_eq j k then v ∷ rest else rest

-- ls[i], or `beyond` behind its end
abbrev pub get_or : List Location → ℕ → Location → Location
get_or [] i beyond = beyond
get_or (l ∷ ls) zero beyond = l
get_or (l ∷ ls) (suc i) beyond = get_or ls i beyond

-- The loop over the origins or the destinations: the first of each key goes into the request, and
-- `known` are the locations before this one.
unfoldable pub new_locations : Multimap → ℕ → List Location → List ProtoLocation
new_locations known i [] = []
new_locations known i (l ∷ ls) =
    let rest = new_locations ((build_location_key l, i) ∷ known) (suc i) ls in
    if contains (build_location_key l) known then rest else location_to_proto l ∷ rest

-- The multimap behind this loop
pub mapping_of : ℕ → List Location → Multimap
mapping_of i [] = []
mapping_of i (l ∷ ls) = (build_location_key l, i) ∷ mapping_of (suc i) ls

-- response.CopyFrom(reply), for each reply
pub copy_replies : GetRoutesBatchResponse → List GetRoutesBatchResponse → GetRoutesBatchResponse
copy_replies response [] = response
copy_replies response (reply ∷ replies) = copy_replies reply replies

-- The test of the status of a response
abbrev pub is_ok : ResponseCode → Bool
is_ok code_ok = true
is_ok unspecified = false
is_ok code_error = false
is_ok (other n) = false

abbrev pub check_status : ResponseStatus → Result (Unit {0})
check_status s = if is_ok s.code then ok tt else err (runtime_error s.message)

module _ {T : Type 0} where
  -- result.at(from_id, to_id) = v
  abbrev pub assign : Matrix T → ℕ → ℕ → T → Result (Matrix T)
  assign m i j v = do
    cells ← write m.columns (pos i) (pos j) v m.cells
    ok (record m { cells = cells })

  -- The loop over the range of the destinations
  pub assign_row : (ℕ → ℕ → T) → ℕ → List ℕ → Matrix T → Result (Matrix T)
  assign_row value i [] m = ok m
  assign_row value i (j ∷ js) m = do m' ← assign m i j (value i j); assign_row value i js m'

  -- The loop over the range of the origins
  pub assign_all : (ℕ → ℕ → T) → List ℕ → List ℕ → Matrix T → Result (Matrix T)
  assign_all value [] js m = ok m
  assign_all value (i ∷ is) js m = do m' ← assign_row value i js m; assign_all value is js m'

  -- The loop over the routes of the response, where `value` is what a cell gets from a route. The
  -- assert is not compiled in a release.
  unfoldable pub scatter :
      (ProtoRouteInfo → ℕ → ℕ → T)
      → Multimap
      → Multimap
      → List ProtoRouteInfo
      → Matrix T
      → Result (Matrix T)
  scatter value origins destinations [] m = ok m
  scatter value origins destinations (r ∷ rs) m = do
    m' ←
        assign_all (value r)
          (equal_range (build_location_key (location_from_proto r.origin)) origins)
          (equal_range (build_location_key (location_from_proto r.destination)) destinations) m
    scatter value origins destinations rs m'

-- What a cell of each of the two matrices gets
abbrev pub info_value : ProtoRouteInfo → ℕ → ℕ → RouteInfo
info_value r i j = if i == j then RouteInfo.zero else info_from_proto r

abbrev pub details_value : ProtoRouteInfo → ℕ → ℕ → RouteDetails
details_value r i j =
    if i == j
    then RouteDetails.zero (location_from_proto r.origin) (location_from_proto r.destination)
    else details_from_proto r

module _ (engine : GrpcEngine) where
  -- set_retrieve_waypoints(false), where only the summary is asked for
  abbrev pub settings_message : Bool → Result ProtoRouteProviderSettings
  settings_message only_info = do
    settings ← settings_to_proto engine.settings engine.engine_type
    ok (if only_info then record settings { retrieve_waypoints = false } else settings)

  unfoldable pub single_route : Bool → Location → Location → Result ProtoRouteInfo
  single_route only_info origin destination = do
    settings ← settings_message only_info
    response ← engine.client.get_route (record {
      origin = location_to_proto origin;
      destination = location_to_proto destination;
      settings = settings;
      routing_profile = profile_to_proto engine.routing_profile;
    })
    checked ← check_status response.status
    ok response.route_info

  abbrev pub get_single_route_info : Location → Location → Result RouteInfo
  get_single_route_info origin destination = do
    r ← single_route true origin destination
    ok (info_from_proto r)

  abbrev pub get_single_route_details : Location → Location → Result RouteDetails
  get_single_route_details origin destination = do
    r ← single_route false origin destination
    ok (details_from_proto r)

  -- Up to the test of the status
  unfoldable pub request_batch : Bool → List Location → List Location → Result (List ProtoRouteInfo)
  request_batch only_info origins destinations = do
    settings ← settings_message only_info
    replies ← engine.client.get_routes_batch (record {
      origins = new_locations [] 0 origins;
      destinations = new_locations [] 0 destinations;
      settings = settings;
      routing_profile = profile_to_proto engine.routing_profile;
    })
    checked ← check_status (copy_replies empty_response replies).status
    ok (copy_replies empty_response replies).route_infos

  unfoldable pub get_route_info_matrix : List Location → List Location → Result (Matrix RouteInfo)
  get_route_info_matrix origins destinations = do
    route_infos ← request_batch true origins destinations
    start ←
        construct RouteInfo.zero (length origins) (length destinations)
          (λ i j. ok RouteInfo.infinity)
    scatter info_value (mapping_of 0 origins) (mapping_of 0 destinations) route_infos start

  -- `beyond` is what origins[j] reads where there are more destinations than origins, which has no
  -- meaning in C++.
  unfoldable pub get_route_details_matrix :
      Location → List Location → List Location → Result (Matrix RouteDetails)
  get_route_details_matrix beyond origins destinations = do
    route_infos ← request_batch false origins destinations
    start ←
        construct RouteDetails.default (length origins) (length destinations)
          (λ i j. ok (RouteDetails.infinity (get_or origins i beyond) (get_or origins j beyond)))
    scatter details_value (mapping_of 0 origins) (mapping_of 0 destinations) route_infos start
