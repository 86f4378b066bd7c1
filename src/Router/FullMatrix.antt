-- ===== src/Router/FullMatrix.antt =====
-- api/assfire/router/api/distance_matrix_engines/FullMatrixCacheDistanceMatrixEngine.hpp/.cpp: all
-- routes between the known locations are computed at the first query and kept. The calls are taken
-- one at a time; the lock that orders concurrent ones is not modelled.
pub mod Mapping
pub mod Invariant
pub mod Queries
pub mod Reached
pub mod Correct
pub mod Places
pub mod Placed
mod Tests
use assfire_suite.Base.{
  text_eq, ℕ, zero, suc, ◌-◌, ℤ, pos, ltb, ◌==◌, Bool, true, false, ◌&&◌, if◌then◌else◌, Option,
  none, some, List, [], ◌∷◌, ◌++◌, length, Result, ok, err, Error, exception, out_of_range, ◌>>=◌,
}
use assfire_suite.Concepts.Location.{Location}
use assfire_suite.Router.RouteInfo.{RouteInfo}
use assfire_suite.Router.RouteDetails
use assfire_suite.Router.RouteDetails.{RouteDetails}
use assfire_suite.Router.IndexedLocation.{IndexedLocation}
use assfire_suite.Router.Settings.{DistanceMatrixErrorPolicy}
use assfire_suite.Router.Matrix.{Matrix, at, construct}
use assfire_suite.Router.Provider.{Provider, location_at}
use assfire_suite.Router.LocationKey.{encode_location}
use assfire_suite.Router.Direct.{process_error, catching, get_summary, is_foreign}

-- std::unordered_map<std::string, int>, with the keys as character codes.
abbrev pub Mapping : Type 0
Mapping = List (List ℕ × ℕ)

pub find : List ℕ → Mapping → Option ℕ
find k [] = none
find k ((j, v) ∷ m) = if text_eq j k then some v else find k m

pub insert_or_assign : List ℕ → ℕ → Mapping → Mapping
insert_or_assign k v [] = (k, v) ∷ []
insert_or_assign k v ((j, w) ∷ m) =
    if text_eq j k then (j, v) ∷ m else (j, w) ∷ insert_or_assign k v m

pub record FullMatrixEngine : Type 0 where
  pub is_initialized : Bool
  pub known_locations : List Location
  pub known_locations_mapping : Mapping
  pub matrix_tag : ℤ
  pub route_details_cache : Option (Matrix RouteDetails)
  pub engine : Provider
  pub error_policy : DistanceMatrixErrorPolicy

-- The constructor
abbrev pub init : Provider → ℤ → DistanceMatrixErrorPolicy → FullMatrixEngine
init engine tag policy = record {
  is_initialized = false;
  known_locations = [];
  known_locations_mapping = [];
  matrix_tag = tag;
  route_details_cache = none;
  engine = engine;
  error_policy = policy;
}

-- Where the map has no entry, the location is appended and mapped to its place.
pub index_location : FullMatrixEngine → Location → Option ℕ → IndexedLocation × FullMatrixEngine
index_location s l (some i) = (record { id = pos i; index_tag = s.matrix_tag; location = l }, s)
index_location s l none =
    let known = s.known_locations ++ l ∷ [] in
    let i = length known - 1 in
    (
      record { id = pos i; index_tag = s.matrix_tag; location = l },
      record s {
        known_locations = known;
        known_locations_mapping = insert_or_assign (encode_location l) i s.known_locations_mapping;
      },
    )

pub add_location : FullMatrixEngine → Location → IndexedLocation × FullMatrixEngine
unfolding index_location
add_location s l =
    let s' : FullMatrixEngine = record s { is_initialized = false } in
    index_location s' l (find (encode_location l) s'.known_locations_mapping)

-- What the provider answers, with its exceptions processed.
pub ask : FullMatrixEngine → Location → Location → Result RouteDetails
ask s from to =
    catching (s.engine.get_single_route_details from to) (process_error s.error_policy from to)

-- A cell of the new cache, where the old one does not have it.
pub new_cell : FullMatrixEngine → ℕ → ℕ → Result RouteDetails
unfolding ask
new_cell s i j = do
  from ← location_at s.known_locations i
  to ← location_at s.known_locations j
  if i == j then ok (RouteDetails.zero from to) else ask s from to

-- The old cache's cell, if it has one.
pub cell : FullMatrixEngine → ℕ → ℕ → Result RouteDetails
unfolding new_cell
cell s i j = elim s.route_details_cache [
  | none ↦ new_cell s i j
  | some m ↦ if ltb i m.rows && ltb j m.columns then at m (pos i) (pos j) else new_cell s i j
]

-- An exception leaves the engine as it was.
pub initialize : FullMatrixEngine → Result FullMatrixEngine
unfolding cell
initialize s = if s.is_initialized then ok s else do
  cache ←
      construct RouteDetails.default (length s.known_locations) (length s.known_locations) (cell s)
  ok (record s { route_details_cache = some cache; is_initialized = true })

-- A null cache is not read: an initialised engine has one.
pub read_cache : FullMatrixEngine → ℤ → ℤ → Result RouteDetails
read_cache s i j = elim s.route_details_cache [ none ↦ err exception | some m ↦ at m i j ]

-- A query returns its answer or its exception, with the engine behind it.
pub answer :
    ℤ → ℤ → FullMatrixEngine → Result FullMatrixEngine → Result RouteDetails × FullMatrixEngine
unfolding read_cache
answer i j s (ok s') = (read_cache s' i j, s')
answer i j s (err e) = (err e, s)

pub get_cached_route_details : FullMatrixEngine → ℤ → ℤ → Result RouteDetails × FullMatrixEngine
get_cached_route_details s i j =
    if s.is_initialized then answer i j s (ok s) else answer i j s (initialize s)

abbrev pub summarised : Result RouteDetails × FullMatrixEngine → Result RouteInfo × FullMatrixEngine
summarised (r, s) = (r >>= get_summary, s)

pub get_cached_route_info : FullMatrixEngine → ℤ → ℤ → Result RouteInfo × FullMatrixEngine
get_cached_route_info s i j = summarised (get_cached_route_details s i j)

-- Both locations known: the cache answers; otherwise the provider is asked.
pub details_found :
    FullMatrixEngine
    → Location
    → Location
    → Option ℕ
    → Option ℕ
    → Result RouteDetails × FullMatrixEngine
details_found s origin destination (some i) (some j) = get_cached_route_details s (pos i) (pos j)
details_found s origin destination _ _ = (ask s origin destination, s)

-- getRouteDetails(Location, Location)
pub get_route_details_at :
    FullMatrixEngine → Location → Location → Result RouteDetails × FullMatrixEngine
unfolding details_found
get_route_details_at s origin destination =
    details_found s origin destination (find (encode_location origin) s.known_locations_mapping)
      (find (encode_location destination) s.known_locations_mapping)

pub info_found :
    FullMatrixEngine
    → Location
    → Location
    → Option ℕ
    → Option ℕ
    → Result RouteInfo × FullMatrixEngine
info_found s origin destination (some i) (some j) = get_cached_route_info s (pos i) (pos j)
info_found s origin destination _ _ = (
  catching (s.engine.get_single_route_info origin destination)
      λ e. process_error s.error_policy origin destination e >>= get_summary,
  s,
)

-- getRouteInfo(Location, Location)
pub get_route_info_at : FullMatrixEngine → Location → Location → Result RouteInfo × FullMatrixEngine
unfolding info_found
get_route_info_at s origin destination =
    info_found s origin destination (find (encode_location origin) s.known_locations_mapping)
      (find (encode_location destination) s.known_locations_mapping)

-- getRouteDetails(IndexedLocation, IndexedLocation)
pub get_route_details :
    FullMatrixEngine → IndexedLocation → IndexedLocation → Result RouteDetails × FullMatrixEngine
get_route_details s origin destination =
    if is_foreign s.matrix_tag origin destination
    then get_route_details_at s origin.location destination.location
    else get_cached_route_details s origin.id destination.id

-- getRouteInfo(IndexedLocation, IndexedLocation)
pub get_route_info :
    FullMatrixEngine → IndexedLocation → IndexedLocation → Result RouteInfo × FullMatrixEngine
get_route_info s origin destination =
    if is_foreign s.matrix_tag origin destination
    then get_route_info_at s origin.location destination.location
    else get_cached_route_info s origin.id destination.id
