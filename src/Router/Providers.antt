-- ===== src/Router/Providers.antt =====
-- engine/assfire/router/engine/impl/route_provider_engines: CrowflightRouteProviderEngine,
-- EuclideanRouteProviderEngine, RandomRouteProviderEngine and OsrmRouteProviderEngine. The mathematics
-- of doubles is a parameter, the numbers that are drawn are a function of the pair of locations, and
-- the connector to OSRM gives a JSON value. Metrics and logging are left out.
pub mod Agree
mod Tests
use Prim.Native.String.{String, ◌++◌ as ◌++ˢ◌}
use assfire_suite.Base.{
  ℕ, zero, suc, ℤ, pos, Bool, true, false, List, [], ◌∷◌, Result, ok, err, Error, exception,
  runtime_error, ◌>>=◌, if◌then◌else◌, Text, codes, text_eq, Option, some, none,
}
use assfire_suite.Concepts.Double.{Double, Fpu}
use assfire_suite.Concepts.Coordinate
use assfire_suite.Concepts.Distance
use assfire_suite.Concepts.Location
use assfire_suite.Concepts.Location.{Location}
use assfire_suite.Concepts.Speed
use assfire_suite.Concepts.TimeInterval
use assfire_suite.Router.RouteInfo
use assfire_suite.Router.RouteInfo.{RouteInfo}
use assfire_suite.Router.RouteDetails
use assfire_suite.Router.RouteDetails.{RouteDetails}
use assfire_suite.Router.Settings.{
  OsrmGeometry, RouterEngineType, RouteProviderSettings, RoutingProfile, straight_line,
}
use assfire_suite.Router.Provider.{Provider}
use assfire_suite.Router.Engine.{RouteProviders}

-- <cmath> beyond the operators
pub record Libm : Type 0 where
  pub sub : Double → Double → Double
  pub cos : Double → Double
  pub sin : Double → Double
  pub acos : Double → Double
  pub hypot : Double → Double → Double

abbrev earth_radius : Double
earth_radius = record { bits = 0x4158690600000000 }

abbrev pi : Double
pi = record { bits = 0x400921fb54442eea }

abbrev half_turn : Double
half_turn = record { bits = 0x4066800000000000 }

-- web::json::value
mutual
  pub data Json : Type 0 where
    null : Json
    text : String → Json
    number : Double → Json
    array : Jsons → Json
    object : Fields → Json

  pub data Jsons : Type 0 where
    no_values : Jsons
    value : Json → Jsons → Jsons

  pub data Fields : Type 0 where
    no_fields : Fields
    field : Text → Json → Fields → Fields

-- The members of the class throw a json_exception, which says no more here than that it is an exception.
pub find_field : Text → Fields → Option Json
find_field k no_fields = none
find_field k (field j v fs) = if text_eq j k then some v else find_field k fs

abbrev pub found : Option Json → Result Json
found none = err exception
found (some v) = ok v

abbrev pub at_field : Json → String → Result Json
at_field (object fs) k = found (find_field (codes k) fs)
at_field _ k = err exception

pub nth_value : ℕ → Jsons → Result Json
nth_value i no_values = err exception
nth_value zero (value v vs) = ok v
nth_value (suc i) (value v vs) = nth_value i vs

abbrev pub at_index : Json → ℕ → Result Json
at_index (array vs) i = nth_value i vs
at_index _ i = err exception

abbrev pub as_string : Json → Result String
as_string (text t) = ok t
as_string _ = err exception

abbrev pub as_double : Json → Result Double
as_double (number x) = ok x
as_double _ = err exception

abbrev pub as_array : Json → Result Jsons
as_array (array vs) = ok vs
as_array _ = err exception

abbrev pub has_field : Json → String → Bool
has_field (object fs) k = elim (find_field (codes k) fs) [ none ↦ false | some v ↦ true ]
has_field _ k = false

-- What the URL of a request is built from
pub record OsrmRequest : Type 0 where
  pub origin_longitude : Double
  pub origin_latitude : Double
  pub destination_longitude : Double
  pub destination_latitude : Double
  pub overview : OsrmGeometry

abbrev pub OsrmConnector : Type 0
OsrmConnector = OsrmRequest → Result Json

module _ (fpu : Fpu) (libm : Libm) where
  abbrev radians : Double → Double
  radians x = fpu.mul x (fpu.div pi half_turn)

  unfoldable pub calculate_crowflight_distance : Double → Double → Double → Double → Double
  calculate_crowflight_distance lat1 lon1 lat2 lon2 =
      fpu.mul
        (libm.acos (
          fpu.add
            (fpu.add
              (fpu.mul
                (fpu.mul (fpu.mul (libm.cos (radians lat1)) (libm.cos (radians lon1)))
                  (libm.cos (radians lat2)))
                (libm.cos (radians lon2)))
              (fpu.mul
                (fpu.mul (fpu.mul (libm.cos (radians lat1)) (libm.sin (radians lon1)))
                  (libm.cos (radians lat2)))
                (libm.sin (radians lon2))))
            (fpu.mul (libm.sin (radians lat1)) (libm.sin (radians lat2)))))
        earth_radius

  unfoldable pub calculate_euclidean_distance : Double → Double → Double → Double → Double
  calculate_euclidean_distance lat1 lon1 lat2 lon2 =
      libm.hypot (fpu.fabs (libm.sub lat2 lat1)) (fpu.fabs (libm.sub lon2 lon1))

  -- The route of a length in meters, at the speed of the profile
  abbrev pub route_of : RoutingProfile → Double → RouteInfo
  route_of profile meters = record {
    distance = Distance.from_meters meters;
    duration = Speed.get_seconds_to_travel fpu profile.speed (Distance.from_meters meters);
  }

  -- calculateRouteInfo, by the length between two different locations
  unfoldable pub calculate_route_info :
      (Location → Location → Double) → RoutingProfile → Location → Location → RouteInfo
  calculate_route_info length profile origin destination =
      if Location.eqb origin destination
      then RouteInfo.zero
      else route_of profile (length origin destination)

  -- getSingleRouteInfo and getSingleRouteDetails of the three engines that calculate
  abbrev pub calculating : (Location → Location → Double) → RoutingProfile → Provider
  calculating length profile = record {
    get_single_route_info = λ a b. ok (calculate_route_info length profile a b);
    get_single_route_details = λ a b.
        ok (record { summary = calculate_route_info length profile a b; waypoints = a ∷ b ∷ [] });
  }

  abbrev pub between : (Double → Double → Double → Double → Double) → Location → Location → Double
  between distance a b =
      distance (Coordinate.double_value fpu a.latitude) (Coordinate.double_value fpu a.longitude)
        (Coordinate.double_value fpu b.latitude) (Coordinate.double_value fpu b.longitude)

  abbrev pub crowflight_provider : RoutingProfile → Provider
  crowflight_provider profile = calculating (between calculate_crowflight_distance) profile

  abbrev pub euclidean_provider : RoutingProfile → Provider
  euclidean_provider profile = calculating (between calculate_euclidean_distance) profile

  abbrev pub random_provider : (Location → Location → Double) → RoutingProfile → Provider
  random_provider draw profile = calculating draw profile

  -- The loop over the coordinates
  pub read_waypoints : Jsons → Result (List Location)
  read_waypoints no_values = ok []
  read_waypoints (value g gs) = do
    latitude_value ← at_index g 1
    latitude ← as_double latitude_value
    longitude_value ← at_index g 0
    longitude ← as_double longitude_value
    rest ← read_waypoints gs
    ok (
        record {
          latitude = Coordinate.from_double_value fpu latitude;
          longitude = Coordinate.from_double_value fpu longitude;
        }
        ∷ rest)

  abbrev pub waypoints_of : Location → Location → Json → Result (List Location)
  waypoints_of origin destination route =
      if has_field route "geometry"
      then (do
        geometry ← at_field route "geometry"
        coordinates ← at_field geometry "coordinates"
        values ← as_array coordinates
        read_waypoints values)
      else ok (origin ∷ destination ∷ [])

  -- The test of the code
  abbrev pub check_response : Json → Result (Unit {0})
  check_response response = do
    code_value ← at_field response "code"
    code ← as_string code_value
    if text_eq (codes code) (codes "Ok") then ok tt else (do
      message_value ← at_field response "message"
      message ← as_string message_value
      err (runtime_error ("OSRM backend returned error: " ++ˢ message)))

  -- Behind the request
  unfoldable pub read_response : Location → Location → Json → Result RouteDetails
  read_response origin destination response = do
    checked ← check_response response
    routes ← at_field response "routes"
    route ← at_index routes 0
    duration_value ← at_field route "duration"
    duration ← as_double duration_value
    distance_value ← at_field route "distance"
    distance ← as_double distance_value
    waypoints ← waypoints_of origin destination route
    ok (record {
      summary = record {
        distance = Distance.from_meters distance;
        duration = TimeInterval.from_seconds (fpu.to_int64 duration);
      };
      waypoints = waypoints;
    })

  unfoldable pub calculate_route_details :
      OsrmConnector → OsrmGeometry → Location → Location → Result RouteDetails
  calculate_route_details connector geometry origin destination =
      if Location.eqb origin destination then ok (RouteDetails.zero origin destination) else (do
        response ← connector (record {
          origin_longitude = Coordinate.double_value fpu origin.longitude;
          origin_latitude = Coordinate.double_value fpu origin.latitude;
          destination_longitude = Coordinate.double_value fpu destination.longitude;
          destination_latitude = Coordinate.double_value fpu destination.latitude;
          overview = geometry;
        })
        read_response origin destination response)

  abbrev pub osrm_provider : OsrmConnector → RoutingProfile → OsrmGeometry → Provider
  osrm_provider connector profile geometry = record {
    get_single_route_info = λ a b. do
      details ← calculate_route_details connector geometry a b
      ok details.summary;
    get_single_route_details = λ a b. calculate_route_details connector geometry a b;
  }

  -- The providers of the engine, where the one with the cache is left open
  abbrev pub route_providers :
      (Location → Location → Double)
      → OsrmConnector
      → (RouterEngineType → RoutingProfile → RouteProviderSettings → Provider → Provider)
      → RouteProviders
  route_providers draw connector cached = record {
    crowflight = λ profile. crowflight_provider profile;
    euclidean = λ profile. euclidean_provider profile;
    random = λ profile. random_provider draw profile;
    osrm = λ profile geometry. osrm_provider connector profile geometry;
    cached = cached;
  }
