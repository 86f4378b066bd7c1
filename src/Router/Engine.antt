-- ===== src/Router/Engine.antt =====
-- engine/assfire/router/engine: EngineDistanceMatrixFactory and RouterEngine, and the DistanceMatrix of
-- api/assfire/router/api/DistanceMatrix.hpp. The route providers are parameters: each is an
-- implementation of the abstract RouteProviderEngine.
use assfire_suite.Base.{
  ℤ, pos, ◌+ℤ◌, Bool, if◌then◌else◌, Result, ok, err, runtime_error, invalid_argument, ◌>>=◌,
}
use assfire_suite.Concepts.Location.{Location}
use assfire_suite.Router.RouteInfo.{RouteInfo}
use assfire_suite.Router.RouteDetails.{RouteDetails}
use assfire_suite.Router.IndexedLocation.{IndexedLocation}
use assfire_suite.Router.Settings.{
  RouterEngineType, DistanceMatrixCachingPolicy, DistanceMatrixErrorPolicy, OsrmGeometry,
  RouteProviderSettings, RoutingProfile,
}
use assfire_suite.Router.Provider.{Provider}
use assfire_suite.Router.Direct
use assfire_suite.Router.Direct.{DirectEngine}
use assfire_suite.Router.FullMatrix
use assfire_suite.Router.FullMatrix.{FullMatrixEngine}

pub data DistanceMatrix : Type 0 where
  direct : DirectEngine → DistanceMatrix
  full_matrix : FullMatrixEngine → DistanceMatrix

abbrev with_engine {ℓ} : {A : Type ℓ} → A × FullMatrixEngine → A × DistanceMatrix
with_engine (a, s) = (a, full_matrix s)

-- addLocation; neither engine reads the type of the location.
abbrev pub add_location : DistanceMatrix → Location → IndexedLocation × DistanceMatrix
add_location (direct m) l = (Direct.add_location m l, direct m)
add_location (full_matrix s) l = with_engine (FullMatrix.add_location s l)

abbrev pub get_route_details :
    DistanceMatrix → IndexedLocation → IndexedLocation → Result RouteDetails × DistanceMatrix
get_route_details (direct m) from to = (Direct.get_route_details m from to, direct m)
get_route_details (full_matrix s) from to = with_engine (FullMatrix.get_route_details s from to)

abbrev pub get_route_info :
    DistanceMatrix → IndexedLocation → IndexedLocation → Result RouteInfo × DistanceMatrix
get_route_info (direct m) from to = (Direct.get_route_info m from to, direct m)
get_route_info (full_matrix s) from to = with_engine (FullMatrix.get_route_info s from to)

abbrev pub get_route_details_at :
    DistanceMatrix → Location → Location → Result RouteDetails × DistanceMatrix
get_route_details_at (direct m) from to = (Direct.get_route_details_at m from to, direct m)
get_route_details_at (full_matrix s) from to =
    with_engine (FullMatrix.get_route_details_at s from to)

abbrev pub get_route_info_at :
    DistanceMatrix → Location → Location → Result RouteInfo × DistanceMatrix
get_route_info_at (direct m) from to = (Direct.get_route_info_at m from to, direct m)
get_route_info_at (full_matrix s) from to = with_engine (FullMatrix.get_route_info_at s from to)

-- What the constructors of the route providers build. `cached` is a RedisRouteProviderEngine over the
-- store of the context and the given provider.
pub record RouteProviders : Type 0 where
  pub crowflight : RoutingProfile → Provider
  pub euclidean : RoutingProfile → Provider
  pub random : RoutingProfile → Provider
  pub osrm : RoutingProfile → OsrmGeometry → Provider
  pub cached : RouterEngineType → RoutingProfile → RouteProviderSettings → Provider → Provider

pub record RoutingContext : Type 0 where
  pub providers : RouteProviders
  pub cache_enabled : Bool
  pub has_serializer_supplier : Bool

module _ (context : RoutingContext) where
  unfoldable pub create_engine :
      RouterEngineType → RoutingProfile → RouteProviderSettings → Result Provider
  create_engine RouterEngineType.crowflight profile settings =
      ok (context.providers.crowflight profile)
  create_engine RouterEngineType.euclidean profile settings =
      ok (context.providers.euclidean profile)
  create_engine RouterEngineType.osrm profile settings = ok (
      context.providers.osrm profile (
        if settings.retrieve_waypoints
        then settings.osrm_settings.geometry
        else OsrmGeometry.straight_line))
  create_engine RouterEngineType.random profile settings = ok (context.providers.random profile)
  create_engine RouterEngineType.unknown profile settings =
      err (runtime_error "Unknown route provider engine type")

  unfoldable pub create_cache_wrapped_engine :
      RouterEngineType → RoutingProfile → RouteProviderSettings → Result Provider
  create_cache_wrapped_engine engine_type profile settings =
      if context.cache_enabled
      then if context.has_serializer_supplier
        then (do
          engine ← create_engine engine_type profile settings
          ok (context.providers.cached engine_type profile settings engine))
        else err (invalid_argument "No serializer supplier is provided for redis cache")
      else create_engine engine_type profile settings

  -- The matrix and the tag counter behind the call. Of an exception nothing is kept; whether the
  -- counter was raised before it is left open by C++.
  unfoldable pub create_distance_matrix :
      ℤ
      → RouterEngineType
      → DistanceMatrixCachingPolicy
      → RoutingProfile
      → RouteProviderSettings
      → DistanceMatrixErrorPolicy
      → Result (DistanceMatrix × ℤ)
  create_distance_matrix tag engine_type DistanceMatrixCachingPolicy.no_caching profile settings
        policy =
      do
        engine ← create_cache_wrapped_engine engine_type profile settings
        ok (
          direct (record { matrix_tag = tag +ℤ pos 1; engine = engine; error_policy = policy }),
          tag +ℤ pos 1,
        )
  create_distance_matrix tag engine_type _ profile settings policy = do
    engine ← create_cache_wrapped_engine engine_type profile settings
    ok (full_matrix (FullMatrix.init engine (tag +ℤ pos 1) policy), tag +ℤ pos 1)

  -- RouterEngine::getRouteInfo and getRouteDetails
  unfoldable pub get_route_info_of :
      ℤ
      → Location
      → Location
      → RouterEngineType
      → RoutingProfile
      → RouteProviderSettings
      → Result RouteInfo
  get_route_info_of tag origin destination engine_type profile settings = do
    created ←
        create_distance_matrix tag engine_type DistanceMatrixCachingPolicy.no_caching profile
          settings DistanceMatrixErrorPolicy.on_error_throw
    (get_route_info_at created.0 origin destination).0

  unfoldable pub get_route_details_of :
      ℤ
      → Location
      → Location
      → RouterEngineType
      → RoutingProfile
      → RouteProviderSettings
      → Result RouteDetails
  get_route_details_of tag origin destination engine_type profile settings = do
    created ←
        create_distance_matrix tag engine_type DistanceMatrixCachingPolicy.no_caching profile
          settings DistanceMatrixErrorPolicy.on_error_throw
    (get_route_details_at created.0 origin destination).0
