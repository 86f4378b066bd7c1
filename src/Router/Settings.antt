-- ===== src/Router/Settings.antt =====
-- api/assfire/router/api: RouterEngineType, DistanceMatrixCachingPolicy, DistanceMatrixErrorPolicy,
-- RouteProviderSettings and RoutingProfile.
use assfire_suite.Base.{Bool, false}
use assfire_suite.Concepts.Speed.{Speed}

pub data RouterEngineType : Type 0 where
  unknown osrm crowflight euclidean random : RouterEngineType

pub data DistanceMatrixCachingPolicy : Type 0 where
  no_caching full_matrix_precaching auto : DistanceMatrixCachingPolicy

pub data DistanceMatrixErrorPolicy : Type 0 where
  on_error_return_infinity on_error_throw : DistanceMatrixErrorPolicy

pub data OsrmGeometry : Type 0 where
  unspecified straight_line simplified full : OsrmGeometry

pub record OsrmSettings : Type 0 where
  pub geometry : OsrmGeometry

pub record RouteProviderSettings : Type 0 where
  pub osrm_settings : OsrmSettings
  pub force_update : Bool
  pub retrieve_waypoints : Bool

-- RouteProviderSettings()
abbrev pub default_settings : RouteProviderSettings
default_settings = record {
  osrm_settings = record { geometry = straight_line };
  force_update = false;
  retrieve_waypoints = false;
}

pub record RoutingProfile : Type 0 where
  pub speed : Speed
