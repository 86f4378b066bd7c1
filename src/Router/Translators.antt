-- ===== src/Router/Translators.antt =====
-- apps/router/proto/assfire/api/v1/router: the messages of concepts.proto as records, and the
-- translators of translators/*.cpp. The enums of the messages are open: `other` stands for a number
-- with no name.
pub mod RoundTrip
use assfire_suite.Base.{
  ℤ, pos, Bool, List, map, Option, none, some, Result, ok, err, invalid_argument, ◌>>=◌,
}
use assfire_suite.Concepts.Location.{Location}
use assfire_suite.Concepts.Translators.{
  ProtoLocation, ProtoDistance, ProtoSpeed, ProtoTimeInterval, location_from_proto,
  location_to_proto, distance_from_proto, distance_to_proto, speed_from_proto, speed_to_proto,
  time_interval_from_proto, time_interval_to_proto,
}
use assfire_suite.Router.RouteInfo.{RouteInfo}
use assfire_suite.Router.RouteDetails.{RouteDetails}
use assfire_suite.Router.Settings
use assfire_suite.Router.Settings.{
  RouterEngineType, OsrmGeometry, OsrmSettings, RouteProviderSettings, default_settings,
  RoutingProfile,
}

pub data ProtoRouterEngineType : Type 0 where
  euclidean random crowflight osrm : ProtoRouterEngineType
  other : ℤ → ProtoRouterEngineType

pub data ProtoOsrmGeometry : Type 0 where
  simplified full straight_line : ProtoOsrmGeometry
  other : ℤ → ProtoOsrmGeometry

pub record ProtoOsrmSettings : Type 0 where
  pub geometry : ProtoOsrmGeometry

pub record ProtoRouteProviderSettings : Type 0 where
  pub router_engine_type : ProtoRouterEngineType
  pub force_update : Bool
  pub retrieve_waypoints : Bool
  pub osrm_settings : Option ProtoOsrmSettings

pub record ProtoRoutingProfile : Type 0 where
  pub speed : ProtoSpeed

pub record ProtoRouteInfo : Type 0 where
  pub origin : ProtoLocation
  pub destination : ProtoLocation
  pub duration : ProtoTimeInterval
  pub distance : ProtoDistance
  pub waypoints : List ProtoLocation

-- RouterEngineTypeTranslator
unfoldable pub engine_type_from_proto : ProtoRouterEngineType → Result RouterEngineType
engine_type_from_proto ProtoRouterEngineType.crowflight = ok RouterEngineType.crowflight
engine_type_from_proto ProtoRouterEngineType.euclidean = ok RouterEngineType.euclidean
engine_type_from_proto ProtoRouterEngineType.osrm = ok RouterEngineType.osrm
engine_type_from_proto ProtoRouterEngineType.random = ok RouterEngineType.random
engine_type_from_proto (ProtoRouterEngineType.other n) =
    err (invalid_argument "Unknown or unsupported routing engine type")

unfoldable pub engine_type_to_proto : RouterEngineType → Result ProtoRouterEngineType
engine_type_to_proto RouterEngineType.crowflight = ok ProtoRouterEngineType.crowflight
engine_type_to_proto RouterEngineType.euclidean = ok ProtoRouterEngineType.euclidean
engine_type_to_proto RouterEngineType.osrm = ok ProtoRouterEngineType.osrm
engine_type_to_proto RouterEngineType.random = ok ProtoRouterEngineType.random
engine_type_to_proto RouterEngineType.unknown =
    err (invalid_argument "Unknown or unsupported routing engine type")

-- RouteProviderSettingsTranslator
unfoldable pub geometry_from_proto : ProtoOsrmGeometry → Result OsrmGeometry
geometry_from_proto ProtoOsrmGeometry.simplified = ok OsrmGeometry.simplified
geometry_from_proto ProtoOsrmGeometry.full = ok OsrmGeometry.full
geometry_from_proto ProtoOsrmGeometry.straight_line = ok OsrmGeometry.straight_line
geometry_from_proto (ProtoOsrmGeometry.other n) =
    err (invalid_argument "Unknown or unsupported OSRM geometry type")

unfoldable pub geometry_to_proto : OsrmGeometry → Result ProtoOsrmGeometry
geometry_to_proto OsrmGeometry.simplified = ok ProtoOsrmGeometry.simplified
geometry_to_proto OsrmGeometry.full = ok ProtoOsrmGeometry.full
geometry_to_proto OsrmGeometry.straight_line = ok ProtoOsrmGeometry.straight_line
geometry_to_proto OsrmGeometry.unspecified =
    err (invalid_argument "Unknown or unsupported OSRM geometry type")

-- fromProto reads the settings of OSRM only where they are set.
abbrev pub osrm_settings_of : Option ProtoOsrmSettings → Result OsrmSettings
osrm_settings_of none = ok default_settings.osrm_settings
osrm_settings_of (some p) = do
  geometry ← geometry_from_proto p.geometry
  ok (record { geometry = geometry })

unfoldable pub settings_from_proto : ProtoRouteProviderSettings → Result RouteProviderSettings
settings_from_proto p = do
  osrm_settings ← osrm_settings_of p.osrm_settings
  ok (record {
    osrm_settings = osrm_settings;
    force_update = p.force_update;
    retrieve_waypoints = p.retrieve_waypoints;
  })

unfoldable pub settings_to_proto :
    RouteProviderSettings → RouterEngineType → Result ProtoRouteProviderSettings
settings_to_proto s engine_type = do
  type ← engine_type_to_proto engine_type
  geometry ← geometry_to_proto s.osrm_settings.geometry
  ok (record {
    router_engine_type = type;
    force_update = s.force_update;
    retrieve_waypoints = s.retrieve_waypoints;
    osrm_settings = some (record { geometry = geometry });
  })

-- RoutingProfileTranslator
abbrev pub profile_from_proto : ProtoRoutingProfile → RoutingProfile
profile_from_proto p = record { speed = speed_from_proto p.speed }

abbrev pub profile_to_proto : RoutingProfile → ProtoRoutingProfile
profile_to_proto p = record { speed = speed_to_proto p.speed }

-- RouteInfoTranslator
unfoldable pub info_from_proto : ProtoRouteInfo → RouteInfo
info_from_proto p = record {
  distance = distance_from_proto p.distance;
  duration = time_interval_from_proto p.duration;
}

unfoldable pub details_from_proto : ProtoRouteInfo → RouteDetails
details_from_proto p = record {
  summary = record {
    distance = distance_from_proto p.distance;
    duration = time_interval_from_proto p.duration;
  };
  waypoints = map location_from_proto p.waypoints;
}

unfoldable pub info_to_proto : ProtoLocation → ProtoLocation → RouteInfo → ProtoRouteInfo
info_to_proto origin destination info = record {
  origin = origin;
  destination = destination;
  duration = time_interval_to_proto info.duration;
  distance = distance_to_proto info.distance;
  waypoints = List.[];
}

unfoldable pub details_to_proto : ProtoLocation → ProtoLocation → RouteDetails → ProtoRouteInfo
unfolding info_to_proto
details_to_proto origin destination details =
    record (info_to_proto origin destination details.summary) {
      waypoints = map location_to_proto details.waypoints;
    }

-- A message with nothing set
abbrev no_location : ProtoLocation
no_location = record { encoded_latitude = pos 0; encoded_longitude = pos 0 }

-- The other toProto, which leaves the locations unset
unfoldable pub summary_to_proto : RouteInfo → ProtoRouteInfo
unfolding info_to_proto
summary_to_proto info = info_to_proto no_location no_location info
