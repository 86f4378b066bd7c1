-- ===== src/Router/Client/Tests.antt =====
-- The theorems on the translators and on the client at concrete values.
use assfire_suite.Base.{
  pos, true, false, ◌≡◌, ◌↔◌, refl, List, [], ◌∷◌, ok, err, exception, some, ◌==◌, if◌then◌else◌,
  arith,
}
use assfire_suite.Base.Int32.{IsInt32}
use assfire_suite.Concepts.Distance
use assfire_suite.Concepts.Location.{Location, from_encoded_lat_lon}
use assfire_suite.Concepts.Speed
use assfire_suite.Concepts.TimeInterval
use assfire_suite.Concepts.TimePoint
use assfire_suite.Concepts.Translators.{
  ProtoLocation, location_to_proto, distance_to_proto, time_interval_from_proto,
  time_interval_to_proto, time_point_from_proto, time_point_to_proto,
}
use assfire_suite.Router.Matrix.{Matrix}
use assfire_suite.Router.RouteInfo
use assfire_suite.Router.RouteInfo.{RouteInfo}
use assfire_suite.Router.RouteDetails.{RouteDetails}
use assfire_suite.Router.Settings.{RouterEngineType, default_settings}
use assfire_suite.Router.Translators.{
  ProtoRouterEngineType, ProtoOsrmGeometry, settings_to_proto, engine_type_to_proto,
  geometry_to_proto, ProtoRouteProviderSettings, ProtoRouteInfo, details_from_proto,
  details_to_proto, info_from_proto,
}
use assfire_suite.Router.Translators.RoundTrip.{details_round_trip, time_round_trip}
use assfire_suite.Router.Messages.{GetRoutesBatchResponse, code_ok, empty_response}
use assfire_suite.Router.Client.{GrpcEngine, get_route_info_matrix, settings_message, copy_replies}
use assfire_suite.Router.Client.Batch.{MatrixCell, info_matrix_answers}

abbrev details : RouteDetails
details = record {
  summary = record { distance = Distance.zero; duration = TimeInterval.from_seconds (pos 600) };
  waypoints = from_encoded_lat_lon (pos 1) (pos 2) ∷ from_encoded_lat_lon (pos 3) (pos 4) ∷ [];
}

details_round_trip_example :
    details_from_proto (
      details_to_proto
        (location_to_proto (from_encoded_lat_lon (pos 1) (pos 2)))
        (location_to_proto (from_encoded_lat_lon (pos 3) (pos 4)))
        details)
    ≡ details
details_round_trip_example =
    details_round_trip _ _ details (omega arith)
      ((omega arith, omega arith), ((omega arith, omega arith), tt))

time_round_trip_example :
    ((time_interval_from_proto (time_interval_to_proto TimeInterval.infinity)
        ≡ TimeInterval.infinity)
      ↔ IsInt32 TimeInterval.infinity.seconds)
    × ((time_point_from_proto (time_point_to_proto (TimePoint.from_epoch_seconds (pos 60)))
          ≡ TimePoint.from_epoch_seconds (pos 60))
        ↔ IsInt32 (pos 60))
time_round_trip_example =
    time_round_trip TimeInterval.infinity (TimePoint.from_epoch_seconds (pos 60))

abbrev first_place : ProtoLocation
first_place = location_to_proto (from_encoded_lat_lon (pos 1) (pos 2))

abbrev second_place : ProtoLocation
second_place = location_to_proto (from_encoded_lat_lon (pos 3) (pos 4))

abbrev way : ProtoRouteInfo
way = record {
  origin = first_place;
  destination = second_place;
  duration = time_interval_to_proto (TimeInterval.from_seconds (pos 600));
  distance = distance_to_proto Distance.zero;
  waypoints = [];
}

abbrev reply : List ProtoRouteInfo → GetRoutesBatchResponse
reply routes = record { route_infos = routes; status = record { code = code_ok; message = "" } }

-- A server that sends each route in a reply of its own
abbrev grpc_engine : GrpcEngine
grpc_engine = record {
  client = record {
    get_route = λ request. err exception;
    get_routes_batch = λ request. ok (reply [] ∷ reply (way ∷ []) ∷ []);
  };
  engine_type = RouterEngineType.osrm;
  settings = default_settings;
  routing_profile = record { speed = Speed.from_meters_per_second Distance.zero.meters };
}

abbrev settings_sent : ProtoRouteProviderSettings
settings_sent = record {
  router_engine_type = ProtoRouterEngineType.osrm;
  force_update = default_settings.force_update;
  retrieve_waypoints = false;
  osrm_settings = some (record { geometry = ProtoOsrmGeometry.straight_line });
}

settings_written : settings_message grpc_engine true ≡ ok settings_sent
unfolding settings_to_proto engine_type_to_proto geometry_to_proto
settings_written = refl

abbrev places : List Location
places = from_encoded_lat_lon (pos 1) (pos 2) ∷ from_encoded_lat_lon (pos 3) (pos 4) ∷ []

info_matrix_answers_example :
    (m : Matrix RouteInfo) × (get_route_info_matrix grpc_engine places places ≡ ok m)
    × MatrixCell
        (λ r. if 0 == 1 then RouteInfo.zero else info_from_proto r)
        RouteInfo.infinity
        (way ∷ [])
        (from_encoded_lat_lon (pos 1) (pos 2))
        (from_encoded_lat_lon (pos 3) (pos 4))
        0
        1
        m
info_matrix_answers_example =
    info_matrix_answers grpc_engine places places settings_sent (reply [] ∷ []) (reply (way ∷ [])) 0
      1 (from_encoded_lat_lon (pos 1) (pos 2)) (from_encoded_lat_lon (pos 3) (pos 4)) (omega arith)
      settings_written refl refl refl refl

-- Each route of three replies but the last is lost.
abbrev back : ProtoRouteInfo
back = record way { origin = second_place; destination = first_place }

replies_lost :
    copy_replies empty_response (reply (way ∷ []) ∷ reply (back ∷ []) ∷ []) ≡ reply (back ∷ [])
unfolding copy_replies
replies_lost = refl
