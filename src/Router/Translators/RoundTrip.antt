-- ===== src/Router/Translators/RoundTrip.antt =====
-- What comes back when a value is sent as a message and read again.
use assfire_suite.Base.{◌≡◌, refl, ap, ◌↔◌, List, [], ◌∷◌, map, All, ok}
use assfire_suite.Base.Int32.{IsInt32, to_int32-eq, to_int32-keeps}
use assfire_suite.Concepts.TimeInterval.{TimeInterval}
use assfire_suite.Concepts.TimePoint.{TimePoint}
use assfire_suite.Concepts.Location.{Location}
use assfire_suite.Concepts.Translators.{
  ProtoLocation, location_from_proto, location_to_proto, time_interval_from_proto,
  time_interval_to_proto, time_point_from_proto, time_point_to_proto,
}
use assfire_suite.Router.RouteDetails.{RouteDetails}
use assfire_suite.Router.Settings.{RouterEngineType}
use assfire_suite.Router.Translators.{
  engine_type_from_proto, engine_type_to_proto, details_from_proto, details_to_proto,
}

-- The coordinates are within an int32.
abbrev pub IsSendable : Location → Type 0
IsSendable l = IsInt32 l.latitude.encoded × IsInt32 l.longitude.encoded

pub location_round_trip :
    (l : Location) → IsSendable l → location_from_proto (location_to_proto l) ≡ l
location_round_trip l h =
    cc (to_int32-eq l.latitude.encoded h.0, to_int32-eq l.longitude.encoded h.1)

waypoints_round_trip :
    (ls : List Location)
    → All IsSendable ls
    → map location_from_proto (map location_to_proto ls) ≡ ls
waypoints_round_trip [] h = refl
waypoints_round_trip (l ∷ ls) h = cc (location_round_trip l h.0, waypoints_round_trip ls h.1)

-- If the duration and the coordinates of the waypoints are within an int32, the details of a route
-- are read as they were sent, whatever the locations in the message are.
pub details_round_trip :
    (a b : ProtoLocation) (d : RouteDetails)
    → IsInt32 d.summary.duration.seconds
    → All IsSendable d.waypoints
    → details_from_proto (details_to_proto a b d) ≡ d
unfolding details_from_proto details_to_proto
details_round_trip a b d h k =
    cc (to_int32-eq d.summary.duration.seconds h, waypoints_round_trip d.waypoints k)

-- An interval and a point of time are read as they were sent exactly if their seconds are within an
-- int32, from -2^31 to 2^31 - 1.
pub time_round_trip :
    (i : TimeInterval) (t : TimePoint)
    → ((time_interval_from_proto (time_interval_to_proto i) ≡ i) ↔ IsInt32 i.seconds)
      × ((time_point_from_proto (time_point_to_proto t) ≡ t) ↔ IsInt32 t.epoch_seconds)
time_round_trip i t = (
  (
    λ e. (to_int32-keeps i.seconds).0 (ap (λ (x : TimeInterval). x.seconds) e),
    λ h. cc (to_int32-eq i.seconds h),
  ),
  (
    λ e. (to_int32-keeps t.epoch_seconds).0 (ap (λ (x : TimePoint). x.epoch_seconds) e),
    λ h. cc (to_int32-eq t.epoch_seconds h),
  ),
)

engine_type_round_trip :
    (t : RouterEngineType) {p : _} → engine_type_to_proto t ≡ ok p → engine_type_from_proto p ≡ ok t
unfolding engine_type_to_proto engine_type_from_proto
engine_type_round_trip RouterEngineType.osrm e = cc
engine_type_round_trip RouterEngineType.crowflight e = cc
engine_type_round_trip RouterEngineType.euclidean e = cc
engine_type_round_trip RouterEngineType.random e = cc
engine_type_round_trip RouterEngineType.unknown e = cc
