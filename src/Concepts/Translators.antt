-- ===== src/Concepts/Translators.antt =====
-- apps/concepts/proto/assfire/api/v1/concepts: the messages of concepts.proto as records, and the
-- translators of translators/*.cpp. An int32 field takes the low 32 bits of a 64-bit value.
use assfire_suite.Base.{ℤ}
use assfire_suite.Base.Int32.{to_int32}
use assfire_suite.Concepts.Double.{Double}
use assfire_suite.Concepts.Distance
use assfire_suite.Concepts.Distance.{Distance}
use assfire_suite.Concepts.Location
use assfire_suite.Concepts.Location.{Location}
use assfire_suite.Concepts.Speed
use assfire_suite.Concepts.Speed.{Speed}
use assfire_suite.Concepts.TimeInterval
use assfire_suite.Concepts.TimeInterval.{TimeInterval}
use assfire_suite.Concepts.TimePoint
use assfire_suite.Concepts.TimePoint.{TimePoint}

pub record ProtoLocation : Type 0 where
  pub encoded_latitude : ℤ
  pub encoded_longitude : ℤ

pub record ProtoDistance : Type 0 where
  pub meters : Double

pub record ProtoSpeed : Type 0 where
  pub meters_per_second : Double

pub record ProtoTimeInterval : Type 0 where
  pub seconds : ℤ

pub record ProtoTimePoint : Type 0 where
  pub epoch_seconds : ℤ

abbrev pub location_from_proto : ProtoLocation → Location
location_from_proto p = Location.from_encoded_lat_lon p.encoded_latitude p.encoded_longitude

abbrev pub location_to_proto : Location → ProtoLocation
location_to_proto l = record {
  encoded_latitude = to_int32 l.latitude.encoded;
  encoded_longitude = to_int32 l.longitude.encoded;
}

abbrev pub distance_from_proto : ProtoDistance → Distance
distance_from_proto p = Distance.from_meters p.meters

abbrev pub distance_to_proto : Distance → ProtoDistance
distance_to_proto d = record { meters = d.meters }

abbrev pub speed_from_proto : ProtoSpeed → Speed
speed_from_proto p = Speed.from_meters_per_second p.meters_per_second

abbrev pub speed_to_proto : Speed → ProtoSpeed
speed_to_proto s = record { meters_per_second = s.meters_per_second }

abbrev pub time_interval_from_proto : ProtoTimeInterval → TimeInterval
time_interval_from_proto p = TimeInterval.from_seconds p.seconds

abbrev pub time_interval_to_proto : TimeInterval → ProtoTimeInterval
time_interval_to_proto i = record { seconds = to_int32 i.seconds }

abbrev pub time_point_from_proto : ProtoTimePoint → TimePoint
time_point_from_proto p = TimePoint.from_epoch_seconds p.epoch_seconds

abbrev pub time_point_to_proto : TimePoint → ProtoTimePoint
time_point_to_proto t = record { epoch_seconds = to_int32 t.epoch_seconds }
