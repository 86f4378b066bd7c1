-- ===== src/Concepts/Speed.antt =====
-- Speed.hpp/.cpp
use assfire_suite.Concepts.Double.{Double, Fpu, thousand, seconds_per_hour}
use assfire_suite.Concepts.Distance.{Distance}
use assfire_suite.Concepts.TimeInterval
use assfire_suite.Concepts.TimeInterval.{TimeInterval}

pub record Speed : Type 0 where
  pub meters_per_second : Double

abbrev pub from_meters_per_second : Double → Speed
from_meters_per_second v = record { meters_per_second = v }

module _ (fpu : Fpu) where
  abbrev pub from_kilometers_per_hour : Double → Speed
  from_kilometers_per_hour v =
      from_meters_per_second (fpu.mul (fpu.div v seconds_per_hour) thousand)

  abbrev pub to_kilometers_per_hour : Speed → Double
  to_kilometers_per_hour s = fpu.mul (fpu.div s.meters_per_second thousand) seconds_per_hour

  abbrev pub to_meters_per_second_with_precision : Speed → Double → Double
  to_meters_per_second_with_precision s p = fpu.mul (fpu.round (fpu.div s.meters_per_second p)) p

  abbrev pub get_seconds_to_travel : Speed → Distance → TimeInterval
  get_seconds_to_travel s d =
      TimeInterval.from_seconds (fpu.to_int64 (fpu.div d.meters s.meters_per_second))
