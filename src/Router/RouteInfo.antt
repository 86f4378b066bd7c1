-- ===== src/Router/RouteInfo.antt =====
-- api/assfire/router/api/RouteInfo.hpp: the distance and the duration of a route.
use assfire_suite.Base.{Bool, ◌&&◌, ◌||◌}
use assfire_suite.Concepts.Double.{Fpu}
use assfire_suite.Concepts.Distance
use assfire_suite.Concepts.Distance.{Distance}
use assfire_suite.Concepts.TimeInterval
use assfire_suite.Concepts.TimeInterval.{TimeInterval}

pub record RouteInfo : Type 0 where
  pub distance : Distance
  pub duration : TimeInterval

abbrev pub zero : RouteInfo
zero = record { distance = Distance.zero; duration = TimeInterval.zero }

abbrev pub infinity : RouteInfo
infinity = record { distance = Distance.infinity; duration = TimeInterval.infinity }

module _ (fpu : Fpu) where
  abbrev pub is_infinity : RouteInfo → Bool
  is_infinity r = Distance.is_infinity fpu r.distance || TimeInterval.is_infinity r.duration

  abbrev pub is_zero : RouteInfo → Bool
  is_zero r = Distance.is_zero fpu r.distance && TimeInterval.is_zero r.duration
