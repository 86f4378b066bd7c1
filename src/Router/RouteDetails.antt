-- ===== src/Router/RouteDetails.antt =====
-- api/assfire/router/api/RouteDetails.hpp: a route with the points on its way.
use assfire_suite.Base.{Bool, List, [], ◌∷◌}
use assfire_suite.Concepts.Double.{Fpu}
use assfire_suite.Concepts.Distance.{Distance}
use assfire_suite.Concepts.TimeInterval.{TimeInterval}
use assfire_suite.Concepts.Location.{Location}
use assfire_suite.Router.RouteInfo
use assfire_suite.Router.RouteInfo.{RouteInfo}

pub record RouteDetails : Type 0 where
  pub summary : RouteInfo
  pub waypoints : List Location

-- RouteDetails()
abbrev pub default : RouteDetails
default = record { summary = RouteInfo.zero; waypoints = [] }

abbrev pub get_distance : RouteDetails → Distance
get_distance d = d.summary.distance

abbrev pub get_duration : RouteDetails → TimeInterval
get_duration d = d.summary.duration

abbrev pub zero : Location → Location → RouteDetails
zero from to = record { summary = RouteInfo.zero; waypoints = from ∷ to ∷ [] }

abbrev pub infinity : Location → Location → RouteDetails
infinity from to = record { summary = RouteInfo.infinity; waypoints = from ∷ to ∷ [] }

module _ (fpu : Fpu) where
  abbrev pub is_infinity : RouteDetails → Bool
  is_infinity d = RouteInfo.is_infinity fpu d.summary

  abbrev pub is_zero : RouteDetails → Bool
  is_zero d = RouteInfo.is_zero fpu d.summary
