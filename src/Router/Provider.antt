-- ===== src/Router/Provider.antt =====
-- api/assfire/router/api/RouteProviderEngine.hpp: what answers for single routes, with the matrices
-- that are built from single answers by default.
use assfire_suite.Base.{ℕ, List, length, get_elem?, Result, out_of_range, of_option, ◌>>=◌}
use assfire_suite.Concepts.Location.{Location}
use assfire_suite.Router.RouteInfo
use assfire_suite.Router.RouteInfo.{RouteInfo}
use assfire_suite.Router.RouteDetails
use assfire_suite.Router.RouteDetails.{RouteDetails}
use assfire_suite.Router.Matrix.{Matrix, construct}

-- The two abstract methods, which may throw. The answers are taken to be the same at each call.
pub record Provider : Type 0 where
  pub get_single_route_info : Location → Location → Result RouteInfo
  pub get_single_route_details : Location → Location → Result RouteDetails

-- The vector's at
abbrev pub location_at : List Location → ℕ → Result Location
location_at ls i = of_option (get_elem? ls i) out_of_range

module _ (p : Provider) where
  pub get_route_info_matrix : List Location → List Location → Result (Matrix RouteInfo)
  get_route_info_matrix origins destinations =
      construct RouteInfo.zero (length origins) (length destinations) (λ i j. do
        origin ← location_at origins i
        destination ← location_at destinations j
        p.get_single_route_info origin destination)

  pub get_route_details_matrix : List Location → List Location → Result (Matrix RouteDetails)
  get_route_details_matrix origins destinations =
      construct RouteDetails.default (length origins) (length destinations) (λ i j. do
        origin ← location_at origins i
        destination ← location_at destinations j
        p.get_single_route_details origin destination)
