-- ===== src/Router/Direct.antt =====
-- api/assfire/router/api/distance_matrix_engines/DirectRequestDistanceMatrixEngine.hpp/.cpp: every
-- query goes to the provider.
pub mod Errors
use assfire_suite.Base.{
  ℤ, pos, eqb_ℤ, Bool, ◌||◌, not, Result, ok, err, Error, exception, ◌>>=◌, if◌then◌else◌,
}
use assfire_suite.Concepts.Location.{Location}
use assfire_suite.Router.RouteInfo.{RouteInfo}
use assfire_suite.Router.RouteDetails
use assfire_suite.Router.RouteDetails.{RouteDetails}
use assfire_suite.Router.IndexedLocation.{IndexedLocation}
use assfire_suite.Router.Settings.{
  DistanceMatrixErrorPolicy, on_error_return_infinity, on_error_throw,
}
use assfire_suite.Router.Provider.{Provider}

pub record DirectEngine : Type 0 where
  pub matrix_tag : ℤ
  pub engine : Provider
  pub error_policy : DistanceMatrixErrorPolicy

-- `throw e` copies the caught reference by its static type: a bare std::exception leaves.
unfoldable pub process_error :
    DistanceMatrixErrorPolicy → Location → Location → Error → Result RouteDetails
process_error on_error_return_infinity from to e = ok (RouteDetails.infinity from to)
process_error on_error_throw from to e = err exception

-- try { ... } catch (const std::exception& e) { ... }
abbrev pub catching {ℓ} : {A : Type ℓ} → Result A → (Error → Result A) → Result A
catching (ok a) handler = ok a
catching (err e) handler = handler e

abbrev pub get_summary : RouteDetails → Result RouteInfo
get_summary d = ok d.summary

-- Whether one of the two locations is of another matrix.
abbrev pub is_foreign : ℤ → IndexedLocation → IndexedLocation → Bool
is_foreign tag a b = not (eqb_ℤ a.index_tag tag) || not (eqb_ℤ b.index_tag tag)

module _ (m : DirectEngine) where
  -- getRouteInfo(Location, Location)
  unfoldable pub get_route_info_at : Location → Location → Result RouteInfo
  get_route_info_at origin destination =
      catching (m.engine.get_single_route_info origin destination)
        λ e. process_error m.error_policy origin destination e >>= get_summary

  unfoldable pub get_route_details_at : Location → Location → Result RouteDetails
  get_route_details_at origin destination =
      catching (m.engine.get_single_route_details origin destination)
        λ e. process_error m.error_policy origin destination e

  -- getRouteInfo(IndexedLocation, IndexedLocation)
  unfoldable pub get_route_info : IndexedLocation → IndexedLocation → Result RouteInfo
  get_route_info origin destination =
      if is_foreign m.matrix_tag origin destination
      then get_route_info_at origin.location destination.location
      else catching (m.engine.get_single_route_info origin.location destination.location)
          λ e. process_error m.error_policy origin.location destination.location e >>= get_summary

  unfoldable pub get_route_details : IndexedLocation → IndexedLocation → Result RouteDetails
  get_route_details origin destination =
      if is_foreign m.matrix_tag origin destination
      then get_route_details_at origin.location destination.location
      else catching (m.engine.get_single_route_details origin.location destination.location)
          λ e. process_error m.error_policy origin.location destination.location e

  unfoldable pub add_location : Location → IndexedLocation
  add_location l = record { id = pos 0; index_tag = m.matrix_tag; location = l }
