-- ===== src/Router/Tests.antt =====
-- The theorems on matrices, on the direct engine and on location keys at concrete values.
use assfire_suite.Base.{
  ℕ, ◌+◌, ◌*◌, pos, ◌≡◌, refl, ◌⊎◌, length, [], ◌∷◌, Error, Result, ok, err, runtime_error,
  if◌then◌else◌, arith,
}
use assfire_suite.Concepts.TimeInterval
use assfire_suite.Concepts.Distance
use assfire_suite.Concepts.Location
use assfire_suite.Concepts.Location.{Location, from_encoded_lat_lon}
use assfire_suite.Router.RouteInfo
use assfire_suite.Router.RouteInfo.{RouteInfo}
use assfire_suite.Router.RouteDetails
use assfire_suite.Router.RouteDetails.{RouteDetails}
use assfire_suite.Router.Settings.{DistanceMatrixErrorPolicy, on_error_return_infinity}
use assfire_suite.Router.IndexedLocation.{IndexedLocation}
use assfire_suite.Router.Provider.{Provider}
use assfire_suite.Router.Matrix.{Matrix, at, construct}
use assfire_suite.Router.Matrix.Correct.{at-construct, construct_total}
use assfire_suite.Router.Direct.{DirectEngine, get_route_info, get_route_details}
use assfire_suite.Router.Direct.Errors.{direct_returns_infinity}
use assfire_suite.Router.LocationKey.{encode_location, encode_location_collision}

abbrev table : Matrix ℕ
table = record { cells = 0 ∷ 1 ∷ 2 ∷ 10 ∷ 11 ∷ 12 ∷ []; rows = 2; columns = 3 }

abbrev supplier : ℕ → ℕ → Result ℕ
supplier i j = ok (10 * i + j)

table_built : construct 99 2 3 supplier ≡ ok table
unfolding construct
table_built = refl

at-construct_example : (v : ℕ) × (supplier 1 2 ≡ ok v) × (at table (pos 1) (pos 2) ≡ ok v)
at-construct_example =
    at-construct 99 2 3 supplier table 1 2 (omega arith) table_built (omega arith) (omega arith)

construct_total_example :
    (m : Matrix ℕ) × (construct 99 2 3 supplier ≡ ok m)
    × (m.rows ≡ 2)
    × (m.columns ≡ 3)
    × (length m.cells ≡ 2 * 3)
construct_total_example = construct_total 99 2 3 supplier (omega arith) (λ i j hi hj. (_, refl))

abbrev ten_minutes : RouteInfo
ten_minutes = record { distance = Distance.zero; duration = TimeInterval.from_seconds (pos 600) }

-- A provider that knows no way to (3, 4), and takes ten minutes otherwise.
abbrev provider : Provider
provider = record {
  get_single_route_info = λ a b.
      if Location.eqb b (from_encoded_lat_lon (pos 3) (pos 4))
      then err (runtime_error "no route")
      else ok ten_minutes;
  get_single_route_details = λ a b.
      if Location.eqb b (from_encoded_lat_lon (pos 3) (pos 4))
      then err (runtime_error "no route")
      else ok (record { summary = ten_minutes; waypoints = a ∷ b ∷ [] });
}

abbrev engine : DistanceMatrixErrorPolicy → DirectEngine
engine policy = record { matrix_tag = pos 7; engine = provider; error_policy = policy }

abbrev here : IndexedLocation
here = record { id = pos 0; index_tag = pos 7; location = from_encoded_lat_lon (pos 1) (pos 2) }

-- Its tag is of another matrix.
abbrev there : IndexedLocation
there = record { id = pos 5; index_tag = pos 6; location = from_encoded_lat_lon (pos 3) (pos 4) }

direct_returns_infinity_example :
    ((r : RouteInfo) × (get_route_info (engine on_error_return_infinity) here there ≡ ok r)
      × ((provider.get_single_route_info here.location there.location ≡ ok r)
          ⊎ ((e : Error) × (provider.get_single_route_info here.location there.location ≡ err e)
              × (r ≡ RouteInfo.infinity))))
    × ((d : RouteDetails) × (get_route_details (engine on_error_return_infinity) here there ≡ ok d)
        × ((provider.get_single_route_details here.location there.location ≡ ok d)
            ⊎ ((e : Error) × (provider.get_single_route_details here.location there.location
                  ≡ err e)
                × (d ≡ RouteDetails.infinity here.location there.location))))
direct_returns_infinity_example =
    direct_returns_infinity (engine on_error_return_infinity) here there refl

-- (0.000001, 0.000023) and (0.000012, 0.000003)
encode_location_collision_example :
    encode_location (from_encoded_lat_lon (pos 1) (pos 23))
    ≡ encode_location (from_encoded_lat_lon (pos 12) (pos 3))
encode_location_collision_example =
    encode_location_collision 1 2 3 (omega arith) (omega arith) (omega arith) (omega arith)
