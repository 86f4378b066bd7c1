-- ===== src/Router/FullMatrix/Tests.antt =====
-- A run of the full matrix engine, and its theorems at the states of this run.
use assfire_suite.Base.{
  ℕ, ◌*◌, ◌<◌, pos, digits, to_string, ◌≡◌, refl, [], ◌∷◌, some, false, length, get_elem?, ok, err,
  runtime_error, if◌then◌else◌, arith,
}
use assfire_suite.Concepts.TimeInterval
use assfire_suite.Concepts.Distance
use assfire_suite.Concepts.Location
use assfire_suite.Concepts.Location.{Location, from_encoded_lat_lon}
use assfire_suite.Router.RouteInfo.{RouteInfo}
use assfire_suite.Router.RouteDetails
use assfire_suite.Router.RouteDetails.{RouteDetails}
use assfire_suite.Router.Settings.{on_error_return_infinity}
use assfire_suite.Router.Provider.{Provider}
use assfire_suite.Router.Matrix.{size_mod}
use assfire_suite.Router.LocationKey.{encode_location}
use assfire_suite.Router.FullMatrix.{
  FullMatrixEngine, init, find, insert_or_assign, index_location, add_location, get_route_details,
}
use assfire_suite.Router.FullMatrix.Invariant.{IsValid}
use assfire_suite.Router.FullMatrix.Reached.{Reached, starts, steps, adds, reached-IsValid}
use assfire_suite.Router.FullMatrix.Correct.{indexed, direct_answer, full_matrix_answers}
use assfire_suite.Router.FullMatrix.Places.{add_location_place, same_key_zero_route}

abbrev ten_minutes : RouteInfo
ten_minutes = record { distance = Distance.zero; duration = TimeInterval.from_seconds (pos 600) }

-- A provider that knows no way from (3, 4), and takes ten minutes otherwise.
abbrev provider : Provider
provider = record {
  get_single_route_info = λ a b.
      if Location.eqb a (from_encoded_lat_lon (pos 3) (pos 4))
      then err (runtime_error "no route")
      else ok ten_minutes;
  get_single_route_details = λ a b.
      if Location.eqb a (from_encoded_lat_lon (pos 3) (pos 4))
      then err (runtime_error "no route")
      else ok (record { summary = ten_minutes; waypoints = a ∷ b ∷ [] });
}

abbrev first : Location
first = from_encoded_lat_lon (pos 1) (pos 23)

-- Its key is that of `first`.
abbrev twin : Location
twin = from_encoded_lat_lon (pos 12) (pos 3)

abbrev second : Location
second = from_encoded_lat_lon (pos 3) (pos 4)

abbrev empty : FullMatrixEngine
empty = init provider (pos 7) on_error_return_infinity

abbrev both : FullMatrixEngine
both = (add_location (add_location empty first).1 second).1

both-Reached : Reached both
both-Reached = steps _ _ (steps _ _ (starts _ _ _) (adds empty first)) (adds _ second)

both_known : both.known_locations ≡ first ∷ second ∷ []
unfolding add_location index_location find insert_or_assign encode_location to_string digits
both_known = refl

both_small : length both.known_locations * length both.known_locations < size_mod
unfolding add_location index_location find insert_or_assign encode_location to_string digits
both_small = omega arith

both_policy : both.error_policy ≡ on_error_return_infinity
unfolding add_location index_location find insert_or_assign encode_location to_string digits
both_policy = refl

at_0 : get_elem? both.known_locations 0 ≡ some first
unfolding add_location index_location find insert_or_assign encode_location to_string digits
at_0 = refl

at_1 : get_elem? both.known_locations 1 ≡ some second
unfolding add_location index_location find insert_or_assign encode_location to_string digits
at_1 = refl

found_first : find (encode_location first) both.known_locations_mapping ≡ some 0
unfolding add_location index_location find insert_or_assign encode_location to_string digits
found_first = refl

same_key : encode_location twin ≡ encode_location first
unfolding encode_location to_string digits
same_key = refl

reached-IsValid_example : IsValid both
reached-IsValid_example = reached-IsValid both both-Reached both_small

full_matrix_answers_example :
    (t : FullMatrixEngine) × (v : RouteDetails) × (get_route_details both
        (indexed both 1 second)
        (indexed both 0 first)
      ≡ (ok v, t))
    × (direct_answer both 1 0 second first ≡ ok v)
    × IsValid t
full_matrix_answers_example =
    full_matrix_answers both 1 0 second first second first both-Reached both_policy both_small at_1
      at_0

add_location_place_example :
    (i : ℕ) × (x : Location) × ((add_location both first).0 ≡ indexed both i first)
    × (get_elem? (add_location both first).1.known_locations i ≡ some x)
    × (encode_location x ≡ encode_location first)
    × (add_location (add_location both first).1 twin ≡ (
      indexed (add_location both first).1 i twin,
      record (add_location both first).1 { is_initialized = false },
    ))
add_location_place_example = add_location_place both first twin both-Reached both_small same_key

same_key_zero_route_example :
    (x : Location) × (encode_location x ≡ encode_location first)
    × ((get_route_details
          (add_location both twin).1
          (indexed both 0 first)
          (add_location both twin).0).0
        ≡ ok (RouteDetails.zero x x))
same_key_zero_route_example =
    same_key_zero_route both 0 first twin both-Reached both_policy both_small found_first same_key
