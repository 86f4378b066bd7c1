-- ===== src/Router/FullMatrix/Places.antt =====
-- Which place addLocation gives to a location, and what two locations with one key do to this.
use assfire_suite.Base.{
  ℕ, ◌*◌, ◌<◌, ==_iff, ◌≡◌, refl, ap, sym, subst, ◌∙◌, false, some, length, get_elem?, ok,
}
use assfire_suite.Concepts.Location.{Location}
use assfire_suite.Router.RouteDetails
use assfire_suite.Router.RouteDetails.{RouteDetails}
use assfire_suite.Router.Settings.{on_error_return_infinity}
use assfire_suite.Router.Matrix.{size_mod}
use assfire_suite.Router.LocationKey.{encode_location}
use assfire_suite.Router.FullMatrix.{
  FullMatrixEngine, find, index_location, add_location, get_route_details,
}
use assfire_suite.Router.FullMatrix.Reached.{Reached, steps, adds, reached-IsValid}
use assfire_suite.Router.FullMatrix.Correct.{
  indexed, index_location-known, direct_answer, full_matrix_answers,
}

-- A location whose key is in the map is given the place of this key.
add_location-found :
    (s : FullMatrixEngine) (l : Location) (i : ℕ)
    → find (encode_location l) s.known_locations_mapping ≡ some i
    → (add_location s l ≡ (indexed s i l, record s { is_initialized = false }))
unfolding add_location index_location
add_location-found s l i e = rw e

-- Adding a location gives it a place under this matrix's tag; a known location with the same key
-- stands there. Adding then any location with this key, the same one for instance, gives the same
-- place and adds no location.
pub add_location_place :
    (s : FullMatrixEngine) (l l' : Location)
    → Reached s
    → length s.known_locations * length s.known_locations < size_mod
    → encode_location l' ≡ encode_location l
    → (i : ℕ) × (x : Location) × ((add_location s l).0 ≡ indexed s i l)
      × (get_elem? (add_location s l).1.known_locations i ≡ some x)
      × (encode_location x ≡ encode_location l)
      × (add_location (add_location s l).1 l' ≡ (
        indexed (add_location s l).1 i l',
        record (add_location s l).1 { is_initialized = false },
      ))
unfolding add_location
add_location_place s l l' r small k =
    let (i, x, a, b, c, d) =
      index_location-known (record s { is_initialized = false }) l
        (reached-IsValid s r small).mapped in
    (i, x, a, c, d, add_location-found (add_location s l).1 l' i (rw k b))

same_place :
    (s : FullMatrixEngine) (i : ℕ) (x y : Location)
    → direct_answer s i i x y ≡ ok (RouteDetails.zero x y)
unfolding direct_answer
same_place s i x y = rw ((==_iff i i).1 refl)

-- So the engine takes two locations with one key for one: where the one has been added and has
-- place i, the other is added at the same place, and the route from the one to the other is the zero
-- route of a known location with this key to itself, whatever the provider says. The policy returns
-- infinity, and the cache has fewer than 2^64 cells.
pub same_key_zero_route :
    (s : FullMatrixEngine) (i : ℕ) (l l' : Location)
    → Reached s
    → s.error_policy ≡ on_error_return_infinity
    → length s.known_locations * length s.known_locations < size_mod
    → find (encode_location l) s.known_locations_mapping ≡ some i
    → encode_location l' ≡ encode_location l
    → (x : Location) × (encode_location x ≡ encode_location l)
      × ((get_route_details (add_location s l').1 (indexed s i l) (add_location s l').0).0
          ≡ ok (RouteDetails.zero x x))
same_key_zero_route s i l l' r p small e k =
    let u : FullMatrixEngine = record s { is_initialized = false } in
    let added = add_location-found s l' i (rw k e) in
    let (x, a, b) = (reached-IsValid s r small).mapped (encode_location l) i e in
    let reached : Reached u = subst Reached (ap (λ q. q.1) added) (steps s _ r (adds s l')) in
    let (t, v, f, g, h) = full_matrix_answers u i i l l' x x reached p small a a in
    (
      x,
      b,
      ap (λ q. (get_route_details q.1 (indexed s i l) q.0).0) added
          ∙ ap (λ q. q.0) f
          ∙ sym g
          ∙ same_place u i x x,
    )
