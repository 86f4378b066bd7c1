-- ===== src/Router/LocationKey.antt =====
-- The map keys of a location: FullMatrixCacheDistanceMatrixEngine::encodeLocation, and
-- buildLocationKey of client/assfire/router/client/GrpcRouteProviderEngine.cpp.
use assfire_suite.Base.{
  ℕ, ◌+◌, ◌*◌, ◌<◌, ◌≤◌, pos, ◌≡◌, sym, List, [], ◌∷◌, ◌++◌, to_string, digits, digits_one,
  digits_snoc, to_string-pos, to_string-injective, to_string_no_space, split_unique,
}
use mathlib.Core.List.{append_assoc}
use assfire_suite.Concepts.Location
use assfire_suite.Concepts.Location.{Location}

unfoldable pub encode_location : Location → List ℕ
encode_location l = to_string l.latitude.encoded ++ to_string l.longitude.encoded

unfoldable pub build_location_key : Location → List ℕ
build_location_key l = to_string l.latitude.encoded ++ 32 ∷ to_string l.longitude.encoded

-- The client's keys tell locations apart: equal keys are of equal locations.
pub build_location_key-injective :
    (a b : Location) → build_location_key a ≡ build_location_key b → a ≡ b
unfolding build_location_key
build_location_key-injective a b e =
    let (p, q) =
      split_unique (to_string a.latitude.encoded) (to_string b.latitude.encoded)
        (to_string a.longitude.encoded) (to_string b.longitude.encoded)
        (to_string_no_space a.latitude.encoded) (to_string_no_space b.latitude.encoded) e in
    cc (
      to_string-injective a.latitude.encoded b.latitude.encoded p,
      to_string-injective a.longitude.encoded b.longitude.encoded q,
    )

-- The engine's keys do not: with no separator, a digit may be read as the end of the latitude or as
-- the start of the longitude. So the locations (a, 10 b + c) and (10 a + b, c) have one key, for
-- every latitude a of at least 1 and all digits b, c with b not 0, and they are different.
pub encode_location_collision :
    (a b c : ℕ)
    → 1 ≤ a
    → 1 ≤ b
    → b < 10
    → c < 10
    → encode_location (Location.from_encoded_lat_lon (pos a) (pos (10 * b + c)))
      ≡ encode_location (Location.from_encoded_lat_lon (pos (10 * a + b)) (pos c))
unfolding encode_location
encode_location_collision a b c ha hb b_digit c_digit =
    rw
      (
        to_string-pos a,
        to_string-pos (10 * b + c),
        to_string-pos (10 * a + b),
        to_string-pos c,
        digits_snoc b c hb c_digit,
        digits_snoc a b ha b_digit,
        digits_one b b_digit,
        digits_one c c_digit,
      )
      (sym (append_assoc (digits a) ((b + 48) ∷ []) ((c + 48) ∷ [])))
