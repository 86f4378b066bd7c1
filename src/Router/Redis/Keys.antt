-- ===== src/Router/Redis/Keys.antt =====
-- The keys of DefaultRedisSerializer tell pairs of locations apart.
use assfire_suite.Base.{Text, ◌≡◌, to_string, to_string-injective, to_string_no_space, split_unique}
use assfire_suite.Concepts.Location.{Location}
use assfire_suite.Router.Redis.{default_key}

-- With one suffix, equal keys are of equal origins and equal destinations.
pub default_key-injective :
    (suffix : Text) (a b c d : Location)
    → default_key suffix a b ≡ default_key suffix c d
    → (a ≡ c) × (b ≡ d)
unfolding default_key
default_key-injective suffix a b c d e =
    let (p, e1) =
      split_unique (to_string a.latitude.encoded) (to_string c.latitude.encoded) _ _
        (to_string_no_space a.latitude.encoded) (to_string_no_space c.latitude.encoded) e in
    let (q, e2) =
      split_unique (to_string a.longitude.encoded) (to_string c.longitude.encoded) _ _
        (to_string_no_space a.longitude.encoded) (to_string_no_space c.longitude.encoded) e1 in
    let (r, e3) =
      split_unique (to_string b.latitude.encoded) (to_string d.latitude.encoded) _ _
        (to_string_no_space b.latitude.encoded) (to_string_no_space d.latitude.encoded) e2 in
    let (s, _) =
      split_unique (to_string b.longitude.encoded) (to_string d.longitude.encoded) _ _
        (to_string_no_space b.longitude.encoded) (to_string_no_space d.longitude.encoded) e3 in
    let x = to_string-injective a.latitude.encoded c.latitude.encoded p in
    let y = to_string-injective a.longitude.encoded c.longitude.encoded q in
    let z = to_string-injective b.latitude.encoded d.latitude.encoded r in
    let w = to_string-injective b.longitude.encoded d.longitude.encoded s in (cc, cc)
