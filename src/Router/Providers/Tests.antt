-- ===== src/Router/Providers/Tests.antt =====
-- The OSRM provider at an answer of the server, and the theorem on all providers.
use assfire_suite.Base.{ℕ, pos, false, ◌≡◌, ◌≢◌, refl, [], ◌∷◌, ok, err, runtime_error, codes}
use assfire_suite.Concepts.Double.{Fpu, double_zero}
use assfire_suite.Concepts.Location
use assfire_suite.Concepts.Location.{Location, from_encoded_lat_lon}
use assfire_suite.Concepts.Speed
use assfire_suite.Router.Settings.{
  RouterEngineType, RoutingProfile, default_settings, straight_line,
}
use assfire_suite.Router.Engine.{create_engine}
use assfire_suite.Router.Providers.{
  Libm, Json, object, field, no_fields, text, number, array, value, no_values, osrm_provider,
  route_providers, calculate_route_details, find_field, nth_value, read_response,
}
use assfire_suite.Router.Providers.Agree.{Agrees, create_engine-Agrees}

-- A double is taken for a whole number of seconds, meters or degrees times 10^6.
abbrev fpu : Fpu
fpu = record {
  add = λ x y. x;
  mul = λ x y. x;
  div = λ x y. x;
  fabs = λ x. x;
  round = λ x. x;
  lt = λ x y. false;
  le = λ x y. false;
  to_int64 = λ x. pos x.bits;
  of_int64 = λ n. double_zero;
}

abbrev libm : Libm
libm = record { sub = λ x y. x; cos = λ x. x; sin = λ x. x; acos = λ x. x; hypot = λ x y. x }

abbrev numeral : ℕ → Json
numeral n = number (record { bits = n })

abbrev answer : Json
answer = object (
    field (codes "code") (text "Ok") (
      field (codes "routes")
        (array (
          value
            (object (
              field (codes "duration") (numeral 60)
                (field (codes "distance") (numeral 500) no_fields)))
            no_values))
        no_fields))

abbrev refusal : Json
refusal =
    object
      (field (codes "code") (text "NoRoute") (field (codes "message") (text "no way") no_fields))

abbrev profile : RoutingProfile
profile = record { speed = Speed.from_meters_per_second double_zero }

abbrev here : Location
here = from_encoded_lat_lon (pos 1) (pos 2)

abbrev there : Location
there = from_encoded_lat_lon (pos 3) (pos 4)

answered :
    calculate_route_details fpu libm (λ request. ok answer) straight_line here there
    ≡ ok (record {
      summary = record {
        distance = record { meters = record { bits = 500 } };
        duration = record { seconds = pos 60 };
      };
      waypoints = here ∷ there ∷ [];
    })
unfolding calculate_route_details read_response find_field nth_value Location.eqb
answered = refl

refused :
    calculate_route_details fpu libm (λ request. ok refusal) straight_line here there
    ≡ err (runtime_error "OSRM backend returned error: no way")
unfolding calculate_route_details read_response find_field Location.eqb
refused = refl

made :
    create_engine
      (record {
        providers =
            route_providers fpu libm
              (λ a b. double_zero)
              (λ request. ok answer)
              (λ type profile settings engine. engine);
        cache_enabled = false;
        has_serializer_supplier = false;
      })
      RouterEngineType.osrm
      profile
      default_settings
    ≡ ok (osrm_provider fpu libm (λ request. ok answer) profile straight_line)
unfolding create_engine
made = refl

osrm-ne-random : RouterEngineType.osrm ≢ RouterEngineType.random
osrm-ne-random e = cc

create_engine-Agrees_example :
    Agrees (osrm_provider fpu libm (λ request. ok answer) profile straight_line) here there
create_engine-Agrees_example =
    create_engine-Agrees fpu libm (λ a b. double_zero) (λ request. ok answer)
      (λ type profile settings engine. engine) false false RouterEngineType.osrm profile
      default_settings (osrm_provider fpu libm (λ request. ok answer) profile straight_line) here
      there osrm-ne-random made
