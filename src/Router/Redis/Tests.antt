-- ===== src/Router/Redis/Tests.antt =====
-- The theorems on the cached provider at concrete values: a store that is a function from keys, and a
-- provider that takes the same time everywhere.
use assfire_suite.Base.{
  text_eq, text_eq→eq, Text, pos, ◌≡◌, refl, inl, inr, true, false, Bool-cases, Option, none, some,
  [], ◌∷◌, ok, if◌then◌else◌,
}
use assfire_suite.Concepts.TimeInterval
use assfire_suite.Concepts.Distance
use assfire_suite.Concepts.Location.{Location, from_encoded_lat_lon}
use assfire_suite.Router.RouteDetails.{RouteDetails}
use assfire_suite.Router.Provider.{Provider}
use assfire_suite.Router.Redis.{
  CacheEntry, CacheConnector, RedisSerializer, RedisEngine, default_key,
  retrieve_single_route_details, get_single_route_info, summary_of,
}
use assfire_suite.Router.Redis.Keys.{default_key-injective}
use assfire_suite.Router.Redis.Answers.{
  Remembers, Reached, starts, asks_details, Answered, HoldsAnswers, reached-HoldsAnswers,
  redis_answers,
}

abbrev Store : Type 0
Store = Text → Option Text

abbrev as_entry : Option Text → CacheEntry
as_entry none = record { payload = []; is_present = false; is_error = false; message = [] }
as_entry (some t) = record { payload = t; is_present = true; is_error = false; message = [] }

abbrev connector : CacheConnector Store
connector = record {
  put = λ k v s. λ k'. if text_eq k' k then some v else s k';
  get = λ k s. as_entry (s k);
}

abbrev ten_minutes : RouteDetails
ten_minutes = record {
  summary = record { distance = Distance.zero; duration = TimeInterval.from_seconds (pos 600) };
  waypoints = [];
}

-- It knows one route, and prints it as "1".
abbrev serializer : RedisSerializer
serializer = record {
  serialize_key = default_key (49 ∷ []);
  serialize_route_details = λ a b r. 49 ∷ [];
  deserialize_route_details = λ a b t. ten_minutes;
}

abbrev backend : Provider
backend = record {
  get_single_route_info = λ a b. ok ten_minutes.summary;
  get_single_route_details = λ a b. ok ten_minutes;
}

abbrev engine : RedisEngine Store
engine = record {
  redis_client = connector;
  backend_engine = backend;
  serializer = serializer;
  force_update = false;
}

connector-Remembers : Remembers Store connector
connector-Remembers k k' v s hit = elim (Bool-cases (text_eq k' k)) [
  | inl e ↦ inl (text_eq→eq k' k e, rw e refl)
  | inr e ↦ inr (let h = rw e at hit in h, rw e refl)
]

abbrev here : Location
here = from_encoded_lat_lon (pos 1) (pos 2)

abbrev there : Location
there = from_encoded_lat_lon (pos 3) (pos 4)

abbrev empty_store : Store
empty_store k = none

empty-Reached : Reached Store engine empty_store
empty-Reached = starts empty_store λ a b hit. let e = hit.0 in cc

-- A route was asked for.
abbrev asked : Store
asked = (retrieve_single_route_details Store engine here there empty_store).1

asked-Reached : Reached Store engine asked
asked-Reached = asks_details empty_store here there empty-Reached

reached-HoldsAnswers_example : HoldsAnswers Store engine asked
reached-HoldsAnswers_example =
    reached-HoldsAnswers Store engine asked (default_key-injective (49 ∷ [])) connector-Remembers
      asked-Reached

redis_answers_example :
    Answered Store engine asked here there
      (retrieve_single_route_details Store engine here there asked).0
    × ((get_single_route_info Store engine here there asked).0
        ≡ summary_of Store engine (retrieve_single_route_details Store engine here there asked).0)
redis_answers_example =
    redis_answers Store engine asked here there (default_key-injective (49 ∷ []))
      connector-Remembers asked-Reached
