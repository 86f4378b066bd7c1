-- ===== src/Router/Redis.antt =====
-- engine/assfire/router/engine/impl/route_provider_engines/RedisRouteProviderEngine.hpp/.cpp and
-- CacheConnector.hpp: a route provider behind a store of answers, with
-- api/assfire/router/api/RedisSerializer.hpp, and the keys of DefaultRedisSerializer.hpp. What the
-- store holds is a value of `Store`, which each call returns. The metrics are not modelled.
pub mod Keys
pub mod Answers
mod Tests
use assfire_suite.Base.{
  Text, ℕ, Bool, ◌||◌, not, List, ◌++◌, ◌∷◌, Result, ok, err, to_string, if◌then◌else◌,
}
use assfire_suite.Concepts.Location
use assfire_suite.Concepts.Location.{Location}
use assfire_suite.Router.RouteInfo.{RouteInfo}
use assfire_suite.Router.RouteDetails
use assfire_suite.Router.RouteDetails.{RouteDetails}
use assfire_suite.Router.Provider.{Provider}

pub record CacheEntry : Type 0 where
  pub payload : Text
  pub is_present : Bool
  pub is_error : Bool
  pub message : Text

-- The abstract class
pub record RedisSerializer : Type 0 where
  pub serialize_key : Location → Location → Text
  pub serialize_route_details : Location → Location → RouteDetails → Text
  pub deserialize_route_details : Location → Location → Text → RouteDetails

-- DefaultRedisSerializer::serializeKey, by the suffix that the constructor has printed
unfoldable pub default_key : Text → Location → Location → Text
default_key suffix origin destination =
    to_string origin.latitude.encoded
    ++ 32
      ∷ (to_string origin.longitude.encoded
          ++ 32
            ∷ (to_string destination.latitude.encoded
                ++ 32 ∷ (to_string destination.longitude.encoded ++ 32 ∷ suffix)))

module _ (Store : Type 0) where
  -- The abstract class, as functions of what is stored.
  pub record CacheConnector : Type 0 where
    pub put : Text → Text → Store → Store
    pub get : Text → Store → CacheEntry

  pub record RedisEngine : Type 0 where
    pub redis_client : CacheConnector
    pub backend_engine : Provider
    pub serializer : RedisSerializer
    pub force_update : Bool

module _ (Store : Type 0) (m : RedisEngine Store) where
  -- The backend's answer is put into the store; an exception leaves before that.
  unfoldable pub keep_answer :
      Location → Location → Store → Result RouteDetails → Result RouteDetails × Store
  keep_answer origin destination store (err e) = (err e, store)
  keep_answer origin destination store (ok result) = (
    ok result,
    m.redis_client.put (m.serializer.serialize_key origin destination)
        (m.serializer.serialize_route_details origin destination result) store,
  )

  unfoldable pub retrieve_single_route_details :
      Location → Location → Store → Result RouteDetails × Store
  retrieve_single_route_details origin destination store =
      if Location.eqb origin destination
      then (ok (RouteDetails.zero origin destination), store)
      else let reply = m.redis_client.get (m.serializer.serialize_key origin destination) store in
        if reply.is_error || not reply.is_present || m.force_update
        then keep_answer origin destination store
            (m.backend_engine.get_single_route_details origin destination)
        else (ok (m.serializer.deserialize_route_details origin destination reply.payload), store)

  abbrev pub get_single_route_details : Location → Location → Store → Result RouteDetails × Store
  get_single_route_details origin destination store =
      retrieve_single_route_details origin destination store

  abbrev pub summary_of : Result RouteDetails → Result RouteInfo
  summary_of (ok d) = ok d.summary
  summary_of (err e) = err e

  unfoldable pub get_single_route_info : Location → Location → Store → Result RouteInfo × Store
  get_single_route_info origin destination store =
      let answer = retrieve_single_route_details origin destination store in
      (summary_of answer.0, answer.1)
