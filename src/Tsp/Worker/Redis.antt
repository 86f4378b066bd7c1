-- ===== src/Tsp/Worker/Redis.antt =====
-- The Redis client of the worker, cpp_redis, which is not part of this repository: a parameter. Each
-- call stands for the command, sync_commit and the reading of the reply, and may throw.
use Prim.Native.String.{String}
use assfire_suite.Base.{
  ◌≡◌, ◌≢◌, Bool, true, false, Option, none, Error, Result, ok, err, ℕ, ℤ, Text,
}
use assfire_suite.Base.Actions.{Action}

-- cpp_redis::reply
pub data Reply : Type 0 where
  null_reply : Reply
  string_reply : Text → Reply
  integer_reply : ℤ → Reply
  error_reply : String → Reply

abbrev pub is_null : Reply → Bool
is_null null_reply = true
is_null (string_reply t) = false
is_null (integer_reply n) = false
is_null (error_reply e) = false

pub record RedisClient (World : Type 0) : Type 0 where
  pub get : Text → Action World Reply
  pub getset : Text → Text → Action World Reply
  pub set : Text → Text → Action World Reply
  pub setex : Text → ℕ → Text → Action World Reply
  pub expire : Text → ℕ → Action World Reply
  pub incr : Text → Action World Reply
  pub del : Text → Action World Reply
  -- What as_string and as_integer throw on a reply of another kind
  pub bad_reply : Error

module _ {World : Type 0} (client : RedisClient World) where
  abbrev pub as_string : Reply → Result Text
  as_string (string_reply t) = ok t
  as_string null_reply = err client.bad_reply
  as_string (integer_reply n) = err client.bad_reply
  as_string (error_reply e) = err client.bad_reply

  abbrev pub as_integer : Reply → Result ℤ
  as_integer (integer_reply n) = ok n
  as_integer null_reply = err client.bad_reply
  as_integer (string_reply t) = err client.bad_reply
  as_integer (error_reply e) = err client.bad_reply

  -- A value that a command on another key leaves as it was.
  abbrev pub Frames : (Text → World → Option Text) → Text → Action World Reply → Type 0
  Frames stored key command =
      (other : Text) (w : World) → other ≢ key → stored other (command w).1 ≡ stored other w

  -- What Redis promises of its commands, where `stored key w` is the text that the server holds
  -- under the key: a command changes its own key only, GET nothing; a key that GETSET has found to be
  -- absent is then present, and what was present stays so; a key that DEL has answered for with a
  -- number is absent. Behind an exception each of them may have been done or not.
  pub record IsRedis (stored : Text → World → Option Text) : Type 0 where
    pub get_same :
        (key other : Text) (w : World) → stored other (client.get key w).1 ≡ stored other w
    pub getset_frames : (key value : Text) → Frames stored key (client.getset key value)
    pub set_frames : (key value : Text) → Frames stored key (client.set key value)
    pub setex_frames :
        (key : Text) (n : ℕ) (value : Text) → Frames stored key (client.setex key n value)
    pub expire_frames : (key : Text) (n : ℕ) → Frames stored key (client.expire key n)
    pub incr_frames : (key : Text) → Frames stored key (client.incr key)
    pub del_frames : (key : Text) → Frames stored key (client.del key)
    pub getset_null :
        (key value : Text) (w : World)
        → (client.getset key value w).0 ≡ ok null_reply
        → (stored key w ≡ none) × (stored key (client.getset key value w).1 ≢ none)
    pub getset_keeps :
        (key value other : Text) (w : World)
        → stored other w ≢ none
        → stored other (client.getset key value w).1 ≢ none
    pub del_removes :
        (key : Text) (w : World) (n : ℤ)
        → (client.del key w).0 ≡ ok (integer_reply n)
        → stored key (client.del key w).1 ≡ none
