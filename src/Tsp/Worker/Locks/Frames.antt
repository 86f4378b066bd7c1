-- ===== src/Tsp/Worker/Locks/Frames.antt =====
-- No call but tryLock and unlock changes what is stored under the key of a lock.
use assfire_suite.Base.{◌≡◌, ◌≢◌, refl, ◌∙◌, Option, none, Text}
use assfire_suite.Base.Actions.{
  Action, Keeps, Keeps-pure, Keeps-raise, Keeps-of_result, Keeps-bind, Keeps-attempt, keeps_rules,
}
use assfire_suite.Tsp.Worker.Keys.{
  task_key, attempts_key, lock_key, state_key, status_key, keep_alive_key, solution_key,
}
use assfire_suite.Tsp.Worker.Keys.Distinct.{Kind, key_of, key_of-injective}
use assfire_suite.Tsp.Worker.Redis.{
  Reply, null_reply, string_reply, integer_reply, error_reply, RedisClient, Frames, IsRedis,
}
use assfire_suite.Tsp.Worker.TaskProvider.{
  task_of, throw_error, retrieve_task, send_status_signal, has_status, inc_attempts,
}
use assfire_suite.Tsp.Worker.SavedState.{
  state_of, load_state, save_state, clear_state, publish_result,
}
use assfire_suite.Tsp.Worker.Locks.{
  Codec, OtherCall, retrieves, checks, signals, counts, loads, saves, clears, publishes, run_call,
}

pub key_ne : (k l : Kind) (a b : Text) → k ≢ l → key_of k a ≢ key_of l b
key_ne k l a b n e = n (key_of-injective k l a b e).0

module _ {World : Type 0} (client : RedisClient World) (codec : Codec)
    (stored : Text → World → Option Text) (redis : IsRedis client stored) (lock : Text)
    (held : Option Text) where
  -- What is stored under the key of the lock
  abbrev Holds : World → Type 0
  Holds w = stored (lock_key lock) w ≡ held

  framed :
      (key : Text) (command : Action World Reply)
      → lock_key lock ≢ key
      → Frames client stored key command
      → Keeps Holds command
  framed key command n f = record { at = λ w h. f (lock_key lock) w n ∙ h }

  read : (key : Text) → Keeps Holds (client.get key)
  read key = record { at = λ w h. redis.get_same key (lock_key lock) w ∙ h }

  other : (k : Kind) (id : Text) → Kind.lock ≢ k → lock_key lock ≢ key_of k id
  other k id n = key_ne Kind.lock k lock id n

  task_of-Keeps : (r : Reply) → Keeps Holds (task_of client codec.parse_task r)
  task_of-Keeps null_reply = Keeps-pure none
  task_of-Keeps (integer_reply n) = Keeps-pure none
  task_of-Keeps (string_reply t) = search (keeps_rules)
  task_of-Keeps (error_reply e) = Keeps-raise _

  throw_error-Keeps : (r : Reply) → Keeps Holds (throw_error client codec.parse_task r)
  throw_error-Keeps null_reply = Keeps-pure tt
  throw_error-Keeps (integer_reply n) = Keeps-pure tt
  throw_error-Keeps (string_reply t) = Keeps-pure tt
  throw_error-Keeps (error_reply e) = Keeps-raise _

  state_of-Keeps :
      (r : Reply)
      → Keeps Holds (state_of client codec.parse_state codec.print_state codec.print_solution r)
  state_of-Keeps null_reply = Keeps-pure none
  state_of-Keeps (integer_reply n) = Keeps-raise _
  state_of-Keeps (string_reply t) = Keeps-pure _
  state_of-Keeps (error_reply e) = Keeps-pure none

  call_lem : (c : OtherCall) (w : World) → Holds w → Holds (run_call client codec c w)
  unfolding retrieve_task has_status send_status_signal inc_attempts load_state save_state
      clear_state publish_result
  call_lem (retrieves id) w h =
      (Keeps-bind (client.get (task_key id)) (task_of client codec.parse_task) (read (task_key id))
          task_of-Keeps).at
        w h
  call_lem (checks status id) w h =
      (Keeps-bind (client.get (status_key id)) _ (read (status_key id)) (λ r. Keeps-pure _)).at w h
  call_lem (signals id status) w h =
      (Keeps-bind _ _
          (framed (status_key id) _ (other Kind.status id (λ e. cc))
            (redis.set_frames (status_key id) _))
          (λ r.
            Keeps-bind _ _
              (framed (keep_alive_key id) _ (other Kind.keep_alive id (λ e. cc))
                (redis.setex_frames (keep_alive_key id) _ _))
              (λ a. throw_error-Keeps r))).at
        w h
  call_lem (counts id) w h =
      (Keeps-bind _ _
          (framed (attempts_key id) _ (other Kind.attempts id (λ e. cc))
            (redis.incr_frames (attempts_key id)))
          (λ r. Keeps-bind _ _ (throw_error-Keeps r) (λ u. Keeps-of_result _))).at
        w h
  call_lem (loads id) w h =
      (Keeps-bind (client.get (state_key id)) _ (read (state_key id)) state_of-Keeps).at w h
  call_lem (saves id state) w h =
      (Keeps-bind _ _
          (framed (state_key id) _ (other Kind.state id (λ e. cc))
            (redis.set_frames (state_key id) _))
          (λ r. Keeps-pure tt)).at
        w h
  call_lem (clears id) w h =
      (Keeps-bind _ _
          (framed (state_key id) _ (other Kind.state id (λ e. cc))
            (redis.del_frames (state_key id)))
          (λ r. Keeps-pure tt)).at
        w h
  call_lem (publishes id solution) w h =
      (Keeps-attempt _ _
          (Keeps-bind _ _
            (framed (solution_key id) _ (other Kind.solution id (λ e. cc))
              (redis.set_frames (solution_key id) _))
            (λ r.
              Keeps-bind _ _
                (framed (solution_key id) _ (other Kind.solution id (λ e. cc))
                  (redis.expire_frames (solution_key id) _))
                (λ x. Keeps-pure tt)))
          (λ e. Keeps-pure tt)).at
        w h

module _ {World : Type 0} (client : RedisClient World) (codec : Codec)
    (stored : Text → World → Option Text) (redis : IsRedis client stored) where
  pub lock-run_call :
      (c : OtherCall) (id : Text) (w : World)
      → stored (lock_key id) (run_call client codec c w) ≡ stored (lock_key id) w
  lock-run_call c id w = call_lem client codec stored redis id (stored (lock_key id) w) c w refl
