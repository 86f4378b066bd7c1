-- ===== src/Tsp/Worker/Tests.antt =====
-- The theorems on the worker at concrete values: a Redis server that is a function from keys to
-- texts, and services that do nothing.
use assfire_suite.Base.{
  ℕ, pos, ◌≡◌, ◌≢◌, refl, sym, ◌∙◌, ◌⊎◌, inl, inr, Bool, true, false, Bool-cases, Option, none,
  some, List, [], ◌∷◌, exception, runtime_error, Result, ok, Text, codes, text_eq, text_eq_refl,
  text_eq→eq, if◌then◌else◌, if_true, if_false,
}
use assfire_suite.Base.Actions.{pure, raise, attempt, ◌>>=◌, pure-IsTotal}
use assfire_suite.Router.Settings
use assfire_suite.Tsp.Solution.{TspSolution}
use assfire_suite.Tsp.Task
use assfire_suite.Tsp.Task.{TspTask}
use assfire_suite.Tsp.StateContainer.{empty_state}
use assfire_suite.Tsp.Worker.Keys.{lock_key, status_key, task_key, attempts_key}
use assfire_suite.Tsp.Worker.Keys.Distinct.{Kind, key_of-injective}
use assfire_suite.Tsp.Worker.Redis.{
  Reply, null_reply, string_reply, integer_reply, RedisClient, IsRedis,
}
use assfire_suite.Tsp.Worker.Services.{Services}
use assfire_suite.Tsp.Worker.TaskProvider.{
  redis_task_provider, try_lock, unlock, retrieve_task, send_status_signal, has_status,
  inc_attempts,
}
use assfire_suite.Tsp.Worker.Locks.{
  Codec, System, here, takes, gives_back, gives_back_again, Reached, starts, steps,
}
use assfire_suite.Tsp.Worker.Locks.Exclusion.{IsExclusive, reached-IsExclusive}
use assfire_suite.Tsp.Worker.Iteration.{
  Event, solution, signal, timeout, persists, pause_signal, waits, iteration, run_session,
  try_block, catch_block, check_attempts, solve, clean_up, listen, wait, handle_event, on_solution,
}
use assfire_suite.Tsp.Worker.Iteration.Release.{iteration_frees_lock}
use assfire_suite.Tsp.Worker.Iteration.Calm.{Calm}
use assfire_suite.Tsp.Worker.Iteration.Progress.{iteration_ends}
use assfire_suite.Tsp.Worker.Iteration.Stuck.{with_publish_paused, failed_pause_waits}

abbrev Store : Type 0
Store = Text → Option Text

abbrev stored : Text → Store → Option Text
stored key s = s key

abbrev write : Text → Option Text → Store → Store
write key v s other = if text_eq other key then v else s other

abbrev reply_of : Option Text → Reply
reply_of none = null_reply
reply_of (some t) = string_reply t

abbrev client : RedisClient Store
client = record {
  get = λ k s. (ok (reply_of (s k)), s);
  getset = λ k v s. (ok (reply_of (s k)), write k (some v) s);
  set = λ k v s. (ok (string_reply (codes "OK")), write k (some v) s);
  setex = λ k n v s. (ok (string_reply (codes "OK")), write k (some v) s);
  expire = λ k n s. (ok (integer_reply (pos 1)), s);
  incr = λ k s. (ok (integer_reply (pos 1)), write k (some (codes "1")) s);
  del = λ k s. (ok (integer_reply (pos 1)), write k none s);
  bad_reply = runtime_error "bad reply";
}

write-Frames :
    (k : Text) (v : Option Text) (other : Text) (s : Store)
    → other ≢ k
    → write k v s other ≡ s other
write-Frames k v other s n = elim (Bool-cases (text_eq other k)) [
  | inl e ↦ absurd (n (text_eq→eq other k e))
  | inr e ↦ if_false (text_eq other k) _ _ e
]

write_self : (k : Text) (v : Option Text) (s : Store) → write k v s k ≡ v
write_self k v s = if_true (text_eq k k) _ _ (text_eq_refl k)

reply_null : (o : Option Text) → ◌≡◌ {A = Result Reply} (ok (reply_of o)) (ok null_reply) → o ≡ none
reply_null none e = refl
reply_null (some t) e = cc

write_some : (b : Bool) (v : Text) (o : Option Text) → o ≢ none → (if b then some v else o) ≢ none
write_some true v o n e = cc
write_some false v o n e = n e

client-IsRedis : IsRedis client stored
client-IsRedis = record {
  get_same = λ k other s. refl;
  getset_frames = λ k v other s n. write-Frames k (some v) other s n;
  set_frames = λ k v other s n. write-Frames k (some v) other s n;
  setex_frames = λ k n v other s ne. write-Frames k (some v) other s ne;
  expire_frames = λ k n other s ne. refl;
  incr_frames = λ k other s n. write-Frames k (some (codes "1")) other s n;
  del_frames = λ k other s n. write-Frames k none other s n;
  getset_null =
      λ k v s e. (reply_null (s k) e, λ z. let y = sym (write_self k (some v) s) ∙ z in cc);
  getset_keeps = λ k v other s n. write_some (text_eq other k) v (s other) n;
  del_removes = λ k s n e. write_self k none s;
}

abbrev task : TspTask
task = record {
  points = [];
  solver_settings = record {
    routing_settings = record {
      engine_type = Settings.crowflight;
      route_provider_settings = Settings.default_settings;
      routing_profile = record { speed = record { meters_per_second = record { bits = 0 } } };
    };
    estimator_settings = record {
      cost_function_settings = record {
        type = Task.TspCostFunctionType.default;
        total_distance_cost_function_settings = record { cost_per_km = record { bits = 0 } };
      };
      validator_settings = record { type = Task.TspValidatorType.default };
    };
    algorithm_settings = record { algorithm_type = Task.auto };
  };
}

abbrev solution_of : Bool → TspSolution
solution_of final = record {
  sequence = [];
  cost = record { value = record { bits = 0 } };
  validation_result = record { is_valid = true };
  is_final_solution = final;
}

abbrev codec : Codec
codec = record {
  parse_task = λ t. ok task;
  parse_state = λ t. empty_state;
  print_state = λ s. [];
  print_solution = λ s. [];
}

abbrev a : Text
a = codes "a"

-- An id that ends like a suffix
abbrev a_lock : Text
a_lock = codes "a.lock"

key_of-injective_example : (Kind.lock ≡ Kind.lock) × (a_lock ≡ a_lock)
key_of-injective_example = key_of-injective Kind.lock Kind.lock a_lock a_lock refl

abbrev empty_store : Store
empty_store k = none

a_is_free : (try_lock client codec.parse_task a empty_store).0 ≡ ok true
unfolding try_lock ◌>>=◌
a_is_free = refl

abbrev at_start : System client codec
at_start = record { world = empty_store; holders = []; strays = [] }

abbrev a_taken : System client codec
a_taken = record {
  world = (try_lock client codec.parse_task a empty_store).1;
  holders = (1, a) ∷ [];
  strays = [];
}

a_taken-Reached : Reached client codec a_taken
a_taken-Reached = steps at_start a_taken (starts empty_store) (takes 1 a at_start a_is_free)

-- Worker 1 gives the lock back, worker 2 takes it, worker 1 gives it back again, worker 3 takes it.
abbrev given_back : System client codec
given_back = record {
  world = (unlock client codec.parse_task a a_taken.world).1;
  holders = [];
  strays = [];
}

abbrev taken_again : System client codec
taken_again = record {
  world = (try_lock client codec.parse_task a given_back.world).1;
  holders = (2, a) ∷ [];
  strays = [];
}

abbrev given_back_again : System client codec
given_back_again = record taken_again {
  world = (unlock client codec.parse_task a taken_again.world).1;
  strays = a ∷ [];
}

abbrev held_twice : System client codec
held_twice = record {
  world = (try_lock client codec.parse_task a given_back_again.world).1;
  holders = (3, a) ∷ (2, a) ∷ [];
  strays = a ∷ [];
}

a_is_free_again : (try_lock client codec.parse_task a given_back.world).0 ≡ ok true
unfolding try_lock unlock ◌>>=◌ lock_key
a_is_free_again = refl

a_is_free_wrongly : (try_lock client codec.parse_task a given_back_again.world).0 ≡ ok true
unfolding try_lock unlock ◌>>=◌ lock_key
a_is_free_wrongly = refl

held_twice-Reached : Reached client codec held_twice
held_twice-Reached =
    steps _ _
      (steps _ _
        (steps _ _ (steps _ _ a_taken-Reached (gives_back 1 a a_taken [] here))
          (takes 2 a given_back a_is_free_again))
        (gives_back_again a taken_again))
      (takes 3 a given_back_again a_is_free_wrongly)

reached-IsExclusive_example : IsExclusive client codec stored client-IsRedis held_twice
reached-IsExclusive_example =
    reached-IsExclusive client codec stored client-IsRedis held_twice held_twice-Reached

-- Services that return at once
abbrev idle : {World : Type 0} → Services World
idle = record {
  task_provider = record {
    retrieve_task = λ id. pure (some task);
    try_lock = λ id. pure true;
    unlock = λ id. pure tt;
    is_finished = λ id. pure false;
    is_paused = λ id. pure false;
    send_started = λ id. pure tt;
    send_error = λ id. pure tt;
    send_in_progress = λ id. pure tt;
    send_paused = λ id. pure tt;
    send_interrupted = λ id. pure tt;
    send_finished = λ id. pure tt;
    inc_attempts = λ id. pure (pos 1);
  };
  status_publisher = record {
    release = λ id. pure tt;
    publish_started = λ id. pure tt;
    publish_paused = λ id. pure tt;
    publish_interrupted = λ id. pure tt;
    publish_error = λ id. pure tt;
    publish_finished = λ id. pure tt;
    publish_new_solution = λ id cost v. pure tt;
  };
  saved_state_manager = record {
    load_state = λ id. pure none;
    save_state = λ id state. pure tt;
    clear_state = λ id. pure tt;
  };
  solution_publisher = record { publish = λ id t s. pure tt };
  interrupt_listener = record { subscribe = λ id. pure tt; unsubscribe = λ id. pure tt };
  engine = record {
    solve_tsp = λ id t s. pure tt;
    pause = λ id. pure tt;
    interrupt = λ id. pure tt;
  };
}

idle-Calm : Calm {World = ℕ} idle a
idle-Calm = record {
  locks = pure-IsTotal true;
  unlocks = pure-IsTotal tt;
  checks_finished = pure-IsTotal false;
  checks_paused = pure-IsTotal false;
  counts = pure-IsTotal (pos 1);
  retrieves = λ w. (task, w, refl);
  sends_started = pure-IsTotal tt;
  sends_error = pure-IsTotal tt;
  sends_in_progress = pure-IsTotal tt;
  sends_paused = pure-IsTotal tt;
  sends_interrupted = pure-IsTotal tt;
  sends_finished = pure-IsTotal tt;
  releases = pure-IsTotal tt;
  publishes_started = pure-IsTotal tt;
  publishes_paused = pure-IsTotal tt;
  publishes_interrupted = pure-IsTotal tt;
  publishes_error = pure-IsTotal tt;
  publishes_finished = pure-IsTotal tt;
  publishes_new_solution = λ s. pure-IsTotal tt;
  loads = pure-IsTotal none;
  saves = λ s. pure-IsTotal tt;
  clears = pure-IsTotal tt;
  publishes = λ t s. pure-IsTotal tt;
  subscribes = pure-IsTotal tt;
  unsubscribes = pure-IsTotal tt;
  starts = λ t s. pure-IsTotal tt;
  pauses = pure-IsTotal tt;
  interrupts = pure-IsTotal tt;
}

-- A solution, a wait of five seconds, and the final solution
abbrev to_the_end : List Event
to_the_end = solution (solution_of false) ∷ timeout ∷ solution (solution_of true) ∷ []

iteration_ends_example : (w' : ℕ) × (iteration idle a to_the_end 0 ≡ some (ok tt, w'))
iteration_ends_example = iteration_ends idle a idle-Calm to_the_end (inr (inr (inl refl))) 0

failed_pause_waits_example :
    (w' : ℕ) × (run_session
        (with_publish_paused (λ id. raise exception) idle)
        a
        task
        (signal pause_signal ∷ persists empty_state ∷ timeout ∷ [])
        0
      ≡ (ok waits, w'))
failed_pause_waits_example =
    failed_pause_waits idle a idle-Calm task (λ id. raise exception)
      (persists empty_state ∷ timeout ∷ []) 0 (tt, (tt, tt)) (λ v. (exception, v, refl))

-- With RedisTaskProvider
abbrev over_redis : Services Store
over_redis = record idle { task_provider = redis_task_provider client codec.parse_task }

ran_to_the_end : (w' : Store) × (iteration over_redis a to_the_end empty_store ≡ some (ok tt, w'))
unfolding iteration try_lock try_block check_attempts solve clean_up run_session listen wait
    handle_event on_solution catch_block retrieve_task unlock send_status_signal has_status
    inc_attempts attempt ◌>>=◌ status_key lock_key task_key attempts_key
ran_to_the_end = (_, refl)

iteration_frees_lock_example :
    (over_redis.task_provider.try_lock a empty_store ≡ (ok false, ran_to_the_end.0))
    ⊎ (stored (lock_key a) ran_to_the_end.0 ≡ none)
iteration_frees_lock_example =
    iteration_frees_lock over_redis client codec.parse_task stored a to_the_end empty_store
      ran_to_the_end.0 refl client-IsRedis (λ key v. (pos 1, refl)) ran_to_the_end.1
