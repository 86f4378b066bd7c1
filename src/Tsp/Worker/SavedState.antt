-- ===== src/Tsp/Worker/SavedState.antt =====
-- worker/assfire/tsp/worker/impl: RedisSavedStateManager.cpp and RedisSolutionPublisher.cpp. The
-- messages are printed and read by parameters.
use assfire_suite.Base.{ℕ, Option, none, some, Text}
use assfire_suite.Base.Actions.{Action, pure, raise, attempt, ◌>>=◌}
use assfire_suite.Tsp.Solution.{TspSolution}
use assfire_suite.Tsp.StateContainer.{TspAlgorithmState}
use assfire_suite.Tsp.Worker.Keys.{state_key, solution_key}
use assfire_suite.Tsp.Worker.Redis.{
  Reply, null_reply, string_reply, integer_reply, error_reply, RedisClient,
}
use assfire_suite.Tsp.Worker.Services.{Effect, SavedStateManager, SolutionPublisher}

abbrev pub solution_expiry_period_seconds : ℕ
solution_expiry_period_seconds = 3600

module _ {World : Type 0} (client : RedisClient World) (parse_state : Text → TspAlgorithmState)
    (print_state : TspAlgorithmState → Text) (print_solution : TspSolution → Text) where
  abbrev pub state_of : Reply → Action World (Option TspAlgorithmState)
  state_of (error_reply e) = pure none
  state_of null_reply = pure none
  state_of (string_reply t) = pure (some (parse_state t))
  state_of (integer_reply n) = raise client.bad_reply

  unfoldable pub load_state : Text → Action World (Option TspAlgorithmState)
  load_state task_id = do reply ← client.get (state_key task_id); state_of reply

  unfoldable pub save_state : Text → TspAlgorithmState → Effect World
  save_state task_id state = do reply ← client.set (state_key task_id) (print_state state); pure tt

  unfoldable pub clear_state : Text → Effect World
  clear_state task_id = do reply ← client.del (state_key task_id); pure tt

  abbrev pub redis_saved_state_manager : SavedStateManager World
  redis_saved_state_manager = record {
    load_state = load_state;
    save_state = save_state;
    clear_state = clear_state;
  }

  -- publishResult catches what the client throws.
  unfoldable pub publish_result : Text → TspSolution → Effect World
  publish_result task_id solution =
      attempt
        (do
          reply ← client.set (solution_key task_id) (print_solution solution)
          expiry ← client.expire (solution_key task_id) solution_expiry_period_seconds
          pure tt)
        (λ e. pure tt)

  abbrev pub redis_solution_publisher : SolutionPublisher World
  redis_solution_publisher = record {
    publish = λ task_id task solution. publish_result task_id solution;
  }
