-- ===== src/Tsp/Worker/TaskProvider.antt =====
-- worker/assfire/tsp/worker/impl/RedisTaskProvider.cpp. The status names are those of
-- proto/assfire/api/v1/tsp/worker.proto; the message of a task is read by a parameter.
use assfire_suite.Base.{
  ℕ, ℤ, Bool, false, Option, none, some, runtime_error, Result, Text, text_eq, codes,
}
use assfire_suite.Base.Actions.{Action, pure, raise, of_result, ◌>>=◌, ◌>>◌}
use assfire_suite.Tsp.Task.{TspTask}
use assfire_suite.Tsp.Worker.Keys.{task_key, attempts_key, lock_key, status_key, keep_alive_key}
use assfire_suite.Tsp.Worker.Redis.{
  Reply, null_reply, string_reply, integer_reply, error_reply, is_null, RedisClient, as_integer,
}
use assfire_suite.Tsp.Worker.Services
use assfire_suite.Tsp.Worker.Services.{Effect}

-- WorkerTspStatusUpdate_Type
pub data StatusUpdateType : Type 0 where
  unknown started new_solution error paused finished interrupted in_progress : StatusUpdateType

abbrev pub type_name : StatusUpdateType → Text
type_name unknown = codes "WORKER_TSP_STATUS_UPDATE_TYPE_UNKNOWN"
type_name started = codes "WORKER_TSP_STATUS_UPDATE_TYPE_STARTED"
type_name new_solution = codes "WORKER_TSP_STATUS_UPDATE_TYPE_NEW_SOLUTION"
type_name error = codes "WORKER_TSP_STATUS_UPDATE_TYPE_ERROR"
type_name paused = codes "WORKER_TSP_STATUS_UPDATE_TYPE_PAUSED"
type_name finished = codes "WORKER_TSP_STATUS_UPDATE_TYPE_FINISHED"
type_name interrupted = codes "WORKER_TSP_STATUS_UPDATE_TYPE_INTERRUPTED"
type_name in_progress = codes "WORKER_TSP_STATUS_UPDATE_TYPE_IN_PROGRESS"

abbrev pub lock_value : Text
lock_value = codes "1"

abbrev pub keep_alive_value : Text
keep_alive_value = codes "1"

abbrev pub keep_alive_expiry_sec : ℕ
keep_alive_expiry_sec = 30

module _ {World : Type 0} (client : RedisClient World) (parse_task : Text → Result TspTask) where
  abbrev pub task_of : Reply → Action World (Option TspTask)
  task_of null_reply = pure none
  task_of (integer_reply n) = pure none
  task_of (string_reply t) = do task ← of_result (parse_task t); pure (some task)
  task_of (error_reply e) = raise (runtime_error e)

  unfoldable pub retrieve_task : Text → Action World (Option TspTask)
  retrieve_task task_id = do reply ← client.get (task_key task_id); task_of reply

  unfoldable pub try_lock : Text → Action World Bool
  try_lock task_id = do reply ← client.getset (lock_key task_id) lock_value; pure (is_null reply)

  -- An error of the server is logged only.
  unfoldable pub unlock : Text → Effect World
  unlock task_id = do reply ← client.del (lock_key task_id); pure tt

  abbrev pub throw_error : Reply → Effect World
  throw_error (error_reply e) = raise (runtime_error e)
  throw_error null_reply = pure tt
  throw_error (string_reply t) = pure tt
  throw_error (integer_reply n) = pure tt

  unfoldable pub send_status_signal : Text → StatusUpdateType → Effect World
  send_status_signal task_id signal = do
    reply ← client.set (status_key task_id) (type_name signal)
    alive ← client.setex (keep_alive_key task_id) keep_alive_expiry_sec keep_alive_value
    throw_error reply

  abbrev pub has_text : Text → Reply → Bool
  has_text t (string_reply u) = text_eq u t
  has_text t null_reply = false
  has_text t (integer_reply n) = false
  has_text t (error_reply e) = false

  unfoldable pub has_status : StatusUpdateType → Text → Action World Bool
  has_status status task_id = do
    reply ← client.get (status_key task_id)
    pure (has_text (type_name status) reply)

  unfoldable pub inc_attempts : Text → Action World ℤ
  inc_attempts task_id = do
    reply ← client.incr (attempts_key task_id)
    throw_error reply
    of_result (as_integer client reply)

  -- RedisTaskProvider
  abbrev pub redis_task_provider : Services.TaskProvider World
  redis_task_provider = record {
    retrieve_task = retrieve_task;
    try_lock = try_lock;
    unlock = unlock;
    is_finished = has_status finished;
    is_paused = has_status paused;
    send_started = λ id. send_status_signal id started;
    send_error = λ id. send_status_signal id error;
    send_in_progress = λ id. send_status_signal id in_progress;
    send_paused = λ id. send_status_signal id paused;
    send_interrupted = λ id. send_status_signal id interrupted;
    send_finished = λ id. send_status_signal id finished;
    inc_attempts = inc_attempts;
  }
