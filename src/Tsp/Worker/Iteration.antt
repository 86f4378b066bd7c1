-- ===== src/Tsp/Worker/Iteration.antt =====
-- worker/assfire/tsp/worker/Worker.cpp: one round of the loop of Worker::start, for one task. What
-- happens while the worker waits is a list of events: what the solver's thread publishes, signals
-- that the interrupt listener hands over, and waits of five seconds that run out. Each is handled
-- whole before the next; those of the solver may come behind the end of the waiting too, since the
-- session's destructor waits for the solver.
pub mod Release
pub mod Calm
pub mod Progress
pub mod Stuck
use assfire_suite.Base.{
  ℤ, pos, eqb_ℤ, geb_ℤ, Bool, true, false, not, Option, none, some, List, [], ◌∷◌, Error,
  runtime_error, Result, ok, err, Text, if◌then◌else◌,
}
use assfire_suite.Base.Actions.{Action, pure, raise, or_raise, attempt, ◌>>=◌, ◌>>◌}
use assfire_suite.Tsp.Solution.{TspSolution}
use assfire_suite.Tsp.Task.{TspTask}
use assfire_suite.Tsp.StateContainer.{TspAlgorithmState, empty_state}
use assfire_suite.Tsp.Worker.Services.{Effect, Services}

abbrev pub interrupt_signal : ℤ
interrupt_signal = pos 0

abbrev pub pause_signal : ℤ
pause_signal = pos 1

-- TSP_WORKER_MAX_ATTEMPTS
abbrev pub max_attempts : ℤ
max_attempts = pos 5

pub data Event : Type 0 where
  solution : TspSolution → Event
  solver_error : Event
  persists : TspAlgorithmState → Event
  signal : ℤ → Event
  timeout : Event

-- The local variables that the callbacks share
pub record Waiting (World : Type 0) : Type 0 where
  pub world : World
  pub is_done : Bool
  pub is_interrupted : Bool

-- How the try block ends, if it throws nothing. In `waits` nothing has set done yet.
pub data Ending : Type 0 where
  skipped finished waits : Ending

abbrev pub Wait : Type 0 → Type 0
Wait World = Action (Waiting World) (Unit {0})

module _ {World : Type 0} where
  -- A call of a service, which does not touch the variables
  abbrev pub on_world : Effect World → Wait World
  on_world m s = ((m s.world).0, record s { world = (m s.world).1 })

  -- done = true; cv.notify_all()
  abbrev pub set_done : Wait World
  set_done s = (ok tt, record s { is_done = true })

  abbrev pub set_interrupted : Wait World
  set_interrupted s = (ok tt, record s { is_interrupted = true })

  abbrev pub unless_interrupted : Wait World → Wait World
  unless_interrupted m s = if s.is_interrupted then (ok tt, s) else m s

  abbrev pub unless_done : Wait World → Wait World
  unless_done m s = if s.is_done then (ok tt, s) else m s

  -- An exception that ends in the thread that has called
  unfoldable pub swallow : Wait World → Wait World
  swallow m = attempt m (λ e. pure tt)

  abbrev pub ending : Result (Unit {0}) × Waiting World → Result Ending × World
  ending (err e, s) = (err e, s.world)
  ending (ok u, s) = (ok (if s.is_done then finished else waits), s.world)

abbrev pub is_timeout : Event → Bool
is_timeout timeout = true
is_timeout _ = false

abbrev pub container_of : Option TspAlgorithmState → TspAlgorithmState
container_of none = empty_state
container_of (some state) = state

module _ {World : Type 0} (services : Services World) where
  -- The callback of setOnNextSolutionCallback, for final solutions too
  unfoldable pub on_solution : Text → TspTask → TspSolution → Wait World
  on_solution task_id task s = do
    on_world (services.solution_publisher.publish task_id task s)
    unless_interrupted (
        on_world
          (services.status_publisher.publish_new_solution task_id s.cost s.validation_result))
    if s.is_final_solution
        then (do
          on_world (services.status_publisher.publish_finished task_id)
          on_world (services.task_provider.send_finished task_id)
          set_done)
        else pure tt

  unfoldable pub on_error : Text → Wait World
  on_error task_id = do
    on_world (services.status_publisher.publish_error task_id)
    on_world (services.task_provider.send_error task_id)
    set_done

  unfoldable pub on_pause : Text → Wait World
  on_pause task_id = do
    set_interrupted
    on_world (services.engine.pause task_id)
    on_world (services.status_publisher.publish_paused task_id)
    on_world (services.task_provider.send_paused task_id)
    set_done

  unfoldable pub on_interrupt : Text → Wait World
  on_interrupt task_id = do
    set_interrupted
    on_world (services.engine.interrupt task_id)
    on_world (services.status_publisher.publish_interrupted task_id)
    on_world (services.task_provider.send_interrupted task_id)
    on_world (services.saved_state_manager.clear_state task_id)
    set_done

  -- The processor of signals
  unfoldable pub on_signal : Text → ℤ → Wait World
  on_signal task_id n =
      if eqb_ℤ n pause_signal
      then on_pause task_id
      else if eqb_ℤ n interrupt_signal
      then on_interrupt task_id
      else pure tt

  -- What the controller does with an exception of a callback: it calls onError, and drops what that
  -- throws. The interrupt listener's thread keeps an exception to itself.
  unfoldable pub handle_event : Text → TspTask → Event → Wait World
  handle_event task_id task (solution s) =
      attempt (on_solution task_id task s) (λ e. swallow (on_error task_id))
  handle_event task_id task solver_error = swallow (on_error task_id)
  handle_event task_id task (persists state) =
      attempt (on_world (services.saved_state_manager.save_state task_id state))
        (λ e. swallow (on_error task_id))
  handle_event task_id task (signal n) = swallow (on_signal task_id n)
  handle_event task_id task timeout =
      unless_done (on_world (services.task_provider.send_in_progress task_id))

  -- The events behind an exception in the worker's thread: it waits no more.
  unfoldable pub drain : Text → TspTask → List Event → Wait World
  drain task_id task [] = pure tt
  drain task_id task (e ∷ events) = do
    if is_timeout e then pure tt else handle_event task_id task e
    drain task_id task events

  -- The loop over cv.wait_until
  unfoldable pub wait : Text → TspTask → List Event → Wait World
  wait task_id task [] = pure tt
  wait task_id task (e ∷ events) = do
    attempt (handle_event task_id task e) (λ x. do drain task_id task events; raise x)
    wait task_id task events

  -- From subscribe to the end of the try block
  unfoldable pub listen : Text → TspTask → List Event → Wait World
  listen task_id task events = do
    attempt (on_world (services.interrupt_listener.subscribe task_id))
        (λ x. do drain task_id task events; raise x)
    wait task_id task events

  -- The session
  unfoldable pub run_session : Text → TspTask → List Event → Action World Ending
  run_session task_id task events w =
      ending
        (listen task_id task events (record { world = w; is_done = false; is_interrupted = false }))

  -- unlock and continue
  unfoldable pub skip : Text → Action World Ending
  skip task_id = do services.task_provider.unlock task_id; pure skipped

  -- From retrieveTask to the end of the try block
  unfoldable pub solve : Text → List Event → Action World Ending
  solve task_id events = do
    found ← services.task_provider.retrieve_task task_id
    task ← or_raise found (runtime_error "Failed to retrieve task from storage")
    saved ← services.saved_state_manager.load_state task_id
    services.status_publisher.publish_started task_id
    services.task_provider.send_started task_id
    services.engine.solve_tsp task_id task (container_of saved)
    run_session task_id task events

  unfoldable pub check_attempts : Text → List Event → Action World Ending
  check_attempts task_id events = do
    attempts ← services.task_provider.inc_attempts task_id
    if geb_ℤ attempts max_attempts then skip task_id else solve task_id events

  -- The try block
  unfoldable pub try_block : Text → List Event → Action World Ending
  try_block task_id events = do
    is_finished ← services.task_provider.is_finished task_id
    if is_finished then skip task_id else do
      is_paused ← services.task_provider.is_paused task_id
      if not is_paused then check_attempts task_id events else solve task_id events

  -- The catch block
  unfoldable pub catch_block : Text → Action World Ending
  catch_block task_id = do
    services.status_publisher.publish_error task_id
    services.task_provider.send_error task_id
    pure finished

  unfoldable pub clean_up : Text → Effect World
  clean_up task_id = do
    services.status_publisher.release task_id
    services.interrupt_listener.unsubscribe task_id
    services.task_provider.unlock task_id

  -- What follows the try block; none if the worker still waits.
  abbrev pub after_try : Text → Result Ending × World → Option (Result (Unit {0}) × World)
  after_try task_id (err e, w) = some (err e, w)
  after_try task_id (ok skipped, w) = some (ok tt, w)
  after_try task_id (ok waits, w) = none
  after_try task_id (ok finished, w) = some (clean_up task_id w)

  abbrev pub after_lock :
      Text → List Event → Result Bool × World → Option (Result (Unit {0}) × World)
  after_lock task_id events (err e, w) = some (err e, w)
  after_lock task_id events (ok false, w) = some (ok tt, w)
  after_lock task_id events (ok true, w) =
      after_try task_id (attempt (try_block task_id events) (λ e. catch_block task_id) w)

  -- The body of the loop for the task that the queue has given
  unfoldable pub iteration : Text → List Event → World → Option (Result (Unit {0}) × World)
  iteration task_id events w = after_lock task_id events (services.task_provider.try_lock task_id w)
