-- ===== src/Tsp/Worker/Services.antt =====
-- worker/assfire/tsp/worker: the abstract classes that Worker is built from, TaskProvider.hpp,
-- StatusPublisher.hpp, SavedStateManager.hpp, SolutionPublisher.hpp and InterruptListener.hpp, and the
-- calls of the solver that it makes. Each call changes the world and may throw.
use assfire_suite.Base.{ℤ, Bool, Option, Text}
use assfire_suite.Base.Actions.{Action}
use assfire_suite.Tsp.Solution.{TspSolution, TspCost, TspValidationResult}
use assfire_suite.Tsp.Task.{TspTask}
use assfire_suite.Tsp.StateContainer.{TspAlgorithmState}

module _ (World : Type 0) where
  abbrev pub Effect : Type 0
  Effect = Action World (Unit {0})

  pub record TaskProvider : Type 0 where
    pub retrieve_task : Text → Action World (Option TspTask)
    pub try_lock : Text → Action World Bool
    pub unlock : Text → Effect
    pub is_finished : Text → Action World Bool
    pub is_paused : Text → Action World Bool
    pub send_started : Text → Effect
    pub send_error : Text → Effect
    pub send_in_progress : Text → Effect
    pub send_paused : Text → Effect
    pub send_interrupted : Text → Effect
    pub send_finished : Text → Effect
    pub inc_attempts : Text → Action World ℤ

  pub record StatusPublisher : Type 0 where
    pub release : Text → Effect
    pub publish_started : Text → Effect
    pub publish_paused : Text → Effect
    pub publish_interrupted : Text → Effect
    pub publish_error : Text → Effect
    pub publish_finished : Text → Effect
    pub publish_new_solution : Text → TspCost → TspValidationResult → Effect

  pub record SavedStateManager : Type 0 where
    pub load_state : Text → Action World (Option TspAlgorithmState)
    pub save_state : Text → TspAlgorithmState → Effect
    pub clear_state : Text → Effect

  pub record SolutionPublisher : Type 0 where
    pub publish : Text → TspTask → TspSolution → Effect

  -- The processor that subscribe is given is `on_signal` of the worker.
  pub record InterruptListener : Type 0 where
    pub subscribe : Text → Effect
    pub unsubscribe : Text → Effect

  -- TspSolverEngine::solveTsp, which starts the session, and the session's pause and interrupt
  pub record Solver : Type 0 where
    pub solve_tsp : Text → TspTask → TspAlgorithmState → Effect
    pub pause : Text → Effect
    pub interrupt : Text → Effect

  pub record Services : Type 0 where
    pub task_provider : TaskProvider
    pub status_publisher : StatusPublisher
    pub saved_state_manager : SavedStateManager
    pub solution_publisher : SolutionPublisher
    pub interrupt_listener : InterruptListener
    pub engine : Solver
