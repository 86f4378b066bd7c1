-- ===== src/Tsp/Controller.antt =====
-- engine/assfire/tsp/engine/EngineTspSolutionController.hpp/.cpp, with the listener of
-- api/assfire/tsp/api/TspSolutionListener.hpp/.cpp. Each publication of the asynchronous task is an
-- operation, and so is its end. A callback is a value, and what it does is not modelled, but that it
-- throws: the task ends then as it does when the algorithm throws.
pub mod Order
pub mod Calls
pub mod FinalOnce
pub mod Proper
use assfire_suite.Base.{Bool, true, false, Option, none, some, List, [], ◌∷◌, Error, if◌then◌else◌}
use assfire_suite.Tsp.Solution.{TspSolution}
use assfire_suite.Tsp.StateContainer.{TspAlgorithmState}

-- What a whole call of the algorithm has done: the solutions that it has published, the latest first,
-- the container that it has left, and what it has thrown.
pub record Ran : Type 0 where
  pub published : List TspSolution
  pub container : TspAlgorithmState
  pub thrown : Option Error

module _ (Callback : Type 0) (ErrorCallback : Type 0) where
  pub record TspSolutionListener : Type 0 where
    pub on_next_solution : Option Callback
    pub on_final_solution : Option Callback
    pub on_error : Option ErrorCallback

  abbrev pub set_on_final_solution_callback : Callback → TspSolutionListener → TspSolutionListener
  set_on_final_solution_callback f l = record l { on_final_solution = some f }

  abbrev pub set_on_next_solution_callback :
      Callback → Bool → TspSolutionListener → TspSolutionListener
  set_on_next_solution_callback f use_for_final l =
      let l' : TspSolutionListener = record l { on_next_solution = some f } in
      if use_for_final then set_on_final_solution_callback f l' else l'

  abbrev pub set_on_error_callback : ErrorCallback → TspSolutionListener → TspSolutionListener
  set_on_error_callback f l = record l { on_error = some f }

  -- A call of a callback
  pub data Call : Type 0 where
    solution_call : Callback → TspSolution → Call
    error_call : ErrorCallback → Call

  -- Called if it is set; the latest call stands first.
  abbrev pub call_with : Option Callback → TspSolution → List Call → List Call
  call_with none s calls = calls
  call_with (some f) s calls = solution_call f s ∷ calls

  abbrev pub call_error : Option ErrorCallback → List Call → List Call
  call_error none calls = calls
  call_error (some f) calls = error_call f ∷ calls

  -- The states that `persisted` holds have been given to the persister, the latest first.
  pub record Controller : Type 0 where
    pub state_container : TspAlgorithmState
    pub solution_listener : TspSolutionListener
    pub is_started : Bool
    pub is_interrupted : Bool
    pub has_final_solution : Bool
    pub calls : List Call
    pub persisted : List TspAlgorithmState

  abbrev pub init : TspAlgorithmState → TspSolutionListener → Controller
  init container listener = record {
    state_container = container;
    solution_listener = listener;
    is_started = false;
    is_interrupted = true;
    has_final_solution = false;
    calls = [];
    persisted = [];
  }

  -- interrupt and pause
  unfoldable pub interrupt : Controller → Controller
  interrupt c = record c { is_interrupted = true }

  unfoldable pub publish_solution : TspSolution → Controller → Controller
  publish_solution s c =
      let c' : Controller = record c { has_final_solution = s.is_final_solution } in
      if s.is_final_solution
      then record c' { calls = call_with c.solution_listener.on_final_solution s c.calls }
      else record c' { calls = call_with c.solution_listener.on_next_solution s c.calls }

  -- launchTask, up to the start of the asynchronous task: start and resume
  unfoldable pub launch_task : Controller → Controller
  launch_task c =
      if c.has_final_solution
      then c
      else if c.is_started
      then c
      else record c { is_started = true; is_interrupted = false }

  -- persist, unless a final solution was published
  unfoldable pub persist_unfinished : Controller → Controller
  persist_unfinished c =
      if c.has_final_solution then c else record c { persisted = c.state_container ∷ c.persisted }

  -- What the asynchronous task does behind the algorithm
  unfoldable pub after_algorithm : Option Error → Controller → Controller
  after_algorithm none c = persist_unfinished c
  after_algorithm (some e) c = record c { calls = call_error c.solution_listener.on_error c.calls }

  -- The end of the asynchronous task: the algorithm has left the container, and has returned or has
  -- thrown; an exception of a callback or of persist is among those that are thrown.
  unfoldable pub end_task : TspAlgorithmState → Option Error → Controller → Controller
  end_task container thrown c =
      let c' : Controller = after_algorithm thrown (record c { state_container = container }) in
      record c' { is_started = false }
