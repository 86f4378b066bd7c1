-- ===== src/Tsp/Worker/Locks.antt =====
-- Several workers over one Redis server: what RedisTaskProvider, RedisSavedStateManager and
-- RedisSolutionPublisher of worker/assfire/tsp/worker/impl do to the locks.
pub mod Frames
pub mod Held
pub mod Exclusion
use assfire_suite.Base.{ℕ, true, List, [], ◌∷◌, ◌≡◌, ◌≢◌, Result, ok, Text}
use assfire_suite.Tsp.Solution.{TspSolution}
use assfire_suite.Tsp.Task.{TspTask}
use assfire_suite.Tsp.StateContainer.{TspAlgorithmState}
use assfire_suite.Tsp.Worker.Redis.{RedisClient}
use assfire_suite.Tsp.Worker.TaskProvider.{
  StatusUpdateType, retrieve_task, try_lock, unlock, send_status_signal, has_status, inc_attempts,
}
use assfire_suite.Tsp.Worker.SavedState.{load_state, save_state, clear_state, publish_result}

-- The messages, which generated code reads and prints
pub record Codec : Type 0 where
  pub parse_task : Text → Result TspTask
  pub parse_state : Text → TspAlgorithmState
  pub print_state : TspAlgorithmState → Text
  pub print_solution : TspSolution → Text

-- The calls that neither take nor give back a lock
pub data OtherCall : Type 0 where
  retrieves : Text → OtherCall
  checks : StatusUpdateType → Text → OtherCall
  signals : Text → StatusUpdateType → OtherCall
  counts : Text → OtherCall
  loads : Text → OtherCall
  saves : Text → TspAlgorithmState → OtherCall
  clears : Text → OtherCall
  publishes : Text → TspSolution → OtherCall

-- One entry is taken out of a list.
pub data Removed {A : Type 0} (x : A) : List A → List A → Type 0 where
  here : {xs : List A} → Removed x (x ∷ xs) xs
  there : {y : A} {xs ys : List A} → Removed x xs ys → Removed x (y ∷ xs) (y ∷ ys)

module _ {World : Type 0} (client : RedisClient World) (codec : Codec) where
  abbrev pub run_call : OtherCall → World → World
  run_call (retrieves id) w = (retrieve_task client codec.parse_task id w).1
  run_call (checks status id) w = (has_status client codec.parse_task status id w).1
  run_call (signals id status) w = (send_status_signal client codec.parse_task id status w).1
  run_call (counts id) w = (inc_attempts client codec.parse_task id w).1
  run_call (loads id) w =
      (load_state client codec.parse_state codec.print_state codec.print_solution id w).1
  run_call (saves id state) w =
      (save_state client codec.parse_state codec.print_state codec.print_solution id state w).1
  run_call (clears id) w =
      (clear_state client codec.parse_state codec.print_state codec.print_solution id w).1
  run_call (publishes id solution) w =
      (publish_result client codec.parse_state codec.print_state codec.print_solution id solution
        w).1

  -- The workers, by numbers, that hold a task
  abbrev pub Holders : Type 0
  Holders = List (ℕ × Text)

  -- With the tasks that were given back by a worker that does not hold them any more
  pub record System : Type 0 where
    pub world : World
    pub holders : Holders
    pub strays : List Text

  -- One call of one worker. A worker that gives back what it holds does not hold it any more whatever
  -- the answer is. It may then give it back again, as the end of the round does where the unlock of
  -- Worker.cpp:53 or Worker.cpp:61 has thrown.
  pub data Step : System → System → Type 0 where
    takes :
        (p : ℕ) (id : Text) (s : System)
        → (try_lock client codec.parse_task id s.world).0 ≡ ok true
        → Step s (record {
          world = (try_lock client codec.parse_task id s.world).1;
          holders = (p, id) ∷ s.holders;
          strays = s.strays;
        })
    fails :
        (id : Text) (s : System)
        → (try_lock client codec.parse_task id s.world).0 ≢ ok true
        → Step s (record s { world = (try_lock client codec.parse_task id s.world).1 })
    gives_back :
        (p : ℕ) (id : Text) (s : System) (rest : Holders)
        → Removed (p, id) s.holders rest
        → Step s
            (record s { world = (unlock client codec.parse_task id s.world).1; holders = rest })
    gives_back_again :
        (id : Text) (s : System)
        → Step s (record s {
          world = (unlock client codec.parse_task id s.world).1;
          strays = id ∷ s.strays;
        })
    calls : (c : OtherCall) (s : System) → Step s (record s { world = run_call c s.world })

  pub data Reached : System → Type 0 where
    starts : (w : World) → Reached (record { world = w; holders = []; strays = [] })
    steps : (s t : System) → Reached s → Step s t → Reached t
