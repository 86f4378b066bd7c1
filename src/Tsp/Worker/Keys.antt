-- ===== src/Tsp/Worker/Keys.antt =====
-- worker/assfire/tsp/worker/impl/TspWorkerKeys.cpp, with the prefix and the suffixes of
-- TspWorkerConstants.hpp.
pub mod Distinct
use assfire_suite.Base.{◌++◌, Text, codes}

abbrev pub redis_prefix : Text
redis_prefix = codes "assfire.tsp."

unfoldable pub task_key : Text → Text
task_key task_id = redis_prefix ++ (task_id ++ codes ".task")

unfoldable pub attempts_key : Text → Text
attempts_key task_id = redis_prefix ++ (task_id ++ codes ".attempts")

unfoldable pub lock_key : Text → Text
lock_key task_id = redis_prefix ++ (task_id ++ codes ".lock")

unfoldable pub state_key : Text → Text
state_key task_id = redis_prefix ++ (task_id ++ codes ".state")

unfoldable pub status_key : Text → Text
status_key task_id = redis_prefix ++ (task_id ++ codes ".status")

unfoldable pub keep_alive_key : Text → Text
keep_alive_key task_id = redis_prefix ++ (task_id ++ codes ".keepAlive")

unfoldable pub solution_key : Text → Text
solution_key task_id = redis_prefix ++ (task_id ++ codes ".solution")
