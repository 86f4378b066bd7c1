-- ===== src/Tsp.antt =====
-- apps/tsp: the travelling salesman tasks, their estimation and the algorithms.
pub mod Outcome
pub mod Solution
pub mod Task
pub mod StateContainer
pub mod Estimator
pub mod TwoOpt
pub mod Controller
pub mod Engine
pub mod TimeWasting
pub mod Worker
mod Tests
