-- ===== src/Tsp/Worker.antt =====
-- apps/tsp/worker: the process that takes tasks from a queue and solves them.
pub mod Keys
pub mod Redis
pub mod Services
pub mod TaskProvider
pub mod SavedState
pub mod Locks
pub mod Iteration
mod Tests
