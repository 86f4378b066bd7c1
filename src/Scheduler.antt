-- ===== src/Scheduler.antt =====
-- apps/scheduler: waybills and the algorithms that set their times.
pub mod Waybill
pub mod Feasible
pub mod Linear
pub mod Bilinear
pub mod Engine
pub mod Translators
pub mod Service
mod Tests
