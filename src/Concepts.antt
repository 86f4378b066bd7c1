-- ===== src/Concepts.antt =====
-- apps/concepts/api-cpp/assfire/concepts: times, distances, speeds and locations.
pub mod Double
pub mod TimeInterval
pub mod TimePoint
pub mod Division
pub mod Distance
pub mod Speed
pub mod Coordinate
pub mod Location
pub mod Translators
mod Tests
