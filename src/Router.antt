-- ===== src/Router.antt =====
-- apps/router: routes, the distance matrix and its engines.
pub mod RouteInfo
pub mod RouteDetails
pub mod IndexedLocation
pub mod Settings
pub mod Matrix
pub mod Provider
pub mod Translators
pub mod Messages
pub mod Direct
pub mod LocationKey
pub mod FullMatrix
pub mod Redis
pub mod Engine
pub mod Providers
pub mod Client
pub mod Service
mod Tests
