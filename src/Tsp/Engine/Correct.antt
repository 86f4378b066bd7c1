-- ===== src/Tsp/Engine/Correct.antt =====
-- The session that is created for a task: its indices are those of the points, in order.
use assfire_suite.Base.{ℤ, pos, ◌+ℤ◌, ◌≡◌, refl, List, [], ◌∷◌, map, ok}
use assfire_suite.Concepts.Double.{Fpu}
use assfire_suite.Concepts.Location.{Location}
use assfire_suite.Router.IndexedLocation.{IndexedLocation}
use assfire_suite.Router.Provider.{Provider}
use assfire_suite.Router.Direct
use assfire_suite.Router.FullMatrix
use assfire_suite.Router.FullMatrix.Placed
use assfire_suite.Router.Settings.{on_error_throw}
use assfire_suite.Router.Engine.{
  DistanceMatrix, direct, full_matrix, RoutingContext, add_location, create_distance_matrix,
  create_cache_wrapped_engine,
}
use assfire_suite.Tsp.Task.{TspTask, TspPoint}
use assfire_suite.Tsp.Engine.{
  Session, session_of, create_session, index_locations, create_algorithm,
}

location-add_location : (m : DistanceMatrix) (l : Location) → (add_location m l).0.location ≡ l
unfolding Direct.add_location
location-add_location (direct m) l = refl
location-add_location (full_matrix s) l = Placed.location-add_location s l

location-index_locations :
    (pts : List TspPoint) (m : DistanceMatrix)
    → map (λ (x : IndexedLocation). x.location) (index_locations pts m).0
      ≡ map (λ (pt : TspPoint). pt.location) pts
unfolding index_locations
location-index_locations [] m = refl
location-index_locations (pt ∷ pts) m = cc (
  location-add_location m pt.location,
  location-index_locations pts (add_location m pt.location).1,
)

-- If a provider can be made for the settings of a task, its session is created with the tag counter
-- raised by one, the algorithm that the settings name, 2-opt where they leave it open, and indices of
-- the points' locations in the order of the points.
pub session_created :
    (fpu : Fpu) (context : RoutingContext) (tag : ℤ) (task : TspTask) (provider : Provider)
    → create_cache_wrapped_engine context task.solver_settings.routing_settings.engine_type
        task.solver_settings.routing_settings.routing_profile
        task.solver_settings.routing_settings.route_provider_settings
      ≡ ok provider
    → (s : Session) × (create_session fpu context tag task ≡ ok (s, tag +ℤ pos 1))
      × (s.algorithm ≡ create_algorithm task.solver_settings.algorithm_settings.algorithm_type)
      × (map (λ (x : IndexedLocation). x.location) s.indexed_locations
          ≡ map (λ (pt : TspPoint). pt.location) task.points)
unfolding create_session create_distance_matrix
session_created fpu context tag task provider e =
    let m = full_matrix (FullMatrix.init provider (tag +ℤ pos 1) on_error_throw) in
    (
      session_of fpu task (index_locations task.points m),
      rw e refl,
      refl,
      location-index_locations task.points m,
    )
