-- ===== src/Tsp/Estimator.antt =====
-- engine/assfire/tsp/engine: TspEstimator, TotalDistanceTspCostFunction and NopTspValidator.
use assfire_suite.Base.{ℤ, pos, negsuc, true, List, [], ◌∷◌, get_elem?, Result}
use assfire_suite.Concepts.Double.{Double, Fpu, double_zero}
use assfire_suite.Router.IndexedLocation.{IndexedLocation}
use assfire_suite.Router.RouteInfo.{RouteInfo}
use assfire_suite.Tsp.Outcome.{Outcome, done, undefined, call, access, ◌>>=◌}
use assfire_suite.Tsp.Solution.{TspCost, TspValidationResult}

-- The cost function and the validator, either of which may throw.
pub record TspEstimator : Type 0 where
  pub calculate_cost : List ℤ → Outcome TspCost
  pub validate : List ℤ → Outcome TspValidationResult

-- NopTspValidator::validate
abbrev pub nop_validate : List ℤ → Outcome TspValidationResult
nop_validate s = done (record { is_valid = true })

-- indexed_locations[i], undefined out of range
abbrev pub location_of : List IndexedLocation → ℤ → Outcome IndexedLocation
location_of ls (pos n) = access (get_elem? ls n)
location_of ls (negsuc n) = undefined

module _ (fpu : Fpu) (get_route_info : IndexedLocation → IndexedLocation → Result RouteInfo)
    (indexed_locations : List IndexedLocation) where
  -- The loop, with the cost so far.
  unfoldable pub estimate_from : Double → ℤ → List ℤ → Outcome TspCost
  estimate_from cost a [] = done (record { value = cost })
  estimate_from cost a (b ∷ rest) = do
    from ← location_of indexed_locations a
    to ← location_of indexed_locations b
    route ← call (get_route_info from to)
    estimate_from (fpu.add cost route.distance.meters) b rest

  -- TotalDistanceTspCostFunction::estimate. On an empty sequence size() - 1 wraps around, and the
  -- loop reads behind its end.
  unfoldable pub estimate : List ℤ → Outcome TspCost
  estimate [] = undefined
  estimate (a ∷ rest) = estimate_from double_zero a rest
