-- ===== src/Scheduler/Tests.antt =====
-- Runs of the scheduling algorithms on a table of apps/scheduler/tests/engine, where waiting times
-- are compensated by a later start, and the theorems at this waybill.
use assfire_suite.Base.{
  ℤ, pos, ◌+ℤ◌, ◌-ℤ◌, ◌≡◌, refl, ◌≢◌, List, [], ◌∷◌, ok, err, runtime_error, invalid_argument, ◌⊎◌,
  Pointwise, if◌then◌else◌, arith,
}
use assfire_suite.Concepts.TimePoint
use assfire_suite.Concepts.TimeInterval
use assfire_suite.Concepts.Distance
use assfire_suite.Concepts.Location
use assfire_suite.Router.RouteInfo
use assfire_suite.Router.RouteInfo.{RouteInfo}
use assfire_suite.Scheduler.Waybill.{
  WaybillAllocation, Waybill, window, allocation, get_nearest_next_time_window,
}
use assfire_suite.Scheduler.Feasible.{SameJob, SamePlan, NotLater, Feasible}
use assfire_suite.Scheduler.Linear
use assfire_suite.Scheduler.Linear.{RouteSource, next_route, place, visit, schedule_from}
use assfire_suite.Scheduler.Linear.Schedule.{Prompt, Routed}
use assfire_suite.Scheduler.Linear.Correct.{linear-Feasible, linear_earliest}
use assfire_suite.Scheduler.Bilinear
use assfire_suite.Scheduler.Bilinear.{
  shift_for, shift_back, visit_back, budget_after, schedule_back,
}
use assfire_suite.Scheduler.Bilinear.Improves.{Improves, EndAlike}
use assfire_suite.Router.Settings.{
  RoutingProfile, default_settings, crowflight, on_error_return_infinity,
}
use assfire_suite.Router.Direct.{DirectEngine, get_route_info}
use assfire_suite.Scheduler.Engine.{
  WaybillSchedulerSettings, DistanceMatrixProvider, auto, other, schedule_waybill,
}
use assfire_suite.Scheduler.Engine.Correct.{Scheduled, IsBy, engine_schedules}
use assfire_suite.Scheduler.Bilinear.Correct.{
  bilinear-Feasible, bilinear-Improves, bilinear_ends_alike, bilinear_throws,
}

-- Ten minutes between different places.
abbrev ten_minutes : RouteInfo
ten_minutes = record { distance = Distance.zero; duration = TimeInterval.from_seconds (pos 600) }

abbrev routes : RouteSource
routes a b = ok (if Location.eqb a.location b.location then RouteInfo.zero else ten_minutes)

-- At a place, from `start` on, of a length, with a window that closes after two hours, and a route.
abbrev stop : ℤ → ℤ → ℤ → ℤ → ℤ → RouteInfo → WaybillAllocation
stop place start finish length opens route =
    record (allocation (TimePoint.from_epoch_seconds start) (TimePoint.from_epoch_seconds finish)
      (TimeInterval.from_seconds length) (window opens (pos 7200) ∷ [])
      (Location.from_encoded_lat_lon place (pos 0))) { next_route_info = route }

abbrev shift_of : List WaybillAllocation → Waybill
shift_of allocations = record { work_shift = window (pos 0) (pos 86340); allocations = allocations }

abbrev planned : Waybill
planned = shift_of (
    stop (pos 0) (pos 0) (pos 0) (pos 900) (pos 0) RouteInfo.zero
    ∷ stop (pos 1) (pos 0) (pos 0) (pos 300) (pos 0) RouteInfo.zero
    ∷ stop (pos 1) (pos 0) (pos 0) (pos 600) (pos 2100) RouteInfo.zero
    ∷ stop (pos 2) (pos 0) (pos 0) (pos 600) (pos 3600) RouteInfo.zero
    ∷ [])

abbrev linear_result : Waybill
linear_result = shift_of (
    stop (pos 0) (pos 0) (pos 900) (pos 900) (pos 0) ten_minutes
    ∷ stop (pos 1) (pos 1500) (pos 1800) (pos 300) (pos 0) RouteInfo.zero
    ∷ stop (pos 1) (pos 2100) (pos 2700) (pos 600) (pos 2100) ten_minutes
    ∷ stop (pos 2) (pos 3600) (pos 4200) (pos 600) (pos 3600) RouteInfo.zero
    ∷ [])

abbrev bilinear_result : Waybill
bilinear_result = shift_of (
    stop (pos 0) (pos 600) (pos 1500) (pos 900) (pos 0) ten_minutes
    ∷ stop (pos 1) (pos 2100) (pos 2400) (pos 300) (pos 0) RouteInfo.zero
    ∷ stop (pos 1) (pos 2400) (pos 3000) (pos 600) (pos 2100) ten_minutes
    ∷ stop (pos 2) (pos 3600) (pos 4200) (pos 600) (pos 3600) RouteInfo.zero
    ∷ [])

linear_run : Linear.schedule_waybill routes planned ≡ ok linear_result
unfolding Linear.schedule_waybill schedule_from next_route visit place get_nearest_next_time_window
    Location.eqb ◌+ℤ◌
linear_run = refl

bilinear_run : Bilinear.schedule_waybill routes planned ≡ ok bilinear_result
unfolding Bilinear.schedule_waybill schedule_back next_route visit_back place shift_for shift_back
    budget_after get_nearest_next_time_window Location.eqb ◌+ℤ◌ ◌-ℤ◌
bilinear_run = refl

linear-Feasible_example :
    (v : Waybill) × (Linear.schedule_waybill routes planned ≡ ok v)
    × (v.work_shift ≡ planned.work_shift)
    × Pointwise SameJob planned.allocations v.allocations
    × Routed routes v.allocations
    × Prompt (TimePoint.from_epoch_seconds (pos 0)) v.allocations
    × Feasible (pos 0) v.allocations
linear-Feasible_example = linear-Feasible routes planned (λ x y. (_, refl))

same_plan :
    (place start finish start' finish' length opens : ℤ) (route : RouteInfo)
    → SamePlan
        (stop place start finish length opens route)
        (stop place start' finish' length opens route)
same_plan place start finish start' finish' length opens route = record {
  job = record { windows = refl; planned = refl; located = refl };
  route = refl;
}

same_plans : Pointwise SamePlan linear_result.allocations bilinear_result.allocations
same_plans = (
  same_plan _ _ _ _ _ _ _ _,
  (same_plan _ _ _ _ _ _ _ _, (same_plan _ _ _ _ _ _ _ _, (same_plan _ _ _ _ _ _ _ _, tt))),
)

bilinear_result-Feasible : Feasible (pos 0) bilinear_result.allocations
unfolding get_nearest_next_time_window ◌+ℤ◌
bilinear_result-Feasible = (
  omega arith,
  (omega arith, refl),
  (
    omega arith,
    (omega arith, refl),
    (omega arith, (omega arith, refl), (omega arith, (omega arith, refl), tt)),
  ),
)

linear_earliest_example : Pointwise NotLater linear_result.allocations bilinear_result.allocations
linear_earliest_example =
    linear_earliest routes planned linear_result bilinear_result.allocations linear_run same_plans
      bilinear_result-Feasible

bilinear-Feasible_example :
    (u : Waybill) × (Bilinear.schedule_waybill routes planned ≡ ok u)
    × (u.work_shift ≡ planned.work_shift)
    × Pointwise SameJob planned.allocations u.allocations
    × Routed routes u.allocations
    × Feasible (pos 0) u.allocations
bilinear-Feasible_example = bilinear-Feasible routes planned linear_result linear_run

bilinear-Improves_example : Pointwise Improves bilinear_result.allocations linear_result.allocations
bilinear-Improves_example =
    bilinear-Improves routes planned linear_result bilinear_result linear_run bilinear_run

planned_not_empty : planned.allocations ≢ []
planned_not_empty e = cc

bilinear_ends_alike_example : EndAlike bilinear_result.allocations linear_result.allocations
bilinear_ends_alike_example =
    bilinear_ends_alike routes planned linear_result bilinear_result planned_not_empty linear_run
      bilinear_run

-- A matrix that knows no way between different places.
abbrev broken_routes : RouteSource
broken_routes a b =
    if Location.eqb a.location b.location then ok RouteInfo.zero else err (runtime_error "no route")

linear_broken : Linear.schedule_waybill broken_routes planned ≡ err (runtime_error "no route")
unfolding Linear.schedule_waybill schedule_from next_route visit place get_nearest_next_time_window
    Location.eqb
linear_broken = refl

bilinear_throws_example :
    Bilinear.schedule_waybill broken_routes planned ≡ err (runtime_error "no route")
bilinear_throws_example = bilinear_throws broken_routes planned _ linear_broken

-- A direct engine whose provider always throws.
abbrev broken_engine : DirectEngine
broken_engine = record {
  matrix_tag = pos 1;
  engine = record {
    get_single_route_info = λ a b. err (runtime_error "no route");
    get_single_route_details = λ a b. err (runtime_error "no route");
  };
  error_policy = on_error_return_infinity;
}

abbrev matrices : DistanceMatrixProvider
matrices engine_type settings profile = ok (get_route_info broken_engine)

abbrev settings : WaybillSchedulerSettings
settings = record { router_engine_type = crowflight; route_provider_settings = default_settings }

abbrev profile : RoutingProfile
profile = record { speed = record { meters_per_second = record { bits = 0 } } }

engine_schedules_example :
    IsBy auto
      (get_route_info broken_engine)
      planned
      (schedule_waybill matrices planned auto settings profile)
    × (Scheduled
          (get_route_info broken_engine)
          planned
          (schedule_waybill matrices planned auto settings profile)
        ⊎ ((schedule_waybill matrices planned auto settings profile
              ≡ err (invalid_argument "Unknown waybill scheduling algorithm type"))
            × ((n : ℤ) × (auto ≡ other n))))
engine_schedules_example =
    engine_schedules matrices broken_engine settings profile planned auto refl refl
