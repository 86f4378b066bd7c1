-- ===== src/Scheduler/Engine/Correct.antt =====
-- The scheduler over a direct distance matrix: every waybill gets a feasible schedule.
use assfire_suite.Base.{◌≡◌, refl, Result, ok, err, ℤ, invalid_argument, ◌⊎◌, inl, inr, Pointwise}
use assfire_suite.Router.Settings.{RoutingProfile, on_error_return_infinity}
use assfire_suite.Router.Direct.{DirectEngine, get_route_info}
use assfire_suite.Router.Direct.Errors.{direct_returns_infinity}
use assfire_suite.Scheduler.Waybill.{Waybill}
use assfire_suite.Scheduler.Feasible.{Feasible, SameJob}
use assfire_suite.Scheduler.Linear
use assfire_suite.Scheduler.Linear.{RouteSource}
use assfire_suite.Scheduler.Linear.Schedule.{Routed}
use assfire_suite.Scheduler.Linear.Correct.{linear-Feasible}
use assfire_suite.Scheduler.Bilinear
use assfire_suite.Scheduler.Bilinear.Correct.{bilinear-Feasible}
use assfire_suite.Scheduler.Engine.{
  WaybillSchedulingAlgorithmType, linear, bilinear, auto, other, WaybillSchedulerSettings,
  DistanceMatrixProvider, create_waybill_scheduler, schedule_waybill,
}

-- A waybill with the same shift and the same jobs along the matrix's routes, none of which starts
-- before it can be reached or before its window opens.
abbrev pub Scheduled : RouteSource → Waybill → Result Waybill → Type 0
Scheduled routes w m =
    (v : Waybill) × (m ≡ ok v)
    × (v.work_shift ≡ w.work_shift)
    × Pointwise SameJob w.allocations v.allocations
    × Routed routes v.allocations
    × Feasible w.work_shift.start_time.epoch_seconds v.allocations

-- What the type names: the linear algorithm, the bilinear one, also for the automatic choice, or none.
abbrev pub IsBy : WaybillSchedulingAlgorithmType → RouteSource → Waybill → Result Waybill → Type 0
IsBy linear routes w m = m ≡ Linear.schedule_waybill routes w
IsBy bilinear routes w m = m ≡ Bilinear.schedule_waybill routes w
IsBy auto routes w m = m ≡ Bilinear.schedule_waybill routes w
IsBy (other n) routes w m = m ≡ err (invalid_argument "Unknown waybill scheduling algorithm type")

module _ (provider : DistanceMatrixProvider) (m : DirectEngine)
    (settings : WaybillSchedulerSettings) (profile : RoutingProfile) where
  linear-Scheduled :
      (w : Waybill)
      → m.error_policy ≡ on_error_return_infinity
      → Scheduled (get_route_info m) w (Linear.schedule_waybill (get_route_info m) w)
  linear-Scheduled w policy =
      let (v, e, shift, jobs, routes, prompt, f) =
        linear-Feasible (get_route_info m) w
          (λ x y. let (r, p, q) = (direct_returns_infinity m x y policy).0 in (r, p)) in
      (v, e, shift, jobs, routes, f)

  bilinear-Scheduled :
      (w : Waybill)
      → m.error_policy ≡ on_error_return_infinity
      → Scheduled (get_route_info m) w (Bilinear.schedule_waybill (get_route_info m) w)
  bilinear-Scheduled w policy =
      let (v, e, shift, jobs, routes, f) = linear-Scheduled w policy in
      bilinear-Feasible (get_route_info m) w v e

  -- If the provider of distance matrices gives a direct engine that returns infinity on errors, then
  -- each waybill is scheduled, whatever the route provider throws: by the linear algorithm for its
  -- type, by the bilinear one for its type and for the automatic choice. The result keeps the work
  -- shift and the jobs in their order, each with the matrix's route to the next one; from the start of
  -- the shift on, none starts before it can be reached or before its first time window opens, and each
  -- lasts as planned. Any other value of the type is refused.
  pub engine_schedules :
      (w : Waybill) (type : WaybillSchedulingAlgorithmType)
      → provider settings.router_engine_type settings.route_provider_settings profile
        ≡ ok (get_route_info m)
      → m.error_policy ≡ on_error_return_infinity
      → IsBy type (get_route_info m) w (schedule_waybill provider w type settings profile)
        × (Scheduled (get_route_info m) w (schedule_waybill provider w type settings profile)
            ⊎ ((schedule_waybill provider w type settings profile
                  ≡ err (invalid_argument "Unknown waybill scheduling algorithm type"))
                × ((n : ℤ) × (type ≡ other n))))
  unfolding schedule_waybill create_waybill_scheduler
  engine_schedules w linear e policy = (rw e refl, inl (rw e (linear-Scheduled w policy)))
  engine_schedules w bilinear e policy = (rw e refl, inl (rw e (bilinear-Scheduled w policy)))
  engine_schedules w auto e policy = (rw e refl, inl (rw e (bilinear-Scheduled w policy)))
  engine_schedules w (other n) e policy = (refl, inr (refl, (n, refl)))
