-- ===== src/Scheduler/Linear/Correct.antt =====
-- What LinearWaybillSchedulingAlgorithm::scheduleWaybill promises of a whole waybill.
use assfire_suite.Base.{◌≡◌, refl, List, [], ◌∷◌, ok, >>=-eq-ok, Pointwise, int_laws}
use assfire_suite.Concepts.TimePoint.{TimePoint}
use assfire_suite.Router.RouteInfo.{RouteInfo}
use assfire_suite.Router.IndexedLocation.{IndexedLocation}
use assfire_suite.Scheduler.Waybill.{WaybillAllocation, Waybill, get_earliest_possible_start_time}
use assfire_suite.Scheduler.Feasible.{Feasible, SameJob, SamePlan, NotLater}
use assfire_suite.Scheduler.Linear.{
  RouteSource, next_route, visit, departure, schedule_from, schedule_waybill,
}
use assfire_suite.Scheduler.Linear.Schedule.{
  Prompt, Routed, schedule_from-Prompt, schedule_from-Feasible, schedule_from-SameJob,
  schedule_from-Routed,
}
use assfire_suite.Scheduler.Linear.Earliest.{schedule_from-NotLater}

-- What a run on a waybill that returns has computed.
pub schedule_waybill-cases :
    (routes : RouteSource) (w v : Waybill)
    → schedule_waybill routes w ≡ ok v
    → (schedule_from routes (get_earliest_possible_start_time w) w.allocations ≡ ok v.allocations)
      × (v.work_shift ≡ w.work_shift)
unfolding schedule_waybill
schedule_waybill-cases routes w v e =
    let (done, p, q) = >>=-eq-ok (schedule_from routes w.work_shift.start_time w.allocations) _ e in
    (cc, cc)

next_route_total :
    (routes : RouteSource) (a : WaybillAllocation) (rest : List WaybillAllocation)
    → ((x y : IndexedLocation) → (r : RouteInfo) × (routes x y ≡ ok r))
    → (r : RouteInfo) × (next_route routes a rest ≡ ok r)
unfolding next_route
next_route_total routes a [] h = (_, refl)
next_route_total routes a (b ∷ rest) h = h a.location b.location

pub schedule_from_total :
    (routes : RouteSource) (t : TimePoint) (xs : List WaybillAllocation)
    → ((x y : IndexedLocation) → (r : RouteInfo) × (routes x y ≡ ok r))
    → (bs : List WaybillAllocation) × (schedule_from routes t xs ≡ ok bs)
unfolding schedule_from
schedule_from_total routes t [] h = ([], refl)
schedule_from_total routes t (a ∷ rest) h =
    let (route, p) = next_route_total routes a rest h in
    let (bs, q) = schedule_from_total routes (departure (visit t a route)) rest h in
    (visit t a route ∷ bs, rw (p, schedule_from) (rw q))

-- If the distance matrix has an answer for every pair of locations, the linear algorithm returns
-- the waybill with the same work shift and the same jobs in the same order, each with the matrix's
-- route to the next one and zero behind the last. From the start of the shift on, each allocation
-- starts at the time when it is reached or at the opening of its first time window, the later of
-- the two, and lasts as planned; whether the window or the shift has ended by then plays no part.
pub linear-Feasible :
    (routes : RouteSource) (w : Waybill)
    → ((x y : IndexedLocation) → (r : RouteInfo) × (routes x y ≡ ok r))
    → (v : Waybill) × (schedule_waybill routes w ≡ ok v)
      × (v.work_shift ≡ w.work_shift)
      × Pointwise SameJob w.allocations v.allocations
      × Routed routes v.allocations
      × Prompt w.work_shift.start_time v.allocations
      × Feasible w.work_shift.start_time.epoch_seconds v.allocations
unfolding schedule_waybill
linear-Feasible routes w h =
    let t = get_earliest_possible_start_time w in
    let (bs, e) = schedule_from_total routes t w.allocations h in
    (
      record w { allocations = bs },
      rw e,
      refl,
      schedule_from-SameJob routes t w.allocations bs e,
      schedule_from-Routed routes t w.allocations bs e,
      schedule_from-Prompt routes t w.allocations bs e,
      schedule_from-Feasible routes t w.allocations bs e,
    )

-- A waybill that the linear algorithm returns is the earliest: any feasible schedule of the same
-- jobs along the same routes, from the start of the shift on, starts and ends each of them at the
-- same time or later.
pub linear_earliest :
    (routes : RouteSource) (w v : Waybill) (cs : List WaybillAllocation)
    → schedule_waybill routes w ≡ ok v
    → Pointwise SamePlan v.allocations cs
    → Feasible w.work_shift.start_time.epoch_seconds cs
    → Pointwise NotLater v.allocations cs
linear_earliest routes w v cs e same f =
    schedule_from-NotLater routes (get_earliest_possible_start_time w) _ w.allocations v.allocations
      cs (schedule_waybill-cases routes w v e).0 (omega int_laws) same f
