-- ===== src/Scheduler/Linear/Earliest.antt =====
-- The linear schedule is the earliest of all feasible schedules of the same plan.
use assfire_suite.Base.{
  ℤ, ◌≤ℤ◌, ◌≡◌, parts_eq, ap, ◌∙◌, List, [], ◌∷◌, ok, Pointwise, arith, int_laws,
}
use assfire_suite.Concepts.TimePoint
use assfire_suite.Concepts.TimePoint.{TimePoint}
use assfire_suite.Concepts.TimeInterval.{TimeInterval}
use assfire_suite.Router.RouteInfo.{RouteInfo}
use assfire_suite.Scheduler.Waybill.{WaybillAllocation, get_nearest_next_time_window}
use assfire_suite.Scheduler.Feasible.{
  opening, opens, starts, ends, leaves, IsPlaced, Feasible, SamePlan, NotLater, opens-SameJob,
}
use assfire_suite.Scheduler.Linear.{RouteSource, visit, place, departure, schedule_from}
use assfire_suite.Scheduler.Linear.Schedule.{schedule_from-cons, visit-IsPlaced}

max-le :
    (a b : TimePoint) (c : ℤ)
    → a.epoch_seconds ≤ℤ c
    → b.epoch_seconds ≤ℤ c
    → (TimePoint.max a b).epoch_seconds ≤ℤ c
max-le a b c h k = ground arith

visit-le :
    (t : TimePoint) (a : WaybillAllocation) (route : RouteInfo) (c : ℤ)
    → t.epoch_seconds ≤ℤ c
    → opens (visit t a route) ≤ℤ c
    → starts (visit t a route) ≤ℤ c
unfolding visit place get_nearest_next_time_window
visit-le t a route c h k = max-le t (opening a) c h k

-- What is placed no earlier, for as long, ends no earlier.
ends-mono :
    (b c : WaybillAllocation)
    → SamePlan b c
    → IsPlaced b
    → IsPlaced c
    → starts b ≤ℤ starts c
    → ends b ≤ℤ ends c
ends-mono b c h p q k = omega (
  int_laws,
  parts_eq p.1,
  parts_eq q.1,
  parts_eq (ap (λ (i : TimeInterval). i.seconds) h.job.planned),
)

leaves-mono : (b c : WaybillAllocation) → SamePlan b c → NotLater b c → leaves b ≤ℤ leaves c
leaves-mono b c h k =
    omega (int_laws, parts_eq (ap (λ (r : RouteInfo). r.duration.seconds) h.route))

-- One visit is no later than what a feasible schedule has there.
visit-NotLater :
    (t : TimePoint) (a : WaybillAllocation) (route : RouteInfo) (u : ℤ) (c : WaybillAllocation)
    → t.epoch_seconds ≤ℤ u
    → u ≤ℤ starts c
    → IsPlaced c
    → SamePlan (visit t a route) c
    → NotLater (visit t a route) c
visit-NotLater t a route u c h k p same =
    (start, ends-mono _ c same (visit-IsPlaced t a route) p start)
  where
    start : starts (visit t a route) ≤ℤ starts c
    start = visit-le t a route (starts c) (omega int_laws) (rw (opens-SameJob same.job) p.0)

-- Of all feasible schedules of the same plan that begin at `t` or later, the linear one has every
-- start and every end the earliest.
pub schedule_from-NotLater :
    (routes : RouteSource) (t : TimePoint) (u : ℤ) (xs bs cs : List WaybillAllocation)
    → schedule_from routes t xs ≡ ok bs
    → t.epoch_seconds ≤ℤ u
    → Pointwise SamePlan bs cs
    → Feasible u cs
    → Pointwise NotLater bs cs
unfolding schedule_from
schedule_from-NotLater routes t u xs [] [] e h same f = tt
schedule_from-NotLater routes t u xs [] (c ∷ cs) e h same f = absurd same
schedule_from-NotLater routes t u xs (b ∷ bs) [] e h same f = absurd same
schedule_from-NotLater routes t u [] (b ∷ bs) (c ∷ cs) e h same f = cc
schedule_from-NotLater routes t u (a ∷ rest) (b ∷ bs) (c ∷ cs) e h same f =
    let (route, done, p, r, s) = schedule_from-cons routes t a rest (b ∷ bs) e in
    let here : visit t a route ≡ b = cc in
    let there : done ≡ bs = cc in
    let plan : SamePlan (visit t a route) c = rw here same.0 in
    let first = visit-NotLater t a route u c h f.0 f.1 plan in
    (
      rw here at first,
      schedule_from-NotLater routes (departure (visit t a route)) (leaves c) rest bs cs
          (r ∙ ap ok there) (leaves-mono _ c plan first) same.1 f.2,
    )
