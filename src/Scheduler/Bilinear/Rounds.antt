-- ===== src/Scheduler/Bilinear/Rounds.antt =====
-- The rounds of the bilinear loop, and that its schedule is feasible.
use mathlib.Core.List.{append-nil}
use assfire_suite.Base.{
  ℤ, pos, ◌+ℤ◌, ◌≤ℤ◌, ◌≡◌, refl, sym, ◌∙◌, parts_eq, List, [], ◌∷◌, reverse, ok, int_laws,
}
use assfire_suite.Concepts.TimePoint.{TimePoint}
use assfire_suite.Concepts.TimeInterval.{TimeInterval}
use assfire_suite.Router.RouteInfo.{RouteInfo}
use assfire_suite.Scheduler.Waybill.{WaybillAllocation, get_nearest_next_time_window}
use assfire_suite.Scheduler.Feasible.{starts, Feasible, FeasibleBack, Feasible-join}
use assfire_suite.Scheduler.Linear.{RouteSource, next_route, visit, departure, schedule_from}
use assfire_suite.Scheduler.Linear.Schedule.{schedule_from-cons, visit-IsPlaced}
use assfire_suite.Scheduler.Bilinear.{shift_for, moved, shift_back, budget_after, schedule_back}
use assfire_suite.Scheduler.Bilinear.Visit.{
  visit_back-eq-visit, shift_for-le-starts, shift_for_nonneg,
}
use assfire_suite.Scheduler.Bilinear.Moved.{starts-moved, leaves-moved, moved-IsPlaced}

abbrev pub shift_at : TimePoint → TimeInterval → WaybillAllocation → TimeInterval
shift_at t budget a = shift_for t budget (get_nearest_next_time_window a t)

abbrev pub budget_at : TimePoint → TimeInterval → WaybillAllocation → RouteInfo → TimeInterval
budget_at t budget a route =
    budget_after budget (shift_at t budget a) (get_nearest_next_time_window a t) (visit t a route)

-- One round, once the route is known.
pub schedule_back-cons :
    (routes : RouteSource) (done : List WaybillAllocation) (t : TimePoint) (budget : TimeInterval)
    (a : WaybillAllocation) (rest : List WaybillAllocation) (route : RouteInfo)
    → next_route routes a rest ≡ ok route
    → schedule_back routes done t budget (a ∷ rest)
      ≡ schedule_back routes
          (visit t a route ∷ shift_back (shift_at t budget a) done)
          (departure (visit t a route))
          (budget_at t budget a route)
          rest
unfolding schedule_back
schedule_back-cons routes done t budget a rest route e =
    rw (e, schedule_back) (rw (visit_back-eq-visit t budget a route))

-- The allocations that are done stay feasible when they are moved by what is added to the time.
shift_back-FeasibleBack :
    (s t u : ℤ) (i : TimeInterval) (done : List WaybillAllocation)
    → pos 0 ≤ℤ i.seconds
    → t +ℤ i.seconds ≤ℤ u
    → FeasibleBack s t done
    → FeasibleBack s u (shift_back i done)
unfolding shift_back
shift_back-FeasibleBack s t u i [] h k f = omega int_laws
shift_back-FeasibleBack s t u i (a ∷ done) h k f = (
  omega (int_laws, parts_eq (leaves-moved i a h)),
  moved-IsPlaced i a h f.1,
  shift_back-FeasibleBack s (starts a) (starts (moved i a)) i done h
      (omega (int_laws, parts_eq (starts-moved i a h))) f.2,
)

-- Where the linear algorithm returns, the bilinear loop returns a feasible schedule.
pub schedule_back-Feasible :
    (routes : RouteSource) (s : ℤ) (done : List WaybillAllocation) (t : TimePoint)
    (budget : TimeInterval) (xs ls : List WaybillAllocation)
    → schedule_from routes t xs ≡ ok ls
    → FeasibleBack s t.epoch_seconds done
    → (bs : List WaybillAllocation) × (schedule_back routes done t budget xs ≡ ok bs)
      × Feasible s bs
unfolding schedule_back
schedule_back-Feasible routes s done t budget [] ls e f = (
  reverse done,
  refl,
  rw (sym (append-nil (reverse done))) (Feasible-join s t.epoch_seconds done [] f tt),
)
schedule_back-Feasible routes s done t budget (a ∷ rest) ls e f =
    let (route, ls', p, r, q) = schedule_from-cons routes t a rest ls e in
    let b = visit t a route in
    let i = shift_at t budget a in
    let (bs, back, good) =
      schedule_back-Feasible routes s (b ∷ shift_back i done) (departure b)
        (budget_at t budget a route) rest ls' r
        (
          omega int_laws,
          visit-IsPlaced t a route,
          shift_back-FeasibleBack s t.epoch_seconds (starts b) i done (shift_for_nonneg t budget _)
              (shift_for-le-starts t budget a route) f,
        ) in
    (bs, schedule_back-cons routes done t budget a rest route p ∙ back, good)
