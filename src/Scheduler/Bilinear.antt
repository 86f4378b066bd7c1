-- ===== src/Scheduler/Bilinear.antt =====
-- engine/assfire/scheduler/engine/algorithms/BilinearWaybillSchedulingAlgorithm.cpp. The loop over
-- the indices is a recursion on the allocations left, beside those done, the latest first.
pub mod Visit
pub mod Moved
pub mod Rounds
pub mod Improves
pub mod Correct
use assfire_suite.Base.{List, [], ◌∷◌, map, reverse, Result, ok, ◌>>=◌, if◌then◌else◌}
use assfire_suite.Concepts.TimePoint
use assfire_suite.Concepts.TimePoint.{TimePoint}
use assfire_suite.Concepts.TimeInterval
use assfire_suite.Concepts.TimeInterval.{TimeInterval}
use assfire_suite.Router.RouteInfo.{RouteInfo}
use assfire_suite.Scheduler.Waybill.{
  TimeWindow, WaybillAllocation, Waybill, get_nearest_next_time_window, shift_start_time,
  set_next_route_info, get_earliest_possible_start_time,
}
use assfire_suite.Scheduler.Linear.{RouteSource, next_route, place, departure}

-- How far the allocations before this one are moved: the waiting time, as far as the budget goes.
unfoldable pub shift_for : TimePoint → TimeInterval → TimeWindow → TimeInterval
shift_for t budget tw =
    let waiting_time : TimeInterval = TimePoint.diff tw.start_time t in
    TimeInterval.max TimeInterval.zero (TimeInterval.min waiting_time budget)

abbrev pub moved : TimeInterval → WaybillAllocation → WaybillAllocation
moved shift a = if TimeInterval.is_positive shift then shift_start_time a shift else a

-- The inner loop, over the allocations before this one.
unfoldable pub shift_back : TimeInterval → List WaybillAllocation → List WaybillAllocation
shift_back shift done = map (moved shift) done

-- The body of the loop up to the times of this allocation. The inner loop moves it too, before its
-- times are set.
unfoldable pub visit_back :
    TimePoint → TimeInterval → WaybillAllocation → RouteInfo → WaybillAllocation
visit_back t budget a route =
    let b : WaybillAllocation = set_next_route_info a route in
    let tw : TimeWindow = get_nearest_next_time_window b t in
    let shift : TimeInterval = shift_for t budget tw in
    place tw (TimePoint.add t shift) (moved shift b)

-- The budget for the next allocation: what this shift leaves, or the slack of this window.
unfoldable pub budget_after :
    TimeInterval → TimeInterval → TimeWindow → WaybillAllocation → TimeInterval
budget_after budget shift tw b =
    TimeInterval.min (TimeInterval.sub budget shift) (TimePoint.diff tw.end_time b.end_time)

unfoldable pub schedule_back :
    RouteSource
    → List WaybillAllocation
    → TimePoint
    → TimeInterval
    → List WaybillAllocation
    → Result (List WaybillAllocation)
schedule_back routes done t budget [] = ok (reverse done)
schedule_back routes done t budget (a ∷ rest) = do
  route ← next_route routes a rest
  let tw = get_nearest_next_time_window a t
  let shift = shift_for t budget tw
  let b = visit_back t budget a route
  schedule_back routes (b ∷ shift_back shift done) (departure b) (budget_after budget shift tw b)
      rest

unfoldable pub schedule_waybill : RouteSource → Waybill → Result Waybill
schedule_waybill routes w = do
  done ←
      schedule_back routes [] (get_earliest_possible_start_time w) TimeInterval.infinity
        w.allocations
  ok (record w { allocations = done })
