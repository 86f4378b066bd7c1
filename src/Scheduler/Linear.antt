-- ===== src/Scheduler/Linear.antt =====
-- engine/assfire/scheduler/engine/algorithms/LinearWaybillSchedulingAlgorithm.cpp. The distance
-- matrix is the function `get_route_info`, which may throw; an exception leaves the loop, and both
-- callers drop the waybill then.
pub mod Schedule
pub mod Earliest
pub mod Correct
use assfire_suite.Base.{List, [], ◌∷◌, Result, ok, ◌>>=◌}
use assfire_suite.Concepts.TimePoint
use assfire_suite.Concepts.TimePoint.{TimePoint}
use assfire_suite.Router.RouteInfo
use assfire_suite.Router.RouteInfo.{RouteInfo}
use assfire_suite.Router.IndexedLocation.{IndexedLocation}
use assfire_suite.Scheduler.Waybill.{
  TimeWindow, WaybillAllocation, Waybill, get_nearest_next_time_window, set_start_time,
  set_end_time, set_next_route_info, get_earliest_possible_start_time,
}

-- DistanceMatrix::getRouteInfo
abbrev pub RouteSource : Type 0
RouteSource = IndexedLocation → IndexedLocation → Result RouteInfo

-- The route from an allocation to the next one, zero behind the last.
unfoldable pub next_route :
    RouteSource → WaybillAllocation → List WaybillAllocation → Result RouteInfo
next_route get_route_info a [] = ok RouteInfo.zero
next_route get_route_info a (b ∷ rest) = get_route_info a.location b.location

-- The start is the current time or the window's, the later; the end follows the planned duration.
unfoldable pub place : TimeWindow → TimePoint → WaybillAllocation → WaybillAllocation
place tw t a =
    let b : WaybillAllocation = set_start_time a (TimePoint.max t tw.start_time) in
    set_end_time b (TimePoint.add b.start_time b.planned_duration)

-- The time at which the next allocation can be reached.
abbrev pub departure : WaybillAllocation → TimePoint
departure a = TimePoint.add a.end_time a.next_route_info.duration

-- The body of the loop, for one allocation.
unfoldable pub visit : TimePoint → WaybillAllocation → RouteInfo → WaybillAllocation
visit t a route =
    let b : WaybillAllocation = set_next_route_info a route in
    place (get_nearest_next_time_window b t) t b

unfoldable pub schedule_from :
    RouteSource → TimePoint → List WaybillAllocation → Result (List WaybillAllocation)
schedule_from routes t [] = ok []
schedule_from routes t (a ∷ rest) = do
  route ← next_route routes a rest
  done ← schedule_from routes (departure (visit t a route)) rest
  ok (visit t a route ∷ done)

unfoldable pub schedule_waybill : RouteSource → Waybill → Result Waybill
schedule_waybill routes w = do
  done ← schedule_from routes (get_earliest_possible_start_time w) w.allocations
  ok (record w { allocations = done })
