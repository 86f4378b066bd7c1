-- ===== src/Scheduler/Waybill.antt =====
-- api/assfire/scheduler/api: TimeWindow, WaybillAllocation and Waybill.
use assfire_suite.Base.{ℤ, negsuc, ℕ, List, [], ◌∷◌, ◌++◌, length, get_elem?, Option}
use assfire_suite.Concepts.TimePoint
use assfire_suite.Concepts.TimePoint.{TimePoint}
use assfire_suite.Concepts.TimeInterval.{TimeInterval}
use assfire_suite.Concepts.Location.{Location}
use assfire_suite.Router.RouteInfo
use assfire_suite.Router.RouteInfo.{RouteInfo}
use assfire_suite.Router.IndexedLocation.{IndexedLocation, invalid_tag}

pub record TimeWindow : Type 0 where
  pub start_time : TimePoint
  pub end_time : TimePoint

abbrev pub infinite_window : TimeWindow
infinite_window = record { start_time = TimePoint.zero; end_time = TimePoint.infinity }

-- TimeWindow::fromEpochSecondsPair
abbrev pub window : ℤ → ℤ → TimeWindow
window s e = record {
  start_time = TimePoint.from_epoch_seconds s;
  end_time = TimePoint.from_epoch_seconds e;
}

abbrev pub get_width : TimeWindow → TimeInterval
get_width w = TimePoint.diff w.end_time w.start_time

pub record WaybillAllocation : Type 0 where
  pub start_time : TimePoint
  pub end_time : TimePoint
  pub planned_duration : TimeInterval
  pub time_windows : List TimeWindow
  pub next_route_info : RouteInfo
  pub location : IndexedLocation

-- The constructor from a plain location, which has no index.
abbrev pub allocation :
    TimePoint → TimePoint → TimeInterval → List TimeWindow → Location → WaybillAllocation
allocation start finish planned windows loc = record {
  start_time = start;
  end_time = finish;
  planned_duration = planned;
  time_windows = windows;
  next_route_info = RouteInfo.zero;
  location = record { id = negsuc 0; index_tag = invalid_tag; location = loc };
}

-- The parameter is not used: the first window is taken, whatever the time.
unfoldable pub get_nearest_next_time_window : WaybillAllocation → TimePoint → TimeWindow
get_nearest_next_time_window a tp = elim a.time_windows [ [] ↦ infinite_window | w ∷ _ ↦ w ]

abbrev pub get_actual_duration : WaybillAllocation → TimeInterval
get_actual_duration a = TimePoint.diff a.end_time a.start_time

abbrev pub set_start_time : WaybillAllocation → TimePoint → WaybillAllocation
set_start_time a tp = record a { start_time = tp }

abbrev pub set_end_time : WaybillAllocation → TimePoint → WaybillAllocation
set_end_time a tp = record a { end_time = tp }

abbrev pub set_next_route_info : WaybillAllocation → RouteInfo → WaybillAllocation
set_next_route_info a r = record a { next_route_info = r }

-- Both ends of the allocation move.
abbrev pub shift_start_time : WaybillAllocation → TimeInterval → WaybillAllocation
shift_start_time a i = record a {
  start_time = TimePoint.add a.start_time i;
  end_time = TimePoint.add a.end_time i;
}

pub record Waybill : Type 0 where
  pub work_shift : TimeWindow
  pub allocations : List WaybillAllocation

abbrev pub get_earliest_possible_start_time : Waybill → TimePoint
get_earliest_possible_start_time w = w.work_shift.start_time

abbrev pub get_latest_possible_end_time : Waybill → TimePoint
get_latest_possible_end_time w = w.work_shift.end_time

abbrev pub push_back : Waybill → WaybillAllocation → Waybill
push_back w a = record w { allocations = w.allocations ++ a ∷ [] }

abbrev pub clear : Waybill → Waybill
clear w = record w { allocations = [] }

abbrev pub size : Waybill → ℕ
size w = length w.allocations

-- operator[]; none is a position out of range.
abbrev pub at : Waybill → ℕ → Option WaybillAllocation
at w i = get_elem? w.allocations i
