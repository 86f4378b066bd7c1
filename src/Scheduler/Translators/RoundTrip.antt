-- ===== src/Scheduler/Translators/RoundTrip.antt =====
-- What comes back when a waybill is sent as a message and read again.
use assfire_suite.Base.{negsuc, ◌≡◌, refl, List, [], ◌∷◌, map, All}
use assfire_suite.Base.Int32.{IsInt32, to_int32-eq}
use assfire_suite.Router.IndexedLocation.{invalid_tag}
use assfire_suite.Router.Translators.{info_from_proto, summary_to_proto, info_to_proto}
use assfire_suite.Router.Translators.RoundTrip.{IsSendable, location_round_trip}
use assfire_suite.Scheduler.Waybill.{TimeWindow, WaybillAllocation, Waybill}
use assfire_suite.Scheduler.Translators.{
  time_window_from_proto, time_window_to_proto, allocation_from_proto, allocation_to_proto,
  waybill_from_proto, waybill_to_proto,
}

-- The seconds of both ends are within an int32.
abbrev pub IsSendableWindow : TimeWindow → Type 0
IsSendableWindow w = IsInt32 w.start_time.epoch_seconds × IsInt32 w.end_time.epoch_seconds

pub record IsSendableAllocation (a : WaybillAllocation) : Type 0 where
  pub start_fits : IsInt32 a.start_time.epoch_seconds
  pub end_fits : IsInt32 a.end_time.epoch_seconds
  pub duration_fits : IsInt32 a.planned_duration.seconds
  pub windows_fit : All IsSendableWindow a.time_windows
  pub route_fits : IsInt32 a.next_route_info.duration.seconds
  pub location_fits : IsSendable a.location.location

abbrev pub IsSendableWaybill : Waybill → Type 0
IsSendableWaybill w = IsSendableWindow w.work_shift × All IsSendableAllocation w.allocations

-- A location without its index
abbrev pub without_index : WaybillAllocation → WaybillAllocation
without_index a = record a {
  location = record { id = negsuc 0; index_tag = invalid_tag; location = a.location.location };
}

abbrev pub without_indices : Waybill → Waybill
without_indices w = record w { allocations = map without_index w.allocations }

window_round_trip :
    (w : TimeWindow) → IsSendableWindow w → time_window_from_proto (time_window_to_proto w) ≡ w
window_round_trip w h =
    cc (to_int32-eq w.start_time.epoch_seconds h.0, to_int32-eq w.end_time.epoch_seconds h.1)

windows_round_trip :
    (ws : List TimeWindow)
    → All IsSendableWindow ws
    → map time_window_from_proto (map time_window_to_proto ws) ≡ ws
windows_round_trip [] h = refl
windows_round_trip (w ∷ ws) h = cc (window_round_trip w h.0, windows_round_trip ws h.1)

allocation_round_trip :
    (a : WaybillAllocation)
    → IsSendableAllocation a
    → allocation_from_proto (allocation_to_proto a) ≡ without_index a
unfolding allocation_from_proto allocation_to_proto info_from_proto summary_to_proto info_to_proto
allocation_round_trip a h = cc (
  to_int32-eq a.start_time.epoch_seconds h.start_fits,
  to_int32-eq a.end_time.epoch_seconds h.end_fits,
  to_int32-eq a.planned_duration.seconds h.duration_fits,
  windows_round_trip a.time_windows h.windows_fit,
  to_int32-eq a.next_route_info.duration.seconds h.route_fits,
  location_round_trip a.location.location h.location_fits,
)

allocations_round_trip :
    (list : List WaybillAllocation)
    → All IsSendableAllocation list
    → map allocation_from_proto (map allocation_to_proto list) ≡ map without_index list
allocations_round_trip [] h = refl
allocations_round_trip (a ∷ list) h =
    cc (allocation_round_trip a h.0, allocations_round_trip list h.1)

-- A waybill whose times, durations and coordinates are within an int32 is read as it was sent,
-- but for the indices of its locations, which are lost.
pub waybill_round_trip :
    (w : Waybill)
    → IsSendableWaybill w
    → waybill_from_proto (waybill_to_proto w) ≡ without_indices w
unfolding waybill_from_proto waybill_to_proto
waybill_round_trip w h =
    cc (window_round_trip w.work_shift h.0, allocations_round_trip w.allocations h.1)
