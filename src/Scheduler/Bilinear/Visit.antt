-- ===== src/Scheduler/Bilinear/Visit.antt =====
-- One round of the bilinear loop: the shift fills waiting time only, so the allocation at hand has
-- the times that the linear algorithm gives it.
use assfire_suite.Base.{
  pos, ◌+ℤ◌, ◌-ℤ◌, ◌≤ℤ◌, ◌≡◌, ◌⊎◌, inl, inr, ap, ◌∙◌, parts_eq, Bool-cases, +ℤ_parts, arith,
  int_laws,
}
use assfire_suite.Concepts.TimePoint
use assfire_suite.Concepts.TimePoint.{TimePoint}
use assfire_suite.Concepts.TimeInterval
use assfire_suite.Concepts.TimeInterval.{TimeInterval}
use assfire_suite.Router.RouteInfo.{RouteInfo}
use assfire_suite.Scheduler.Waybill.{
  TimeWindow, WaybillAllocation, get_nearest_next_time_window, set_end_time, set_start_time,
  set_next_route_info,
}
use assfire_suite.Scheduler.Feasible.{starts, ends, opens-SameJob}
use assfire_suite.Scheduler.Linear.{place, visit}
use assfire_suite.Scheduler.Linear.Schedule.{le-starts-visit, visit-IsPlaced, visit-SameJob}
use assfire_suite.Scheduler.Bilinear.{shift_for, moved, visit_back, budget_after}

module _ (t : TimePoint) (budget : TimeInterval) (tw : TimeWindow) where
  pub shift_for_nonneg : pos 0 ≤ℤ (shift_for t budget tw).seconds
  unfolding shift_for
  shift_for_nonneg = ground arith

  -- A shift stays within the budget.
  pub shift_for_within :
      ((shift_for t budget tw).seconds ≡ pos 0)
      ⊎ ((shift_for t budget tw).seconds ≤ℤ budget.seconds)
  unfolding shift_for
  shift_for_within = ground arith

  shift_for_le_waiting :
      ((shift_for t budget tw).seconds ≡ pos 0)
      ⊎ ((shift_for t budget tw).seconds ≤ℤ tw.start_time.epoch_seconds -ℤ t.epoch_seconds)
  unfolding shift_for
  shift_for_le_waiting = ground arith

  -- A shift ends when the window opens, at the latest.
  shift_for_waits :
      ((shift_for t budget tw).seconds ≡ pos 0)
      ⊎ (t.epoch_seconds +ℤ (shift_for t budget tw).seconds ≤ℤ tw.start_time.epoch_seconds)
  shift_for_waits = elim shift_for_le_waiting [ inl e ↦ inl e | inr h ↦ inr (omega int_laws) ]

add_zero : (t : TimePoint) (s : TimeInterval) → s.seconds ≡ pos 0 → TimePoint.add t s ≡ t
add_zero t s e = ap TimePoint.from_epoch_seconds (rw e (omega int_laws))

max-add :
    (t x : TimePoint) (s : TimeInterval)
    → pos 0 ≤ℤ s.seconds
    → (s.seconds ≡ pos 0) ⊎ (t.epoch_seconds +ℤ s.seconds ≤ℤ x.epoch_seconds)
    → TimePoint.max (TimePoint.add t s) x ≡ TimePoint.max t x
max-add t x s h (inl e) = ap (λ (u : TimePoint). TimePoint.max u x) (add_zero t s e)
max-add t x s h (inr k) = ground (arith, +ℤ_parts t.epoch_seconds s.seconds)

-- Moving an allocation does not matter before its times are set.
place-moved :
    (tw : TimeWindow) (t : TimePoint) (s : TimeInterval) (a : WaybillAllocation)
    → place tw t (moved s a) ≡ place tw t a
unfolding place
place-moved tw t s a = elim (Bool-cases (TimeInterval.is_positive s)) [
  | inl e ↦ rw e
  | inr e ↦ rw e
]

place-add :
    (tw : TimeWindow) (t : TimePoint) (s : TimeInterval) (a : WaybillAllocation)
    → TimePoint.max (TimePoint.add t s) tw.start_time ≡ TimePoint.max t tw.start_time
    → place tw (TimePoint.add t s) a ≡ place tw t a
unfolding place
place-add tw t s a e =
    ap (λ (m : TimePoint). set_end_time (set_start_time a m) (TimePoint.add m a.planned_duration)) e

-- The bilinear algorithm gives the allocation at hand the times that the linear one gives it.
pub visit_back-eq-visit :
    (t : TimePoint) (budget : TimeInterval) (a : WaybillAllocation) (route : RouteInfo)
    → visit_back t budget a route ≡ visit t a route
unfolding visit_back visit
visit_back-eq-visit t budget a route =
    let b : WaybillAllocation = set_next_route_info a route in
    let tw : TimeWindow = get_nearest_next_time_window b t in
    let s : TimeInterval = shift_for t budget tw in
    place-moved tw (TimePoint.add t s) s b
    ∙ place-add tw t s b
        (max-add t tw.start_time s (shift_for_nonneg t budget tw) (shift_for_waits t budget tw))

-- The time that the shift adds is before the start of the allocation at hand.
pub shift_for-le-starts :
    (t : TimePoint) (budget : TimeInterval) (a : WaybillAllocation) (route : RouteInfo)
    → t.epoch_seconds +ℤ (shift_for t budget (get_nearest_next_time_window a t)).seconds
      ≤ℤ starts (visit t a route)
unfolding get_nearest_next_time_window
shift_for-le-starts t budget a route =
    elim (shift_for_waits t budget (get_nearest_next_time_window a t)) [
      | inl e ↦ omega (int_laws, parts_eq e, le-starts-visit t a route)
      | inr h ↦ omega (
        int_laws,
        (visit-IsPlaced t a route).0,
        parts_eq (opens-SameJob (visit-SameJob t a route)),
      )
    ]

module _ (budget shift : TimeInterval) (tw : TimeWindow) (b : WaybillAllocation) where
  pub budget_after-le : (budget_after budget shift tw b).seconds ≤ℤ budget.seconds -ℤ shift.seconds
  unfolding budget_after
  budget_after-le = ground arith

  pub budget_after_slack :
      (budget_after budget shift tw b).seconds ≤ℤ tw.end_time.epoch_seconds -ℤ ends b
  unfolding budget_after
  budget_after_slack = ground arith
