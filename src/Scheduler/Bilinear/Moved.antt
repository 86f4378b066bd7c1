-- ===== src/Scheduler/Bilinear/Moved.antt =====
-- What moving the allocations that are done does to each of them.
use assfire_suite.Base.{
  pos, ◌+ℤ◌, ◌≤ℤ◌, ◌≡◌, refl, ap, Bool-cases, inl, inr, +ℤ_parts, eq_of_parts, parts_eq, arith,
  int_laws,
}
use assfire_suite.Concepts.TimeInterval
use assfire_suite.Concepts.TimeInterval.{TimeInterval}
use assfire_suite.Scheduler.Waybill.{WaybillAllocation, get_nearest_next_time_window}
use assfire_suite.Scheduler.Feasible.{opens, closes, starts, ends, leaves, IsPlaced, SameJob}
use assfire_suite.Scheduler.Bilinear.{moved}

-- What a move does to the times, whatever the sign of the shift test.
module _ (s : TimeInterval) (a : WaybillAllocation) (h : pos 0 ≤ℤ s.seconds) where
  pub starts-moved : starts (moved s a) ≡ starts a +ℤ s.seconds
  starts-moved = elim (Bool-cases (TimeInterval.is_positive s)) [
    | inl e ↦ rw e
    | inr e ↦ rw e (
        eq_of_parts (starts a) (starts a +ℤ s.seconds)
          (ground (arith, +ℤ_parts (starts a) s.seconds)))
  ]

  pub ends-moved : ends (moved s a) ≡ ends a +ℤ s.seconds
  ends-moved = elim (Bool-cases (TimeInterval.is_positive s)) [
    | inl e ↦ rw e
    | inr e ↦
        rw e
          (eq_of_parts (ends a) (ends a +ℤ s.seconds) (ground (arith, +ℤ_parts (ends a) s.seconds)))
  ]

  pub opens-moved : opens (moved s a) ≡ opens a
  unfolding get_nearest_next_time_window
  opens-moved = elim (Bool-cases (TimeInterval.is_positive s)) [ inl e ↦ rw e | inr e ↦ rw e ]

  pub closes-moved : closes (moved s a) ≡ closes a
  unfolding get_nearest_next_time_window
  closes-moved = elim (Bool-cases (TimeInterval.is_positive s)) [ inl e ↦ rw e | inr e ↦ rw e ]

  pub route-moved : (moved s a).next_route_info ≡ a.next_route_info
  route-moved = elim (Bool-cases (TimeInterval.is_positive s)) [ inl e ↦ rw e | inr e ↦ rw e ]

  pub moved-SameJob : SameJob a (moved s a)
  moved-SameJob = elim (Bool-cases (TimeInterval.is_positive s)) [
    | inl e ↦ rw e (record { windows = refl; planned = refl; located = refl })
    | inr e ↦ rw e (record { windows = refl; planned = refl; located = refl })
  ]

  pub leaves-moved : leaves (moved s a) ≡ leaves a +ℤ s.seconds
  leaves-moved = rw (ends-moved, route-moved) (eq_of_parts _ _ (omega int_laws))

  pub moved-IsPlaced : IsPlaced a → IsPlaced (moved s a)
  moved-IsPlaced p = (
    omega (int_laws, parts_eq opens-moved, parts_eq starts-moved),
    rw (ends-moved, starts-moved, ← ap (λ (i : TimeInterval). i.seconds) moved-SameJob.planned)
        (eq_of_parts _ _ (omega (int_laws, parts_eq p.1))),
  )
