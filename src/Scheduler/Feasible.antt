-- ===== src/Scheduler/Feasible.antt =====
-- What a schedule of a waybill promises, independent of the algorithm that computes it.
use assfire_suite.Base.{
  ℤ, ◌+ℤ◌, ◌≤ℤ◌, ◌≡◌, List, [], ◌∷◌, ◌++◌, reverse, reverse-cons-append, int_laws,
}
use assfire_suite.Concepts.TimePoint
use assfire_suite.Concepts.TimePoint.{TimePoint}
use assfire_suite.Scheduler.Waybill.{WaybillAllocation, get_nearest_next_time_window}

-- When the window of an allocation opens and closes.
abbrev pub opening : WaybillAllocation → TimePoint
opening a = (get_nearest_next_time_window a TimePoint.zero).start_time

abbrev pub opens : WaybillAllocation → ℤ
opens a = (opening a).epoch_seconds

abbrev pub closes : WaybillAllocation → ℤ
closes a = (get_nearest_next_time_window a TimePoint.zero).end_time.epoch_seconds

abbrev pub starts : WaybillAllocation → ℤ
starts a = a.start_time.epoch_seconds

abbrev pub ends : WaybillAllocation → ℤ
ends a = a.end_time.epoch_seconds

-- When the next allocation can be reached.
abbrev pub leaves : WaybillAllocation → ℤ
leaves a = ends a +ℤ a.next_route_info.duration.seconds

-- An allocation starts in its window or behind it, and takes the planned time.
abbrev pub IsPlaced : WaybillAllocation → Type 0
IsPlaced a = (opens a ≤ℤ starts a) × (ends a ≡ starts a +ℤ a.planned_duration.seconds)

-- From time `t` on: each allocation is placed, and starts when it can be reached or later.
abbrev pub Feasible : ℤ → List WaybillAllocation → Type 0
Feasible t [] = Unit
Feasible t (a ∷ xs) = (t ≤ℤ starts a) × IsPlaced a × Feasible (leaves a) xs

-- The same for the allocations before time `t`, the latest first; the first starts at `s` or later.
abbrev pub FeasibleBack : ℤ → ℤ → List WaybillAllocation → Type 0
FeasibleBack s t [] = s ≤ℤ t
FeasibleBack s t (a ∷ xs) = (leaves a ≤ℤ t) × IsPlaced a × FeasibleBack s (starts a) xs

pub Feasible-mono : (s t : ℤ) (xs : List WaybillAllocation) → s ≤ℤ t → Feasible t xs → Feasible s xs
Feasible-mono s t [] h f = tt
Feasible-mono s t (a ∷ xs) h f = (omega int_laws, f.1, f.2)

pub Feasible-join :
    (s t : ℤ) (done xs : List WaybillAllocation)
    → FeasibleBack s t done
    → Feasible t xs
    → Feasible s (reverse done ++ xs)
Feasible-join s t [] xs b f = Feasible-mono s t xs b f
Feasible-join s t (a ∷ done) xs b f = rw (reverse-cons-append a done xs) (
    Feasible-join s (starts a) done (a ∷ xs) b.2
      (omega int_laws, b.1, Feasible-mono (leaves a) t xs b.0 f))

-- What a schedule may not change of an allocation.
pub record SameJob (a b : WaybillAllocation) : Type 0 where
  pub windows : a.time_windows ≡ b.time_windows
  pub planned : a.planned_duration ≡ b.planned_duration
  pub located : a.location ≡ b.location

-- The same job with the same way on from it.
pub record SamePlan (a b : WaybillAllocation) : Type 0 where
  pub job : SameJob a b
  pub route : a.next_route_info ≡ b.next_route_info

-- The window of a job does not depend on its times.
pub opens-SameJob : {a b : WaybillAllocation} → SameJob a b → opens a ≡ opens b
unfolding get_nearest_next_time_window
opens-SameJob {a} {b} h = rw h.windows

pub closes-SameJob : {a b : WaybillAllocation} → SameJob a b → closes a ≡ closes b
unfolding get_nearest_next_time_window
closes-SameJob {a} {b} h = rw h.windows

abbrev pub NotLater : WaybillAllocation → WaybillAllocation → Type 0
NotLater a b = (starts a ≤ℤ starts b) × (ends a ≤ℤ ends b)
