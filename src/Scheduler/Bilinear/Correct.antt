-- ===== src/Scheduler/Bilinear/Correct.antt =====
-- What BilinearWaybillSchedulingAlgorithm::scheduleWaybill promises of a whole waybill.
use assfire_suite.Base.{
  ◌≡◌, refl, ap, ◌∙◌, inl, inr, ◌≢◌, List, [], ◌∷◌, ok, err, Error, Result-cases, >>=-eq-ok,
  >>=-ok-eq-err, Pointwise, int_laws,
}
use assfire_suite.Concepts.TimePoint.{TimePoint}
use assfire_suite.Concepts.TimeInterval
use assfire_suite.Concepts.TimeInterval.{TimeInterval}
use assfire_suite.Scheduler.Waybill.{WaybillAllocation, Waybill, get_earliest_possible_start_time}
use assfire_suite.Scheduler.Feasible.{Feasible, SameJob, SamePlan}
use assfire_suite.Scheduler.Linear
use assfire_suite.Scheduler.Linear.{RouteSource, next_route, visit, departure, schedule_from}
use assfire_suite.Scheduler.Linear.Schedule.{
  Routed, next_route-SameJob, schedule_from-SameJob, schedule_from-Routed,
}
use assfire_suite.Router.RouteInfo.{RouteInfo}
use assfire_suite.Scheduler.Linear.Correct.{schedule_waybill-cases}
use assfire_suite.Scheduler.Bilinear.{shift_back, schedule_back, schedule_waybill}
use assfire_suite.Scheduler.Bilinear.Rounds.{
  shift_at, budget_at, schedule_back-cons, schedule_back-Feasible,
}
use assfire_suite.Scheduler.Bilinear.Improves.{
  Improves, EndAlike, schedule_back-Improves, schedule_back-EndAlike,
}

Improves-SamePlan :
    (bs ls : List WaybillAllocation) → Pointwise Improves bs ls → Pointwise SamePlan ls bs
Improves-SamePlan [] [] h = tt
Improves-SamePlan [] (l ∷ ls) h = absurd h
Improves-SamePlan (b ∷ bs) [] h = absurd h
Improves-SamePlan (b ∷ bs) (l ∷ ls) h = (h.0.0, Improves-SamePlan bs ls h.1)

SameJob-trans :
    (xs ls bs : List WaybillAllocation)
    → Pointwise SameJob xs ls
    → Pointwise SamePlan ls bs
    → Pointwise SameJob xs bs
SameJob-trans [] [] [] h k = tt
SameJob-trans [] [] (b ∷ bs) h k = absurd k
SameJob-trans [] (l ∷ ls) bs h k = absurd h
SameJob-trans (x ∷ xs) [] bs h k = absurd h
SameJob-trans (x ∷ xs) (l ∷ ls) [] h k = absurd k
SameJob-trans (x ∷ xs) (l ∷ ls) (b ∷ bs) h k = (
  record {
    windows = h.0.windows ∙ k.0.job.windows;
    planned = h.0.planned ∙ k.0.job.planned;
    located = h.0.located ∙ k.0.job.located;
  },
  SameJob-trans xs ls bs h.1 k.1,
)

SamePlan-jobs :
    (ls bs : List WaybillAllocation) → Pointwise SamePlan ls bs → Pointwise SameJob ls bs
SamePlan-jobs [] [] h = tt
SamePlan-jobs [] (b ∷ bs) h = absurd h
SamePlan-jobs (l ∷ ls) [] h = absurd h
SamePlan-jobs (l ∷ ls) (b ∷ bs) h = (h.0.job, SamePlan-jobs ls bs h.1)

-- The routes do not depend on the times.
Routed-SamePlan :
    (routes : RouteSource) (ls bs : List WaybillAllocation)
    → Routed routes ls
    → Pointwise SamePlan ls bs
    → Routed routes bs
Routed-SamePlan routes [] [] h k = tt
Routed-SamePlan routes [] (b ∷ bs) h k = absurd k
Routed-SamePlan routes (l ∷ ls) [] h k = absurd k
Routed-SamePlan routes (l ∷ ls) (b ∷ bs) h k = (
  next_route-SameJob routes ls bs k.0.job (SamePlan-jobs ls bs k.1)
      ∙ h.0
      ∙ ap (λ (r : RouteInfo). ok r) k.0.route,
  Routed-SamePlan routes ls bs h.1 k.1,
)

-- Where the linear algorithm returns a waybill, so does the bilinear one, with the same work shift,
-- with the same jobs in the same order, each with the matrix's route to the next one and zero behind
-- the last. From the start of the shift on, no allocation starts before it can be reached or before
-- its first time window opens, and each lasts as planned; when the windows and the shift end is not
-- part of this.
pub bilinear-Feasible :
    (routes : RouteSource) (w v : Waybill)
    → Linear.schedule_waybill routes w ≡ ok v
    → (u : Waybill) × (schedule_waybill routes w ≡ ok u)
      × (u.work_shift ≡ w.work_shift)
      × Pointwise SameJob w.allocations u.allocations
      × Routed routes u.allocations
      × Feasible w.work_shift.start_time.epoch_seconds u.allocations
unfolding schedule_waybill
bilinear-Feasible routes w v e =
    let t = get_earliest_possible_start_time w in
    let (bs, back, f) =
      schedule_back-Feasible routes t.epoch_seconds [] t TimeInterval.infinity w.allocations
        v.allocations (schedule_waybill-cases routes w v e).0 (omega int_laws) in
    let (bs', back', good) =
      schedule_back-Improves routes [] [] t TimeInterval.infinity w.allocations v.allocations
        (schedule_waybill-cases routes w v e).0 tt in
    let same : bs' ≡ bs = cc in
    let plan = Improves-SamePlan bs v.allocations (rw same at good) in
    let linear = (schedule_waybill-cases routes w v e).0 in
    (
      record w { allocations = bs },
      rw back,
      refl,
      SameJob-trans w.allocations v.allocations bs
          (schedule_from-SameJob routes t w.allocations v.allocations linear) plan,
      Routed-SamePlan routes v.allocations bs
          (schedule_from-Routed routes t w.allocations v.allocations linear) plan,
      f,
    )

-- Against the linear schedule of the same waybill, the bilinear one has the same jobs and routes;
-- no allocation starts or ends earlier; and one that starts later ends before its first time window
-- closes.
pub bilinear-Improves :
    (routes : RouteSource) (w v u : Waybill)
    → Linear.schedule_waybill routes w ≡ ok v
    → schedule_waybill routes w ≡ ok u
    → Pointwise Improves u.allocations v.allocations
unfolding schedule_waybill
bilinear-Improves routes w v u e f =
    let t = get_earliest_possible_start_time w in
    let (bs, back, good) =
      schedule_back-Improves routes [] [] t TimeInterval.infinity w.allocations v.allocations
        (schedule_waybill-cases routes w v e).0 tt in
    let (bs', p, q) =
      >>=-eq-ok (schedule_back routes [] t TimeInterval.infinity w.allocations) _ f in
    let same : bs ≡ u.allocations = cc in rw same at good

schedule-EndAlike :
    (routes : RouteSource) (t : TimePoint) (xs ls bs : List WaybillAllocation)
    → xs ≢ []
    → schedule_from routes t xs ≡ ok ls
    → schedule_back routes [] t TimeInterval.infinity xs ≡ ok bs
    → EndAlike bs ls
schedule-EndAlike routes t [] ls bs n e f = absurd (n refl)
schedule-EndAlike routes t (a ∷ rest) ls bs n e f =
    schedule_back-EndAlike routes [] t TimeInterval.infinity a rest ls bs e f

-- If there is an allocation at all, both schedules end on the same one at the same times: moving
-- the others costs nothing at the end of the shift.
pub bilinear_ends_alike :
    (routes : RouteSource) (w v u : Waybill)
    → w.allocations ≢ []
    → Linear.schedule_waybill routes w ≡ ok v
    → schedule_waybill routes w ≡ ok u
    → EndAlike u.allocations v.allocations
unfolding schedule_waybill
bilinear_ends_alike routes w v u n e f =
    let t = get_earliest_possible_start_time w in
    let (bs, p, q) =
      >>=-eq-ok (schedule_back routes [] t TimeInterval.infinity w.allocations) _ f in
    schedule-EndAlike routes t w.allocations v.allocations u.allocations n
      (schedule_waybill-cases routes w v e).0 (p ∙ cc)

schedule_back-eq-err :
    (routes : RouteSource) (done : List WaybillAllocation) (t : TimePoint) (budget : TimeInterval)
    (xs : List WaybillAllocation) (e : Error)
    → schedule_from routes t xs ≡ err e
    → schedule_back routes done t budget xs ≡ err e
unfolding schedule_from
schedule_back-eq-err routes done t budget [] e h = cc
schedule_back-eq-err routes done t budget (a ∷ rest) e h =
    elim (Result-cases (next_route routes a rest)) [
      | inl (route, p) ↦
          let b = visit t a route in
          schedule_back-cons routes done t budget a rest route p
          ∙ schedule_back-eq-err routes (b ∷ shift_back (shift_at t budget a) done) (departure b)
              (budget_at t budget a route) rest e
              (>>=-ok-eq-err (schedule_from routes (departure b) rest) _
                (rw (p, schedule_from) at h))
      | inr (e', p) ↦ unfold schedule_back in rw (p, schedule_back) (rw (p, schedule_from) at h)
    ]

-- Where the linear algorithm ends with an exception of the distance matrix, the bilinear one ends
-- with the same exception.
pub bilinear_throws :
    (routes : RouteSource) (w : Waybill) (e : Error)
    → Linear.schedule_waybill routes w ≡ err e
    → schedule_waybill routes w ≡ err e
unfolding schedule_waybill Linear.schedule_waybill
bilinear_throws routes w e h =
    let t = get_earliest_possible_start_time w in
    rw (
      schedule_back-eq-err routes [] t TimeInterval.infinity w.allocations e
        (>>=-ok-eq-err (schedule_from routes t w.allocations) _ h))
