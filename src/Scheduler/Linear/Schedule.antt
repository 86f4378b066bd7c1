-- ===== src/Scheduler/Linear/Schedule.antt =====
-- The linear algorithm computes a feasible schedule of the same jobs, along the matrix's routes.
use assfire_suite.Base.{
  ◌≤ℤ◌, ◌≡◌, refl, List, [], ◌∷◌, ok, >>=-eq-ok, sym, ◌∙◌, ap, Pointwise, arith,
}
use assfire_suite.Concepts.TimePoint
use assfire_suite.Concepts.TimePoint.{TimePoint}
use assfire_suite.Router.RouteInfo.{RouteInfo}
use assfire_suite.Scheduler.Waybill.{WaybillAllocation, get_nearest_next_time_window}
use assfire_suite.Scheduler.Feasible.{opening, starts, IsPlaced, Feasible, SameJob}
use assfire_suite.Scheduler.Linear.{RouteSource, next_route, place, visit, departure, schedule_from}

pub le-max_left : (a b : TimePoint) → a.epoch_seconds ≤ℤ (TimePoint.max a b).epoch_seconds
le-max_left a b = ground arith

pub le-max_right : (a b : TimePoint) → b.epoch_seconds ≤ℤ (TimePoint.max a b).epoch_seconds
le-max_right a b = ground arith

module _ (t : TimePoint) (a : WaybillAllocation) (route : RouteInfo) where
  pub visit-IsPlaced : IsPlaced (visit t a route)
  unfolding visit place get_nearest_next_time_window
  visit-IsPlaced = (le-max_right t (opening a), refl)

  pub le-starts-visit : t.epoch_seconds ≤ℤ starts (visit t a route)
  unfolding visit place get_nearest_next_time_window
  le-starts-visit = le-max_left t (opening a)

  pub start-visit : (visit t a route).start_time ≡ TimePoint.max t (opening (visit t a route))
  unfolding visit place get_nearest_next_time_window
  start-visit = refl

  pub visit-SameJob : SameJob a (visit t a route)
  unfolding visit place
  visit-SameJob = record { windows = refl; planned = refl; located = refl }

  pub route-visit : (visit t a route).next_route_info ≡ route
  unfolding visit place
  route-visit = refl

-- Each allocation starts at the time when it is reached or when its window opens, the later of the
-- two, and the one behind it is reached from there.
abbrev pub Prompt : TimePoint → List WaybillAllocation → Type 0
Prompt t [] = Unit
Prompt t (b ∷ bs) = (b.start_time ≡ TimePoint.max t (opening b)) × Prompt (departure b) bs

-- Each allocation has the matrix's route to the next one, and the last has the zero route.
abbrev pub Routed : RouteSource → List WaybillAllocation → Type 0
Routed routes [] = Unit
Routed routes (b ∷ bs) = (next_route routes b bs ≡ ok b.next_route_info) × Routed routes bs

-- What a run that returns has computed: the head and the rest.
pub schedule_from-cons :
    (routes : RouteSource) (t : TimePoint) (a : WaybillAllocation)
    (rest bs : List WaybillAllocation)
    → schedule_from routes t (a ∷ rest) ≡ ok bs
    → (route : RouteInfo) × (done : List WaybillAllocation) × (next_route routes a rest ≡ ok route)
      × (schedule_from routes (departure (visit t a route)) rest ≡ ok done)
      × (bs ≡ visit t a route ∷ done)
unfolding schedule_from
schedule_from-cons routes t a rest bs e =
    let (route, p, q) = >>=-eq-ok (next_route routes a rest) _ e in
    let (done, r, s) = >>=-eq-ok (schedule_from routes (departure (visit t a route)) rest) _ q in
    (route, done, p, r, cc)

module _ (routes : RouteSource) where
  -- A run that returns has computed a feasible schedule from its start time on.
  pub schedule_from-Feasible :
      (t : TimePoint) (xs bs : List WaybillAllocation)
      → schedule_from routes t xs ≡ ok bs
      → Feasible t.epoch_seconds bs
  unfolding schedule_from
  schedule_from-Feasible t [] [] e = tt
  schedule_from-Feasible t [] (b ∷ bs) e = cc
  schedule_from-Feasible t (a ∷ rest) bs e =
      let (route, done, p, r, s) = schedule_from-cons routes t a rest bs e in
      rw s (
        le-starts-visit t a route,
        visit-IsPlaced t a route,
        schedule_from-Feasible (departure (visit t a route)) rest done r,
      )

  pub schedule_from-Prompt :
      (t : TimePoint) (xs bs : List WaybillAllocation)
      → schedule_from routes t xs ≡ ok bs
      → Prompt t bs
  unfolding schedule_from
  schedule_from-Prompt t [] [] e = tt
  schedule_from-Prompt t [] (b ∷ bs) e = cc
  schedule_from-Prompt t (a ∷ rest) bs e =
      let (route, done, p, r, s) = schedule_from-cons routes t a rest bs e in
      rw s (start-visit t a route, schedule_from-Prompt (departure (visit t a route)) rest done r)

  pub schedule_from-SameJob :
      (t : TimePoint) (xs bs : List WaybillAllocation)
      → schedule_from routes t xs ≡ ok bs
      → Pointwise SameJob xs bs
  unfolding schedule_from
  schedule_from-SameJob t [] [] e = tt
  schedule_from-SameJob t [] (b ∷ bs) e = cc
  schedule_from-SameJob t (a ∷ rest) bs e =
      let (route, done, p, r, s) = schedule_from-cons routes t a rest bs e in
      rw s
        (visit-SameJob t a route, schedule_from-SameJob (departure (visit t a route)) rest done r)

-- The next route of a job does not depend on its times.
pub next_route-SameJob :
    (routes : RouteSource) {a b : WaybillAllocation} (xs bs : List WaybillAllocation)
    → SameJob a b
    → Pointwise SameJob xs bs
    → next_route routes b bs ≡ next_route routes a xs
unfolding next_route
next_route-SameJob routes [] [] h k = refl
next_route-SameJob routes [] (y ∷ ys) h k = absurd k
next_route-SameJob routes (x ∷ xs) [] h k = absurd k
next_route-SameJob routes (x ∷ xs) (y ∷ ys) h k = rw (h.located, k.0.located)

pub schedule_from-Routed :
    (routes : RouteSource) (t : TimePoint) (xs bs : List WaybillAllocation)
    → schedule_from routes t xs ≡ ok bs
    → Routed routes bs
unfolding schedule_from
schedule_from-Routed routes t [] [] e = tt
schedule_from-Routed routes t [] (b ∷ bs) e = cc
schedule_from-Routed routes t (a ∷ rest) bs e =
    let (route, done, p, r, s) = schedule_from-cons routes t a rest bs e in
    let t' : TimePoint = departure (visit t a route) in
    let same = schedule_from-SameJob routes t' rest done r in
    rw s (
      next_route-SameJob routes rest done (visit-SameJob t a route) same
          ∙ p
          ∙ ap ok (sym (route-visit t a route)),
      schedule_from-Routed routes t' rest done r,
    )
