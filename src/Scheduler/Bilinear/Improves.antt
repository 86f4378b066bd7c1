-- ===== src/Scheduler/Bilinear/Improves.antt =====
-- The bilinear schedule against the linear one: nothing starts earlier, nothing that can be on time
-- is made late, and the last allocation is the same.
use mathlib.Core.List.{append-nil, reverse-cons}
use assfire_suite.Base.{
  ℤ, pos, ◌-ℤ◌, ◌≤ℤ◌, ◌≡◌, ◌⊎◌, inl, inr, refl, ap, sym, ◌∙◌, parts_eq, List, [], ◌∷◌, ◌++◌,
  reverse, reverse-cons-append, ok, Pointwise, Pointwise-reverse, Pointwise-map, int_laws,
}
use assfire_suite.Concepts.TimePoint.{TimePoint}
use assfire_suite.Concepts.TimeInterval.{TimeInterval}
use assfire_suite.Router.RouteInfo.{RouteInfo}
use assfire_suite.Scheduler.Waybill.{WaybillAllocation, get_nearest_next_time_window}
use assfire_suite.Scheduler.Feasible.{closes, starts, ends, SamePlan, NotLater, closes-SameJob}
use assfire_suite.Scheduler.Linear.{RouteSource, visit, departure, schedule_from}
use assfire_suite.Scheduler.Linear.Schedule.{schedule_from-cons, visit-SameJob}
use assfire_suite.Scheduler.Bilinear.{moved, shift_back, schedule_back}
use assfire_suite.Scheduler.Bilinear.Visit.{
  shift_for_nonneg, shift_for_within, budget_after-le, budget_after_slack,
}
use assfire_suite.Scheduler.Bilinear.Moved.{
  starts-moved, ends-moved, closes-moved, route-moved, moved-SameJob,
}
use assfire_suite.Scheduler.Bilinear.Rounds.{shift_at, budget_at, schedule_back-cons}

-- `b` is `l` at its time, or later and in time for its window.
abbrev pub Improves : WaybillAllocation → WaybillAllocation → Type 0
Improves b l = SamePlan l b × NotLater l b × ((starts b ≡ starts l) ⊎ (ends b ≤ℤ closes b))

abbrev InBudget : ℤ → WaybillAllocation → WaybillAllocation → Type 0
InBudget budget b l = Improves b l × (budget ≤ℤ closes b -ℤ ends b)

module _ (budget rest : ℤ) (i : TimeInterval) (h : pos 0 ≤ℤ i.seconds)
    (k : (i.seconds ≡ pos 0) ⊎ (i.seconds ≤ℤ budget)) (m : rest ≤ℤ budget -ℤ i.seconds) where
  moved-SamePlan : (b l : WaybillAllocation) → SamePlan l b → SamePlan l (moved i b)
  moved-SamePlan b l p =
      let s = moved-SameJob i b h in
      record {
        job = record {
          windows = p.job.windows ∙ s.windows;
          planned = p.job.planned ∙ s.planned;
          located = p.job.located ∙ s.located;
        };
        route = p.route ∙ sym (route-moved i b h);
      }

  moved-timely :
      (b l : WaybillAllocation)
      → InBudget budget b l
      → (starts (moved i b) ≡ starts l) ⊎ (ends (moved i b) ≤ℤ closes (moved i b))
  moved-timely b l v = elim k [
    | inl e ↦ elim v.0.2 [
      | inl q ↦ inl (omega (int_laws, parts_eq e, parts_eq q, parts_eq (starts-moved i b h)))
      | inr q ↦
          inr (
            omega
              (int_laws, parts_eq e, parts_eq (ends-moved i b h), parts_eq (closes-moved i b h)))
    ]
    | inr e ↦
        inr (omega (int_laws, v.1, parts_eq (ends-moved i b h), parts_eq (closes-moved i b h)))
  ]

  moved-InBudget : (b l : WaybillAllocation) → InBudget budget b l → InBudget rest (moved i b) l
  moved-InBudget b l v = (
    (
      moved-SamePlan b l v.0.0,
      (
        omega (int_laws, v.0.1.0, parts_eq (starts-moved i b h)),
        omega (int_laws, v.0.1.1, parts_eq (ends-moved i b h)),
      ),
      moved-timely b l v,
    ),
    omega (int_laws, v.1, parts_eq (ends-moved i b h), parts_eq (closes-moved i b h)),
  )

  shift_back-InBudget :
      (bs ls : List WaybillAllocation)
      → Pointwise (InBudget budget) bs ls
      → Pointwise (InBudget rest) (shift_back i bs) ls
  unfolding shift_back
  shift_back-InBudget [] [] v = tt
  shift_back-InBudget [] (l ∷ ls) v = absurd v
  shift_back-InBudget (b ∷ bs) [] v = absurd v
  shift_back-InBudget (b ∷ bs) (l ∷ ls) v = (moved-InBudget b l v.0, shift_back-InBudget bs ls v.1)

visit-InBudget :
    (t : TimePoint) (budget : TimeInterval) (a : WaybillAllocation) (route : RouteInfo)
    → InBudget (budget_at t budget a route).seconds (visit t a route) (visit t a route)
unfolding get_nearest_next_time_window
visit-InBudget t budget a route = (
  (
    record { job = record { windows = refl; planned = refl; located = refl }; route = refl },
    (omega int_laws, omega int_laws),
    inl refl,
  ),
  rw (sym (closes-SameJob (visit-SameJob t a route)))
      (budget_after_slack budget (shift_at t budget a) _ (visit t a route)),
)

-- Where the linear algorithm returns, the bilinear loop returns a schedule that improves on it.
pub schedule_back-Improves :
    (routes : RouteSource) (done ldone : List WaybillAllocation) (t : TimePoint)
    (budget : TimeInterval) (xs ls : List WaybillAllocation)
    → schedule_from routes t xs ≡ ok ls
    → Pointwise (InBudget budget.seconds) done ldone
    → (bs : List WaybillAllocation) × (schedule_back routes done t budget xs ≡ ok bs)
      × Pointwise Improves bs (reverse ldone ++ ls)
unfolding schedule_back schedule_from
schedule_back-Improves routes done ldone t budget [] (l ∷ ls) e v = cc
schedule_back-Improves routes done ldone t budget [] [] e v = (
  reverse done,
  refl,
  rw (sym (append-nil (reverse done))) (
      Pointwise-reverse Improves done ldone [] []
        (Pointwise-map (InBudget budget.seconds) Improves done ldone (λ b l p. p.0) v) tt),
)
schedule_back-Improves routes done ldone t budget (a ∷ rest) ls e v =
    let (route, ls', p, r, q) = schedule_from-cons routes t a rest ls e in
    let b = visit t a route in
    let i = shift_at t budget a in
    let budget' = budget_at t budget a route in
    let (bs, back, good) =
      schedule_back-Improves routes (b ∷ shift_back i done) (b ∷ ldone) (departure b) budget' rest
        ls' r
        (
          visit-InBudget t budget a route,
          shift_back-InBudget budget.seconds budget'.seconds i (shift_for_nonneg t budget _)
              (shift_for_within t budget _) (budget_after-le budget i _ b) done ldone v,
        ) in
    (
      bs,
      schedule_back-cons routes done t budget a rest route p ∙ back,
      rw (q, sym (reverse-cons-append b ldone ls')) good,
    )

-- Both end on the same allocation, at the same times.
abbrev pub EndAlike : List WaybillAllocation → List WaybillAllocation → Type 0
EndAlike bs ls =
    (before : List WaybillAllocation) × (lbefore : List WaybillAllocation) × (b : WaybillAllocation)
    × (bs ≡ before ++ b ∷ [])
    × (ls ≡ lbefore ++ b ∷ [])

pub schedule_back-EndAlike :
    (routes : RouteSource) (done : List WaybillAllocation) (t : TimePoint) (budget : TimeInterval)
    (a : WaybillAllocation) (rest ls bs : List WaybillAllocation)
    → schedule_from routes t (a ∷ rest) ≡ ok ls
    → schedule_back routes done t budget (a ∷ rest) ≡ ok bs
    → EndAlike bs ls
unfolding schedule_back schedule_from
schedule_back-EndAlike routes done t budget a [] ls bs e f =
    let (route, ls', p, r, q) = schedule_from-cons routes t a [] ls e in
    let g = sym (schedule_back-cons routes done t budget a [] route p) ∙ f in
    (
      reverse (shift_back (shift_at t budget a) done),
      [],
      visit t a route,
      cc (reverse-cons (visit t a route) (shift_back (shift_at t budget a) done)),
      cc,
    )
schedule_back-EndAlike routes done t budget a (c ∷ rest) ls bs e f =
    let (route, ls', p, r, q) = schedule_from-cons routes t a (c ∷ rest) ls e in
    let b = visit t a route in
    let g = sym (schedule_back-cons routes done t budget a (c ∷ rest) route p) ∙ f in
    let (before, lbefore, z, x, y) =
      schedule_back-EndAlike routes (b ∷ shift_back (shift_at t budget a) done) (departure b)
        (budget_at t budget a route) c rest ls' bs r g in
    (before, b ∷ lbefore, z, x, q ∙ ap (λ (l : List WaybillAllocation). b ∷ l) y)
