-- ===== src/Tsp/Controller/FinalOnce.antt =====
-- What the listener of EngineTspSolutionController.cpp is told of final solutions, whatever is called
-- while tasks run.
use assfire_suite.Base.{
  ◌≡◌, refl, sym, ap, subst, ◌∙◌, ◌⊎◌, inl, inr, true, false, Bool-cases, Option, List, [], ◌∷◌,
  reverse, All, Error,
}
use assfire_suite.Tsp.Solution.{TspSolution}
use assfire_suite.Tsp.StateContainer.{TspAlgorithmState}
use assfire_suite.Tsp.Controller.{
  Ran, Controller, TspSolutionListener, init, interrupt, publish_solution, launch_task, end_task,
}
use assfire_suite.Tsp.Controller.Order.{
  IsProper, true≢false, FinalLast, FinalLast-tail, FinalLast-final, IsProper-FinalLast,
}
use assfire_suite.Tsp.Controller.Calls.{
  ReportsIntermediate, FinalAtMostLast, FinalThenError, IsOpen, publish_solution-Open,
  publish_solution-Final, end_task-Open, end_task-Final, launch_task-final, launch_task-Open,
}

module _ (Callback : Type 0) (ErrorCallback : Type 0) where
  abbrev Control : Type 0
  Control = Controller Callback ErrorCallback

  -- The controller, with the solutions that the task that runs would still publish.
  pub record System : Type 0 where
    pub controller : Control
    pub upcoming : List TspSolution

  -- Each call is one step. A task is started for a call of the algorithm, publishes the solutions of
  -- that call one by one, and ends at any point of it, with or without an exception: it may be
  -- interrupted, and the algorithm, a callback or persist may throw.
  pub data Step : System → System → Type 0 where
    launches :
        (c : Control) (us : List TspSolution) (ran : Ran)
        → IsProper ran
        → c.is_started ≡ false
        → (launch_task Callback ErrorCallback c).is_started ≡ true
        → Step
            (record { controller = c; upcoming = us })
            (record {
              controller = launch_task Callback ErrorCallback c;
              upcoming = reverse ran.published;
            })
    launches_nothing :
        (c : Control) (us : List TspSolution)
        → launch_task Callback ErrorCallback c ≡ c
        → Step
            (record { controller = c; upcoming = us })
            (record { controller = launch_task Callback ErrorCallback c; upcoming = us })
    interrupts :
        (c : Control) (us : List TspSolution)
        → Step
            (record { controller = c; upcoming = us })
            (record { controller = interrupt Callback ErrorCallback c; upcoming = us })
    publishes :
        (c : Control) (s : TspSolution) (us : List TspSolution)
        → c.is_started ≡ true
        → Step
            (record { controller = c; upcoming = s ∷ us })
            (record { controller = publish_solution Callback ErrorCallback s c; upcoming = us })
    ends :
        (c : Control) (us : List TspSolution) (container : TspAlgorithmState)
        (thrown : Option Error)
        → c.is_started ≡ true
        → Step
            (record { controller = c; upcoming = us })
            (record {
              controller = end_task Callback ErrorCallback container thrown c;
              upcoming = us;
            })

  pub data Reached : System → Type 0 where
    starts :
        (container : TspAlgorithmState) (l : TspSolutionListener Callback ErrorCallback)
        → Reached (record { controller = init Callback ErrorCallback container l; upcoming = [] })
    steps : (c d : System) → Reached c → Step c d → Reached d

  -- Nothing final was published, and the task that runs ends with a final solution at most; or a final
  -- one was published, the task that runs publishes nothing more, and it is the last that was reported;
  -- or no task runs any more, and an error at most was reported behind it.
  abbrev pub IsOnce : System → Type 0
  IsOnce s =
      ((s.controller.has_final_solution ≡ false)
        × All (ReportsIntermediate Callback ErrorCallback) s.controller.calls
        × FinalLast s.upcoming)
      ⊎ ((s.controller.has_final_solution ≡ true)
          × (((s.upcoming ≡ []) × FinalAtMostLast Callback ErrorCallback s.controller.calls)
              ⊎ ((s.controller.is_started ≡ false)
                  × FinalThenError Callback ErrorCallback s.controller.calls)))

  interrupt-Once :
      (c : Control) (us : List TspSolution)
      → IsOnce (record { controller = c; upcoming = us })
      → IsOnce (record { controller = interrupt Callback ErrorCallback c; upcoming = us })
  unfolding interrupt
  interrupt-Once c us k = k

  publish_solution-Once :
      (c : Control) (s : TspSolution) (us : List TspSolution)
      → IsOpen Callback ErrorCallback c
      → FinalLast (s ∷ us)
      → IsOnce (record { controller = publish_solution Callback ErrorCallback s c; upcoming = us })
  publish_solution-Once c s us k last = elim (Bool-cases s.is_final_solution) [
    | inl e ↦
        let published = publish_solution-Final Callback ErrorCallback s c e k in
        inr (published.0, inl (FinalLast-final s us e last, published.1))
    | inr e ↦
        let published = publish_solution-Open Callback ErrorCallback s c e k in
        inl (published.0, published.1, FinalLast-tail s us last)
  ]

  cons≢nil : (s : TspSolution) (us : List TspSolution) → s ∷ us ≡ [] → ⊥
  cons≢nil s us e = cc

  Step-IsOnce : (s t : System) → Step s t → IsOnce s → IsOnce t
  Step-IsOnce _ _ (launches c us ran p off on) (inl (h, k, last)) =
      let kept = launch_task-Open Callback ErrorCallback c (h, k) in
      inl (kept.0, kept.1, IsProper-FinalLast ran p)
  Step-IsOnce _ _ (launches c us ran p off on) (inr (h, k)) =
      let same =
        ap (λ (d : Control). d.is_started) (launch_task-final Callback ErrorCallback c h) in
      absurd (true≢false (sym on ∙ same ∙ off))
  Step-IsOnce _ _ (launches_nothing c us e) k =
      subst (λ (d : Control). IsOnce (record { controller = d; upcoming = us })) (sym e) k
  Step-IsOnce _ _ (interrupts c us) k = interrupt-Once c us k
  Step-IsOnce _ _ (publishes c s us on) (inl (h, k, last)) =
      publish_solution-Once c s us (h, k) last
  Step-IsOnce _ _ (publishes c s us on) (inr (h, inl (e, k))) = absurd (cons≢nil s us e)
  Step-IsOnce _ _ (publishes c s us on) (inr (h, inr (off, k))) = absurd (true≢false (sym on ∙ off))
  Step-IsOnce _ _ (ends c us container thrown on) (inl (h, k, last)) =
      let kept = end_task-Open Callback ErrorCallback container thrown c (h, k) in
      inl (kept.0, kept.1, last)
  Step-IsOnce _ _ (ends c us container thrown on) (inr (h, inl (e, k))) =
      let end = end_task-Final Callback ErrorCallback container thrown c h k in
      inr (end.0, inr (end.1, end.2))
  Step-IsOnce _ _ (ends c us container thrown on) (inr (h, inr (off, k))) =
      absurd (true≢false (sym on ∙ off))

  -- With algorithms whose calls publish intermediate solutions, and behind them at most one final one,
  -- and whatever launches, interrupts, publications and ends of tasks follow each other, each as one
  -- step, with or without an exception of the algorithm, of a callback or of persist: as long as no
  -- final solution was published, the listener was told of intermediate solutions and errors only;
  -- once one was published, the task that runs publishes nothing more, no other is started, and all
  -- that the listener was told before the final solution is intermediate solutions and errors, and
  -- behind it one error at most.
  pub reached-IsOnce : (s : System) → Reached s → IsOnce s
  reached-IsOnce _ (starts container l) = inl (refl, tt, tt)
  reached-IsOnce t (steps s _ r step) = Step-IsOnce s t step (reached-IsOnce s r)
