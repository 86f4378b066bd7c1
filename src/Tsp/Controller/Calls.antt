-- ===== src/Tsp/Controller/Calls.antt =====
-- What the operations of EngineTspSolutionController.cpp, each by itself, add to the calls of the
-- listener.
use assfire_suite.Base.{
  ◌≡◌, refl, sym, ap, subst, ◌∙◌, ◌⊎◌, inl, inr, Bool, true, false, Option, none, some, List, [],
  ◌∷◌, All, Error, if◌then◌else◌, if_true, if_false,
}
use assfire_suite.Tsp.Solution.{TspSolution}
use assfire_suite.Tsp.StateContainer.{TspAlgorithmState}
use assfire_suite.Tsp.Controller.{
  Controller, Call, solution_call, error_call, call_with, call_error, publish_solution, launch_task,
  persist_unfinished, after_algorithm, end_task,
}
use assfire_suite.Tsp.Controller.Order.{IsIntermediate}

module _ (Callback : Type 0) (ErrorCallback : Type 0) where
  abbrev Control : Type 0
  Control = Controller Callback ErrorCallback

  abbrev pub Calls : Type 0
  Calls = List (Call Callback ErrorCallback)

  abbrev pub ReportsIntermediate : Call Callback ErrorCallback → Type 0
  ReportsIntermediate (solution_call f s) = IsIntermediate s
  ReportsIntermediate (error_call f) = Unit

  -- All calls but the last report no final solution.
  abbrev pub FinalAtMostLast : Calls → Type 0
  FinalAtMostLast [] = Unit
  FinalAtMostLast (c ∷ older) = All ReportsIntermediate older

  -- The same, but for one error that may be reported behind them.
  abbrev pub FinalThenError : Calls → Type 0
  FinalThenError calls =
      FinalAtMostLast calls
      ⊎ ((f : ErrorCallback) × (older : Calls) × (calls ≡ error_call f ∷ older)
          × FinalAtMostLast older)

  call_with-Intermediate :
      (f : Option Callback) (s : TspSolution) (calls : Calls)
      → IsIntermediate s
      → All ReportsIntermediate calls
      → All ReportsIntermediate (call_with Callback ErrorCallback f s calls)
  call_with-Intermediate none s calls h k = k
  call_with-Intermediate (some f) s calls h k = (h, k)

  call_error-Intermediate :
      (f : Option ErrorCallback) (calls : Calls)
      → All ReportsIntermediate calls
      → All ReportsIntermediate (call_error Callback ErrorCallback f calls)
  call_error-Intermediate none calls k = k
  call_error-Intermediate (some f) calls k = (tt, k)

  weaken : (calls : Calls) → All ReportsIntermediate calls → FinalAtMostLast calls
  weaken [] h = tt
  weaken (c ∷ calls) h = h.1

  call_with-AtMostLast :
      (f : Option Callback) (s : TspSolution) (calls : Calls)
      → All ReportsIntermediate calls
      → FinalAtMostLast (call_with Callback ErrorCallback f s calls)
  call_with-AtMostLast none s calls k = weaken calls k
  call_with-AtMostLast (some f) s calls k = k

  -- A controller that has reported nothing final.
  abbrev pub IsOpen : Control → Type 0
  IsOpen c = (c.has_final_solution ≡ false) × All ReportsIntermediate c.calls

  pub publish_solution-Open :
      (s : TspSolution) (c : Control)
      → IsIntermediate s
      → IsOpen c
      → IsOpen (publish_solution Callback ErrorCallback s c)
  unfolding publish_solution
  publish_solution-Open s c h k =
      subst IsOpen (sym (if_false s.is_final_solution _ _ h))
        (h, call_with-Intermediate c.solution_listener.on_next_solution s c.calls h k.1)

  -- The last solution is final.
  pub publish_solution-Final :
      (s : TspSolution) (c : Control)
      → s.is_final_solution ≡ true
      → IsOpen c
      → ((publish_solution Callback ErrorCallback s c).has_final_solution ≡ true)
        × FinalAtMostLast (publish_solution Callback ErrorCallback s c).calls
  unfolding publish_solution
  publish_solution-Final s c h k =
      subst (λ (d : Control). (d.has_final_solution ≡ true) × FinalAtMostLast d.calls)
        (sym (if_true s.is_final_solution _ _ h))
        (h, call_with-AtMostLast c.solution_listener.on_final_solution s c.calls k.1)

  after_algorithm-Open :
      (e : Option Error) (c : Control)
      → IsOpen c
      → IsOpen (after_algorithm Callback ErrorCallback e c)
  unfolding after_algorithm persist_unfinished
  after_algorithm-Open none c k =
      subst IsOpen (sym (if_false c.has_final_solution _ _ k.0)) (k.0, k.1)
  after_algorithm-Open (some e) c k =
      (k.0, call_error-Intermediate c.solution_listener.on_error c.calls k.1)

  persist_unfinished-eq :
      (c : Control) → c.has_final_solution ≡ true → persist_unfinished Callback ErrorCallback c ≡ c
  unfolding persist_unfinished
  persist_unfinished-eq c h = if_true c.has_final_solution _ _ h

  pub end_task-Open :
      (container : TspAlgorithmState) (thrown : Option Error) (c : Control)
      → IsOpen c
      → IsOpen (end_task Callback ErrorCallback container thrown c)
  unfolding end_task
  end_task-Open container thrown c k =
      after_algorithm-Open thrown (record c { state_container = container }) (k.0, k.1)

  call_error-ThenError :
      (f : Option ErrorCallback) (calls : Calls)
      → FinalAtMostLast calls
      → FinalThenError (call_error Callback ErrorCallback f calls)
  call_error-ThenError none calls k = inl k
  call_error-ThenError (some f) calls k = inr (f, calls, refl, k)

  -- Behind a final solution.
  pub end_task-Final :
      (container : TspAlgorithmState) (thrown : Option Error) (c : Control)
      → c.has_final_solution ≡ true
      → FinalAtMostLast c.calls
      → ((end_task Callback ErrorCallback container thrown c).has_final_solution ≡ true)
        × ((end_task Callback ErrorCallback container thrown c).is_started ≡ false)
        × FinalThenError (end_task Callback ErrorCallback container thrown c).calls
  unfolding end_task after_algorithm
  end_task-Final container none c h k =
      let e = persist_unfinished-eq (record c { state_container = container }) h in
      (
        ap (λ (d : Control). d.has_final_solution) e ∙ h,
        refl,
        subst (λ (d : Control). FinalThenError d.calls) (sym e) (inl k),
      )
  end_task-Final container (some x) c h k =
      (h, refl, call_error-ThenError c.solution_listener.on_error c.calls k)

  pub launch_task-final :
      (c : Control) → c.has_final_solution ≡ true → launch_task Callback ErrorCallback c ≡ c
  unfolding launch_task
  launch_task-final c h = if_true c.has_final_solution _ _ h

  either-Open : (t : Bool) (c d : Control) → IsOpen c → IsOpen d → IsOpen (if t then c else d)
  either-Open true c d h k = h
  either-Open false c d h k = k

  pub launch_task-Open : (c : Control) → IsOpen c → IsOpen (launch_task Callback ErrorCallback c)
  unfolding launch_task
  launch_task-Open c k =
      either-Open c.has_final_solution c _ k (either-Open c.is_started c _ k (k.0, k.1))
