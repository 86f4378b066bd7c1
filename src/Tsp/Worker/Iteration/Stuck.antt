-- ===== src/Tsp/Worker/Iteration/Stuck.antt =====
-- A pause whose publication throws: the session stops, and the worker waits for ever.
use assfire_suite.Base.{
  ◌≡◌, refl, sym, subst, ap, ◌∙◌, Bool, true, false, List, [], ◌∷◌, All, Error, Result, ok, err,
  Text, if_false, if◌then◌else◌,
}
use assfire_suite.Base.Actions.{
  attempt, >>=-eq-next, >>=-eq-thrown, attempt-returned, attempt-thrown, IsTotal, attempt-total,
  Keeps, Keeps-pure, Keeps-bind,
}
use assfire_suite.Tsp.Solution.{TspSolution}
use assfire_suite.Tsp.Task.{TspTask}
use assfire_suite.Tsp.Worker.Services.{Services, Effect}
use assfire_suite.Tsp.Worker.Iteration.{
  Ending, ending, Event, solution, solver_error, persists, signal, timeout, pause_signal, waits,
  Waiting, Wait, on_world, unless_interrupted, swallow, on_solution, on_signal, on_pause,
  handle_event, wait, listen, run_session,
}
use assfire_suite.Tsp.Worker.Iteration.Calm.{Calm, on_world-IsTotal, on_solution-IsTotal}

-- What a session does that was paused: it publishes solutions that are not final, and saves its state.
abbrev pub IsQuiet : Event → Type 0
IsQuiet (solution s) = s.is_final_solution ≡ false
IsQuiet solver_error = ⊥
IsQuiet (persists state) = Unit
IsQuiet (signal n) = ⊥
IsQuiet timeout = Unit

-- The services with another publication of pauses
abbrev pub with_publish_paused :
    {World : Type 0} → (Text → Effect World) → Services World → Services World
with_publish_paused publish services = record services {
  status_publisher = record services.status_publisher { publish_paused = publish };
}

module _ {World : Type 0} where
  abbrev IsOpen : Waiting World → Type 0
  IsOpen s = s.is_done ≡ false

  on_world-Keeps : (m : Effect World) → Keeps IsOpen (on_world m)
  on_world-Keeps m = record { at = λ s h. h }

  unless_interrupted-Keeps : (m : Wait World) → Keeps IsOpen m → Keeps IsOpen (unless_interrupted m)
  unless_interrupted-Keeps m k = record { at = λ s h. either s.is_interrupted s h }
    where
      either : (b : Bool) (s : Waiting World) → IsOpen s → IsOpen (if b then (ok tt, s) else m s).1
      either true s h = h
      either false s h = k.at s h

module _ {World : Type 0} (services : Services World) (id : Text) (calm : Calm services id)
    (task : TspTask) (publish : Text → Effect World) where
  abbrev failing : Services World
  failing = with_publish_paused publish services

  on_solution-Keeps :
      (s : TspSolution) → s.is_final_solution ≡ false → Keeps IsOpen (on_solution failing id task s)
  unfolding on_solution
  on_solution-Keeps s e = Keeps-bind _ _ (on_world-Keeps _) λ u.
      Keeps-bind _ _ (unless_interrupted-Keeps _ (on_world-Keeps _)) λ u'.
        subst (λ (m : Wait World). Keeps IsOpen m) (sym (if_false s.is_final_solution _ _ e))
          (Keeps-pure {P = IsOpen} tt)

  -- The event is handled, nothing is thrown, and done is not set.
  abbrev Passes : Event → Type 0
  Passes e =
      (s : Waiting World)
      → IsOpen s
      → (s' : Waiting World) × (handle_event failing id task e s ≡ (ok tt, s')) × IsOpen s'

  passes :
      (m : Wait World) (handler : Error → Wait World) (s : Waiting World)
      → IsTotal m
      → Keeps IsOpen m
      → IsOpen s
      → (s' : Waiting World) × (attempt m handler s ≡ (ok tt, s')) × IsOpen s'
  passes m handler s t k h =
      let (u, s', p) = t.at s in
      (
        s',
        attempt-total m handler s t ∙ p,
        subst (λ (r : Result (Unit {0}) × Waiting World). IsOpen r.1) p (k.at s h),
      )

  quiet-Passes : (e : Event) → IsQuiet e → Passes e
  unfolding handle_event on_solution
  quiet-Passes (solution x) q s h =
      passes _ _ s (on_solution-IsTotal services id calm task x) (on_solution-Keeps x q) h
  quiet-Passes solver_error q s h = absurd q
  quiet-Passes (persists state) q s h =
      passes _ _ s (on_world-IsTotal _ (calm.saves state)) (on_world-Keeps _) h
  quiet-Passes (signal n) q s h = absurd q
  quiet-Passes timeout q s h =
      let (u, s', p) = (on_world-IsTotal _ calm.sends_in_progress).at s in
      (
        s',
        if_false s.is_done _ _ h ∙ p,
        ap (λ (r : Result (Unit {0}) × Waiting World). r.1.is_done) (sym p) ∙ h,
      )

  quiet_wait :
      (events : List Event) (s : Waiting World)
      → All IsQuiet events
      → IsOpen s
      → (s' : Waiting World) × (wait failing id task events s ≡ (ok tt, s')) × IsOpen s'
  unfolding wait
  quiet_wait [] s q h = (s, refl, h)
  quiet_wait (e ∷ events) s q h =
      let (v, p, k) = quiet-Passes e q.0 s h in
      let (s', r, z) = quiet_wait events v q.1 k in
      (s', >>=-eq-next _ _ s v tt (attempt-returned _ _ s v tt p) ∙ r, z)

  -- The pause is ordered, and then the publication throws.
  failed_pause :
      (s : Waiting World)
      → IsOpen s
      → ((v : World) → (e : Error) × (v' : World) × (publish id v ≡ (err e, v')))
      → (s' : Waiting World) × (handle_event failing id task (signal pause_signal) s ≡ (ok tt, s'))
        × IsOpen s'
  unfolding handle_event swallow on_signal on_pause
  failed_pause s h fails =
      let ordered : Waiting World = record s { is_interrupted = true } in
      let (u, v, p) = calm.pauses.at s.world in
      let paused : Waiting World = record ordered { world = v } in
      let (e, v', q) = fails v in
      let end : Waiting World = record paused { world = v' } in
      (
        end,
        attempt-thrown _ _ s end e (
            >>=-eq-next _ _ s ordered tt refl
            ∙ >>=-eq-next _ _ ordered paused u (rw p refl)
            ∙ >>=-eq-thrown _ _ paused end e (rw q refl)),
        h,
      )

  -- If the publication of the pause throws while all other calls for the task return, then behind the
  -- signal to pause, with any solutions of the stopping solver that are not final, any saving of its
  -- state and any number of waits that run out, the session has not come to its end: the worker still
  -- waits, and holds the task.
  pub failed_pause_waits :
      (events : List Event) (w : World)
      → All IsQuiet events
      → ((v : World) → (e : Error) × (v' : World) × (publish id v ≡ (err e, v')))
      → (w' : World) × (run_session
            (with_publish_paused publish services)
            id
            task
            (signal pause_signal ∷ events)
            w
          ≡ (ok waits, w'))
  unfolding run_session listen wait
  failed_pause_waits events w q fails =
      let start : Waiting World = record { world = w; is_done = false; is_interrupted = false } in
      let (u, s, p) = (on_world-IsTotal _ calm.subscribes).at start in
      let open_still : IsOpen s =
        ap (λ (r : Result (Unit {0}) × Waiting World). r.1.is_done) (sym p) in
      let (v, r, k) = failed_pause s open_still fails in
      let (s', t, z) = quiet_wait events v q k in
      let whole =
        >>=-eq-next _ (λ x. wait failing id task (signal pause_signal ∷ events)) start s u
          (attempt-returned _ _ start s u p)
        ∙ >>=-eq-next _ _ s v tt (attempt-returned _ _ s v tt r)
        ∙ t in
      (
        s'.world,
        ap ending whole ∙ ap (λ (e : Ending). (ok e, s'.world)) (if_false s'.is_done _ _ z),
      )
