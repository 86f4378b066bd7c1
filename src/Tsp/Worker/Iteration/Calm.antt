-- ===== src/Tsp/Worker/Iteration/Calm.antt =====
-- What the callbacks of a round do, if no call of a service throws.
use assfire_suite.Base.{
  ℤ, ◌≡◌, refl, sym, subst, ap, ◌∙◌, ◌⊎◌, inl, inr, Bool, true, false, eqb_ℤ, some, List, [], ◌∷◌,
  Error, Result, ok, Text, if◌then◌else◌, if_true,
}
use assfire_suite.Base.Actions.{
  attempt, IsTotal, pure-IsTotal, bind-IsTotal, if-IsTotal, attempt-total, attempt-IsTotal, Keeps,
  Keeps-pure, Keeps-raise, Keeps-if, Keeps-bind, Keeps-attempt, Yields, Yields-bind,
}
use assfire_suite.Tsp.Solution.{TspSolution}
use assfire_suite.Tsp.Task.{TspTask}
use assfire_suite.Tsp.Worker.Services.{Services, Effect}
use assfire_suite.Tsp.Worker.Iteration.{
  Event, solution, solver_error, persists, signal, timeout, pause_signal, interrupt_signal, Waiting,
  Wait, on_world, set_done, set_interrupted, unless_interrupted, unless_done, swallow, on_solution,
  on_error, on_pause, on_interrupt, on_signal, handle_event,
}

-- No call of a service throws, and a task that is asked for is there.
pub record Calm {World : Type 0} (services : Services World) (id : Text) : Type 0 where
  pub locks : IsTotal (services.task_provider.try_lock id)
  pub unlocks : IsTotal (services.task_provider.unlock id)
  pub checks_finished : IsTotal (services.task_provider.is_finished id)
  pub checks_paused : IsTotal (services.task_provider.is_paused id)
  pub counts : IsTotal (services.task_provider.inc_attempts id)
  pub retrieves :
      (w : World)
      → (t : TspTask) × (w' : World) × (services.task_provider.retrieve_task id w
          ≡ (ok (some t), w'))
  pub sends_started : IsTotal (services.task_provider.send_started id)
  pub sends_error : IsTotal (services.task_provider.send_error id)
  pub sends_in_progress : IsTotal (services.task_provider.send_in_progress id)
  pub sends_paused : IsTotal (services.task_provider.send_paused id)
  pub sends_interrupted : IsTotal (services.task_provider.send_interrupted id)
  pub sends_finished : IsTotal (services.task_provider.send_finished id)
  pub releases : IsTotal (services.status_publisher.release id)
  pub publishes_started : IsTotal (services.status_publisher.publish_started id)
  pub publishes_paused : IsTotal (services.status_publisher.publish_paused id)
  pub publishes_interrupted : IsTotal (services.status_publisher.publish_interrupted id)
  pub publishes_error : IsTotal (services.status_publisher.publish_error id)
  pub publishes_finished : IsTotal (services.status_publisher.publish_finished id)
  pub publishes_new_solution :
      (s : TspSolution)
      → IsTotal (services.status_publisher.publish_new_solution id s.cost s.validation_result)
  pub loads : IsTotal (services.saved_state_manager.load_state id)
  pub saves : (state : _) → IsTotal (services.saved_state_manager.save_state id state)
  pub clears : IsTotal (services.saved_state_manager.clear_state id)
  pub publishes :
      (task : TspTask) (s : TspSolution) → IsTotal (services.solution_publisher.publish id task s)
  pub subscribes : IsTotal (services.interrupt_listener.subscribe id)
  pub unsubscribes : IsTotal (services.interrupt_listener.unsubscribe id)
  pub starts : (task : TspTask) (state : _) → IsTotal (services.engine.solve_tsp id task state)
  pub pauses : IsTotal (services.engine.pause id)
  pub interrupts : IsTotal (services.engine.interrupt id)

-- An event that sets done
abbrev pub IsLast : Event → Type 0
IsLast (solution s) = s.is_final_solution ≡ true
IsLast solver_error = Unit
IsLast (persists state) = ⊥
IsLast (signal n) = (n ≡ pause_signal) ⊎ (n ≡ interrupt_signal)
IsLast timeout = ⊥

-- One of the events is such.
abbrev pub HasLast : List Event → Type 0
HasLast [] = ⊥
HasLast (e ∷ events) = IsLast e ⊎ HasLast events

module _ {World : Type 0} where
  abbrev pub IsDone : Waiting World → Type 0
  IsDone s = s.is_done ≡ true

  pub on_world-IsTotal : (m : Effect World) → IsTotal m → IsTotal (on_world m)
  on_world-IsTotal m t = record {
    at = λ s. let (u, w', e) = t.at s.world in (tt, record s { world = w' }, rw e refl);
  }

  set_done-IsTotal : IsTotal (set_done {World = World})
  set_done-IsTotal = record { at = λ s. (tt, _, refl) }

  set_interrupted-IsTotal : IsTotal (set_interrupted {World = World})
  set_interrupted-IsTotal = record { at = λ s. (tt, _, refl) }

  either-returns :
      (b : Bool) (m : Wait World) (s : Waiting World)
      → IsTotal m
      → (u : Unit {0}) × (s' : Waiting World) × (◌≡◌ {A = Result (Unit {0}) × Waiting World}
          (if b then (ok tt, s) else m s)
          (ok u, s'))
  either-returns true m s t = (tt, s, refl)
  either-returns false m s t = t.at s

  unless_interrupted-IsTotal : (m : Wait World) → IsTotal m → IsTotal (unless_interrupted m)
  unless_interrupted-IsTotal m t = record { at = λ s. either-returns s.is_interrupted m s t }

  unless_done-IsTotal : (m : Wait World) → IsTotal m → IsTotal (unless_done m)
  unless_done-IsTotal m t = record { at = λ s. either-returns s.is_done m s t }

  swallow-IsTotal : (m : Wait World) → IsTotal m → IsTotal (swallow m)
  unfolding swallow
  swallow-IsTotal m t = attempt-IsTotal m _ t

  -- `done` stays set.
  on_world-Keeps : (m : Effect World) → Keeps IsDone (on_world m)
  on_world-Keeps m = record { at = λ s h. h }

  pub set_done-Yields : Yields (λ (u : Unit {0}) (s : Waiting World). IsDone s) set_done
  set_done-Yields = record {
    at = λ s s' u e. cc (ap (λ (r : Result (Unit {0}) × Waiting World). r.1) e);
  }

  unless_interrupted-Keeps : (m : Wait World) → Keeps IsDone m → Keeps IsDone (unless_interrupted m)
  unless_interrupted-Keeps m k = record { at = λ s h. either s.is_interrupted s h }
    where
      either : (b : Bool) (s : Waiting World) → IsDone s → IsDone (if b then (ok tt, s) else m s).1
      either true s h = h
      either false s h = k.at s h

  unless_done-Keeps : (m : Wait World) → Keeps IsDone m → Keeps IsDone (unless_done m)
  unless_done-Keeps m k = record { at = λ s h. either s.is_done s h }
    where
      either : (b : Bool) (s : Waiting World) → IsDone s → IsDone (if b then (ok tt, s) else m s).1
      either true s h = h
      either false s h = k.at s h

  set_done-Keeps : Keeps IsDone (set_done {World = World})
  set_done-Keeps = record { at = λ s h. refl }

  set_interrupted-Keeps : Keeps IsDone (set_interrupted {World = World})
  set_interrupted-Keeps = record { at = λ s h. h }

ruleset done_rules = (
  Keeps-pure, Keeps-raise, Keeps-if, Keeps-bind, Keeps-attempt, on_world-Keeps,
  unless_interrupted-Keeps, unless_done-Keeps, set_done-Keeps, set_interrupted-Keeps,
)

module _ {World : Type 0} (services : Services World) (id : Text) (task : TspTask) where
  pub handle_event-Keeps : (e : Event) → Keeps IsDone (handle_event services id task e)
  unfolding handle_event swallow on_solution on_error on_signal on_pause on_interrupt
  handle_event-Keeps (solution s) = search done_rules depth 16
  handle_event-Keeps solver_error = search done_rules depth 16
  handle_event-Keeps (persists state) = search done_rules depth 16
  handle_event-Keeps (signal n) = search done_rules depth 16
  handle_event-Keeps timeout = search done_rules depth 16

module _ {World : Type 0} (services : Services World) (id : Text) (calm : Calm services id)
    (task : TspTask) where
  pub on_solution-IsTotal : (s : TspSolution) → IsTotal (on_solution services id task s)
  unfolding on_solution
  on_solution-IsTotal s = bind-IsTotal _ _ (on_world-IsTotal _ (calm.publishes task s)) λ u.
      bind-IsTotal _ _
        (unless_interrupted-IsTotal _ (on_world-IsTotal _ (calm.publishes_new_solution s)))
        λ u'.
          if-IsTotal s.is_final_solution _ _
            (bind-IsTotal _ _ (on_world-IsTotal _ calm.publishes_finished)
              λ x. bind-IsTotal _ _ (on_world-IsTotal _ calm.sends_finished) λ y. set_done-IsTotal)
            (pure-IsTotal tt)

  on_error-IsTotal : IsTotal (on_error services id)
  unfolding on_error
  on_error-IsTotal =
      bind-IsTotal _ _ (on_world-IsTotal _ calm.publishes_error)
        λ x. bind-IsTotal _ _ (on_world-IsTotal _ calm.sends_error) λ y. set_done-IsTotal

  on_signal-IsTotal : (n : ℤ) → IsTotal (on_signal services id n)
  unfolding on_signal on_pause on_interrupt
  on_signal-IsTotal n =
      if-IsTotal (eqb_ℤ n pause_signal) _ _
        (bind-IsTotal _ _ set_interrupted-IsTotal λ a.
          bind-IsTotal _ _ (on_world-IsTotal _ calm.pauses) λ b.
            bind-IsTotal _ _ (on_world-IsTotal _ calm.publishes_paused)
              λ c. bind-IsTotal _ _ (on_world-IsTotal _ calm.sends_paused) λ d. set_done-IsTotal)
        (if-IsTotal (eqb_ℤ n interrupt_signal) _ _
          (bind-IsTotal _ _ set_interrupted-IsTotal λ a.
            bind-IsTotal _ _ (on_world-IsTotal _ calm.interrupts) λ b.
              bind-IsTotal _ _ (on_world-IsTotal _ calm.publishes_interrupted) λ c.
                bind-IsTotal _ _ (on_world-IsTotal _ calm.sends_interrupted)
                  λ d. bind-IsTotal _ _ (on_world-IsTotal _ calm.clears) λ e. set_done-IsTotal)
          (pure-IsTotal tt))

  pub handle_event-IsTotal : (e : Event) → IsTotal (handle_event services id task e)
  unfolding handle_event
  handle_event-IsTotal (solution s) = attempt-IsTotal _ _ (on_solution-IsTotal s)
  handle_event-IsTotal solver_error = swallow-IsTotal _ on_error-IsTotal
  handle_event-IsTotal (persists state) =
      attempt-IsTotal _ _ (on_world-IsTotal _ (calm.saves state))
  handle_event-IsTotal (signal n) = swallow-IsTotal _ (on_signal-IsTotal n)
  handle_event-IsTotal timeout = unless_done-IsTotal _ (on_world-IsTotal _ calm.sends_in_progress)

  -- Where `m` returns, done is set.
  abbrev pub Finishes : Wait World → Type 0
  Finishes m = Yields (λ (u : Unit {0}) (s : Waiting World). IsDone s) m

  on_error-Finishes : Finishes (on_error services id)
  unfolding on_error
  on_error-Finishes = Yields-bind _ _ λ x. Yields-bind _ _ λ y. set_done-Yields

  on_pause-Finishes : Finishes (on_pause services id)
  unfolding on_pause
  on_pause-Finishes =
      Yields-bind _ _
        λ a. Yields-bind _ _ λ b. Yields-bind _ _ λ c. Yields-bind _ _ λ d. set_done-Yields

  on_interrupt-Finishes : Finishes (on_interrupt services id)
  unfolding on_interrupt
  on_interrupt-Finishes = Yields-bind _ _ λ a.
      Yields-bind _ _
        λ b. Yields-bind _ _ λ c. Yields-bind _ _ λ d. Yields-bind _ _ λ e. set_done-Yields

  on_signal-Finishes : (n : ℤ) → IsLast (signal n) → Finishes (on_signal services id n)
  unfolding on_signal
  on_signal-Finishes n (inl e) = rw e on_pause-Finishes
  on_signal-Finishes n (inr e) = rw e on_interrupt-Finishes

  on_solution-Finishes :
      (s : TspSolution) → s.is_final_solution ≡ true → Finishes (on_solution services id task s)
  unfolding on_solution
  on_solution-Finishes s e = Yields-bind _ _ λ u. Yields-bind _ _ λ u'.
      subst (λ m. Finishes m) (sym (if_true s.is_final_solution _ _ e))
        (Yields-bind _ _ λ x. Yields-bind _ _ λ y. set_done-Yields)

  attempt-Finishes :
      (m : Wait World) (handler : Error → Wait World)
      → IsTotal m
      → Finishes m
      → Finishes (attempt m handler)
  attempt-Finishes m handler t f = record {
    at = λ s s' u e. f.at s s' u (sym (attempt-total m handler s t) ∙ e);
  }

  pub handle_event-Finishes : (e : Event) → IsLast e → Finishes (handle_event services id task e)
  unfolding handle_event swallow
  handle_event-Finishes (solution s) last =
      attempt-Finishes _ _ (on_solution-IsTotal s) (on_solution-Finishes s last)
  handle_event-Finishes solver_error last = attempt-Finishes _ _ on_error-IsTotal on_error-Finishes
  handle_event-Finishes (persists state) last = absurd last
  handle_event-Finishes (signal n) last =
      attempt-Finishes _ _ (on_signal-IsTotal n) (on_signal-Finishes n last)
  handle_event-Finishes timeout last = absurd last
