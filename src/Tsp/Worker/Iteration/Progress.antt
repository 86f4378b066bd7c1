-- ===== src/Tsp/Worker/Iteration/Progress.antt =====
-- The worker comes to the end of a round, unless a signal's processing throws.
use assfire_suite.Base.{
  ◌≡◌, ◌≢◌, refl, subst, ap, ◌∙◌, ◌⊎◌, inl, inr, Bool, true, false, not, geb_ℤ, some, List, [], ◌∷◌,
  Error, Result, ok, Text, if◌then◌else◌, if_true,
}
use assfire_suite.Base.Actions.{
  Action, attempt, ◌>>=◌, IsTotal, bind-IsTotal, attempt-total, >>=-eq-next,
}
use assfire_suite.Tsp.Task.{TspTask}
use assfire_suite.Tsp.Worker.Services.{Services}
use assfire_suite.Tsp.Worker.Iteration.{
  Event, max_attempts, Ending, skipped, finished, waits, Waiting, wait, listen, run_session,
  container_of, skip, solve, check_attempts, try_block, clean_up, after_try, after_lock, iteration,
}
use assfire_suite.Tsp.Worker.Iteration.Calm.{
  Calm, HasLast, IsDone, on_world-IsTotal, handle_event-Keeps, handle_event-IsTotal,
  handle_event-Finishes,
}

module _ {World : Type 0} (services : Services World) (id : Text) (calm : Calm services id)
    (task : TspTask) where
  -- The wait returns; done is set at its end if it was set before, or one of the events sets it.
  wait_lem :
      (events : List Event) (s : Waiting World)
      → (s' : Waiting World) × (wait services id task events s ≡ (ok tt, s'))
        × (IsDone s ⊎ HasLast events → IsDone s')
  unfolding wait
  wait_lem [] s = (s, refl, λ h. elim h [ inl d ↦ d | inr l ↦ absurd l ])
  wait_lem (e ∷ events) s =
      let (u, v, p) = (handle_event-IsTotal services id calm task e).at s in
      let (s', q, last) = wait_lem events v in
      (
        s',
        >>=-eq-next _ _ s v u
              (attempt-total _ _ s (handle_event-IsTotal services id calm task e) ∙ p)
            ∙ q,
        λ h. last (elim h [
          | inl d ↦ inl (
              subst (λ (r : Result (Unit {0}) × Waiting World). IsDone r.1) p
                ((handle_event-Keeps services id task e).at s d))
          | inr (inl l) ↦ inl ((handle_event-Finishes services id calm task e l).at s v u p)
          | inr (inr l) ↦ inr l
        ]),
      )

  listen_lem :
      (events : List Event) (s : Waiting World)
      → HasLast events
      → (s' : Waiting World) × (listen services id task events s ≡ (ok tt, s')) × IsDone s'
  unfolding listen
  listen_lem events s h =
      let subscribed = on_world-IsTotal _ calm.subscribes in
      let (u, v, p) = subscribed.at s in
      let (s', q, last) = wait_lem events v in
      (s', >>=-eq-next _ _ s v u (attempt-total _ _ s subscribed ∙ p) ∙ q, last (inr h))

  run_session-finishes :
      (events : List Event) (w : World)
      → HasLast events
      → (w' : World) × (run_session services id task events w ≡ (ok finished, w'))
  unfolding run_session
  run_session-finishes events w h =
      let (s', p, d) =
        listen_lem events (record { world = w; is_done = false; is_interrupted = false }) h in
      (s'.world, rw p (ap (λ (e : Ending). (ok e, s'.world)) (if_true s'.is_done _ _ d)))

module _ {World : Type 0} (services : Services World) (id : Text) (calm : Calm services id)
    (events : List Event) (has_last : HasLast events) where
  -- The try block comes to its end.
  abbrev Ends : Action World Ending → Type 0
  Ends m = (w : World) → (e : Ending) × (w' : World) × (m w ≡ (ok e, w')) × (e ≢ waits)

  bind-Ends :
      {A : Type 0} (first : Action World A) (next : A → Action World Ending)
      → IsTotal first
      → ((a : A) → Ends (next a))
      → Ends (first >>= next)
  bind-Ends first next t k w =
      let (a, v, p) = t.at w in
      let (e, w', q, n) = k a v in (e, w', >>=-eq-next first next w v a p ∙ q, n)

  if-Ends : (b : Bool) (m n : Action World Ending) → Ends m → Ends n → Ends (if b then m else n)
  if-Ends true m n h k = h
  if-Ends false m n h k = k

  skip-Ends : Ends (skip services id)
  unfolding skip
  skip-Ends = bind-Ends _ _ calm.unlocks λ u w. (skipped, w, refl, λ e. cc)

  solve-Ends : Ends (solve services id events)
  unfolding solve
  solve-Ends w =
      let (t, v, p) = calm.retrieves w in
      let (e, w', q, n) =
        bind-Ends _ _ calm.loads
          (λ saved. bind-Ends _ _ calm.publishes_started λ a. bind-Ends _ _ calm.sends_started λ b.
            bind-Ends _ _ (calm.starts t (container_of saved)) λ c x.
              let (y, r) = run_session-finishes services id calm t events x has_last in
              (finished, y, r, λ z. cc))
          v in
      (e, w', >>=-eq-next _ _ w v (some t) p ∙ >>=-eq-next _ _ v v t refl ∙ q, n)

  try_block-Ends : Ends (try_block services id events)
  unfolding try_block check_attempts
  try_block-Ends = bind-Ends _ _ calm.checks_finished λ over. if-Ends over _ _ skip-Ends (
      bind-Ends _ _ calm.checks_paused λ paused.
        if-Ends (not paused) _ _
          (bind-Ends _ _ calm.counts λ n. if-Ends (geb_ℤ n max_attempts) _ _ skip-Ends solve-Ends)
          solve-Ends)

  clean_up-IsTotal : IsTotal (clean_up services id)
  unfolding clean_up
  clean_up-IsTotal =
      bind-IsTotal _ _ calm.releases λ a. bind-IsTotal _ _ calm.unsubscribes λ b. calm.unlocks

  try_block-eq :
      (w : World) (handler : Error → Action World Ending)
      → attempt (try_block services id events) handler w ≡ try_block services id events w
  try_block-eq w handler =
      attempt-total _ handler w
        (record { at = λ v. let (e, v', p, n) = try_block-Ends v in (e, v', p) })

  after_try-ends :
      (e : Ending) (w : World)
      → e ≢ waits
      → (w' : World) × (after_try services id (ok e, w) ≡ some (ok tt, w'))
  after_try-ends skipped w n = (w, refl)
  after_try-ends waits w n = absurd (n refl)
  after_try-ends finished w n = let (u, w', p) = clean_up-IsTotal.at w in (w', ap some p)

  after_lock-ends :
      (taken : Bool) (w : World)
      → (w' : World) × (after_lock services id events (ok taken, w) ≡ some (ok tt, w'))
  after_lock-ends false w = (w, refl)
  after_lock-ends true w =
      let (e, v, p, n) = try_block-Ends w in
      let (w', q) = after_try-ends e v n in
      (w', ap (after_try services id) (try_block-eq w _ ∙ p) ∙ q)

  -- If no call for the task throws and the task can be retrieved, and among the events there is a
  -- final solution, an error of the solver, or a signal to pause or to interrupt, then the round
  -- comes to its end, wherever it starts and whatever else happens in it.
  pub iteration_ends :
      (w : World) → (w' : World) × (iteration services id events w ≡ some (ok tt, w'))
  unfolding iteration
  iteration_ends w =
      let (taken, v, p) = calm.locks.at w in
      let (w', q) = after_lock-ends taken v in (w', ap (after_lock services id events) p ∙ q)
