-- ===== src/Tsp/Worker/Iteration/Release.antt =====
-- The lock of a task does not outlive the round for it.
use assfire_suite.Base.{
  ◌≡◌, ◌≢◌, refl, sym, ap, ◌∙◌, ◌⊎◌, inl, inr, Bool, true, false, not, geb_ℤ, ℤ, subst, Option,
  none, some, List, Result, ok, err, Text, if◌then◌else◌,
}
use assfire_suite.Base.Actions.{>>=-returns, Yields, Yields-bind, Yields-if, Yields-attempt}
use assfire_suite.Tsp.Task.{TspTask}
use assfire_suite.Tsp.Worker.Keys.{lock_key}
use assfire_suite.Tsp.Worker.Redis.{Reply, integer_reply, RedisClient, IsRedis}
use assfire_suite.Tsp.Worker.TaskProvider.{redis_task_provider, unlock}
use assfire_suite.Tsp.Worker.Services.{Services, TaskProvider}
use assfire_suite.Tsp.Worker.Iteration.{
  Event, Ending, skipped, finished, waits, max_attempts, Waiting, run_session, skip, solve,
  check_attempts, try_block, catch_block, clean_up, ending, after_try, after_lock, iteration,
}

module _ {World : Type 0} (services : Services World) where
  -- The last call was an unlock of the task.
  abbrev pub IsUnlocked : Text → World → Type 0
  IsUnlocked id w' = (v : World) × (services.task_provider.unlock id v ≡ (ok tt, w'))

  -- A task that is skipped was unlocked.
  abbrev Skipped : Text → Ending → World → Type 0
  Skipped id e w' = e ≡ skipped → IsUnlocked id w'

  skip-Yields : (id : Text) → Yields (Skipped id) (skip services id)
  unfolding skip
  skip-Yields id = record {
    at = λ w w' a e p.
        let (u, v, q, r) = >>=-returns (services.task_provider.unlock id) _ w w' a e in
        (w, q ∙ ap (λ (x : World). (ok tt, x)) (world-of v w' skipped a r));
  }
    where
      world-of :
          (v w' : World) (x a : Ending)
          → ◌≡◌ {A = Result Ending × World} (ok x, v) (ok a, w')
          → v ≡ w'
      world-of v w' x a e = cc

  not_skipped :
      (b : Bool) (v w' : World) (a : Ending)
      → ◌≡◌ {A = Result Ending × World} (ok (if b then finished else waits), v) (ok a, w')
      → a ≢ skipped
  not_skipped true v w' a e p = cc
  not_skipped false v w' a e p = cc

  ending-Yields :
      (id : Text) (r : Result (Unit {0}) × Waiting World) (w' : World) (a : Ending)
      → ending r ≡ (ok a, w')
      → Skipped id a w'
  ending-Yields id (err x, s) w' a e p = cc
  ending-Yields id (ok u, s) w' a e p = absurd (not_skipped s.is_done s.world w' a e p)

  solve-Yields : (id : Text) (events : List Event) → Yields (Skipped id) (solve services id events)
  unfolding solve run_session
  solve-Yields id events = Yields-bind _ _ λ found. Yields-bind _ _ λ task. Yields-bind _ _ λ saved.
      Yields-bind _ _ λ u.
        Yields-bind _ _
          λ u'. Yields-bind _ _ λ u''. record { at = λ w w' a e. ending-Yields id _ w' a e }

  check_attempts-Yields :
      (id : Text) (events : List Event) → Yields (Skipped id) (check_attempts services id events)
  unfolding check_attempts
  check_attempts-Yields id events =
      Yields-bind _ _
        λ n. Yields-if (geb_ℤ n max_attempts) _ _ (skip-Yields id) (solve-Yields id events)

  try_block-Yields :
      (id : Text) (events : List Event) → Yields (Skipped id) (try_block services id events)
  unfolding try_block
  try_block-Yields id events = Yields-bind _ _ λ over. Yields-if over _ _ (skip-Yields id) (
      Yields-bind _ _ λ paused.
        Yields-if (not paused) _ _ (check_attempts-Yields id events) (solve-Yields id events))

  catch_block-Yields : (id : Text) → Yields (Skipped id) (catch_block services id)
  unfolding catch_block
  catch_block-Yields id =
      Yields-bind _ _ λ u. Yields-bind _ _ λ u'. record { at = λ w w' a e p. cc }

  clean_up-Unlocked :
      (id : Text) (w w' : World) → clean_up services id w ≡ (ok tt, w') → IsUnlocked id w'
  unfolding clean_up
  clean_up-Unlocked id w w' e =
      let (u, v, p, q) = >>=-returns _ _ w w' tt e in
      let (u', v', p', q') = >>=-returns _ _ v w' tt q in (v', q')

  after_try-Unlocked :
      (id : Text) (r : Result Ending × World) (w' : World)
      → ((v : World) (a : Ending) → r ≡ (ok a, v) → Skipped id a v)
      → after_try services id r ≡ some (ok tt, w')
      → IsUnlocked id w'
  after_try-Unlocked id (err x, w) w' h e = cc
  after_try-Unlocked id (ok skipped, w) w' h e = h w' skipped (cc) refl
  after_try-Unlocked id (ok waits, w) w' h e = cc
  after_try-Unlocked id (ok finished, w) w' h e = clean_up-Unlocked id w w' (cc)

  -- Where a round comes to its end, the lock was refused and nothing else was done, or it was taken
  -- and the last call of the round was an unlock that returned.
  pub iteration_unlocks :
      (id : Text) (events : List Event) (w w' : World)
      → iteration services id events w ≡ some (ok tt, w')
      → (services.task_provider.try_lock id w ≡ (ok false, w'))
        ⊎ (((services.task_provider.try_lock id w).0 ≡ ok true) × IsUnlocked id w')
  unfolding iteration
  iteration_unlocks id events w w' e = by_lock (services.task_provider.try_lock id w) refl e
    where
      by_lock :
          (r : Result Bool × World)
          → services.task_provider.try_lock id w ≡ r
          → after_lock services id events r ≡ some (ok tt, w')
          → (services.task_provider.try_lock id w ≡ (ok false, w'))
            ⊎ (((services.task_provider.try_lock id w).0 ≡ ok true) × IsUnlocked id w')
      by_lock (err x, v) p e = cc
      by_lock (ok false, v) p e = inl (cc)
      by_lock (ok true, v) p e = inr (
        cc (ap (λ (r : Result Bool × World). r.0) p),
        after_try-Unlocked id _ w'
            (λ v' a q.
              (Yields-attempt _ _ (try_block-Yields id events) (λ x. catch_block-Yields id)).at v v'
                a q)
            e,
      )

module _ {World : Type 0} (services : Services World) (client : RedisClient World)
    (parse_task : Text → Result TspTask) (stored : Text → World → Option Text) where
  del-of_unlock :
      (id : Text) (w w' : World)
      → unlock client parse_task id w ≡ (ok tt, w')
      → (client.del (lock_key id) w).1 ≡ w'
  unfolding unlock
  del-of_unlock id w w' e =
      let (r, v, p, q) = >>=-returns (client.del (lock_key id)) _ w w' tt e in
      cc (ap (λ (x : Result Reply × World). x.1) p, ap (λ (x : Result (Unit {0}) × World). x.1) q)

  -- With RedisTaskProvider, if the server answers DEL with a number: where a round for a task comes
  -- to its end and has taken the lock, the lock is not stored any more, whatever has happened.
  pub iteration_frees_lock :
      (id : Text) (events : List Event) (w w' : World)
      → services.task_provider ≡ redis_task_provider client parse_task
      → IsRedis client stored
      → ((key : Text) (v : World) → (n : ℤ) × ((client.del key v).0 ≡ ok (integer_reply n)))
      → iteration services id events w ≡ some (ok tt, w')
      → (services.task_provider.try_lock id w ≡ (ok false, w')) ⊎ (stored (lock_key id) w' ≡ none)
  iteration_frees_lock id events w w' same redis answers e =
      elim (iteration_unlocks services id events w w' e) [
        | inl refused ↦ inl refused
        | inr (took, (v, p)) ↦
            let q : unlock client parse_task id v ≡ (ok tt, w') =
              subst (λ (t : TaskProvider World). t.unlock id v ≡ (ok tt, w')) same p in
            let (n, a) = answers (lock_key id) v in
            inr (
              ap (stored (lock_key id)) (sym (del-of_unlock id v w' q))
              ∙ redis.del_removes (lock_key id) v n a)
      ]
