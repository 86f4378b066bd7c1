-- ===== src/Tsp/Worker/Locks/Exclusion.antt =====
-- What the locks of RedisTaskProvider.cpp exclude, whatever the order in which the workers' calls meet
-- the server.
use assfire_suite.Base.{
  ℕ, ◌≡◌, ◌≢◌, refl, sym, ap, subst, ◌∙◌, ◌⊎◌, inl, inr, true, Option, none, List, ◌∷◌, All, Result,
  ok, err, Text,
}
use assfire_suite.Base.Actions.{pure, continue, ◌>>=◌}
use assfire_suite.Tsp.Worker.Keys.{lock_key}
use assfire_suite.Tsp.Worker.Keys.Distinct.{Kind, key_of-injective}
use assfire_suite.Tsp.Worker.Redis.{
  Reply, null_reply, string_reply, integer_reply, error_reply, is_null, RedisClient, IsRedis,
}
use assfire_suite.Tsp.Worker.TaskProvider.{lock_value, try_lock, unlock}
use assfire_suite.Tsp.Worker.Locks.{
  Codec, System, Step, takes, fails, gives_back, gives_back_again, calls, Reached, starts, steps,
}
use assfire_suite.Tsp.Worker.Locks.Frames.{lock-run_call}
use assfire_suite.Tsp.Worker.Locks.Held.{
  IsStray, DistinctBut, All-Removed, DistinctBut-Removed, others-Removed, All-map, All-map-with,
  DistinctBut-more, Text-cases,
}

module _ {World : Type 0} (client : RedisClient World) (codec : Codec)
    (stored : Text → World → Option Text) (redis : IsRedis client stored) where
  pure-world :
      {A B : Type 0} (r : Result A) (f : A → B) (w : World) → (continue r (λ a. pure (f a)) w).1 ≡ w
  pure-world (ok a) f w = refl
  pure-world (err e) f w = refl

  try_lock-world :
      (id : Text) (w : World)
      → (try_lock client codec.parse_task id w).1 ≡ (client.getset (lock_key id) lock_value w).1
  unfolding try_lock ◌>>=◌
  try_lock-world id w = pure-world (client.getset (lock_key id) lock_value w).0 is_null _

  unlock-world :
      (id : Text) (w : World)
      → (unlock client codec.parse_task id w).1 ≡ (client.del (lock_key id) w).1
  unfolding unlock ◌>>=◌
  unlock-world id w = pure-world (client.del (lock_key id) w).0 (λ r. tt) _

  null-of :
      (r : Result Reply) (w : World)
      → (continue r (λ a. pure (is_null a)) w).0 ≡ ok true
      → r ≡ ok null_reply
  null-of (ok null_reply) w e = refl
  null-of (ok (string_reply t)) w e = cc
  null-of (ok (integer_reply n)) w e = cc
  null-of (ok (error_reply x)) w e = cc
  null-of (err x) w e = cc

  try_lock-null :
      (id : Text) (w : World)
      → (try_lock client codec.parse_task id w).0 ≡ ok true
      → (client.getset (lock_key id) lock_value w).0 ≡ ok null_reply
  unfolding try_lock ◌>>=◌
  try_lock-null id w e = null-of (client.getset (lock_key id) lock_value w).0 _ e

  -- The lock of the entry is stored.
  abbrev pub IsStored : World → ℕ × Text → Type 0
  IsStored w h = stored (lock_key h.1) w ≢ none

  -- Unless the task was given back by a worker that did not hold it, its lock is stored.
  abbrev pub IsKept : List Text → World → ℕ × Text → Type 0
  IsKept strays w h = IsStray h.1 strays ⊎ IsStored w h

  lock_key_ne : (a b : Text) → a ≢ b → lock_key a ≢ lock_key b
  lock_key_ne a b n e = n (key_of-injective Kind.lock Kind.lock a b e).1

  pub record IsExclusive (s : System client codec) : Type 0 where
    pub distinct : DistinctBut s.strays s.holders
    pub all_stored : All (IsKept s.strays s.world) s.holders

  -- What is stored stays so when tryLock is called, whatever it answers.
  try_lock-IsStored :
      (id : Text) (w : World) (h : ℕ × Text)
      → IsStored w h
      → IsStored (try_lock client codec.parse_task id w).1 h
  try_lock-IsStored id w h k e =
      redis.getset_keeps (lock_key id) lock_value (lock_key h.1) w k
        (ap (stored (lock_key h.1)) (sym (try_lock-world id w)) ∙ e)

  -- Only the lock that is given back is changed.
  unlock-IsStored :
      (id : Text) (w : World) (h : ℕ × Text)
      → h.1 ≢ id
      → IsStored w h
      → IsStored (unlock client codec.parse_task id w).1 h
  unlock-IsStored id w h n k e = k (
      sym (redis.del_frames (lock_key id) (lock_key h.1) w (lock_key_ne h.1 id n))
      ∙ ap (stored (lock_key h.1)) (sym (unlock-world id w))
      ∙ e)

  IsKept-map :
      (strays : List Text) (w w' : World) (h : ℕ × Text)
      → (IsStored w h → IsStored w' h)
      → IsKept strays w h
      → IsKept strays w' h
  IsKept-map strays w w' h f (inl stray) = inl stray
  IsKept-map strays w w' h f (inr k) = inr (f k)

  try_lock-IsKept :
      (id : Text) (s : System client codec)
      → IsExclusive s
      → All (IsKept s.strays (try_lock client codec.parse_task id s.world).1) s.holders
  try_lock-IsKept id s h =
      All-map (IsKept s.strays s.world) _ s.holders
        (λ x k. IsKept-map s.strays s.world _ x (try_lock-IsStored id s.world x) k) h.all_stored

  unlock-IsKept :
      (id : Text) (w : World) (strays : List Text) (h : ℕ × Text)
      → (h.1 ≡ id → IsStray id strays)
      → IsKept strays w h
      → IsKept strays (unlock client codec.parse_task id w).1 h
  unlock-IsKept id w strays h f k = elim (Text-cases h.1 id) [
    | inl e ↦ inl (subst (λ i. IsStray i strays) (sym e) (f e))
    | inr n ↦ IsKept-map strays w _ h (unlock-IsStored id w h n) k
  ]

  IsKept-more :
      (id : Text) (strays : List Text) (w : World) (h : ℕ × Text)
      → IsKept strays w h
      → IsKept (id ∷ strays) w h
  IsKept-more id strays w h (inl stray) = inl (inr stray)
  IsKept-more id strays w h (inr k) = inr k

  -- A lock that was free is held by nobody else, but for a stray one.
  free-others :
      (id : Text) (s : System client codec) (h : ℕ × Text)
      → stored (lock_key id) s.world ≡ none
      → IsKept s.strays s.world h
      → h.1 ≡ id
      → IsStray id s.strays
  free-others id s h free (inl stray) e = subst (λ i. IsStray i s.strays) e stray
  free-others id s h free (inr k) e = absurd (k (ap (λ i. stored (lock_key i) s.world) e ∙ free))

  Step-IsExclusive :
      (s t : System client codec) → Step client codec s t → IsExclusive s → IsExclusive t
  Step-IsExclusive s _ (takes p id _ e) h =
      let was : (stored (lock_key id) s.world ≡ none)
          × (stored (lock_key id) (client.getset (lock_key id) lock_value s.world).1 ≢ none) =
        redis.getset_null (lock_key id) lock_value s.world (try_lock-null id s.world e) in
      record {
        distinct = (
          All-map (IsKept s.strays s.world) _ s.holders (λ x k. free-others id s x was.0 k)
              h.all_stored,
          h.distinct,
        );
        all_stored = (
          inr (λ z. was.1 (ap (stored (lock_key id)) (sym (try_lock-world id s.world)) ∙ z)),
          try_lock-IsKept id s h,
        );
      }
  Step-IsExclusive s _ (fails id _ n) h = record {
    distinct = h.distinct;
    all_stored = try_lock-IsKept id s h;
  }
  Step-IsExclusive s _ (gives_back p id _ rest r) h = record {
    distinct = DistinctBut-Removed s.strays r h.distinct;
    all_stored =
        All-map-with (λ x. x.1 ≡ id → IsStray id s.strays) (IsKept s.strays s.world) _ rest
          (λ x n k. unlock-IsKept id s.world s.strays x n k) (others-Removed s.strays r h.distinct)
          (All-Removed _ r h.all_stored);
  }
  Step-IsExclusive s _ (gives_back_again id _) h = record {
    distinct = DistinctBut-more id s.strays s.holders h.distinct;
    all_stored =
        All-map (IsKept s.strays s.world) _ s.holders
          (λ x k.
            unlock-IsKept id s.world (id ∷ s.strays) x (λ e. inl refl)
              (IsKept-more id s.strays s.world x k))
          h.all_stored;
  }
  Step-IsExclusive s _ (calls c _) h = record {
    distinct = h.distinct;
    all_stored =
        All-map (IsKept s.strays s.world) _ s.holders
          (λ x k.
            IsKept-map s.strays s.world _ x
              (λ j e. j (sym (lock-run_call client codec stored redis c x.1 s.world) ∙ e)) k)
          h.all_stored;
  }

  -- Any calls of any workers in any order, whatever the answers and the exceptions of the server are:
  -- a task is held twice only if some worker has given it back without holding it any more, and the
  -- lock of each other task that is held is stored.
  pub reached-IsExclusive : (s : System client codec) → Reached client codec s → IsExclusive s
  reached-IsExclusive _ (starts w) = record { distinct = tt; all_stored = tt }
  reached-IsExclusive t (steps s _ r step) = Step-IsExclusive s t step (reached-IsExclusive s r)
