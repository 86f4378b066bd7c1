-- ===== src/Router/Redis/Answers.antt =====
-- The store holds the backend's answers only, and the engine gives the backend's answers.
use assfire_suite.Base.{
  Text, ◌≡◌, ◌≢◌, refl, sym, ap, ◌∙◌, subst, ◌⊎◌, inl, inr, Bool, true, false, ◌||◌, not,
  Bool-cases, arith, Result, ok, err,
}
use assfire_suite.Concepts.Location
use assfire_suite.Concepts.Location.{Location}
use assfire_suite.Router.RouteDetails
use assfire_suite.Router.RouteDetails.{RouteDetails}
use assfire_suite.Router.Redis.{
  CacheEntry, CacheConnector, RedisEngine, keep_answer, retrieve_single_route_details,
  get_single_route_info, summary_of,
}

-- The entry is used, unless the engine always updates.
abbrev pub IsHit : CacheEntry → Type 0
IsHit e = (e.is_present ≡ true) × (e.is_error ≡ false)

-- What is found behind a put is what was put under this key, or was there before.
abbrev pub Remembers : (Store : Type 0) → CacheConnector Store → Type 0
Remembers Store c =
    (k k' v : Text) (s : Store)
    → IsHit (c.get k' (c.put k v s))
    → ((k' ≡ k) × ((c.get k' (c.put k v s)).payload ≡ v))
      ⊎ (IsHit (c.get k' s) × ((c.get k' (c.put k v s)).payload ≡ (c.get k' s).payload))

module _ (Store : Type 0) (m : RedisEngine Store) where
  abbrev pub key : Location → Location → Text
  key = m.serializer.serialize_key

  abbrev pub entry : Location → Location → Store → CacheEntry
  entry a b s = m.redis_client.get (key a b) s

  -- The keys tell pairs of locations apart.
  abbrev pub Distinguishes : Type 0
  Distinguishes = (a b c d : Location) → key a b ≡ key c d → (a ≡ c) × (b ≡ d)

  -- The payload is of an answer of the backend.
  abbrev pub IsAnswer : Location → Location → Text → Type 0
  IsAnswer a b payload =
      (r : RouteDetails) × (m.backend_engine.get_single_route_details a b ≡ ok r)
      × (payload ≡ m.serializer.serialize_route_details a b r)

  abbrev pub HoldsAnswers : Store → Type 0
  HoldsAnswers s = (a b : Location) → IsHit (entry a b s) → IsAnswer a b (entry a b s).payload

  -- A store that lost entries, and has the others as they were.
  abbrev pub Lost : Store → Store → Type 0
  Lost s s' =
      (a b : Location)
      → IsHit (entry a b s')
      → IsHit (entry a b s) × ((entry a b s').payload ≡ (entry a b s).payload)

  -- The calls of the engine, and entries that are lost between them; at first nothing is found.
  pub data Reached : Store → Type 0 where
    starts : (s : Store) → ((a b : Location) → IsHit (entry a b s) → ⊥) → Reached s
    loses : (s s' : Store) → Reached s → Lost s s' → Reached s'
    asks_details :
        (s : Store) (a b : Location)
        → Reached s
        → Reached (retrieve_single_route_details Store m a b s).1
    asks_info :
        (s : Store) (a b : Location) → Reached s → Reached (get_single_route_info Store m a b s).1

  -- The engine's answer to a question on the store `s`: the zero route between equal locations; else
  -- what the backend answers, if the store has no good entry or the engine always updates; else the
  -- backend's answer as it is read back from the store.
  abbrev pub Answered : Store → Location → Location → Result RouteDetails → Type 0
  Answered s a b result =
      ((a ≡ b) × (result ≡ ok (RouteDetails.zero a b)))
      ⊎ (((a ≢ b)
            × (IsHit (entry a b s) → m.force_update ≡ false → ⊥)
            × (result ≡ m.backend_engine.get_single_route_details a b))
          ⊎ ((a ≢ b)
              × IsHit (entry a b s)
              × (m.force_update ≡ false)
              × ((r : RouteDetails) × (m.backend_engine.get_single_route_details a b ≡ ok r)
                  × (result
                      ≡ ok (
                          m.serializer.deserialize_route_details a b
                            (m.serializer.serialize_route_details a b r))))))

  keep_answer-Holds :
      (a b : Location) (s : Store) (x : Result RouteDetails)
      → Distinguishes
      → Remembers Store m.redis_client
      → HoldsAnswers s
      → m.backend_engine.get_single_route_details a b ≡ x
      → HoldsAnswers (keep_answer Store m a b s x).1
  unfolding keep_answer
  keep_answer-Holds a b s (err e) i l h p = h
  keep_answer-Holds a b s (ok r) i l h p = λ c d hit.
      elim (l (key a b) (key c d) (m.serializer.serialize_route_details a b r) s hit) [
        | inl (same, payload) ↦ let (x, y) = i c d a b same in (r, cc (x, y, p), cc (x, y, payload))
        | inr (before, payload) ↦ let (r', q, e) = h c d before in (r', q, payload ∙ e)
      ]

  keep_answer-eq :
      (a b : Location) (s : Store) (x : Result RouteDetails) → (keep_answer Store m a b s x).0 ≡ x
  unfolding keep_answer
  keep_answer-eq a b s (err e) = refl
  keep_answer-eq a b s (ok r) = refl

  IsHit-cases :
      (e : CacheEntry) (f : Bool)
      → ((e.is_error || not e.is_present || f ≡ true) × (IsHit e → f ≡ false → ⊥))
        ⊎ ((e.is_error || not e.is_present || f ≡ false) × IsHit e × (f ≡ false))
  IsHit-cases e f = elim (Bool-cases (e.is_error || not e.is_present || f)) [
    | inl t ↦ inl (t, λ h k. ground arith)
    | inr t ↦ inr (t, (ground arith, ground arith), ground arith)
  ]

  -- One call, from a store that holds answers.
  retrieve_lem :
      (a b : Location) (s : Store)
      → Distinguishes
      → Remembers Store m.redis_client
      → HoldsAnswers s
      → Answered s a b (retrieve_single_route_details Store m a b s).0
        × HoldsAnswers (retrieve_single_route_details Store m a b s).1
  unfolding retrieve_single_route_details
  retrieve_lem a b s i l h =
      let ne : Location.eqb a b ≡ false → a ≢ b =
        λ off same. let on = (Location.eqb_iff a b).1 same in cc in
      elim (Bool-cases (Location.eqb a b)) [
        | inl same ↦ rw same (inl ((Location.eqb_iff a b).0 same, refl), h)
        | inr other ↦ elim (IsHit-cases (entry a b s) m.force_update) [
          | inl (miss, no_hit) ↦
              rw (other, miss)
                (
                  inr (inl (ne other, no_hit, keep_answer-eq a b s _)),
                  keep_answer-Holds a b s _ i l h refl,
                )
          | inr (found, hit, off) ↦
              let (r, p, e) = h a b hit in
              rw (other, found)
                (
                  inr (
                      inr (
                        ne other,
                        hit,
                        off,
                        (r, p, ap (λ t. ok (m.serializer.deserialize_route_details a b t)) e),
                      )),
                  h,
                )
        ]
      ]

  info_keeps_store :
      (a b : Location) (s : Store)
      → (get_single_route_info Store m a b s).1 ≡ (retrieve_single_route_details Store m a b s).1
  unfolding get_single_route_info
  info_keeps_store a b s = refl

  -- If the keys tell pairs of locations apart and the store gives back what was put under a key, or
  -- nothing: from a store where nothing is found, after any calls and losses of entries, the store
  -- holds answers of the backend only.
  pub reached-HoldsAnswers :
      (s : Store) → Distinguishes → Remembers Store m.redis_client → Reached s → HoldsAnswers s
  reached-HoldsAnswers s i l (starts _ none_found) = λ a b hit. absurd (none_found a b hit)
  reached-HoldsAnswers s' i l (loses s _ r lost) = λ a b hit.
      let (before, same) = lost a b hit in
      let (x, p, e) = reached-HoldsAnswers s i l r a b before in (x, p, same ∙ e)
  reached-HoldsAnswers _ i l (asks_details s a b r) =
      (retrieve_lem a b s i l (reached-HoldsAnswers s i l r)).1
  reached-HoldsAnswers _ i l (asks_info s a b r) =
      subst HoldsAnswers (sym (info_keeps_store a b s))
        (retrieve_lem a b s i l (reached-HoldsAnswers s i l r)).1

  -- If the keys tell pairs of locations apart and the store gives back what was put under a key, or
  -- nothing: in each state that calls and losses of entries reach from a store where nothing is found,
  -- a call for details answers with the zero route if the locations are equal. Otherwise, if the store
  -- has a good entry for them and the engine does not always update, it answers with the backend's
  -- answer as it is read back from its printed form, and if not, with what the backend answers, its
  -- exception too. A call for the summary answers with the summary of that.
  pub redis_answers :
      (s : Store) (a b : Location)
      → Distinguishes
      → Remembers Store m.redis_client
      → Reached s
      → Answered s a b (retrieve_single_route_details Store m a b s).0
        × ((get_single_route_info Store m a b s).0
            ≡ summary_of Store m (retrieve_single_route_details Store m a b s).0)
  unfolding get_single_route_info
  redis_answers s a b i l r = ((retrieve_lem a b s i l (reached-HoldsAnswers s i l r)).0, refl)
