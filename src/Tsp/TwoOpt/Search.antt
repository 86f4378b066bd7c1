-- ===== src/Tsp/TwoOpt/Search.antt =====
-- The loop of the search, the while loop of solveTsp: how it ends, with or without an interrupt.
use assfire_suite.Base.{
  ℕ, zero, suc, ◌+◌, ◌<◌, ◌≤◌, ℤ, ◌≡◌, refl, sym, ap, subst, ◌∙◌, ◌⊎◌, inl, inr, Bool, true, false,
  Bool-cases, Option, none, some, List, length, Error, arith,
}
use assfire_suite.Concepts.Double.{Fpu}
use assfire_suite.Tsp.Outcome.{Outcome, done, throws}
use assfire_suite.Tsp.Task.{TspTask}
use assfire_suite.Tsp.Estimator.{TspEstimator}
use assfire_suite.Tsp.StateContainer.{TspAlgorithmState}
use assfire_suite.Tsp.TwoOpt.{
  State, Run, next_state, try_reversal, save_state, save_if_interrupted, search,
}
use assfire_suite.Tsp.TwoOpt.Next.{InRange, left, next_state-InRange}
use assfire_suite.Tsp.TwoOpt.Moves.{DefinedOn, IsSearching, Move, try_reversal-Moved}

-- A call of isInterrupted that answers true is followed by such calls only.
abbrev pub Lasting : (ℕ → Bool) → Type 0
Lasting reads = (n m : ℕ) → n ≤ m → reads n ≡ true → reads m ≡ true

lt_suc-cases : (j n : ℕ) → j < suc n → (j < n) ⊎ (j ≡ n)
lt_suc-cases j n h = ground arith

module _ (fpu : Fpu) (estimator : TspEstimator) (task : TspTask) (points : List ℤ) where
  -- The container behind the loop. A loop that comes to its end leaves it alone. One that stops at
  -- the state `s` stops because of the first call of isInterrupted that answers true, the call `k`: the
  -- calls at the head of a round have the even numbers, and the container is left alone behind them;
  -- those at the end of a round have the odd ones, and `s` is saved with the current solution.
  abbrev pub Saved : (ℕ → Bool) → TspAlgorithmState → Option State → Run → Type 0
  Saved reads before none r = r.container ≡ before
  Saved reads before (some s) r =
      (k : ℕ) × (rounds : ℕ) × (reads k ≡ true)
      × ((j : ℕ) → j < k → reads j ≡ false)
      × (((k ≡ rounds + rounds) × (r.container ≡ before))
          ⊎ ((k ≡ suc (rounds + rounds))
              × (r.container ≡ save_state s before r.current_solution.sequence task)))

  abbrev pub StopsInRange : Option State → Type 0
  StopsInRange none = Unit
  StopsInRange (some s) = InRange (length points) s

  -- What the loop ends with.
  abbrev pub Ended : (ℕ → Bool) → TspAlgorithmState → Option (Outcome (Option State × Run)) → Type 0
  Ended reads before m =
      ((s : Option State) × (r : Run) × (m ≡ some (done (s, r)))
        × IsSearching fpu points r
        × StopsInRange s
        × Saved reads before s r)
      ⊎ ((e : Error) × (m ≡ some (throws e)))

  Ended-eq :
      (reads : ℕ → Bool) (a b : TspAlgorithmState) (m n : Option (Outcome (Option State × Run)))
      → a ≡ b
      → m ≡ n
      → Ended reads a n
      → Ended reads b m
  Ended-eq reads a b m n e p h =
      subst (λ x. Ended reads x m) e (subst (λ x. Ended reads a x) (sym p) h)

  IsSearching-container :
      (r : Run) (c : TspAlgorithmState)
      → IsSearching fpu points r
      → IsSearching fpu points (record r { container = c })
  IsSearching-container r c h = record {
    current = h.current;
    is_order = h.is_order;
    complete = h.complete;
    older = h.older;
    last = h.last;
    orders = h.orders;
    descending = h.descending;
    not_final = h.not_final;
  }

  -- A loop that is interrupted at its head.
  stopped :
      (fuel : ℕ) (reads : ℕ → Bool) (n : ℕ) (s : State) (r : Run)
      → 0 < fuel
      → reads n ≡ true
      → search fpu estimator task fuel reads n (some s) r ≡ some (done (some s, r))
  unfolding search
  stopped zero reads n s r f h = absurd (omega arith)
  stopped (suc fuel) reads n s r f h = rw h

  finished :
      (fuel : ℕ) (reads : ℕ → Bool) (n : ℕ) (r : Run)
      → 0 < fuel
      → search fpu estimator task fuel reads n none r ≡ some (done (none, r))
  unfolding search
  finished zero reads n r h = absurd (omega arith)
  finished (suc fuel) reads n r h = refl

  -- One round of it otherwise.
  round :
      (fuel : ℕ) (reads : ℕ → Bool) (n : ℕ) (s : State) (r r' : Run) (next : Option State)
      (t : Bool)
      → reads n ≡ false
      → try_reversal fpu estimator task s r ≡ done r'
      → next_state s ≡ next
      → reads (suc n) ≡ t
      → search fpu estimator task (suc fuel) reads n (some s) r
        ≡ search fpu estimator task fuel reads
            (n + 2)
            next
            (save_if_interrupted fpu estimator task t next r')
  unfolding search
  round fuel reads n s r r' next t h e p q = rw h (rw (e, p, q))

  failed :
      (fuel : ℕ) (reads : ℕ → Bool) (n : ℕ) (s : State) (r : Run) (x : Error)
      → reads n ≡ false
      → try_reversal fpu estimator task s r ≡ throws x
      → search fpu estimator task (suc fuel) reads n (some s) r ≡ some (throws x)
  unfolding search
  failed fuel reads n s r x h e = rw h (rw e)

  quiet-suc :
      (reads : ℕ → Bool) (n : ℕ)
      → ((j : ℕ) → j < n → reads j ≡ false)
      → reads n ≡ false
      → (j : ℕ) → j < suc n
      → reads j ≡ false
  quiet-suc reads n quiet off j h = elim (lt_suc-cases j n h) [
    | inl less ↦ quiet j less
    | inr same ↦ ap reads same ∙ off
  ]

  -- After a move that has a next state.
  next_round :
      (fuel : ℕ) (reads : ℕ → Bool) (n rounds : ℕ) (t : State) (r : Run) (on : Bool)
      → Lasting reads
      → n ≡ rounds + rounds
      → ((j : ℕ) → j < suc n → reads j ≡ false)
      → reads (suc n) ≡ on
      → 0 < fuel
      → InRange (length points) t
      → IsSearching fpu points r
      → (reads (suc n) ≡ false
          → Ended reads r.container (search fpu estimator task fuel reads (n + 2) (some t) r))
      → Ended reads r.container (
          search fpu estimator task fuel reads
            (n + 2)
            (some t)
            (save_if_interrupted fpu estimator task on (some t) r))
  next_round fuel reads n rounds t r false m even quiet e f range h rest = rest e
  next_round fuel reads n rounds t r true m even quiet e f range h rest =
      let c = save_state t r.container r.current_solution.sequence task in
      let saved : Run = record r { container = c } in
      inl (
        some t,
        saved,
        stopped fuel reads (n + 2) t saved f (m (suc n) (n + 2) (omega arith) e),
        IsSearching-container r c h,
        range,
        (suc n, rounds, e, quiet, inr (ap suc even, refl)),
      )

  pub search-Ended :
      (fuel : ℕ) (reads : ℕ → Bool) (n rounds : ℕ) (s : State) (r : Run)
      → DefinedOn estimator points
      → Lasting reads
      → n ≡ rounds + rounds
      → ((j : ℕ) → j < n → reads j ≡ false)
      → InRange (length points) s
      → IsSearching fpu points r
      → suc (left s) < fuel
      → Ended reads r.container (search fpu estimator task fuel reads n (some s) r)
  search-Ended zero reads n rounds s r d m even quiet range h f = absurd (omega arith)
  search-Ended (suc fuel) reads n rounds s r d m even quiet range h f =
      elim (Bool-cases (reads n)) [
        | inl on ↦ inl (
          some s,
          r,
          stopped (suc fuel) reads n s r (omega arith) on,
          h,
          range,
          (n, rounds, on, quiet, inl (even, refl)),
        )
        | inr off ↦ elim (try_reversal-Moved fpu estimator task points s r d range h) [
          | inr (x, e) ↦ inr (x, failed fuel reads n s r x off e)
          | inl (r', e, good, same, move) ↦ elim (next_state-InRange (length points) s range) [
            | inl stop ↦ inl (
              none,
              r',
              round fuel reads n s r r' none _ off e stop refl
                  ∙ finished fuel reads (n + 2) r' (omega arith),
              good,
              tt,
              same,
            )
            | inr (t, p, near, less) ↦
                let before = quiet-suc reads n quiet off in
                Ended-eq reads r'.container r.container _ _ same
                  (round fuel reads n s r r' (some t) _ off e p refl)
                  (next_round fuel reads n rounds t r' (reads (suc n)) m even before refl
                    (omega arith) near good
                    (λ on.
                      search-Ended fuel reads (n + 2) (suc rounds) t r' d m (omega arith)
                        (λ j k. quiet-suc reads (suc n) before on j (omega arith)) near good
                        (omega arith)))
          ]
        ]
      ]

  -- The moves of a loop that comes to its end: one at each of the states from `s` on, up to the state
  -- that has no next one.
  pub data Passes : State → Run → Run → Type 0 where
    ends :
        (s : State) (r r' : Run) → Move fpu estimator s r r' → next_state s ≡ none → Passes s r r'
    goes_on :
        (s t : State) (r r' r'' : Run)
        → Move fpu estimator s r r'
        → next_state s ≡ some t
        → Passes t r' r''
        → Passes s r r''

  -- A loop that is never interrupted comes to its end.
  pub search-finishes :
      (fuel : ℕ) (reads : ℕ → Bool) (n : ℕ) (s : State) (r : Run)
      → DefinedOn estimator points
      → ((m : ℕ) → reads m ≡ false)
      → InRange (length points) s
      → IsSearching fpu points r
      → suc (left s) < fuel
      → ((r' : Run) × (search fpu estimator task fuel reads n (some s) r ≡ some (done (none, r')))
          × IsSearching fpu points r'
          × Passes s r r')
        ⊎ ((e : Error) × (search fpu estimator task fuel reads n (some s) r ≡ some (throws e)))
  search-finishes zero reads n s r d off range h f = absurd (omega arith)
  search-finishes (suc fuel) reads n s r d off range h f =
      elim (try_reversal-Moved fpu estimator task points s r d range h) [
        | inr (x, e) ↦ inr (x, failed fuel reads n s r x (off n) e)
        | inl (r', e, good, same, move) ↦ elim (next_state-InRange (length points) s range) [
          | inl stop ↦ inl (
            r',
            round fuel reads n s r r' none false (off n) e stop (off (suc n))
                ∙ finished fuel reads (n + 2) r' (omega arith),
            good,
            ends s r r' move stop,
          )
          | inr (t, p, near, less) ↦
              let there = round fuel reads n s r r' (some t) false (off n) e p (off (suc n)) in
              elim (search-finishes fuel reads (n + 2) t r' d off near good (omega arith)) [
                | inl (r'', q, good', passes) ↦
                    inl (r'', there ∙ q, good', goes_on s t r r' r'' move p passes)
                | inr (x, q) ↦ inr (x, there ∙ q)
              ]
        ]
      ]
