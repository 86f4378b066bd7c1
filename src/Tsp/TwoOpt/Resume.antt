-- ===== src/Tsp/TwoOpt/Resume.antt =====
-- What TwoOptTspAlgorithm makes of a state that it has saved.
use mathlib.Core.List.{Perm}
use assfire_suite.Base.{
  ℕ, suc, ◌<◌, leb, le→leb, lt→leb, if_true, if_false, ==_iff, ℤ, pos, eqb_ℤ-refl, ◌≡◌, refl, sym,
  ap, ◌∙◌, Bool, true, List, [], ◌∷◌, map, length, if◌then◌else◌, arith,
}
use assfire_suite.Tsp.Task.{TspPoint, TspTask}
use assfire_suite.Tsp.StateContainer.{
  TspAlgorithmState, two_opt_algorithm_state, reset, can_be_used_for, is_consistent,
  is_compatible_with, same_ids, contains_two_opt_algorithm_state,
}
use assfire_suite.Tsp.TwoOpt.{
  State, iota, initial_sequence, validate_or_reset_saved_state, is_inconsistent,
  create_initial_state, load_state, save_state,
}
use assfire_suite.Tsp.TwoOpt.Orders.{all_below-order}
use assfire_suite.Tsp.TwoOpt.Next.{InRange, at}

same_ids-map : (ps : List TspPoint) → same_ids (map (λ (p : TspPoint). p.id) ps) ps ≡ true
same_ids-map [] = refl
same_ids-map (p ∷ ps) = rw (eqb_ℤ-refl p.id) (same_ids-map ps)

length-ids : (ps : List TspPoint) → length (map (λ (p : TspPoint). p.id) ps) ≡ length ps
length-ids [] = refl
length-ids (p ∷ ps) = ap suc (length-ids ps)

-- An order of the points of a task.
abbrev pub IsOrder : TspTask → List ℤ → Type 0
IsOrder task xs = Perm xs (iota 0 (length task.points)) × (length xs ≡ length task.points)

-- The state that is saved can be used for the same task, whatever the container held before, and
-- loads as it was.
save_state-usable :
    (s : State) (container : TspAlgorithmState) (xs : List ℤ) (task : TspTask)
    → IsOrder task xs
    → can_be_used_for (save_state s container xs task) task ≡ true
unfolding save_state can_be_used_for is_consistent is_compatible_with
save_state-usable s container xs task h =
    rw
      (
        length-ids task.points,
        h.1,
        (==_iff (length task.points) (length task.points)).1 refl,
        all_below-order (length task.points) xs h.0,
      )
      (same_ids-map task.points)

is_inconsistent-at :
    (i j k n : ℕ)
    → i < j
    → k < n
    → is_inconsistent (two_opt_algorithm_state (pos i) (pos j) (pos k)) (pos n) ≡ leb n j
unfolding is_inconsistent
is_inconsistent-at i j k n h l = ground arith

-- A state of this algorithm that the task can use is dropped only if its order are out of range.
validate-usable :
    (task : TspTask) (saved : TspAlgorithmState) (t : Bool)
    → contains_two_opt_algorithm_state saved ≡ true
    → can_be_used_for saved task ≡ true
    → is_inconsistent saved.algorithm_instance (pos (length task.points)) ≡ t
    → validate_or_reset_saved_state task saved ≡ (if t then reset saved else saved)
unfolding validate_or_reset_saved_state
validate-usable task saved t h k e = rw (h, k, e)

validate-save_state :
    (s : State) (container : TspAlgorithmState) (xs : List ℤ) (task : TspTask)
    (range : InRange (length task.points) s)
    → IsOrder task xs
    → validate_or_reset_saved_state task (save_state s container xs task) ≡ (
        if leb (length task.points) range.at_j
        then reset (save_state s container xs task)
        else save_state s container xs task)
unfolding save_state
validate-save_state s container xs task range order =
    validate-usable task (save_state s container xs task) _ refl
      (save_state-usable s container xs task order)
      (ap
          (λ (t : State).
            is_inconsistent (two_opt_algorithm_state t.i t.j t.k) (pos (length task.points)))
          range.is_at
        ∙ is_inconsistent-at range.at_i range.at_j range.at_k (length task.points) range.not_empty
            range.in_rounds)

-- A state of the search that is saved and whose range ends before the end of the sequence is
-- accepted, with an order of the points of the task, when the same task is started again: the container is kept, and the search goes on from
-- this state and with the sequence that was saved.
pub saved_state_reloads :
    (s : State) (container : TspAlgorithmState) (xs : List ℤ) (task : TspTask)
    (range : InRange (length task.points) s)
    → range.at_j < length task.points
    → IsOrder task xs
    → (validate_or_reset_saved_state task (save_state s container xs task)
        ≡ save_state s container xs task)
      × (create_initial_state task (save_state s container xs task) ≡ s)
      × (initial_sequence task (save_state s container xs task) ≡ xs)
unfolding create_initial_state load_state save_state
saved_state_reloads s container xs task range h order = (
  validate-save_state s container xs task range order
      ∙ if_false (leb (length task.points) range.at_j) _ _
          (lt→leb (length task.points) range.at_j h),
  ap (λ (n : ℤ). record s { size = n }) (sym (ap (λ (t : State). t.size) range.is_at)),
  refl,
)

-- A state whose range ends at the end of the sequence, which the search reaches in each pass, is
-- thrown away as inconsistent: the search starts again from the first state and from the order in
-- which the points were given.
pub saved_state_lost :
    (s : State) (container : TspAlgorithmState) (xs : List ℤ) (task : TspTask)
    (range : InRange (length task.points) s)
    → range.at_j ≡ length task.points
    → IsOrder task xs
    → (create_initial_state task
          (validate_or_reset_saved_state task (save_state s container xs task))
        ≡ at 0 2 0 (length task.points))
      × (initial_sequence task (validate_or_reset_saved_state task (save_state s container xs task))
          ≡ iota 0 (length task.points))
unfolding create_initial_state load_state reset
saved_state_lost s container xs task range h order =
    let dropped =
      validate-save_state s container xs task range order
      ∙ if_true (leb (length task.points) range.at_j) _ _ (le→leb _ _ (omega arith)) in
    (ap (create_initial_state task) dropped, ap (initial_sequence task) dropped)
