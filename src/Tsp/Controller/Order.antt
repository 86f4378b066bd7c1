-- ===== src/Tsp/Controller/Order.antt =====
-- The order in which an algorithm of engine/assfire/tsp/engine/algorithms publishes its solutions, as
-- EngineTspSolutionController.cpp relies on it: intermediate ones, then a final one or none.
use mathlib.Core.List.{reverse-cons}
use assfire_suite.Base.{
  ◌≡◌, refl, sym, subst, ◌∙◌, true, false, none, List, [], ◌∷◌, ◌++◌, reverse, All,
}
use assfire_suite.Tsp.Solution.{TspSolution}
use assfire_suite.Tsp.StateContainer.{TspAlgorithmState}
use assfire_suite.Tsp.Controller.{Ran}

abbrev pub IsIntermediate : TspSolution → Type 0
IsIntermediate s = s.is_final_solution ≡ false

-- An algorithm publishes intermediate solutions only, or ends with a final one and, as long as no
-- callback throws, throws nothing.
pub data IsProper : Ran → Type 0 where
  unfinished : (ran : Ran) → All IsIntermediate ran.published → IsProper ran
  finished :
      (s : TspSolution) (older : List TspSolution) (container : TspAlgorithmState)
      → s.is_final_solution ≡ true
      → All IsIntermediate older
      → IsProper (record { published = s ∷ older; container = container; thrown = none })

pub true≢false : true ≡ false → ⊥
true≢false e = cc

-- The solutions in the order in which they are published: only the last may be final.
abbrev pub FinalLast : List TspSolution → Type 0
FinalLast [] = Unit
FinalLast (s ∷ []) = Unit
FinalLast (s ∷ t ∷ us) = IsIntermediate s × FinalLast (t ∷ us)

pub FinalLast-tail : (s : TspSolution) (us : List TspSolution) → FinalLast (s ∷ us) → FinalLast us
FinalLast-tail s [] h = tt
FinalLast-tail s (t ∷ us) h = h.1

-- Nothing stands behind a final one.
pub FinalLast-final :
    (s : TspSolution) (us : List TspSolution)
    → s.is_final_solution ≡ true
    → FinalLast (s ∷ us)
    → us ≡ []
FinalLast-final s [] e h = refl
FinalLast-final s (t ∷ us) e h = absurd (true≢false (sym e ∙ h.0))

FinalLast-snoc :
    (xs : List TspSolution) (s : TspSolution) → All IsIntermediate xs → FinalLast (xs ++ (s ∷ []))
FinalLast-snoc [] s h = tt
FinalLast-snoc (x ∷ []) s h = (h.0, tt)
FinalLast-snoc (x ∷ y ∷ xs) s h = (h.0, FinalLast-snoc (y ∷ xs) s h.1)

All-FinalLast : (xs : List TspSolution) → All IsIntermediate xs → FinalLast xs
All-FinalLast [] h = tt
All-FinalLast (x ∷ []) h = tt
All-FinalLast (x ∷ y ∷ xs) h = (h.0, All-FinalLast (y ∷ xs) h.1)

All-snoc :
    (xs : List TspSolution) (s : TspSolution)
    → All IsIntermediate xs
    → IsIntermediate s
    → All IsIntermediate (xs ++ (s ∷ []))
All-snoc [] s h k = (k, tt)
All-snoc (x ∷ xs) s h k = (h.0, All-snoc xs s h.1 k)

All-reverse : (xs : List TspSolution) → All IsIntermediate xs → All IsIntermediate (reverse xs)
All-reverse [] h = tt
All-reverse (x ∷ xs) h =
    subst (λ ys. All IsIntermediate ys) (sym (reverse-cons x xs))
      (All-snoc (reverse xs) x (All-reverse xs h.1) h.0)

pub IsProper-FinalLast : (ran : Ran) → IsProper ran → FinalLast (reverse ran.published)
IsProper-FinalLast _ (unfinished ran h) =
    All-FinalLast (reverse ran.published) (All-reverse ran.published h)
IsProper-FinalLast _ (finished s older container e h) =
    subst (λ ys. FinalLast ys) (sym (reverse-cons s older))
      (FinalLast-snoc (reverse older) s (All-reverse older h))
