-- ===== src/Tsp/Worker/Locks/Held.antt =====
-- The list of the workers that hold tasks, for the locks of RedisTaskProvider.cpp.
use assfire_suite.Base.{
  ℕ, ◌≡◌, ◌≢◌, sym, ap, subst, ◌∙◌, ◌⊎◌, inl, inr, Bool-cases, List, [], ◌∷◌, All, Text, text_eq,
  text_eq_refl, text_eq→eq,
}
use assfire_suite.Tsp.Worker.Locks.{Removed, here, there}

-- The task was given back by a worker that did not hold it.
abbrev pub IsStray : Text → List Text → Type 0
IsStray id [] = ⊥
IsStray id (stray ∷ strays) = (id ≡ stray) ⊎ IsStray id strays

-- No task but these is held twice, by one worker or by two.
abbrev pub DistinctBut : List Text → List (ℕ × Text) → Type 0
DistinctBut strays [] = Unit
DistinctBut strays (h ∷ hs) =
    All (λ (other : ℕ × Text). other.1 ≡ h.1 → IsStray h.1 strays) hs × DistinctBut strays hs

pub Text-cases : (a b : Text) → (a ≡ b) ⊎ (a ≢ b)
Text-cases a b = elim (Bool-cases (text_eq a b)) [
  | inl e ↦ inl (text_eq→eq a b e)
  | inr e ↦ inr (λ p. let t = sym (text_eq_refl a) ∙ ap (text_eq a) p ∙ e in cc)
]

pub All-Removed :
    (P : ℕ × Text → Type 0) {x : ℕ × Text} {xs ys : List (ℕ × Text)}
    → Removed x xs ys
    → All P xs
    → All P ys
All-Removed P here h = h.1
All-Removed P (there r) h = (h.0, All-Removed P r h.1)

pub DistinctBut-Removed :
    {x : ℕ × Text} {xs ys : List (ℕ × Text)} (strays : List Text)
    → Removed x xs ys
    → DistinctBut strays xs
    → DistinctBut strays ys
DistinctBut-Removed strays here h = h.1
DistinctBut-Removed strays (there r) h = (All-Removed _ r h.0, DistinctBut-Removed strays r h.1)

-- The entry that is taken out has what all have.
All-at-Removed :
    (P : ℕ × Text → Type 0) {x : ℕ × Text} {xs ys : List (ℕ × Text)}
    → Removed x xs ys
    → All P xs
    → P x
All-at-Removed P here h = h.0
All-at-Removed P (there r) h = All-at-Removed P r h.1

-- All that stay are of other tasks than the one that is taken out.
pub others-Removed :
    {x : ℕ × Text} {xs ys : List (ℕ × Text)} (strays : List Text)
    → Removed x xs ys
    → DistinctBut strays xs
    → All (λ (other : ℕ × Text). other.1 ≡ x.1 → IsStray x.1 strays) ys
others-Removed strays here h = h.0
others-Removed strays (there r) h = (
  λ e. subst (λ id. IsStray id strays) e (All-at-Removed _ r h.0 (sym e)),
  others-Removed strays r h.1,
)

pub All-map :
    (P Q : ℕ × Text → Type 0) (xs : List (ℕ × Text))
    → ((x : ℕ × Text) → P x → Q x)
    → All P xs
    → All Q xs
All-map P Q [] f h = tt
All-map P Q (x ∷ xs) f h = (f x h.0, All-map P Q xs f h.1)

pub All-map-with :
    (P R Q : ℕ × Text → Type 0) (xs : List (ℕ × Text))
    → ((x : ℕ × Text) → P x → R x → Q x)
    → All P xs
    → All R xs
    → All Q xs
All-map-with P R Q [] f h k = tt
All-map-with P R Q (x ∷ xs) f h k = (f x h.0 k.0, All-map-with P R Q xs f h.1 k.1)

pub DistinctBut-more :
    (id : Text) (strays : List Text) (hs : List (ℕ × Text))
    → DistinctBut strays hs
    → DistinctBut (id ∷ strays) hs
DistinctBut-more id strays [] h = tt
DistinctBut-more id strays (x ∷ hs) h = (
  All-map (λ other. other.1 ≡ x.1 → IsStray x.1 strays)
      (λ other. other.1 ≡ x.1 → IsStray x.1 (id ∷ strays)) hs (λ other f e. inr (f e)) h.0,
  DistinctBut-more id strays hs h.1,
)
