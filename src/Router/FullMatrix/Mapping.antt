-- ===== src/Router/FullMatrix/Mapping.antt =====
-- The map from location keys to places: what `find` gives behind `insert_or_assign`.
use assfire_suite.Base.{
  text_eq, text_eq_refl, text_eq→eq, ℕ, ◌≡◌, ◌≢◌, sym, ◌∙◌, Bool-cases, inl, inr, some, List, [],
  ◌∷◌,
}
use assfire_suite.Router.FullMatrix.{Mapping, find, insert_or_assign}

pub find-insert_or_assign_self :
    (k : List ℕ) (v : ℕ) (m : Mapping) → find k (insert_or_assign k v m) ≡ some v
unfolding find insert_or_assign
find-insert_or_assign_self k v [] = rw (text_eq_refl k)
find-insert_or_assign_self k v ((j, w) ∷ m) = elim (Bool-cases (text_eq j k)) [
  | inl e ↦ rw e (rw (find, e))
  | inr e ↦ rw e (rw (find, e) (find-insert_or_assign_self k v m))
]

pub find-insert_or_assign_ne :
    (k k' : List ℕ) (v : ℕ) (m : Mapping) → k ≢ k' → find k' (insert_or_assign k v m) ≡ find k' m
unfolding find insert_or_assign
find-insert_or_assign_ne k k' v [] n = elim (Bool-cases (text_eq k k')) [
  | inl e ↦ absurd (n (text_eq→eq k k' e))
  | inr e ↦ rw e
]
find-insert_or_assign_ne k k' v ((j, w) ∷ m) n = elim (Bool-cases (text_eq j k)) [
  | inl e ↦ elim (Bool-cases (text_eq j k')) [
    | inl e' ↦ absurd (n (sym (text_eq→eq j k e) ∙ text_eq→eq j k' e'))
    | inr e' ↦ rw e (rw (find, e'))
  ]
  | inr e ↦ elim (Bool-cases (text_eq j k')) [
    | inl e' ↦ rw e (rw (find, e'))
    | inr e' ↦ rw e (rw (find, e') (find-insert_or_assign_ne k k' v m n))
  ]
]
