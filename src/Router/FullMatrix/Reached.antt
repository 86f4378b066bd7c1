-- ===== src/Router/FullMatrix/Reached.antt =====
-- The states that the calls of the class reach, and that each of them is valid.
use assfire_suite.Base.{
  ℕ, ◌*◌, ◌<◌, ◌≤◌, ℤ, pos, ◌≡◌, refl, ap, sym, subst, ◌⊎◌, true, false, inl, inr, some, none,
  Option, Bool, ◌∷◌, [], length, length-append, Result, ok, err, if◌then◌else◌, arith,
}
use assfire_suite.Concepts.Location.{Location}
use assfire_suite.Router.IndexedLocation.{IndexedLocation}
use assfire_suite.Router.Settings.{DistanceMatrixErrorPolicy}
use assfire_suite.Router.Provider.{Provider}
use assfire_suite.Router.Matrix.{size_mod}
use assfire_suite.Router.Direct.{is_foreign}
use assfire_suite.Router.LocationKey.{encode_location}
use assfire_suite.Router.FullMatrix.{
  FullMatrixEngine, init, find, add_location, index_location, initialize, answer,
  get_cached_route_details, get_route_details, get_route_info, get_route_details_at,
  get_route_info_at, details_found, info_found, get_cached_route_info,
}
use assfire_suite.Router.FullMatrix.Invariant.{IsValid, add_location-IsValid}
use assfire_suite.Router.FullMatrix.Queries.{initialize-cases, initialize-IsValid}

-- The public operations, in any order.
pub data Step : FullMatrixEngine → FullMatrixEngine → Type 0 where
  adds : (s : FullMatrixEngine) (l : Location) → Step s (add_location s l).1
  details : (s : FullMatrixEngine) (a b : IndexedLocation) → Step s (get_route_details s a b).1
  info : (s : FullMatrixEngine) (a b : IndexedLocation) → Step s (get_route_info s a b).1
  details_at : (s : FullMatrixEngine) (a b : Location) → Step s (get_route_details_at s a b).1
  info_at : (s : FullMatrixEngine) (a b : Location) → Step s (get_route_info_at s a b).1

pub data Reached : FullMatrixEngine → Type 0 where
  starts :
      (p : Provider) (tag : ℤ) (policy : DistanceMatrixErrorPolicy) → Reached (init p tag policy)
  steps : (s t : FullMatrixEngine) → Reached s → Step s t → Reached t

-- A query keeps the state, or computes the cache.
unfoldable pub Asked : FullMatrixEngine → FullMatrixEngine → Type 0
Asked s t = (s ≡ t) ⊎ (initialize s ≡ ok t)

-- An Asked of either branch.
either-Asked :
    (s : FullMatrixEngine) {B : Type 0} (t : Bool) (x y : B × FullMatrixEngine)
    → Asked s x.1
    → Asked s y.1
    → Asked s (if t then x else y).1
either-Asked s true x y h k = h
either-Asked s false x y h k = k

answer-Asked :
    (s : FullMatrixEngine) (i j : ℤ) (r : Result FullMatrixEngine)
    → r ≡ initialize s
    → Asked s (answer i j s r).1
unfolding Asked answer
answer-Asked s i j (ok t) e = inr (sym e)
answer-Asked s i j (err x) e = inl refl

pub cached-Asked : (s : FullMatrixEngine) (i j : ℤ) → Asked s (get_cached_route_details s i j).1
unfolding Asked get_cached_route_details answer
cached-Asked s i j =
    either-Asked s s.is_initialized _ _ (inl refl) (answer-Asked s i j (initialize s) refl)

details_found-Asked :
    (s : FullMatrixEngine) (a b : Location) (x y : Option ℕ) → Asked s (details_found s a b x y).1
unfolding Asked details_found
details_found-Asked s a b none y = inl refl
details_found-Asked s a b (some i) none = inl refl
details_found-Asked s a b (some i) (some j) = unfold Asked in cached-Asked s (pos i) (pos j)

info_found-Asked :
    (s : FullMatrixEngine) (a b : Location) (x y : Option ℕ) → Asked s (info_found s a b x y).1
unfolding Asked info_found get_cached_route_info
info_found-Asked s a b none y = inl refl
info_found-Asked s a b (some i) none = inl refl
info_found-Asked s a b (some i) (some j) = unfold Asked in cached-Asked s (pos i) (pos j)

known-index_location :
    (s : FullMatrixEngine) (l : Location) (o : Option ℕ)
    → length s.known_locations ≤ length (index_location s l o).1.known_locations
unfolding index_location
known-index_location s l (some i) = omega arith
known-index_location s l none = omega (arith, length-append s.known_locations (l ∷ []))

known-Asked : (s t : FullMatrixEngine) → Asked s t → s.known_locations ≡ t.known_locations
unfolding Asked
known-Asked s t (inl e) = rw e
known-Asked s t (inr e) = elim (initialize-cases s t e) [
  | inl (on, same) ↦ rw same
  | inr (m, p, same) ↦ rw (sym same)
]

-- A step adds a location, or is a query.
Step-cases :
    (s t : FullMatrixEngine) → Step s t → ((l : Location) × ((add_location s l).1 ≡ t)) ⊎ Asked s t
unfolding get_route_details get_route_info get_route_details_at get_route_info_at
    get_cached_route_info
Step-cases s _ (adds _ l) = inl (l, refl)
Step-cases s _ (details_at _ a b) = inr (details_found-Asked s a b _ _)
Step-cases s _ (info_at _ a b) = inr (info_found-Asked s a b _ _)
Step-cases s _ (details _ a b) = inr (
    either-Asked s (is_foreign s.matrix_tag a b) _ _
      (details_found-Asked s a.location b.location _ _) (cached-Asked s a.id b.id))
Step-cases s _ (info _ a b) = inr (
    either-Asked s (is_foreign s.matrix_tag a b) _ _ (info_found-Asked s a.location b.location _ _)
      (cached-Asked s a.id b.id))

known-grows :
    (s t : FullMatrixEngine) → Step s t → length s.known_locations ≤ length t.known_locations
unfolding add_location
known-grows s t h = elim (Step-cases s t h) [
  | inl (l, e) ↦ omega (
    arith,
    known-index_location (record s { is_initialized = false }) l
        (find (encode_location l) s.known_locations_mapping),
    ap (λ (x : FullMatrixEngine). length x.known_locations) e,
  )
  | inr a ↦ omega (arith, ap length (known-Asked s t a))
]

init-IsValid :
    (p : Provider) (tag : ℤ) (policy : DistanceMatrixErrorPolicy) → IsValid (init p tag policy)
unfolding find
init-IsValid p tag policy = record { mapped = λ k i e. cc; cached = λ m e. cc; ready = λ e. cc }

square_mono : (m n : ℕ) → m ≤ n → n * n < size_mod → m * m < size_mod
square_mono m n h k = grind arith

-- Whatever public calls have been made, in whatever order, the state is valid, as long as the cache
-- has fewer than 2^64 cells: each key leads to a known location that has it, and each cached cell
-- is what a direct question for it would give now.
pub reached-IsValid :
    (s : FullMatrixEngine)
    → Reached s
    → length s.known_locations * length s.known_locations < size_mod
    → IsValid s
unfolding Asked
reached-IsValid _ (starts p tag policy) small = init-IsValid p tag policy
reached-IsValid t (steps s _ r h) small =
    let before =
      square_mono (length s.known_locations) (length t.known_locations) (known-grows s t h) small in
    let good = reached-IsValid s r before in
    elim (Step-cases s t h) [
      | inl (l, e) ↦ subst IsValid e (add_location-IsValid s l good)
      | inr (inl e) ↦ subst IsValid e good
      | inr (inr e) ↦ initialize-IsValid s t before e good
    ]
