-- ===== src/Router/FullMatrix/Correct.antt =====
-- What the full matrix engine promises: its answers are those of direct questions, and each added
-- location has its place; and what two locations with one key do to this.
use mathlib.Core.List.{append-nil}
use assfire_suite.Base.{
  ℕ, ◌*◌, ◌-◌, ◌<◌, ◌==◌, if_true, if_false, pos, ◌≡◌, refl, ap, sym, ◌∙◌, Bool-cases, Option-cases,
  inl, inr, true, false, some, ◌∷◌, ◌++◌, [], length, length-append, get_elem?,
  get_elem?-append_last, get_elem?-lt-length, Result, ok, eqb_ℤ-refl, ◌>>=◌, if◌then◌else◌, arith,
}
use assfire_suite.Concepts.Location.{Location}
use assfire_suite.Router.RouteDetails
use assfire_suite.Router.RouteDetails.{RouteDetails}
use assfire_suite.Router.IndexedLocation.{IndexedLocation}
use assfire_suite.Router.Settings.{on_error_return_infinity}
use assfire_suite.Router.Matrix.{Matrix, size_mod}
use assfire_suite.Router.Matrix.Correct.{construct_total}
use assfire_suite.Router.Direct
use assfire_suite.Router.Direct.{DirectEngine, process_error, catching}
use assfire_suite.Router.LocationKey.{encode_location}
use assfire_suite.Router.FullMatrix.{
  FullMatrixEngine, ask, new_cell, cell, find, index_location, answer, read_cache, initialize,
  get_cached_route_details, get_route_details,
}
use assfire_suite.Router.FullMatrix.Mapping.{find-insert_or_assign_self}
use assfire_suite.Router.FullMatrix.Invariant.{IsValid, new_cell-append, IsMapped}
use assfire_suite.Router.FullMatrix.Reached.{Reached, reached-IsValid}
use assfire_suite.Router.FullMatrix.Queries.{with_cache, built, with_cache-IsValid, cell_total}

-- The engine that asks the same provider each time.
abbrev pub uncached : FullMatrixEngine → DirectEngine
uncached s = record { matrix_tag = s.matrix_tag; engine = s.engine; error_policy = s.error_policy }

-- An initialised engine reads what a direct question would give.
read_cache-eq :
    (s : FullMatrixEngine) (i j : ℕ)
    → IsValid s
    → s.is_initialized ≡ true
    → i < length s.known_locations
    → j < length s.known_locations
    → (v : RouteDetails) × (read_cache s (pos i) (pos j) ≡ ok v) × (new_cell s i j ≡ ok v)
unfolding read_cache
read_cache-eq s i j h on hi hj =
    let (m, c, size) = h.ready on in
    let k = h.cached m c in
    let (v, p, q) = k.cells i j (omega (arith, size)) (omega (arith, size)) in (v, rw c q, p)

initialize_total :
    (s : FullMatrixEngine)
    → IsValid s
    → s.error_policy ≡ on_error_return_infinity
    → length s.known_locations * length s.known_locations < size_mod
    → (m : Matrix RouteDetails) × (built s ≡ ok m)
initialize_total s h p small =
    let n = length s.known_locations in
    let (m, e, r, c, k) =
      construct_total RouteDetails.default n n (cell s) small
        (λ i j hi hj. cell_total s i j h p hi hj) in
    (m, e)

initialize-eq :
    (s : FullMatrixEngine) (m : Matrix RouteDetails)
    → s.is_initialized ≡ false
    → built s ≡ ok m
    → initialize s ≡ ok (with_cache s m)
unfolding initialize
initialize-eq s m off e =
    if_false s.is_initialized _ _ off ∙ ap (λ r. r >>= λ c. ok (with_cache s c)) e

cached-eq :
    (s : FullMatrixEngine) (i j : ℕ)
    → IsValid s
    → s.error_policy ≡ on_error_return_infinity
    → length s.known_locations * length s.known_locations < size_mod
    → i < length s.known_locations
    → j < length s.known_locations
    → (t : FullMatrixEngine) × (v : RouteDetails) × (get_cached_route_details s (pos i) (pos j)
        ≡ (ok v, t))
      × (new_cell s i j ≡ ok v)
      × IsValid t
unfolding get_cached_route_details answer
cached-eq s i j h p small hi hj = elim (Bool-cases s.is_initialized) [
  | inl on ↦
      let (v, a, b) = read_cache-eq s i j h on hi hj in
      (s, v, if_true s.is_initialized _ _ on ∙ ap (λ r. (r, s)) a, b, h)
  | inr off ↦
      let (m, e) = initialize_total s h p small in
      let t = with_cache s m in
      let good = with_cache-IsValid s m small e h in
      let (v, a, b) = read_cache-eq t i j good refl hi hj in
      (
        t,
        v,
        if_false s.is_initialized _ _ off
            ∙ ap (answer (pos i) (pos j) s) (initialize-eq s m off e)
            ∙ ap (λ r. (r, t)) a,
        sym (new_cell-append s t [] i j (sym (append-nil s.known_locations)) refl refl hi hj) ∙ b,
        good,
      )
]

-- What a direct question gives for two places.
unfoldable pub direct_answer : FullMatrixEngine → ℕ → ℕ → Location → Location → Result RouteDetails
direct_answer s i j from to =
    if i == j
    then ok (RouteDetails.zero from to)
    else Direct.get_route_details_at (uncached s) from to

new_cell-eq :
    (s : FullMatrixEngine) (i j : ℕ) (from to : Location)
    → get_elem? s.known_locations i ≡ some from
    → get_elem? s.known_locations j ≡ some to
    → new_cell s i j ≡ direct_answer s i j from to
unfolding new_cell ask direct_answer Direct.get_route_details_at
new_cell-eq s i j from to e f = rw (e, f)

-- An index of this engine's matrix.
abbrev pub indexed : FullMatrixEngine → ℕ → Location → IndexedLocation
indexed s i l = record { id = pos i; index_tag = s.matrix_tag; location = l }

pub get_route_details-indexed :
    (s : FullMatrixEngine) (i j : ℕ) (a b : Location)
    → get_route_details s (indexed s i a) (indexed s j b)
      ≡ get_cached_route_details s (pos i) (pos j)
unfolding get_route_details
get_route_details-indexed s i j a b = rw (eqb_ℤ-refl s.matrix_tag)

-- In a state that any calls of the class have led to, under the policy that returns infinity and
-- with fewer than 2^64 cells, a query for two indices of this matrix gives exactly what the direct
-- engine with the same provider and policy gives for the locations that stand at these places, and
-- the zero route if the indices are equal: the cache and its growth change no answer. The answer is
-- never an exception, and the state behind the query is valid.
pub full_matrix_answers :
    (s : FullMatrixEngine) (i j : ℕ) (a b from to : Location)
    → Reached s
    → s.error_policy ≡ on_error_return_infinity
    → length s.known_locations * length s.known_locations < size_mod
    → get_elem? s.known_locations i ≡ some from
    → get_elem? s.known_locations j ≡ some to
    → (t : FullMatrixEngine) × (v : RouteDetails) × (get_route_details s
          (indexed s i a)
          (indexed s j b)
        ≡ (ok v, t))
      × (direct_answer s i j from to ≡ ok v)
      × IsValid t
full_matrix_answers s i j a b from to r p small e f =
    let (t, v, x, y, good) =
      cached-eq s i j (reached-IsValid s r small) p small
        (get_elem?-lt-length s.known_locations i from e)
        (get_elem?-lt-length s.known_locations j to f) in
    (t, v, get_route_details-indexed s i j a b ∙ x, sym (new_cell-eq s i j from to e f) ∙ y, good)

pub index_location-known :
    (s : FullMatrixEngine) (l : Location)
    → IsMapped s.known_locations s.known_locations_mapping
    → (i : ℕ) × (x : Location) × ((index_location s l
          (find (encode_location l) s.known_locations_mapping)).0
        ≡ indexed s i l)
      × (find
            (encode_location l)
            (index_location s l
              (find (encode_location l) s.known_locations_mapping)).1.known_locations_mapping
          ≡ some i)
      × (get_elem?
            (index_location s l
              (find (encode_location l) s.known_locations_mapping)).1.known_locations
            i
          ≡ some x)
      × (encode_location x ≡ encode_location l)
unfolding index_location
index_location-known s l h =
    elim (Option-cases (find (encode_location l) s.known_locations_mapping)) [
      | inl e ↦
          let n = length s.known_locations in
          let last : length (s.known_locations ++ l ∷ []) - 1 ≡ n =
            omega (arith, length-append s.known_locations (l ∷ [])) in
          (
            n,
            l,
            rw (e, last),
            rw (e, last)
                (find-insert_or_assign_self (encode_location l) n s.known_locations_mapping),
            rw e (get_elem?-append_last s.known_locations l),
            refl,
          )
      | inr (i, e) ↦ let (x, p, q) = h (encode_location l) i e in (i, x, rw e, rw e e, rw e p, q)
    ]
