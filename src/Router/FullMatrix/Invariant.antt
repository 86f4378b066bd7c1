-- ===== src/Router/FullMatrix/Invariant.antt =====
-- What holds of a full matrix engine between its calls, and that adding a location and computing
-- the cache keep it.
use mathlib.Core.List.{append-nil}
use assfire_suite.Base.{
  text_eq, text_eq→eq, text_eq→ne, ℕ, ◌-◌, ◌<◌, ◌≤◌, ltb, ltb→lt, pos, ◌≡◌, refl, ap, sym, ◌∙◌,
  true, false, ◌&&◌, Bool-cases, Option-cases, inl, inr, some, none, List, [], ◌∷◌, ◌++◌, length,
  get_elem?, ok, length-append, get_elem?-append_left, get_elem?-append_last, get_elem?-lt-length,
  if◌then◌else◌, arith,
}
use assfire_suite.Concepts.Location.{Location}
use assfire_suite.Router.RouteDetails.{RouteDetails}
use assfire_suite.Router.Matrix.{Matrix, at}
use assfire_suite.Router.LocationKey.{encode_location}
use assfire_suite.Router.FullMatrix.{
  FullMatrixEngine, Mapping, find, insert_or_assign, index_location, add_location, new_cell, cell,
}
use assfire_suite.Router.FullMatrix.Mapping.{find-insert_or_assign_self, find-insert_or_assign_ne}

-- Each key in the map leads to a known location that has this key.
abbrev pub IsMapped : List Location → Mapping → Type 0
IsMapped known m =
    (k : List ℕ) (i : ℕ)
    → find k m ≡ some i
    → (l : Location) × (get_elem? known i ≡ some l) × (encode_location l ≡ k)

-- The cache is a square over the first known locations, and holds what would be computed anew.
pub record IsCache (s : FullMatrixEngine) (m : Matrix RouteDetails) : Type 0 where
  pub square : m.columns ≡ m.rows
  pub within : m.rows ≤ length s.known_locations
  pub cells :
      (i j : ℕ)
      → i < m.rows
      → j < m.rows
      → (v : RouteDetails) × (new_cell s i j ≡ ok v) × (at m (pos i) (pos j) ≡ ok v)

pub record IsValid (s : FullMatrixEngine) : Type 0 where
  pub mapped : IsMapped s.known_locations s.known_locations_mapping
  pub cached : (m : Matrix RouteDetails) → s.route_details_cache ≡ some m → IsCache s m
  pub ready :
      s.is_initialized ≡ true
      → (m : Matrix RouteDetails) × (s.route_details_cache ≡ some m)
        × (m.rows ≡ length s.known_locations)

IsMapped-append :
    (known : List Location) (l : Location) (m : Mapping)
    → IsMapped known m
    → find (encode_location l) m ≡ none
    → IsMapped (known ++ l ∷ []) (insert_or_assign (encode_location l) (length known) m)
IsMapped-append known l m h n k i e = elim (Bool-cases (text_eq (encode_location l) k)) [
  | inl t ↦
      let same = text_eq→eq (encode_location l) k t in
      let found = rw same at (find-insert_or_assign_self (encode_location l) (length known) m) in
      let last : length known ≡ i = cc in (l, rw (sym last) (get_elem?-append_last known l), same)
  | inr t ↦
      let other =
        sym (find-insert_or_assign_ne (encode_location l) k (length known) m (text_eq→ne _ k t)) in
      let (x, p, q) = h k i (other ∙ e) in
      (x, get_elem?-append_left known (l ∷ []) i (get_elem?-lt-length known i x p) ∙ p, q)
]

-- What would be computed for two known locations does not depend on the locations behind them.
pub new_cell-append :
    (s t : FullMatrixEngine) (ls : List Location) (i j : ℕ)
    → t.known_locations ≡ s.known_locations ++ ls
    → t.engine ≡ s.engine
    → t.error_policy ≡ s.error_policy
    → i < length s.known_locations
    → j < length s.known_locations
    → new_cell t i j ≡ new_cell s i j
unfolding new_cell
new_cell-append s t ls i j e f g hi hj = rw (
  e,
  f,
  g,
  get_elem?-append_left s.known_locations ls i hi,
  get_elem?-append_left s.known_locations ls j hj,
)

IsCache-append :
    (s t : FullMatrixEngine) (ls : List Location) (m : Matrix RouteDetails)
    → t.known_locations ≡ s.known_locations ++ ls
    → t.engine ≡ s.engine
    → t.error_policy ≡ s.error_policy
    → IsCache s m
    → IsCache t m
IsCache-append s t ls m e f g c = record {
  square = c.square;
  within = omega (arith, c.within, ap length e, length-append s.known_locations ls);
  cells = λ i j hi hj.
      let (v, p, q) = c.cells i j hi hj in
      (
        v,
        new_cell-append s t ls i j e f g (omega (arith, c.within)) (omega (arith, c.within)) ∙ p,
        q,
      );
}

IsValid-reset : (s : FullMatrixEngine) → IsValid s → IsValid (record s { is_initialized = false })
unfolding new_cell
IsValid-reset s h = record {
  mapped = h.mapped;
  cached =
      λ m e. IsCache-append s _ [] m (sym (append-nil s.known_locations)) refl refl (h.cached m e);
  ready = λ e. cc;
}

index_location-IsValid :
    (s : FullMatrixEngine) (l : Location)
    → s.is_initialized ≡ false
    → IsValid s
    → IsValid (index_location s l (find (encode_location l) s.known_locations_mapping)).1
unfolding index_location
index_location-IsValid s l off h =
    elim (Option-cases (find (encode_location l) s.known_locations_mapping)) [
      | inl e ↦
          let last : length (s.known_locations ++ l ∷ []) - 1 ≡ length s.known_locations =
            omega (arith, length-append s.known_locations (l ∷ [])) in
          rw (e, last)
            record {
              mapped = IsMapped-append s.known_locations l s.known_locations_mapping h.mapped e;
              cached = λ m c. IsCache-append s _ (l ∷ []) m refl refl refl (h.cached m c);
              ready = λ on. cc;
            }
      | inr (i, e) ↦ rw e h
    ]

pub add_location-IsValid :
    (s : FullMatrixEngine) (l : Location) → IsValid s → IsValid (add_location s l).1
unfolding add_location
add_location-IsValid s l h =
    index_location-IsValid (record s { is_initialized = false }) l refl (IsValid-reset s h)

-- A cell that is taken over from the old cache is what would be computed.
pub cell-eq-new_cell :
    (s : FullMatrixEngine) (i j : ℕ) (v : RouteDetails)
    → IsValid s
    → cell s i j ≡ ok v
    → new_cell s i j ≡ ok v
unfolding cell
cell-eq-new_cell s i j v h e = elim (Option-cases s.route_details_cache) [
  | inl c ↦ rw c at e
  | inr (m, c) ↦
      let e' : (if ltb i m.rows && ltb j m.columns then at m (pos i) (pos j) else new_cell s i j)
          ≡ ok v =
        rw c at e in
      let k = h.cached m c in
      elim (Bool-cases (ltb i m.rows)) [
        | inl p ↦ elim (Bool-cases (ltb j m.columns)) [
          | inl q ↦
              let (w, x, y) = k.cells i j (ltb→lt _ _ p) (omega (arith, k.square, ltb→lt _ _ q)) in
              let e'' = rw (p, q, y) at e' in x ∙ e''
          | inr q ↦ rw (p, q) at e'
        ]
        | inr p ↦ rw p at e'
      ]
]
