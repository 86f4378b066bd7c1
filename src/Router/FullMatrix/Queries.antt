-- ===== src/Router/FullMatrix/Queries.antt =====
-- Computing the cache and asking it, from a valid state.
use assfire_suite.Base.{
  ℕ, ◌*◌, ◌<◌, ltb, ltb→lt, ◌==◌, ◌≡◌, refl, sym, subst, ◌∙◌, ◌⊎◌, true, Bool-cases, Option-cases,
  inl, inr, some, [], length, get_elem?_below, Result, ok, >>=-eq-ok, Result-cases, arith,
}
use mathlib.Core.List.{append-nil}
use assfire_suite.Concepts.Location.{Location}
use assfire_suite.Router.RouteDetails
use assfire_suite.Router.RouteDetails.{RouteDetails}
use assfire_suite.Router.Settings.{on_error_return_infinity}
use assfire_suite.Router.Matrix.{Matrix, construct, size_mod}
use assfire_suite.Router.Matrix.Correct.{at-construct, size-construct}
use assfire_suite.Router.Direct.{process_error}
use assfire_suite.Router.FullMatrix.{FullMatrixEngine, ask, new_cell, cell, initialize}
use assfire_suite.Router.FullMatrix.Invariant.{IsCache, IsValid, cell-eq-new_cell, new_cell-append}

abbrev pub with_cache : FullMatrixEngine → Matrix RouteDetails → FullMatrixEngine
with_cache s m = record s { route_details_cache = some m; is_initialized = true }

abbrev pub built : FullMatrixEngine → Result (Matrix RouteDetails)
built s =
    construct RouteDetails.default (length s.known_locations) (length s.known_locations) (cell s)

pub initialize-cases :
    (s t : FullMatrixEngine)
    → initialize s ≡ ok t
    → ((s.is_initialized ≡ true) × (s ≡ t))
      ⊎ ((m : Matrix RouteDetails) × (built s ≡ ok m) × (with_cache s m ≡ t))
unfolding initialize
initialize-cases s t e = elim (Bool-cases s.is_initialized) [
  | inl on ↦ let e' = rw on at e in inl (on, cc)
  | inr off ↦
      let e' = rw off at e in
      let (m, p, q) = >>=-eq-ok (built s) (λ c. ok (with_cache s c)) e' in inr (m, p, cc)
]

pub with_cache-IsValid :
    (s : FullMatrixEngine) (m : Matrix RouteDetails)
    → length s.known_locations * length s.known_locations < size_mod
    → built s ≡ ok m
    → IsValid s
    → IsValid (with_cache s m)
with_cache-IsValid s m small e h =
    let n = length s.known_locations in
    let (r, c, size) = size-construct RouteDetails.default n n (cell s) m small e in
    let good : IsCache (with_cache s m) m = record {
      square = cc;
      within = omega (arith, r);
      cells = λ i j hi hj.
          let (v, p, q) =
            at-construct RouteDetails.default n n (cell s) m i j small e (omega (arith, r))
              (omega (arith, r)) in
          (
            v,
            new_cell-append s (with_cache s m) [] i j (sym (append-nil s.known_locations)) refl refl
                  (omega (arith, r)) (omega (arith, r))
                ∙ cell-eq-new_cell s i j v h p,
            q,
          );
    } in
    record {
      mapped = h.mapped;
      cached = λ m' e'.
          let same : m ≡ m' = cc in
          subst (λ (x : Matrix RouteDetails). IsCache (with_cache s m) x) same good;
      ready = λ on. (m, refl, r);
    }

pub initialize-IsValid :
    (s t : FullMatrixEngine)
    → length s.known_locations * length s.known_locations < size_mod
    → initialize s ≡ ok t
    → IsValid s
    → IsValid t
initialize-IsValid s t small e h = elim (initialize-cases s t e) [
  | inl (on, same) ↦ subst IsValid same h
  | inr (m, p, same) ↦ subst IsValid same (with_cache-IsValid s m small p h)
]

ask_total :
    (s : FullMatrixEngine) (from to : Location)
    → s.error_policy ≡ on_error_return_infinity
    → (v : RouteDetails) × (ask s from to ≡ ok v)
unfolding ask process_error
ask_total s from to p = elim (Result-cases (s.engine.get_single_route_details from to)) [
  | inl (v, e) ↦ (v, rw e)
  | inr (e', e) ↦ (RouteDetails.infinity from to, rw (e, p))
]

new_cell_total :
    (s : FullMatrixEngine) (i j : ℕ)
    → s.error_policy ≡ on_error_return_infinity
    → i < length s.known_locations
    → j < length s.known_locations
    → (v : RouteDetails) × (new_cell s i j ≡ ok v)
unfolding new_cell
new_cell_total s i j p hi hj =
    let (from, e) = get_elem?_below s.known_locations i hi in
    let (to, f) = get_elem?_below s.known_locations j hj in
    elim (Bool-cases (i == j)) [
      | inl t ↦ (RouteDetails.zero from to, rw (e, f, t))
      | inr t ↦ let (v, g) = ask_total s from to p in (v, rw (e, f, t, g))
    ]

pub cell_total :
    (s : FullMatrixEngine) (i j : ℕ)
    → IsValid s
    → s.error_policy ≡ on_error_return_infinity
    → i < length s.known_locations
    → j < length s.known_locations
    → (v : RouteDetails) × (cell s i j ≡ ok v)
unfolding cell new_cell_total ask_total
cell_total s i j h p hi hj =
    let (w, g) = new_cell_total s i j p hi hj in
    elim (Option-cases s.route_details_cache) [
      | inl c ↦ (w, rw c g)
      | inr (m, c) ↦
          let k = h.cached m c in
          elim (Bool-cases (ltb i m.rows)) [
            | inl x ↦ elim (Bool-cases (ltb j m.columns)) [
              | inl y ↦
                  let (v, a, b) =
                    k.cells i j (ltb→lt _ _ x) (omega (arith, k.square, ltb→lt _ _ y)) in
                  (v, rw c (rw (x, y) b))
              | inr y ↦ (w, rw c (rw (x, y) g))
            ]
            | inr x ↦ (w, rw c (rw x g))
          ]
    ]
