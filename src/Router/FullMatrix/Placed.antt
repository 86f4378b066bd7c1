-- ===== src/Router/FullMatrix/Placed.antt =====
-- Indices stay good: what adding locations and asking for routes keep.
use assfire_suite.Base.{
  ℕ, suc, ◌*◌, ◌<◌, ◌≤◌, ℤ, pos, eqb_ℤ, eqb_ℤ-refl, ◌≡◌, ◌≢◌, refl, ap, sym, subst, ◌∙◌, Bool, true,
  false, ◌&&◌, Bool-cases, Option-cases, inl, inr, some, ◌∷◌, [], length, length-append, ok, arith,
}
use assfire_suite.Concepts.Location
use assfire_suite.Concepts.Location.{Location}
use assfire_suite.Router.RouteDetails.{RouteDetails}
use assfire_suite.Router.IndexedLocation
use assfire_suite.Router.IndexedLocation.{IndexedLocation}
use assfire_suite.Router.Settings.{on_error_return_infinity}
use assfire_suite.Router.Matrix.{size_mod}
use assfire_suite.Router.LocationKey.{encode_location}
use assfire_suite.Router.FullMatrix.{
  FullMatrixEngine, find, index_location, add_location, get_route_details, get_cached_route_details,
}
use assfire_suite.Router.FullMatrix.Mapping.{find-insert_or_assign_ne}
use assfire_suite.Router.FullMatrix.Queries.{initialize-cases}
use assfire_suite.Router.FullMatrix.Reached.{
  Reached, steps, details, reached-IsValid, Asked, cached-Asked,
}
use assfire_suite.Router.FullMatrix.Correct.{
  indexed, index_location-known, get_route_details-indexed, full_matrix_answers,
}

-- t is a later state than s.
pub record Grows (s t : FullMatrixEngine) : Type 0 where
  pub same_tag : t.matrix_tag ≡ s.matrix_tag
  pub same_policy : t.error_policy ≡ s.error_policy
  pub keeps :
      (l : Location) (i : ℕ)
      → find (encode_location l) s.known_locations_mapping ≡ some i
      → find (encode_location l) t.known_locations_mapping ≡ some i

pub Grows-self : (s : FullMatrixEngine) → Grows s s
Grows-self s = record { same_tag = refl; same_policy = refl; keeps = λ l i e. e }

pub Grows-trans : (s t u : FullMatrixEngine) → Grows s t → Grows t u → Grows s u
Grows-trans s t u g h = record {
  same_tag = h.same_tag ∙ g.same_tag;
  same_policy = h.same_policy ∙ g.same_policy;
  keeps = λ l i e. h.keeps l i (g.keeps l i e);
}

-- x is the index of its location.
pub record IsPlaced (s : FullMatrixEngine) (x : IndexedLocation) : Type 0 where
  pub place : ℕ
  pub is_index : x ≡ indexed s place x.location
  pub is_mapped : find (encode_location x.location) s.known_locations_mapping ≡ some place

pub IsPlaced-Grows :
    (s t : FullMatrixEngine) (x : IndexedLocation) → Grows s t → IsPlaced s x → IsPlaced t x
IsPlaced-Grows s t x g h = record {
  place = h.place;
  is_index =
      h.is_index
      ∙ ap (λ (tag : ℤ). record { id = pos h.place; index_tag = tag; location = x.location })
          (sym g.same_tag);
  is_mapped = g.keeps x.location h.place h.is_mapped;
}

index_location-keeps :
    (s : FullMatrixEngine) (l l' : Location) (i : ℕ)
    → find (encode_location l') s.known_locations_mapping ≡ some i
    → find
        (encode_location l')
        (index_location s l
          (find (encode_location l) s.known_locations_mapping)).1.known_locations_mapping
      ≡ some i
unfolding index_location
index_location-keeps s l l' i e =
    elim (Option-cases (find (encode_location l) s.known_locations_mapping)) [
      | inl n ↦
          let other : encode_location l ≢ encode_location l' = λ same.
            let k : find (encode_location l) s.known_locations_mapping ≡ some i = rw same e in cc in
          rw n (
            find-insert_or_assign_ne (encode_location l) (encode_location l') _
              s.known_locations_mapping other
            ∙ e)
      | inr (j, p) ↦ rw p e
    ]

pub add_location-Grows : (s : FullMatrixEngine) (l : Location) → Grows s (add_location s l).1
unfolding add_location index_location
add_location-Grows s l = elim (Option-cases (find (encode_location l) s.known_locations_mapping)) [
  | inl n ↦ record {
    same_tag = rw n refl;
    same_policy = rw n refl;
    keeps = λ l' i e. index_location-keeps (record s { is_initialized = false }) l l' i e;
  }
  | inr (j, p) ↦ record {
    same_tag = rw p refl;
    same_policy = rw p refl;
    keeps = λ l' i e. index_location-keeps (record s { is_initialized = false }) l l' i e;
  }
]

pub add_location-length :
    (s : FullMatrixEngine) (l : Location)
    → length (add_location s l).1.known_locations ≤ suc (length s.known_locations)
unfolding add_location index_location
add_location-length s l = elim (Option-cases (find (encode_location l) s.known_locations_mapping)) [
  | inl n ↦ rw n (omega (arith, length-append s.known_locations (l ∷ [])))
  | inr (j, p) ↦ rw p (omega arith)
]

-- An added location has its index.
pub add_location-IsPlaced :
    (s : FullMatrixEngine) (l : Location)
    → Reached s
    → length s.known_locations * length s.known_locations < size_mod
    → IsPlaced (add_location s l).1 (add_location s l).0 × ((add_location s l).0.location ≡ l)
unfolding add_location
add_location-IsPlaced s l r small =
    let (i, x, a, b, c, d) =
      index_location-known (record s { is_initialized = false }) l
        (reached-IsValid s r small).mapped in
    let same : (add_location s l).0.location ≡ l = ap (λ (q : IndexedLocation). q.location) a in
    (
      record {
        place = i;
        is_index =
            a
            ∙ ap (λ (tag : ℤ). record { id = pos i; index_tag = tag; location = l })
                (sym (add_location-Grows s l).same_tag)
            ∙ ap (λ (z : Location). indexed (add_location s l).1 i z) (sym same);
        is_mapped = rw same b;
      },
      same,
    )

Asked-Grows :
    (s t : FullMatrixEngine) → Asked s t → Grows s t × (s.known_locations ≡ t.known_locations)
unfolding Asked
Asked-Grows s t (inl e) = rw (sym e) (Grows-self s, refl)
Asked-Grows s t (inr e) = elim (initialize-cases s t e) [
  | inl (on, same) ↦ rw (sym same) (Grows-self s, refl)
  | inr (m, p, same) ↦
      rw (sym same) (record { same_tag = refl; same_policy = refl; keeps = λ l i k. k }, refl)
]

-- A query for two indices is answered, and keeps them.
pub details_placed :
    (s : FullMatrixEngine) (a b : IndexedLocation)
    → Reached s
    → s.error_policy ≡ on_error_return_infinity
    → length s.known_locations * length s.known_locations < size_mod
    → IsPlaced s a
    → IsPlaced s b
    → (v : RouteDetails) × ((get_route_details s a b).0 ≡ ok v)
      × Reached (get_route_details s a b).1
      × Grows s (get_route_details s a b).1
      × (s.known_locations ≡ (get_route_details s a b).1.known_locations)
details_placed s a b r p small ha hb =
    let good = reached-IsValid s r small in
    let (x, e, ex) = good.mapped (encode_location a.location) ha.place ha.is_mapped in
    let (y, f, fy) = good.mapped (encode_location b.location) hb.place hb.is_mapped in
    let (t, v, q, d, ok_t) =
      full_matrix_answers s ha.place hb.place a.location b.location x y r p small e f in
    let moved : get_route_details s a b
        ≡ get_route_details s (indexed s ha.place a.location) (indexed s hb.place b.location) =
      ap (λ (z : IndexedLocation). get_route_details s z b) ha.is_index
      ∙ ap (λ (z : IndexedLocation). get_route_details s (indexed s ha.place a.location) z)
          hb.is_index in
    let here : get_route_details s a b ≡ get_cached_route_details s (pos ha.place) (pos hb.place) =
      moved ∙ get_route_details-indexed s ha.place hb.place a.location b.location in
    let asked : Asked s (get_route_details s a b).1 =
      rw here (cached-Asked s (pos ha.place) (pos hb.place)) in
    let (g, k) = Asked-Grows s (get_route_details s a b).1 asked in
    (v, ap (λ z. z.0) (moved ∙ q), steps s _ r (details s a b), g, k)

&&-both-false : (x y : Bool) → ((x && y) && false) ≡ false
&&-both-false true true = refl
&&-both-false true false = refl
&&-both-false false y = refl

eqb_self : (a : IndexedLocation) → IndexedLocation.eqb a a ≡ Location.eqb a.location a.location
unfolding IndexedLocation.eqb
eqb_self a = rw (eqb_ℤ-refl a.id, eqb_ℤ-refl a.index_tag)

-- Two indices are equal exactly if their locations are.
pub eqb_placed :
    (s : FullMatrixEngine) (a b : IndexedLocation)
    → IsPlaced s a
    → IsPlaced s b
    → IndexedLocation.eqb a b ≡ Location.eqb a.location b.location
unfolding IndexedLocation.eqb
eqb_placed s a b ha hb = elim (Bool-cases (Location.eqb a.location b.location)) [
  | inl e ↦
      let same = (Location.eqb_iff a.location b.location).0 e in
      let one : ha.place ≡ hb.place =
        (let k : find (encode_location b.location) s.known_locations_mapping ≡ some ha.place =
            subst
              (λ (l : Location). find (encode_location l) s.known_locations_mapping ≡ some ha.place)
              same ha.is_mapped in
          cc (k, hb.is_mapped)) in
      let eq : a ≡ b = cc (ha.is_index, hb.is_index, one, same) in
      subst (λ (x : IndexedLocation). IndexedLocation.eqb a x ≡ Location.eqb a.location x.location)
        eq (eqb_self a)
  | inr e ↦ rw e (&&-both-false (eqb_ℤ a.id b.id) (eqb_ℤ a.index_tag b.index_tag))
]

-- The index of an added location is of this location.
pub location-add_location :
    (s : FullMatrixEngine) (l : Location) → (add_location s l).0.location ≡ l
unfolding add_location index_location
location-add_location s l =
    elim (Option-cases (find (encode_location l) s.known_locations_mapping)) [
      | inl n ↦ rw n refl
      | inr (j, p) ↦ rw p refl
    ]
