-- ===== src/Router/Service/Batch.antt =====
-- What a batch request writes: one response for each pair of different locations, in order.
use assfire_suite.Base.{
  ℕ, ◌+◌, ◌*◌, ◌^◌, ◌<◌, ◌≤◌, ℤ, pos, ◌+ℤ◌, ◌≡◌, refl, ap, sym, subst, ◌∙◌, Bool-cases, inl, inr,
  List, [], ◌∷◌, ◌++◌, All, map, length, Result, ok, err, if◌then◌else◌, arith,
}
use assfire_suite.Concepts.Location
use assfire_suite.Concepts.Location.{Location}
use assfire_suite.Concepts.Translators.{ProtoLocation, location_from_proto}
use assfire_suite.Router.RouteDetails.{RouteDetails}
use assfire_suite.Router.IndexedLocation.{IndexedLocation}
use assfire_suite.Router.Matrix.{size_mod}
use assfire_suite.Router.Provider.{Provider}
use assfire_suite.Router.Settings.{
  on_error_return_infinity, RouterEngineType, RouteProviderSettings,
}
use assfire_suite.Router.Translators.{
  engine_type_from_proto, profile_from_proto, settings_from_proto,
}
use assfire_suite.Router.Messages.{GetRoutesBatchRequest, GetRoutesBatchResponse}
use assfire_suite.Router.FullMatrix
use assfire_suite.Router.FullMatrix.{FullMatrixEngine}
use assfire_suite.Router.FullMatrix.Reached.{Reached, starts, steps, adds}
use assfire_suite.Router.FullMatrix.Placed.{
  Grows, Grows-self, Grows-trans, IsPlaced, IsPlaced-Grows, add_location-Grows, add_location-length,
  add_location-IsPlaced, details_placed, eqb_placed,
}
use assfire_suite.Router.Engine.{
  DistanceMatrix, RoutingContext, full_matrix, create_cache_wrapped_engine, create_distance_matrix,
}
use assfire_suite.Router.Service.{
  Written, status_ok, add_all, response_of, write_row, write_rows, write_all, after_row,
  write_route, get_routes_batch, process_batch_request,
}

-- The pairs of different locations, in the order of the loops
abbrev pub pairs_from : Location → List Location → List (Location × Location)
pairs_from o [] = []
pairs_from o (d ∷ ds) =
    let rest = pairs_from o ds in if Location.eqb o d then rest else (o, d) ∷ rest

abbrev pub pairs_of : List Location → List Location → List (Location × Location)
pairs_of [] ds = []
pairs_of (o ∷ os) ds = pairs_from o ds ++ pairs_of os ds

abbrev raw : List IndexedLocation → List Location
raw xs = map (λ (x : IndexedLocation). x.location) xs

-- The responses hold one route for each of the pairs.
pub data Answers : List GetRoutesBatchResponse → List (Location × Location) → Type 0 where
  nothing : Answers [] []
  answered :
      {rs : List GetRoutesBatchResponse} {ps : List (Location × Location)}
      (from to : IndexedLocation) (details : RouteDetails)
      → Answers rs ps
      → Answers (response_of from to details ∷ rs) ((from.location, to.location) ∷ ps)

Answers-append :
    (rs rs' : List GetRoutesBatchResponse) (ps ps' : List (Location × Location))
    → Answers rs ps
    → Answers rs' ps'
    → Answers (rs ++ rs') (ps ++ ps')
Answers-append _ rs' _ ps' nothing k = k
Answers-append _ rs' _ ps' (answered {rs = rs} {ps = ps} from to details h) k =
    answered from to details (Answers-append rs rs' ps ps' h k)

-- The body of the inner loop adds a response exactly if the locations differ.
write_route_lem :
    (s : FullMatrixEngine) (from to : IndexedLocation) (asked : Result RouteDetails)
    (v : RouteDetails) (rest : Written DistanceMatrix) (ps : List (Location × Location))
    → IsPlaced s from
    → IsPlaced s to
    → asked ≡ ok v
    → Answers rest.0 ps
    → ((write_route from to asked rest).1 ≡ rest.1)
      × Answers
          (write_route from to asked rest).0
          (if Location.eqb from.location to.location then ps else (from.location, to.location) ∷ ps)
write_route_lem s from to asked v rest ps h k e answers =
    elim (Bool-cases (Location.eqb from.location to.location)) [
      | inl t ↦ let q = eqb_placed s from to h k ∙ t in rw (e, t, q) (refl, answers)
      | inr f ↦
          let q = eqb_placed s from to h k ∙ f in rw (e, f, q) (refl, answered from to v answers)
    ]

after_row-eq :
    (row : Written DistanceMatrix) (m : DistanceMatrix)
    (next : DistanceMatrix → Written DistanceMatrix)
    → row.1 ≡ ok m
    → after_row row next ≡ (row.0 ++ (next m).0, (next m).1)
after_row-eq (written, err x) m next e = cc
after_row-eq (written, ok n) m next e = let same : n ≡ m = cc in rw (sym same) refl

All-Grows :
    (s t : FullMatrixEngine) (xs : List IndexedLocation)
    → Grows s t
    → All (IsPlaced s) xs
    → All (IsPlaced t) xs
All-Grows s t [] g h = tt
All-Grows s t (x ∷ xs) g h = (IsPlaced-Grows s t x g h.0, All-Grows s t xs g h.1)

-- A state in which the handler goes on
pub record IsGood (bound : ℕ) (s : FullMatrixEngine) : Type 0 where
  pub reached : Reached s
  pub policy : s.error_policy ≡ on_error_return_infinity
  pub within : length s.known_locations ≤ bound

square_within : (m n : ℕ) → m ≤ n → n * n < size_mod → m * m < size_mod
square_within m n h k = grind arith

module _ (bound : ℕ) (small : bound * bound < size_mod) where
  write_row_lem :
      (s : FullMatrixEngine) (from : IndexedLocation) (tos : List IndexedLocation)
      → IsGood bound s
      → IsPlaced s from
      → All (IsPlaced s) tos
      → (t : FullMatrixEngine) × ((write_row (full_matrix s) from tos).1 ≡ ok (full_matrix t))
        × IsGood bound t
        × Grows s t
        × Answers (write_row (full_matrix s) from tos).0 (pairs_from from.location (raw tos))
  unfolding write_row
  write_row_lem s from [] good h k = (s, refl, good, Grows-self s, nothing)
  write_row_lem s from (to ∷ tos) good h k =
      let (v, e, r, g, same) =
        details_placed s from to good.reached good.policy
          (square_within (length s.known_locations) bound good.within small) h k.0 in
      let s1 = (FullMatrix.get_route_details s from to).1 in
      let good1 : IsGood bound s1 = record {
        reached = r;
        policy = g.same_policy ∙ good.policy;
        within = subst (λ (ls : List Location). length ls ≤ bound) same good.within;
      } in
      let (t, q, good2, g2, answers) =
        write_row_lem s1 from tos good1 (IsPlaced-Grows s s1 from g h) (All-Grows s s1 tos g k.1) in
      let rest = write_row (full_matrix s1) from tos in
      let (same_end, written) =
        write_route_lem s from to (FullMatrix.get_route_details s from to).0 v rest
          (pairs_from from.location (raw tos)) h k.0 e answers in
      (t, same_end ∙ q, good2, Grows-trans s s1 t g g2, written)

  write_rows_lem :
      (froms tos : List IndexedLocation) (s : FullMatrixEngine)
      → IsGood bound s
      → All (IsPlaced s) froms
      → All (IsPlaced s) tos
      → (t : FullMatrixEngine) × ((write_rows froms tos (full_matrix s)).1 ≡ ok (full_matrix t))
        × Answers (write_rows froms tos (full_matrix s)).0 (pairs_of (raw froms) (raw tos))
  unfolding write_rows
  write_rows_lem [] tos s good h k = (s, refl, nothing)
  write_rows_lem (from ∷ froms) tos s good h k =
      let (s1, p, good1, g, first) = write_row_lem s from tos good h.0 k in
      let (t, q, rest) =
        write_rows_lem froms tos s1 good1 (All-Grows s s1 froms g h.1) (All-Grows s s1 tos g k) in
      let next = write_rows froms tos in
      let row : Written DistanceMatrix = write_row (full_matrix s) from tos in
      let goes_on : after_row row next
          ≡ (row.0 ++ (next (full_matrix s1)).0, (next (full_matrix s1)).1) =
        after_row-eq row (full_matrix s1) next p in
      (
        t,
        ap (λ (w : Written DistanceMatrix). w.1) goes_on ∙ q,
        subst
            (λ (w : Written DistanceMatrix). Answers w.0 (pairs_of (raw (from ∷ froms)) (raw tos)))
            (sym goes_on) (Answers-append row.0 (next (full_matrix s1)).0 _ _ first rest),
      )

  add_all_lem :
      (ls : List ProtoLocation) (s : FullMatrixEngine)
      → Reached s
      → s.error_policy ≡ on_error_return_infinity
      → length s.known_locations + length ls ≤ bound
      → (t : FullMatrixEngine) × ((add_all (full_matrix s) ls).1 ≡ full_matrix t)
        × Reached t
        × (t.error_policy ≡ on_error_return_infinity)
        × (length t.known_locations ≤ length s.known_locations + length ls)
        × Grows s t
        × All (IsPlaced t) (add_all (full_matrix s) ls).0
        × (raw (add_all (full_matrix s) ls).0 ≡ map location_from_proto ls)
  add_all_lem [] s r p h = (s, refl, r, p, omega arith, Grows-self s, tt, refl)
  add_all_lem (l ∷ ls) s r p h =
      let here = location_from_proto l in
      let s1 = (FullMatrix.add_location s here).1 in
      let grown = add_location-length s here in
      let g1 = add_location-Grows s here in
      let (placed, same) =
        add_location-IsPlaced s here r
          (square_within (length s.known_locations) bound (omega arith) small) in
      let (t, q, r2, p2, n, g, all, raws) =
        add_all_lem ls s1 (steps s _ r (adds s here)) (g1.same_policy ∙ p) (omega arith) in
      (
        t,
        q,
        r2,
        p2,
        omega arith,
        Grows-trans s s1 t g1 g,
        (IsPlaced-Grows s1 t (FullMatrix.add_location s here).0 g placed, all),
        cc (same, raws),
      )

  write_all_lem :
      (request : GetRoutesBatchRequest) (s : FullMatrixEngine)
      → Reached s
      → s.error_policy ≡ on_error_return_infinity
      → length s.known_locations + length request.origins + length request.destinations ≤ bound
      → (t : FullMatrixEngine) × ((write_all request (full_matrix s)).1 ≡ ok (full_matrix t))
        × Answers (write_all request (full_matrix s)).0 (
            pairs_of
              (map location_from_proto request.origins)
              (map location_from_proto request.destinations))
  write_all_lem request s r p h =
      let (s1, e1, r1, p1, n1, g1, all1, raw1) = add_all_lem request.origins s r p (omega arith) in
      let (s2, e2, r2, p2, n2, g2, all2, raw2) =
        add_all_lem request.destinations s1 r1 p1 (omega arith) in
      let os = (add_all (full_matrix s) request.origins).0 in
      let ds = (add_all (full_matrix s1) request.destinations).0 in
      let good : IsGood bound s2 = record { reached = r2; policy = p2; within = omega arith } in
      let (t, q, answers) = write_rows_lem os ds s2 good (All-Grows s1 s2 os g2 all1) all2 in
      let same : write_all request (full_matrix s) ≡ write_rows os ds (full_matrix s2) =
        ap
          (λ (m : DistanceMatrix).
            write_rows os (add_all m request.destinations).0 (add_all m request.destinations).1)
          e1
        ∙ ap (λ (m : DistanceMatrix). write_rows os ds m) e2 in
      (t, ap (λ (w : Written DistanceMatrix). w.1) same ∙ q, rw (same, sym raw1, sym raw2) answers)

square_small : (n : ℕ) → n < 2 ^ 32 → n * n < size_mod
square_small n h = let bounded : n * n ≤ 4294967295 * n = grind arith in omega arith

-- If the type and the settings of a request can be read, a provider can be made for them, and the
-- request has, as origins and destinations together, fewer than 2^32 locations, the handler ends with
-- the status OK, whatever the provider throws, with the tag counter raised by one. It writes one
-- response, with one route from the one to the other, for each pair of an origin and a destination
-- of the request that are different locations, by origins and then by destinations, and nothing else.
pub batch_writes_pairs :
    (context : RoutingContext) (tag : ℤ) (request : GetRoutesBatchRequest)
    (engine_type : RouterEngineType) (settings : RouteProviderSettings) (provider : Provider)
    → engine_type_from_proto request.settings.router_engine_type ≡ ok engine_type
    → settings_from_proto request.settings ≡ ok settings
    → create_cache_wrapped_engine context engine_type
        (profile_from_proto request.routing_profile)
        settings
      ≡ ok provider
    → length request.origins + length request.destinations < 2 ^ 32
    → (written : List GetRoutesBatchResponse) × (get_routes_batch context tag request
        ≡ (written, status_ok, tag +ℤ pos 1))
      × Answers written (
          pairs_of
            (map location_from_proto request.origins)
            (map location_from_proto request.destinations))
unfolding get_routes_batch process_batch_request create_distance_matrix
batch_writes_pairs context tag request engine_type settings provider a b c few =
    let n = length request.origins + length request.destinations in
    let (t, q, answers) =
      write_all_lem n (square_small n few) request
        (FullMatrix.init provider (tag +ℤ pos 1) on_error_return_infinity)
        (starts provider (tag +ℤ pos 1) on_error_return_infinity) refl (omega arith) in
    (_, rw (a, b, c, q) refl, answers)
