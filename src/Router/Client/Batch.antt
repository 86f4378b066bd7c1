-- ===== src/Router/Client/Batch.antt =====
-- getRouteInfoMatrix and getRouteDetailsMatrix as a whole.
use assfire_suite.Base.{
  ℕ, ◌+◌, ◌*◌, ◌<◌, ◌==◌, pos, ◌≡◌, refl, ap, ◌∙◌, ◌⊎◌, inl, inr, Bool, true, false, List, [], ◌∷◌,
  ◌++◌, All, length, get_elem?, get_elem?-lt-length, some, ok, ◌>>=◌, if◌then◌else◌, arith,
}
use assfire_suite.Concepts.Location.{Location}
use assfire_suite.Router.Matrix.{Matrix, size_mod, at, construct}
use assfire_suite.Router.Matrix.Fill.{cell_below}
use assfire_suite.Router.Matrix.Correct.{at-eq-ok, construct_total, construct-cases}
use assfire_suite.Router.RouteInfo
use assfire_suite.Router.RouteInfo.{RouteInfo}
use assfire_suite.Router.RouteDetails
use assfire_suite.Router.RouteDetails.{RouteDetails}
use assfire_suite.Router.Translators.{
  ProtoRouteInfo, ProtoRouteProviderSettings, profile_to_proto, info_from_proto,
}
use assfire_suite.Router.Messages.{
  GetRoutesBatchRequest, GetRoutesBatchResponse, code_ok, empty_response,
}
use assfire_suite.Router.Client.{
  GrpcEngine, copy_replies, get_or, get_route_details_matrix, get_route_info_matrix, info_value,
  details_value, mapping_of, new_locations, request_batch, scatter, settings_message,
}
use assfire_suite.Router.Client.Cells.{Joins, IsLast, scatter_lem}

-- Each reply replaces the one before.
copy_replies-append :
    (start last : GetRoutesBatchResponse) (replies : List GetRoutesBatchResponse)
    → copy_replies start (replies ++ last ∷ []) ≡ last
unfolding copy_replies
copy_replies-append start last [] = refl
copy_replies-append start last (r ∷ replies) = copy_replies-append r last replies

-- What stands at (i, j) of the matrix: what the last of the routes from o to d is worth there, and
-- `missing` if there is none.
abbrev pub MatrixCell {ℓ} :
    {T : Type ℓ}
    → (ProtoRouteInfo → T)
    → T
    → List ProtoRouteInfo
    → Location
    → Location
    → (i j : ℕ) → Matrix T
    → Type ℓ
MatrixCell worth missing routes o d i j m =
    ((r : ProtoRouteInfo) × IsLast o d routes r × (at m (pos i) (pos j) ≡ ok (worth r)))
    ⊎ (All (λ r. Joins o d r → ⊥) routes × (at m (pos i) (pos j) ≡ ok missing))

module _ {T : Type 0} (default : T) (value : ProtoRouteInfo → ℕ → ℕ → T) (supplier : ℕ → ℕ → T)
    (origins destinations : List Location) (small : length origins * length destinations < size_mod)
    (routes : List ProtoRouteInfo) where
  -- The matrix behind the routes, which start from the supplier's values.
  scatter-construct :
      (m : Matrix T) × ((construct default
            (length origins)
            (length destinations)
            (λ i j. ok (supplier i j))
          >>= scatter value (mapping_of 0 origins) (mapping_of 0 destinations) routes)
        ≡ ok m)
      × ((i j : ℕ) (o d : Location)
          → get_elem? origins i ≡ some o
          → get_elem? destinations j ≡ some d
          → MatrixCell (λ r. value r i j) (supplier i j) routes o d i j m)
  scatter-construct =
      let rows = length origins in
      let columns = length destinations in
      let (start, p, x, y, z) =
        construct_total default rows columns (λ i j. ok (supplier i j)) small
          (λ i j hi hj. (supplier i j, refl)) in
      let (a, b, c, filled) =
        construct-cases default rows columns (λ i j. ok (supplier i j)) start small p in
      let (m, q, sized, cells) =
        scatter_lem value origins destinations small routes start
          (record { has_columns = b; has_cells = c }) in
      (
        m,
        rw p q,
        λ i j o d ho hd.
            let hi = get_elem?-lt-length origins i o ho in
            let hj = get_elem?-lt-length destinations j d hd in
            let low = cell_below rows columns i j hi hj in
            let reads : (v : T)
                → get_elem? m.cells (columns * i + j) ≡ some v
                → at m (pos i) (pos j) ≡ ok v =
              λ v e. at-eq-ok m columns i j v sized.has_columns hj (omega arith) e in
            elim (cells i j o d ho hd) [
              | inl (r, h, e) ↦ inl (r, h, reads (value r i j) e)
              | inr (none, e) ↦
                  let (v, x, y) = filled i j hj (omega arith) in
                  let same : v ≡ supplier i j = cc in
                  inr (none, reads (supplier i j) (e ∙ y ∙ ap (λ (t : T). some t) same))
            ],
      )

-- The request for all pairs
abbrev pub batch_request :
    GrpcEngine → List Location → List Location → ProtoRouteProviderSettings → GetRoutesBatchRequest
batch_request engine origins destinations message = record {
  origins = new_locations [] 0 origins;
  destinations = new_locations [] 0 destinations;
  settings = message;
  routing_profile = profile_to_proto engine.routing_profile;
}

module _ (engine : GrpcEngine) (origins destinations : List Location)
    (message : ProtoRouteProviderSettings) (replies : List GetRoutesBatchResponse)
    (last : GetRoutesBatchResponse) where
  request_batch-eq :
      (only_info : Bool)
      → settings_message engine only_info ≡ ok message
      → engine.client.get_routes_batch (batch_request engine origins destinations message)
        ≡ ok (replies ++ last ∷ [])
      → last.status.code ≡ code_ok
      → request_batch engine only_info origins destinations ≡ ok last.route_infos
  unfolding request_batch
  request_batch-eq only_info h k c =
      rw (h, k, copy_replies-append empty_response last replies, c) refl

  -- If the settings can be written as a message, the server's replies to the request end in `last`, and
  -- its status is OK, a matrix of fewer than 2^64 cells is built. For the i-th origin o and the j-th
  -- destination d its cell (i, j) holds the zero route if i is j, and otherwise the summary that is
  -- read from the last route from o to d among the routes of `last`; the infinite route, also for i
  -- equal to j, if no route of `last` is from o to d.
  pub info_matrix_answers :
      (i j : ℕ) (o d : Location)
      → length origins * length destinations < size_mod
      → settings_message engine true ≡ ok message
      → engine.client.get_routes_batch (batch_request engine origins destinations message)
        ≡ ok (replies ++ last ∷ [])
      → last.status.code ≡ code_ok
      → get_elem? origins i ≡ some o
      → get_elem? destinations j ≡ some d
      → (m : Matrix RouteInfo) × (get_route_info_matrix engine origins destinations ≡ ok m)
        × MatrixCell
            (λ r. if i == j then RouteInfo.zero else info_from_proto r)
            RouteInfo.infinity
            last.route_infos
            o
            d
            i
            j
            m
  unfolding get_route_info_matrix
  info_matrix_answers i j o d small h k c ho hd =
      let (m, p, cells) =
        scatter-construct RouteInfo.zero info_value (λ i j. RouteInfo.infinity) origins destinations
          small last.route_infos in
      (m, rw (request_batch-eq true h k c) p, cells i j o d ho hd)

  -- The same for details, where `beyond` is what origins[j] reads behind the end of the origins.
  pub details_matrix_answers :
      (beyond : Location) (i j : ℕ) (o d : Location)
      → length origins * length destinations < size_mod
      → settings_message engine false ≡ ok message
      → engine.client.get_routes_batch (batch_request engine origins destinations message)
        ≡ ok (replies ++ last ∷ [])
      → last.status.code ≡ code_ok
      → get_elem? origins i ≡ some o
      → get_elem? destinations j ≡ some d
      → (m : Matrix RouteDetails) × (get_route_details_matrix engine beyond origins destinations
          ≡ ok m)
        × MatrixCell
            (λ r. details_value r i j)
            (RouteDetails.infinity (get_or origins i beyond) (get_or origins j beyond))
            last.route_infos
            o
            d
            i
            j
            m
  unfolding get_route_details_matrix
  details_matrix_answers beyond i j o d small h k c ho hd =
      let (m, p, cells) =
        scatter-construct RouteDetails.default details_value
          (λ i j. RouteDetails.infinity (get_or origins i beyond) (get_or origins j beyond)) origins
          destinations small last.route_infos in
      (m, rw (request_batch-eq false h k c) p, cells i j o d ho hd)
