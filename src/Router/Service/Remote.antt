-- ===== src/Router/Service/Remote.antt =====
-- The client GrpcRouteProviderEngine with RouterService behind its transport.
use assfire_suite.Base.{
  ℕ, ◌+◌, ◌*◌, ◌^◌, ◌<◌, ℤ, pos, ◌≡◌, refl, ap, sym, subst, ◌∙◌, ◌⊎◌, inl, inr, true, List, [], ◌∷◌,
  ◌++◌, map, length, get_elem?, some, ok,
}
use assfire_suite.Concepts.Location.{Location}
use assfire_suite.Concepts.Translators.{location_from_proto, location_to_proto}
use assfire_suite.Router.IndexedLocation.{IndexedLocation}
use assfire_suite.Router.RouteInfo
use assfire_suite.Router.RouteInfo.{RouteInfo}
use assfire_suite.Router.RouteDetails.{RouteDetails}
use assfire_suite.Router.Matrix.{Matrix, size_mod, at}
use assfire_suite.Router.Provider.{Provider}
use assfire_suite.Router.Settings.{RouterEngineType, RouteProviderSettings}
use assfire_suite.Router.Translators.{
  ProtoRouteInfo, ProtoRouteProviderSettings, engine_type_from_proto, profile_from_proto,
  settings_from_proto, details_to_proto, info_to_proto,
}
use assfire_suite.Router.Translators.RoundTrip.{IsSendable, location_round_trip}
use assfire_suite.Router.Messages.{GetRoutesBatchResponse}
use assfire_suite.Router.Engine.{RoutingContext, create_cache_wrapped_engine}
use assfire_suite.Router.Client.{GrpcEngine, get_route_info_matrix, settings_message}
use assfire_suite.Router.Client.Batch.{batch_request, info_matrix_answers}
use assfire_suite.Router.Service.{get_routes_batch, response_of}
use assfire_suite.Router.Service.Batch.{Answers, nothing, answered, pairs_of, batch_writes_pairs}

Answers-cases :
    (rs : List GetRoutesBatchResponse) (qs : List (Location × Location))
    → Answers rs qs
    → ((qs ≡ []) × (rs ≡ []))
      ⊎ ((from to : IndexedLocation) × (v : RouteDetails) × (rest : List GetRoutesBatchResponse)
          × (ps : List (Location × Location)) × (rs ≡ response_of from to v ∷ rest)
          × (qs ≡ (from.location, to.location) ∷ ps)
          × Answers rest ps)
Answers-cases _ _ nothing = inl (refl, refl)
Answers-cases _ _ (answered {rs = rs} {ps = ps} from to v h) =
    inr (from, to, v, rs, ps, refl, refl, h)

-- The response to the last of the pairs is the last.
Answers-last :
    (ps : List (Location × Location)) (x y : Location) (rs : List GetRoutesBatchResponse)
    → Answers rs (ps ++ (x, y) ∷ [])
    → (before : List GetRoutesBatchResponse) × (from to : IndexedLocation) × (v : RouteDetails)
      × (rs ≡ before ++ response_of from to v ∷ [])
      × (from.location ≡ x)
      × (to.location ≡ y)
Answers-last [] x y rs h = elim (Answers-cases rs ((x, y) ∷ []) h) [
  | inl (e, e') ↦ cc
  | inr (from, to, v, rest, qs, p, q, k) ↦ elim (Answers-cases rest qs k) [
    | inl (none, no_more) ↦ ([], from, to, v, cc (p, no_more), cc, cc)
    | inr (f, t, w, rest', qs', p', q', k') ↦ cc
  ]
]
Answers-last (q ∷ ps) x y rs h = elim (Answers-cases rs (q ∷ ps ++ (x, y) ∷ []) h) [
  | inl (e, e') ↦ cc
  | inr (from, to, v, rest, qs, p, e, k) ↦
      let same : qs ≡ ps ++ (x, y) ∷ [] = cc in
      let (before, f, t, w, a, b, c) =
        Answers-last ps x y rest
          (subst (λ (z : List (Location × Location)). Answers rest z) same k) in
      (response_of from to v ∷ before, f, t, w, cc (p, a), b, c)
]

-- A list of one entry has no other.
only_entry : {A : Type 0} (x r : A) (before after : List A) → x ∷ [] ≡ before ++ r ∷ after → x ≡ r
only_entry x r [] after e = cc
only_entry x r (b ∷ []) after e = cc
only_entry x r (b ∷ c ∷ before) after e = cc

origin-response :
    (from to : IndexedLocation) (v : RouteDetails) (x y : Location)
    → from.location ≡ x
    → to.location ≡ y
    → IsSendable x
    → IsSendable y
    → (location_from_proto
          (details_to_proto
            (location_to_proto from.location)
            (location_to_proto to.location)
            v).origin
        ≡ x)
      × (location_from_proto
            (details_to_proto
              (location_to_proto from.location)
              (location_to_proto to.location)
              v).destination
          ≡ y)
unfolding details_to_proto info_to_proto
origin-response from to v x y p q hx hy = (
  ap (λ (l : Location). location_from_proto (location_to_proto l)) p ∙ location_round_trip x hx,
  ap (λ (l : Location). location_from_proto (location_to_proto l)) q ∙ location_round_trip y hy,
)

-- So a client whose transport delivers what the server writes knows one route at most. If the
-- settings can be written and read, the server can make the provider, the request has fewer than
-- 2^32 locations, the matrix fewer than 2^64 cells, and (x, y) is the last pair of different
-- locations of the request, with coordinates within an int32, the client's matrix is built, and the
-- cell for an origin o and a destination d is infinite unless o is x and d is y.
pub remote_matrix_is_infinite :
    (context : RoutingContext) (tag : ℤ) (engine : GrpcEngine)
    (origins destinations : List Location) (message : ProtoRouteProviderSettings)
    (engine_type : RouterEngineType) (settings : RouteProviderSettings) (provider : Provider)
    (ps : List (Location × Location)) (x y : Location) (i j : ℕ) (o d : Location)
    → settings_message engine true ≡ ok message
    → engine_type_from_proto message.router_engine_type ≡ ok engine_type
    → settings_from_proto message ≡ ok settings
    → create_cache_wrapped_engine context engine_type
        (profile_from_proto (batch_request engine origins destinations message).routing_profile)
        settings
      ≡ ok provider
    → length (batch_request engine origins destinations message).origins
        + length (batch_request engine origins destinations message).destinations
      < 2 ^ 32
    → length origins * length destinations < size_mod
    → pairs_of
        (map location_from_proto (batch_request engine origins destinations message).origins)
        (map location_from_proto (batch_request engine origins destinations message).destinations)
      ≡ ps ++ (x, y) ∷ []
    → engine.client.get_routes_batch (batch_request engine origins destinations message)
      ≡ ok (get_routes_batch context tag (batch_request engine origins destinations message)).0
    → IsSendable x
    → IsSendable y
    → get_elem? origins i ≡ some o
    → get_elem? destinations j ≡ some d
    → (o ≡ x → d ≡ y → ⊥)
    → (m : Matrix RouteInfo) × (get_route_info_matrix engine origins destinations ≡ ok m)
      × (at m (pos i) (pos j) ≡ ok RouteInfo.infinity)
remote_matrix_is_infinite context tag engine origins destinations message engine_type settings
      provider ps x y i j o d written read_type read_settings made few small last delivered hx hy ho
      hd other =
    let request = batch_request engine origins destinations message in
    let (ws, sent, answers) =
      batch_writes_pairs context tag request engine_type settings provider read_type read_settings
        made few in
    let (before, from, to, v, split, p, q) =
      Answers-last ps x y ws
        (subst (λ (z : List (Location × Location)). Answers ws z) last answers) in
    let replies : engine.client.get_routes_batch request
        ≡ ok (before ++ response_of from to v ∷ []) =
      delivered ∙ ap (λ z. ok z.0) sent ∙ ap (λ (z : List GetRoutesBatchResponse). ok z) split in
    let (m, built, cell) =
      info_matrix_answers engine origins destinations message before (response_of from to v) i j o d
        small written replies refl ho hd in
    (
      m,
      built,
      elim cell [
        | inl (r, h, e) ↦
            let same = only_entry _ r h.before h.after h.split in
            let (a, b) = origin-response from to v x y p q hx hy in
            absurd (
              other
                (sym (
                    ap (λ (z : ProtoRouteInfo). location_from_proto z.origin) same
                    ∙ h.joins.same_origin)
                  ∙ a)
                (sym (
                    ap (λ (z : ProtoRouteInfo). location_from_proto z.destination) same
                    ∙ h.joins.same_destination)
                  ∙ b))
        | inr (none, e) ↦ e
      ],
    )
