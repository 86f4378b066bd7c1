-- ===== src/Router/Providers/Agree.antt =====
-- What all route providers of the engine have in common.
use assfire_suite.Base.{◌≡◌, ◌≢◌, refl, subst, Bool, if◌then◌else◌, ok, ◌>>=◌}
use assfire_suite.Concepts.Double.{Double, Fpu}
use assfire_suite.Concepts.Location
use assfire_suite.Concepts.Location.{Location}
use assfire_suite.Router.RouteInfo
use assfire_suite.Router.RouteDetails
use assfire_suite.Router.Settings.{
  OsrmGeometry, RouterEngineType, RoutingProfile, RouteProviderSettings,
}
use assfire_suite.Router.Provider.{Provider}
use assfire_suite.Router.Direct.{get_summary}
use assfire_suite.Router.Engine.{create_engine}
use assfire_suite.Router.Providers.{
  Libm, between, calculate_crowflight_distance, calculate_euclidean_distance, crowflight_provider,
  euclidean_provider, OsrmConnector, calculating, calculate_route_info, calculate_route_details,
  osrm_provider, route_providers,
}

-- The summary of the details is what is answered for the summary alone, and no way is needed from a
-- location to itself.
pub record Agrees (p : Provider) (a b : Location) : Type 0 where
  pub info_is_summary :
      p.get_single_route_info a b ≡ (p.get_single_route_details a b >>= get_summary)
  pub same_place_info : p.get_single_route_info a a ≡ ok RouteInfo.zero
  pub same_place_details : p.get_single_route_details a a ≡ ok (RouteDetails.zero a a)

module _ (fpu : Fpu) (libm : Libm) where
  calculating-Agrees :
      (length : Location → Location → Double) (profile : RoutingProfile) (a b : Location)
      → Agrees (calculating fpu libm length profile) a b
  unfolding calculate_route_info
  calculating-Agrees length profile a b = record {
    info_is_summary = refl;
    same_place_info = rw ((Location.eqb_iff a a).1 refl) refl;
    same_place_details = rw ((Location.eqb_iff a a).1 refl) refl;
  }

  osrm-Agrees :
      (connector : OsrmConnector) (profile : RoutingProfile) (geometry : OsrmGeometry)
      (a b : Location)
      → Agrees (osrm_provider fpu libm connector profile geometry) a b
  unfolding calculate_route_details
  osrm-Agrees connector profile geometry a b = record {
    info_is_summary = refl;
    same_place_info = rw ((Location.eqb_iff a a).1 refl) refl;
    same_place_details = rw ((Location.eqb_iff a a).1 refl) refl;
  }

  -- Whichever type of engine but the random one, which draws anew at each call, is asked for, the
  -- provider that is made without a cache answers for the
  -- summary of a route what the summary of its details is, an exception included, and gives the zero
  -- route from a location to itself, without asking OSRM.
  pub create_engine-Agrees :
      (draw : Location → Location → Double) (connector : OsrmConnector)
      (cached : RouterEngineType → RoutingProfile → RouteProviderSettings → Provider → Provider)
      (enabled supplier : Bool) (type : RouterEngineType) (profile : RoutingProfile)
      (settings : RouteProviderSettings) (p : Provider) (a b : Location)
      → type ≢ RouterEngineType.random
      → create_engine
          (record {
            providers = route_providers fpu libm draw connector cached;
            cache_enabled = enabled;
            has_serializer_supplier = supplier;
          })
          type
          profile
          settings
        ≡ ok p
      → Agrees p a b
  unfolding create_engine
  create_engine-Agrees draw connector cached enabled supplier RouterEngineType.crowflight profile
        settings p a b n e =
      let same : crowflight_provider fpu libm profile ≡ p = cc in
      subst (λ (q : Provider). Agrees q a b) same
        (calculating-Agrees (between fpu libm (calculate_crowflight_distance fpu libm)) profile a b)
  create_engine-Agrees draw connector cached enabled supplier RouterEngineType.euclidean profile
        settings p a b n e =
      let same : euclidean_provider fpu libm profile ≡ p = cc in
      subst (λ (q : Provider). Agrees q a b) same
        (calculating-Agrees (between fpu libm (calculate_euclidean_distance fpu libm)) profile a b)
  create_engine-Agrees draw connector cached enabled supplier RouterEngineType.random profile
        settings p a b n e =
      absurd (n refl)
  create_engine-Agrees draw connector cached enabled supplier RouterEngineType.osrm profile settings
        p a b n e =
      let geometry =
        if settings.retrieve_waypoints
        then settings.osrm_settings.geometry
        else OsrmGeometry.straight_line in
      let same : osrm_provider fpu libm connector profile geometry ≡ p = cc in
      subst (λ (q : Provider). Agrees q a b) same (osrm-Agrees connector profile geometry a b)
  create_engine-Agrees draw connector cached enabled supplier RouterEngineType.unknown profile
        settings p a b n e =
      cc
