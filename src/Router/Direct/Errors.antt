-- ===== src/Router/Direct/Errors.antt =====
-- How the direct engine answers where the provider throws.
use assfire_suite.Base.{
  ◌≡◌, refl, ◌⊎◌, ok, err, Error, exception, Result-cases, Bool-cases, inl, inr,
}
use assfire_suite.Router.RouteInfo
use assfire_suite.Router.RouteInfo.{RouteInfo}
use assfire_suite.Router.RouteDetails
use assfire_suite.Router.RouteDetails.{RouteDetails}
use assfire_suite.Router.IndexedLocation.{IndexedLocation}
use assfire_suite.Router.Settings.{on_error_return_infinity, on_error_throw}
use assfire_suite.Router.Direct.{
  DirectEngine, process_error, is_foreign, get_route_info_at, get_route_info, get_route_details_at,
  get_route_details,
}

-- The index of a location changes no answer: a query by indexed locations is the query by the
-- locations themselves, of whichever matrix the indices are.
pub direct_ignores_index :
    (m : DirectEngine) (a b : IndexedLocation)
    → (get_route_info m a b ≡ get_route_info_at m a.location b.location)
      × (get_route_details m a b ≡ get_route_details_at m a.location b.location)
unfolding get_route_info get_route_info_at get_route_details get_route_details_at
direct_ignores_index m a b = elim (Bool-cases (is_foreign m.matrix_tag a b)) [
  | inl e ↦ (rw e, rw e)
  | inr e ↦ (rw e, rw e)
]

-- Under ON_ERROR_RETURN_INFINITY no query throws: the answer is the provider's, and where the
-- provider throws it is the infinite route between the two locations.
pub direct_returns_infinity :
    (m : DirectEngine) (a b : IndexedLocation)
    → m.error_policy ≡ on_error_return_infinity
    → ((r : RouteInfo) × (get_route_info m a b ≡ ok r)
        × ((m.engine.get_single_route_info a.location b.location ≡ ok r)
            ⊎ ((e : Error) × (m.engine.get_single_route_info a.location b.location ≡ err e)
                × (r ≡ RouteInfo.infinity))))
      × ((d : RouteDetails) × (get_route_details m a b ≡ ok d)
          × ((m.engine.get_single_route_details a.location b.location ≡ ok d)
              ⊎ ((e : Error) × (m.engine.get_single_route_details a.location b.location ≡ err e)
                  × (d ≡ RouteDetails.infinity a.location b.location))))
unfolding get_route_info_at get_route_details_at process_error
direct_returns_infinity m a b policy = rw (direct_ignores_index m a b).0 (
    rw (direct_ignores_index m a b).1 (
      elim (Result-cases (m.engine.get_single_route_info a.location b.location)) [
        | inl (r, e) ↦ (r, rw e, inl e)
        | inr (e, h) ↦ (RouteInfo.infinity, rw (h, policy), inr (e, h, refl))
      ],
      elim (Result-cases (m.engine.get_single_route_details a.location b.location)) [
        | inl (d, e) ↦ (d, rw e, inl e)
        | inr (e, h) ↦
            (RouteDetails.infinity a.location b.location, rw (h, policy), inr (e, h, refl))
      ],
    ))

-- Under ON_ERROR_THROW, whatever the provider throws reaches the caller as a bare std::exception:
-- the kind of the error and its message are lost.
pub direct_throw_loses_error :
    (m : DirectEngine) (a b : IndexedLocation) (e : Error)
    → m.error_policy ≡ on_error_throw
    → m.engine.get_single_route_info a.location b.location ≡ err e
    → get_route_info m a b ≡ err exception
unfolding get_route_info_at process_error
direct_throw_loses_error m a b e policy h = rw (direct_ignores_index m a b).0 (rw (h, policy))
