-- ===== src/Api/Router/Unauthorized.antt =====
-- internal/api/router.go with internal/api/auth/middleware.go: requests without a valid token.
use nmslite.Common.{
  ℕ, zero, suc, String, ◌≡◌, refl, ◌∙◌, sym, true, Option, none, some, List, [], ◌∷◌, arith,
  Bool-cases, Option-cases, inl, inr, ◌⊎◌,
}
use nmslite.Auth.Middleware.{
  Request, Handler, CorsConfig, request_id_guard, recovery, cors, jwt_auth,
}
use nmslite.Auth.Guarded.{Authorized, jwt_auth_lem}
use nmslite.Api.Router.{
  Endpoint, health, login, Route, group, protected_routes, routes, Setup, route_at, dispatch, mux,
  with_cors, new_router,
}

group-protected :
    (rs : List (String × String × Endpoint)) (n : ℕ) (route : Route)
    → route_at (group rs) n ≡ some route
    → route.is_protected ≡ true
unfolding group
group-protected [] n route e = absurd (ground (arith, e))
group-protected (r ∷ rs) zero route e = ground (arith, e)
group-protected (r ∷ rs) (suc n) route e = group-protected rs n route e

routes-open :
    (n : ℕ) (route : Route)
    → route_at routes n ≡ some route
    → (route.is_protected ≡ true) ⊎ (route.endpoint ≡ health) ⊎ (route.endpoint ≡ login)
unfolding routes
routes-open zero route e = inr (inl (ground (arith, e)))
routes-open (suc zero) route e = inr (inr (ground (arith, e)))
routes-open (suc (suc n)) route e = inl (group-protected protected_routes n route e)

module _ (c : Setup) (h h' : Endpoint → Handler) where
  -- The handlers that need no token are the same.
  abbrev SameOpen : Type 0
  SameOpen = ((r : Request) → h health r ≡ h' health r) × ((r : Request) → h login r ≡ h' login r)

  -- No token of the request is taken for any claims.
  abbrev pub IsUnauthorized : Request → Type 0
  IsUnauthorized r = (claims : _) → ¬ Authorized c.jwt c.service c.now r claims

  refused :
      (r : Request) (e : Endpoint)
      → IsUnauthorized r
      → jwt_auth c.jwt c.service c.now (h e) r ≡ jwt_auth c.jwt c.service c.now (h' e) r
  refused r e u =
      let (message, answer) = (jwt_auth_lem c.jwt c.service c.now r).1 u in
      answer (h e) ∙ sym (answer (h' e))

  dispatch-same :
      (r : Request) (n : ℕ)
      → SameOpen
      → IsUnauthorized r
      → dispatch c h (route_at routes n) r ≡ dispatch c h' (route_at routes n) r
  unfolding dispatch
  dispatch-same r n same u = elim (Option-cases (route_at routes n)) [
    | inl e ↦ rw e refl
    | inr (route, e) ↦ elim (routes-open n route e) [
      | inl p ↦ rw (e, p) (refused r route.endpoint u)
      | inr q ↦ elim (Bool-cases route.is_protected) [
        | inl p ↦ rw (e, p) (refused r route.endpoint u)
        | inr p ↦ elim q [ inl f ↦ rw (e, p, f) (same.0 r) | inr f ↦ rw (e, p, f) (same.1 r) ]
      ]
    ]
  ]

  mux-same : (r : Request) → SameOpen → IsUnauthorized r → mux c h r ≡ mux c h' r
  unfolding mux
  mux-same r same u = elim (Option-cases (c.finds routes r)) [
    | inl e ↦ rw (e, mux) refl
    | inr (n, e) ↦ rw (e, mux) (dispatch-same r n same u)
  ]

  with_cors-same :
      (config : Option CorsConfig) (r : Request)
      → mux c h r ≡ mux c h' r
      → with_cors c config (mux c h) r ≡ with_cors c config (mux c h') r
  unfolding cors
  with_cors-same none r e = e
  with_cors-same (some config) r e = rw e refl

  -- The response to a request without a valid token does not depend on the handlers behind the guard:
  -- two routers whose handlers for /health and /login are the same answer it alike, whatever their other
  -- handlers do, whatever route it finds, with CORS and without.
  pub new_router-unauthorized :
      (r : Request) → SameOpen → IsUnauthorized r → new_router c h r ≡ new_router c h' r
  unfolding new_router request_id_guard recovery
  new_router-unauthorized r same u =
      let r' : Request = record r { request_id = some c.new_id } in
      let u' : IsUnauthorized r' = λ claims a.
        u claims
          (record { token = a.token; header = a.header; clean = a.clean; accepted = a.accepted }) in
      rw (with_cors-same c.cors r' (mux-same r' same u')) refl
