-- ===== src/Api/Router.antt =====
-- internal/api/router.go: NewRouter, the routes and the guards in front of them. How a request finds
-- its route (go-chi) is an argument, as are the handlers, whose panics are left out.
pub mod Unauthorized
use nmslite.Common.{
  ℕ, zero, suc, ℤ, String, ◌≡◌, refl, ◌∙◌, sym, ap, Bool, true, false, Option, none, some, List, [],
  ◌∷◌, ◌++◌, if◌then◌else◌, arith, Bool-cases, Option-cases, inl, inr, ◌⊎◌,
}
use nmslite.Common.Results.{ok}
use nmslite.Auth.Security.{Service, Jwt}
use nmslite.Auth.Middleware.{
  Request, Response, Handler, CorsConfig, request_id_guard, recovery, cors, jwt_auth, send_error,
  is_allowed,
}
use nmslite.Auth.Guarded.{Authorized, jwt_auth_lem}

pub data Endpoint : Type 0 where
  health login query_metrics list_protocols : Endpoint
  list_credentials create_credential get_credential update_credential delete_credential : Endpoint
  list_discoveries create_discovery get_discovery update_discovery : Endpoint
  delete_discovery run_discovery discovery_results : Endpoint
  list_monitors create_monitor get_monitor update_monitor delete_monitor : Endpoint
  list_devices get_device delete_device provision_device : Endpoint

pub record Route : Type 0 where
  pub method : String
  pub pattern : String
  pub is_protected : Bool
  pub endpoint : Endpoint

-- A route of the mux itself.
abbrev open_route : String → String → Endpoint → Route
open_route method pattern endpoint = record {
  method = method;
  pattern = pattern;
  is_protected = false;
  endpoint = endpoint;
}

-- The routes of the group that uses JWTAuth.
unfoldable pub group : List (String × String × Endpoint) → List Route
group [] = []
group ((method, pattern, endpoint) ∷ rest) =
    record { method = method; pattern = pattern; is_protected = true; endpoint = endpoint }
    ∷ group rest

-- Routes, of devices.go, under /devices
abbrev device_routes : List (String × String × Endpoint)
device_routes =
    ("GET", "/api/v1/devices/", list_devices)
    ∷ ("GET", "/api/v1/devices/{id}", get_device)
    ∷ ("DELETE", "/api/v1/devices/{id}", delete_device)
    ∷ ("POST", "/api/v1/devices/{id}/provision", provision_device)
    ∷ []

unfoldable pub protected_routes : List (String × String × Endpoint)
protected_routes =
    ("GET", "/api/v1/credentials/", list_credentials)
      ∷ ("POST", "/api/v1/credentials/", create_credential)
      ∷ ("GET", "/api/v1/credentials/{id}", get_credential)
      ∷ ("PUT", "/api/v1/credentials/{id}", update_credential)
      ∷ ("DELETE", "/api/v1/credentials/{id}", delete_credential)
      ∷ ("GET", "/api/v1/discoveries/", list_discoveries)
      ∷ ("POST", "/api/v1/discoveries/", create_discovery)
      ∷ ("GET", "/api/v1/discoveries/{id}", get_discovery)
      ∷ ("PUT", "/api/v1/discoveries/{id}", update_discovery)
      ∷ ("DELETE", "/api/v1/discoveries/{id}", delete_discovery)
      ∷ ("POST", "/api/v1/discoveries/{id}/run", run_discovery)
      ∷ ("GET", "/api/v1/discoveries/{id}/results", discovery_results)
      ∷ ("GET", "/api/v1/monitors/", list_monitors)
      ∷ ("POST", "/api/v1/monitors/", create_monitor)
      ∷ ("GET", "/api/v1/monitors/{id}", get_monitor)
      ∷ ("PATCH", "/api/v1/monitors/{id}", update_monitor)
      ∷ ("DELETE", "/api/v1/monitors/{id}", delete_monitor)
      ∷ device_routes
    ++ ("POST", "/api/v1/metrics/query", query_metrics)
      ∷ ("GET", "/api/v1/protocols/", list_protocols)
      ∷ []

unfoldable pub routes : List Route
unfolding group protected_routes
routes =
    open_route "GET" "/health" health
    ∷ open_route "POST" "/api/v1/login" login
    ∷ group protected_routes

-- What the router is made of, with the time of the request and the identifier that is made up for it.
pub record Setup : Type 0 where
  pub jwt : Jwt
  pub service : Service
  -- none where CORS is not enabled
  pub cors : Option CorsConfig
  pub now : ℤ
  pub new_id : String
  -- go-chi: the number of the route that a request finds, and the answer to one that finds none
  pub finds : List Route → Request → Option ℕ
  pub unmatched : Handler

abbrev pub route_at : List Route → ℕ → Option Route
route_at [] n = none
route_at (route ∷ rest) zero = some route
route_at (route ∷ rest) (suc n) = route_at rest n

module _ (c : Setup) where
  -- A route, behind the guard of its group.
  unfoldable pub dispatch : (Endpoint → Handler) → Option Route → Handler
  unfolding jwt_auth
  dispatch handlers none = c.unmatched
  dispatch handlers (some route) =
      if route.is_protected
      then jwt_auth c.jwt c.service c.now (handlers route.endpoint)
      else handlers route.endpoint

  -- The mux, with the handlers of the endpoints.
  unfoldable pub mux : (Endpoint → Handler) → Handler
  unfolding routes dispatch
  mux handlers r = elim (c.finds routes r) [
    | none ↦ c.unmatched r
    | some n ↦ dispatch handlers (route_at routes n) r
  ]

  abbrev pub with_cors : Option CorsConfig → Handler → Handler
  with_cors none next = next
  with_cors (some config) next = cors config next

  -- NewRouter
  unfoldable pub new_router : (Endpoint → Handler) → Handler
  unfolding request_id_guard recovery cors mux
  new_router handlers =
      request_id_guard c.new_id (recovery (λ r. some (with_cors c.cors (mux handlers) r)))
