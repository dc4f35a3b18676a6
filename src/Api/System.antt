-- ===== src/Api/System.antt =====
-- internal/api/handlers/system.go: Login and ListProtocols, and how its tokens fare with the guard of the other routes.
use nmslite.Common.{
  ℤ, ◌+ℤ◌, ◌<ℤ◌, ℕ, String, str_eq, ◌≡◌, refl, ◌∙◌, ap, true, false, ◌||◌, Option, none, some, List,
  ◌∷◌, length, ◌++◌, if◌then◌else◌,
}
use nmslite.Common.Results.{Result, ok, err}
use nmslite.Auth.Security.{Jwt, Service, LoginResponse, login, claims_of}
use nmslite.Auth.Logins.{IsJwt, validate_token-login}
use nmslite.Auth.Middleware.{Request, bearer, Handler, jwt_auth}
use nmslite.Auth.Guarded.{jwt_auth_lem, no_space}
use nmslite.Protocols.Registry.{Registry, Protocol, list_protocols}
use nmslite.Api.Requests.{Failure}

abbrev refuse : {A : Type 0} → ℕ → String → String → Result Failure A
refuse status code message = err (record { status = status; code = code; message = message })

-- Login, at the times of the two readings of the clock, for a name and a password, or none where the
-- body is not JSON of the type.
unfoldable pub login_user :
    Jwt → Service → ℤ → ℤ → Option (String × String) → Result Failure (ℕ × LoginResponse)
unfolding login
login_user j s now later none = refuse 400 "INVALID_REQUEST" "Invalid JSON payload"
login_user j s now later (some (user, password)) =
    if str_eq user "" || str_eq password ""
    then refuse 400 "VALIDATION_ERROR" "Username and password are required"
    else elim (login j s user password now later) [
      | err e ↦ refuse 401 "UNAUTHORIZED" "Invalid credentials"
      | ok response ↦ ok (200, response)
    ]

-- ListProtocols. The dependencies have a registry, or none.
unfoldable show_protocols : Option Registry → Result Failure (ℕ × List Protocol × ℕ)
unfolding list_protocols
show_protocols none = refuse 500 "REGISTRY_ERROR" "Protocol registry not initialized"
show_protocols (some registry) =
    let protocols = list_protocols registry in ok (200, protocols, length protocols)

-- Where the token library behaves as documented for the claims of Login: a login with the
-- administrator's name and password, neither of them empty, is answered with 200 and a token. A request
-- that shows this token, without spaces, as a bearer token before the date that the token expires at
-- reaches the handler behind the guard, with the administrator's name.
pub login_user-reaches :
    (j : Jwt) (s : Service) (now later : ℤ)
    → IsJwt j (claims_of j s.admin_username (now +ℤ s.token_expiry) later)
    → str_eq s.admin_username "" ≡ false
    → str_eq s.admin_password "" ≡ false
    → (response : LoginResponse) × (login_user j s now later
          (some (s.admin_username, s.admin_password))
        ≡ ok (200, response))
      × ((t : ℤ) (r : Request) (next : Handler)
          → t <ℤ j.numeric_date response.expires_at
          → no_space response.token ≡ true
          → r.authorization ≡ bearer ++ 32 ∷ response.token
          → jwt_auth j s t next r ≡ next (record r { username = some s.admin_username }))
unfolding login_user
login_user-reaches j s now later law named worded =
    let (response, logged, expires, taken) = validate_token-login j s now later law in
    (
      response,
      rw (named, worded, logged) refl,
      λ t r next before clean shown.
          let (claims, valid, name) = taken t before in
          (jwt_auth_lem j s t r).0 claims
            (record { token = response.token; header = shown; clean = clean; accepted = valid })
            next
          ∙ ap (λ n. next (record r { username = some n })) name,
    )
