-- ===== src/Api/Tests/Guards.antt =====
-- The theorems on the router and on logins, applied to small inputs.
use nmslite.Common.{ℤ, pos, ◌<ℤ◌, String, ◌≡◌, refl, true, none, some, [], ◌∷◌, ◌++◌, arith}
use nmslite.Common.Results.{ok}
use nmslite.Auth.Security.{LoginResponse}
use nmslite.Auth.Middleware.{Request, Handler, nothing, content, jwt_auth, bearer}
use nmslite.Auth.Guarded.{no_space}
use nmslite.Auth.Tests.{service, request, one_token, one_token-IsJwt}
use nmslite.Api.Router.{Endpoint, health, login, Setup, new_router}
use nmslite.Api.Router.Unauthorized.{IsUnauthorized, new_router-unauthorized}
use nmslite.Api.System.{login_user, login_user-reaches}

-- A request without a token, which finds the first route behind the guard.
abbrev anonymous : Request
anonymous = record request { authorization = [] }

abbrev setup : Setup
setup = record {
  jwt = one_token;
  service = service;
  cors = none;
  now = pos 20;
  new_id = "id";
  finds = λ rs r. some 2;
  unmatched = λ r. record { headers = []; status = 404; body = nothing };
}

abbrev says : String → Endpoint → Handler
says text health r = record { headers = []; status = 200; body = content "ok" }
says text login r = record { headers = []; status = 200; body = content "token" }
says text endpoint r = record { headers = []; status = 200; body = content text }

anonymous-IsUnauthorized : IsUnauthorized setup (says "a") (says "b") anonymous
anonymous-IsUnauthorized claims a = absurd (ground (arith, a.header))

new_router-unauthorized_example :
    new_router setup (says "a") anonymous ≡ new_router setup (says "b") anonymous
new_router-unauthorized_example =
    new_router-unauthorized setup (says "a") (says "b") anonymous (λ r. refl, λ r. refl)
      anonymous-IsUnauthorized

login_user-reaches_example :
    (response : LoginResponse) × (login_user one_token service
        (pos 10)
        (pos 10)
        (some ("admin", "secret"))
      ≡ ok (200, response))
    × ((t : ℤ) (r : Request) (next : Handler)
        → t <ℤ response.expires_at
        → no_space response.token ≡ true
        → r.authorization ≡ bearer ++ 32 ∷ response.token
        → jwt_auth one_token service t next r ≡ next (record r { username = some "admin" }))
login_user-reaches_example =
    login_user-reaches one_token service (pos 10) (pos 10) one_token-IsJwt refl refl
