-- ===== src/Auth/Middleware.antt =====
-- internal/api/auth/middleware.go: the guards in front of the handlers. A handler maps a request to
-- what it writes; a guard wraps a handler. Logger, which only logs, is left out.
use nmslite.Common.{
  ℕ, ℤ, String, str_eq, Bool, true, false, ◌||◌, ◌&&◌, Option, none, some, List, [], ◌∷◌, ◌++◌,
  ◌==◌, if◌then◌else◌,
}
use nmslite.Common.Results.{ok, err}
use nmslite.Auth.Security.{Bytes, Service, Jwt, validate_token}

-- What a guard reads of a request, and the values of its context. A header that is missing is empty.
pub record Request : Type 0 where
  pub method : String
  pub path : String
  pub origin : String
  pub authorization : Bytes
  pub request_id : Option String
  pub username : Option String

pub record ErrorDetail : Type 0 where
  pub code : String
  pub message : String
  pub request_id : String

pub data Body : Type 0 where
  nothing : Body
  error : ErrorDetail → Body
  -- what a handler writes, by its own account
  content : String → Body

pub record Response : Type 0 where
  pub headers : List (String × String)
  pub status : ℕ
  pub body : Body

abbrev pub Handler : Type 0
Handler = Request → Response

-- w.Header().Set, before the rest is written
abbrev set_headers : List (String × String) → Response → Response
set_headers hs r = record r { headers = hs ++ r.headers }

abbrev value_or_empty : Option String → String
value_or_empty none = ""
value_or_empty (some t) = t

-- sendError
unfoldable pub send_error : Request → ℕ → String → String → Response
send_error r status code message = record {
  headers = ("Content-Type", "application/json") ∷ [];
  status = status;
  body =
      error (record { code = code; message = message; request_id = value_or_empty r.request_id });
}

-- RequestID, with the identifier that is made up.
unfoldable pub request_id_guard : String → Handler → Handler
request_id_guard id next r =
    set_headers (("X-Request-ID", id) ∷ []) (next (record r { request_id = some id }))

-- The loop over allowedOrigins.
unfoldable pub is_allowed : List String → String → Bool
is_allowed [] origin = false
is_allowed (o ∷ os) origin =
    let rest = is_allowed os origin in if str_eq o "*" || str_eq o origin then true else rest

-- The settings of CORS: the lists as they are joined, and string(rune(maxAge)).
pub record CorsConfig : Type 0 where
  pub allowed_origins : List String
  pub allowed_methods : String
  pub allowed_headers : String
  pub max_age : String

-- CORS
unfoldable pub cors : CorsConfig → Handler → Handler
unfolding is_allowed
cors c next r =
    let headers =
      if is_allowed c.allowed_origins r.origin
      then ("Access-Control-Allow-Origin", r.origin)
        ∷ ("Access-Control-Allow-Methods", c.allowed_methods)
        ∷ ("Access-Control-Allow-Headers", c.allowed_headers)
        ∷ ("Access-Control-Max-Age", c.max_age)
        ∷ []
      else [] in
    set_headers headers (
      if str_eq r.method "OPTIONS"
      then record { headers = []; status = 204; body = nothing }
      else next r)

-- strings.Split at spaces: the text up to the first one, and the parts behind it.
unfoldable pub split_spaces : Bytes → Bytes × List Bytes
split_spaces [] = ([], [])
split_spaces (c ∷ t) =
    let (part, parts) = split_spaces t in if c == 32 then ([], part ∷ parts) else (c ∷ part, parts)

-- s == t
unfoldable pub same_bytes : Bytes → Bytes → Bool
same_bytes [] [] = true
same_bytes [] (d ∷ t) = false
same_bytes (c ∷ s) [] = false
same_bytes (c ∷ s) (d ∷ t) = c == d && same_bytes s t

-- "Bearer"
abbrev pub bearer : Bytes
bearer = b'B' ∷ b'e' ∷ b'a' ∷ b'r' ∷ b'e' ∷ b'r' ∷ []

-- The second of exactly two parts, where the first is "Bearer".
unfoldable pub token_of : Bytes → List Bytes → Option Bytes
unfolding same_bytes
token_of part (token ∷ []) = if same_bytes part bearer then some token else none
token_of part parts = none

-- The token of an Authorization header.
unfoldable pub bearer_token : Bytes → Option Bytes
unfolding split_spaces token_of
bearer_token header = let (part, parts) = split_spaces header in token_of part parts

-- JWTAuth, at a time.
unfoldable pub jwt_auth : Jwt → Service → ℤ → Handler → Handler
unfolding bearer_token send_error
jwt_auth j s now next r = elim r.authorization [
  | [] ↦ send_error r 401 "UNAUTHORIZED" "Missing authorization header"
  | c ∷ t ↦ elim (bearer_token (c ∷ t)) [
    | none ↦ send_error r 401 "UNAUTHORIZED" "Invalid authorization header format"
    | some token ↦ elim (validate_token j s now token) [
      | err e ↦ send_error r 401 "UNAUTHORIZED" "Invalid or expired token"
      | ok claims ↦ next (record r { username = some claims.username })
    ]
  ]
]

-- Recovery, around a handler that may panic before it writes.
unfoldable pub recovery : (Request → Option Response) → Handler
unfolding send_error
recovery next r = elim (next r) [
  | some response ↦ response
  | none ↦ send_error r 500 "INTERNAL_ERROR" "An unexpected error occurred"
]
