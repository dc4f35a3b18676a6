-- ===== src/Auth/Guarded.antt =====
-- internal/api/auth/middleware.go: which requests pass JWTAuth.
use nmslite.Common.{
  ℤ, String, ◌≡◌, refl, ◌↔◌, List-cases, inl, inr, Bool, true, not, ◌&&◌, some, List, [], ◌∷◌, ◌++◌,
  ◌==◌, arith, ap, Bool-cases, Option-cases, ◌∙◌,
}
use nmslite.Common.Results.{ok, Result-cases}
use nmslite.Auth.Security.{Bytes, Claims, Service, Jwt, validate_token}
use nmslite.Auth.Middleware.{
  Request, Handler, send_error, split_spaces, same_bytes, bearer, token_of, bearer_token, jwt_auth,
}

-- No byte is a space.
abbrev pub no_space : Bytes → Bool
no_space [] = true
no_space (c ∷ t) = not (c == 32) && no_space t

same_bytes_iff : (s t : Bytes) → (same_bytes s t ≡ true) ↔ (s ≡ t)
unfolding same_bytes
same_bytes_iff [] [] = (λ h. refl, λ h. refl)
same_bytes_iff [] (d ∷ t) = ground arith
same_bytes_iff (c ∷ s) [] = ground arith
same_bytes_iff (c ∷ s) (d ∷ t) = ground (arith, same_bytes_iff s t)

-- A text without a space is its only part.
split-no_space : (t : Bytes) → no_space t ≡ true → split_spaces t ≡ (t, [])
unfolding split_spaces
split-no_space [] h = refl
split-no_space (c ∷ t) h = ground (arith, split-no_space t)

split-one : (t : Bytes) → (split_spaces t).1 ≡ [] → (split_spaces t).0 ≡ t × no_space t ≡ true
unfolding split_spaces
split-one [] h = (refl, refl)
split-one (c ∷ t) h = ground (arith, split-one t)

split-two :
    (h token : Bytes)
    → (split_spaces h).1 ≡ token ∷ []
    → (h ≡ (split_spaces h).0 ++ 32 ∷ token) × no_space token ≡ true
unfolding split_spaces
split-two [] token e = ground arith
split-two (c ∷ t) token e = elim (Bool-cases (c == 32)) [
  | inl space ↦ ground (arith, split-one t)
  | inr other ↦ ground (arith, split-two t token)
]

split-append :
    (part token : Bytes)
    → no_space part ≡ true
    → no_space token ≡ true
    → split_spaces (part ++ 32 ∷ token) ≡ (part, token ∷ [])
unfolding split_spaces
split-append [] token p q = rw (split-no_space token q) refl
split-append (c ∷ t) token p q = ground (arith, split-append t token)

token_of_lem :
    (part : Bytes) (parts : List Bytes) (token : Bytes)
    → token_of part parts ≡ some token
    → (part ≡ bearer) × (parts ≡ token ∷ [])
unfolding token_of
token_of_lem part [] token e = ground arith
token_of_lem part (t ∷ []) token e = ground (arith, same_bytes_iff part bearer)
token_of_lem part (t ∷ u ∷ ts) token e = ground arith

bearer_token-shown :
    (token : Bytes) → no_space token ≡ true → bearer_token (bearer ++ 32 ∷ token) ≡ some token
unfolding bearer_token token_of split_spaces same_bytes
bearer_token-shown token h = ground (arith, split-no_space token h)

-- An Authorization header holds a token when it is "Bearer", a space and the token, without spaces.
bearer_token_iff :
    (h token : Bytes)
    → (bearer_token h ≡ some token) ↔ ((h ≡ bearer ++ 32 ∷ token) × no_space token ≡ true)
unfolding bearer_token
bearer_token_iff h token = (
  λ e.
      let (b, p) = token_of_lem (split_spaces h).0 (split_spaces h).1 token e in
      let (join, clean) = split-two h token p in (join ∙ ap (λ part. part ++ 32 ∷ token) b, clean),
  λ e. ap bearer_token e.0 ∙ bearer_token-shown token e.1,
)

module _ (j : Jwt) (s : Service) (now : ℤ) where
  -- The request shows a token that ValidateToken takes for these claims.
  pub record Authorized (r : Request) (claims : Claims) : Type 0 where
    pub token : Bytes
    pub header : r.authorization ≡ bearer ++ 32 ∷ token
    pub clean : no_space token ≡ true
    pub accepted : validate_token j s now token ≡ ok claims

  -- JWTAuth calls the handler behind it, with the name of the claims in the context, for each
  -- request whose Authorization header is "Bearer", one space and a token without spaces that
  -- ValidateToken takes. Any other request is answered with an error of status 401, whatever the
  -- handler behind it.
  pub jwt_auth_lem :
      (r : Request)
      → ((claims : Claims)
          → Authorized r claims
          → (next : Handler)
          → jwt_auth j s now next r ≡ next (record r { username = some claims.username }))
        × (((claims : Claims) → ¬ Authorized r claims)
            → (message : String) × ((next : Handler)
                → jwt_auth j s now next r ≡ send_error r 401 "UNAUTHORIZED" message))
  unfolding jwt_auth
  jwt_auth_lem r = (
    λ claims a next.
        rw
          (
            a.header,
            (bearer_token_iff (bearer ++ 32 ∷ a.token) a.token).1 (refl, a.clean),
            a.accepted,
          )
          refl,
    λ none_of. elim (List-cases r.authorization) [
      | inl e ↦ ("Missing authorization header", λ next. rw e refl)
      | inr (c, t, e) ↦ elim (Option-cases (bearer_token (c ∷ t))) [
        | inl f ↦ ("Invalid authorization header format", λ next. rw (e, f, jwt_auth) refl)
        | inr (token, f) ↦ elim (Result-cases (validate_token j s now token)) [
          | inr (x, g) ↦ ("Invalid or expired token", λ next. rw (e, f, g, jwt_auth) refl)
          | inl (claims, g) ↦
              let (header, clean) = (bearer_token_iff (c ∷ t) token).0 f in
              absurd (
                none_of claims
                  (record { token = token; header = e ∙ header; clean = clean; accepted = g }))
        ]
      ]
    ],
  )
