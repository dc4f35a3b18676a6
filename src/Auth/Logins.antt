-- ===== src/Auth/Logins.antt =====
-- internal/api/auth/security.go: the tokens of Login are those that ValidateToken takes.
use nmslite.Common.{ℤ, ◌+ℤ◌, ◌<ℤ◌, str_eq_iff, ◌≡◌, refl, true, Option, some}
use nmslite.Common.Results.{ok}
use nmslite.Auth.Security.{
  Bytes, Jwt, Claims, Service, LoginResponse, SigningMethod, hmac, login, validate_token, claims_of,
  key_for,
}

-- The documented behaviour of the token library for some claims: signing them with HS256 succeeds,
-- and what was signed with the key that is chosen for HMAC is read back as valid until it expires.
pub record IsJwt (j : Jwt) (claims : Claims) : Type 0 where
  pub signs : (key : Bytes) → (text : Bytes) × (j.sign key claims ≡ some text)
  pub parse-sign :
      (now : ℤ) (key text : Bytes) (keys : SigningMethod → Option Bytes)
      → j.sign key claims ≡ some text
      → keys hmac ≡ some key
      → now <ℤ claims.expires_at
      → j.parse_with_claims now text keys ≡ some (record { claims = claims; valid = true })

module _ (j : Jwt) where
  -- Where the token library behaves as documented for the claims of Login: Login with the
  -- administrator's name and password returns a token that expires after the service's expiry, and
  -- ValidateToken takes this token for the same name at every time before the date it expires at.
  pub validate_token-login :
      (s : Service) (now later : ℤ)
      → IsJwt j (claims_of j s.admin_username (now +ℤ s.token_expiry) later)
      → (r : LoginResponse) × (login j s s.admin_username s.admin_password now later ≡ ok r)
        × (r.expires_at ≡ now +ℤ s.token_expiry)
        × ((t : ℤ)
            → t <ℤ j.numeric_date r.expires_at
            → (claims : Claims) × (validate_token j s t r.token ≡ ok claims)
              × (claims.username ≡ s.admin_username))
  unfolding login validate_token claims_of
  validate_token-login s now later law =
      let claims = claims_of j s.admin_username (now +ℤ s.token_expiry) later in
      let (text, e) = law.signs s.jwt_secret in
      (
        record { token = text; expires_at = now +ℤ s.token_expiry },
        rw
            (
              (str_eq_iff s.admin_username s.admin_username).1 refl,
              (str_eq_iff s.admin_password s.admin_password).1 refl,
              e,
            )
            refl,
        refl,
        λ t before. (
          claims,
          rw (law.parse-sign t s.jwt_secret text (λ m. key_for s m) e refl before) refl,
          refl,
        ),
      )
