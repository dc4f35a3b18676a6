-- ===== src/Auth/Tests.antt =====
-- The theorems on internal/api/auth, applied to small inputs.
use nmslite.Common.{
  ℕ, zero, suc, pos, ◌+ℤ◌, String, ◌≡◌, refl, true, Option, none, some, [], ◌∷◌, length, arith,
}
use nmslite.Common.Results.{ok}
use nmslite.Auth.Security.{
  Bytes, Gcm, Crypto, Claims, Service, Jwt, hmac, new_service, encrypt, decrypt, claims_of,
}
use nmslite.Auth.Roundtrip.{IsCrypto, IsRandom, decrypt-encrypt}
use nmslite.Auth.Logins.{IsJwt}
use nmslite.Auth.Middleware.{Request, Handler, jwt_auth, send_error}
use nmslite.Auth.Guarded.{Authorized, jwt_auth_lem}

abbrev pub zeros : ℕ → Bytes
zeros zero = []
zeros (suc n) = 0 ∷ zeros n

pub length-zeros : (n : ℕ) → length (zeros n) ≡ n
length-zeros zero = refl
length-zeros (suc n) = omega (arith, length-zeros n)

-- A cipher that hides nothing.
abbrev open_gcm : Gcm
open_gcm = record { nonce_size = 12; seal = λ n p. p; opened = λ n c. some c }

abbrev pub open_crypto : Crypto
open_crypto = record {
  encode = λ b. b;
  decode = λ t. some t;
  new_cipher = λ k. true;
  new_gcm = λ k. some open_gcm;
}

pub open_crypto-IsCrypto : IsCrypto open_crypto
open_crypto-IsCrypto = record {
  decode-encode = λ b. refl;
  takes_key = λ k l. refl;
  has_gcm = λ k l. (open_gcm, refl);
  opened-seal = λ k g n p e l. ground arith;
}

abbrev pub zero_random : ℕ → Option Bytes
zero_random n = some (zeros n)

pub zero_random-IsRandom : IsRandom zero_random
zero_random-IsRandom = record { read = λ n. (zeros n, refl, length-zeros n) }

abbrev pub service : Service
service = record {
  jwt_secret = zeros 32;
  encryption_key = zeros 32;
  token_expiry = pos 100;
  admin_username = "admin";
  admin_password = "secret";
}

pub service-made : new_service (zeros 32) (zeros 32) "admin" "secret" (pos 100) ≡ ok service
unfolding new_service
service-made = refl

decrypt-encrypt_example :
    (b : Bytes) × (encrypt open_crypto service zero_random (1 ∷ 2 ∷ []) ≡ ok b)
    × (decrypt open_crypto service b ≡ ok (1 ∷ 2 ∷ []))
decrypt-encrypt_example =
    decrypt-encrypt open_crypto open_crypto-IsCrypto (zeros 32) (zeros 32) "admin" "secret"
      (pos 100) service service-made zero_random zero_random-IsRandom (1 ∷ 2 ∷ [])

-- Tokens that are all alike, for the claims of one login.
abbrev admin_claims : Claims
admin_claims = record {
  username = "admin";
  expires_at = pos 110;
  issued_at = pos 10;
  issuer = "nms-lite";
}

abbrev pub one_token : Jwt
one_token = record {
  numeric_date = λ t. t;
  sign = λ k c. some (7 ∷ []);
  parse_with_claims = λ now t keys. elim (keys hmac) [
    | none ↦ none
    | some k ↦ some (record { claims = admin_claims; valid = true })
  ];
}

pub one_token-IsJwt : IsJwt one_token (claims_of one_token "admin" (pos 10 +ℤ pos 100) (pos 10))
unfolding claims_of ◌+ℤ◌
one_token-IsJwt = record {
  signs = λ k. (7 ∷ [], refl);
  parse-sign = λ now k t keys e f before. rw f refl;
}

-- "Bearer" and a token, which is "t".
abbrev pub request : Request
request = record {
  method = "GET";
  path = "/api/v1/monitors/";
  origin = "";
  authorization = b'B' ∷ b'e' ∷ b'a' ∷ b'r' ∷ b'e' ∷ b'r' ∷ b' ' ∷ b't' ∷ [];
  request_id = none;
  username = none;
}

jwt_auth_lem_example :
    ((claims : Claims)
      → Authorized one_token service (pos 20) request claims
      → (next : Handler)
      → jwt_auth one_token service (pos 20) next request
        ≡ next (record request { username = some claims.username }))
    × (((claims : Claims) → ¬ Authorized one_token service (pos 20) request claims)
        → (message : String) × ((next : Handler)
            → jwt_auth one_token service (pos 20) next request
              ≡ send_error request 401 "UNAUTHORIZED" message))
jwt_auth_lem_example = jwt_auth_lem one_token service (pos 20) request
