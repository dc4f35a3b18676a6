-- ===== src/Auth/Security.antt =====
-- internal/api/auth/security.go: Service, its logins and tokens, and the encryption of payloads.
-- A Go string that the code takes apart is a list of its bytes. Base64, AES-GCM, the random source
-- and the token library are arguments (`Crypto`, `Jwt`).
use nmslite.Common.{
  ℕ, ℤ, ◌+ℤ◌, String, str_eq, Bool, not, ◌||◌, Option, none, some, List, ◌++◌, length, take, drop,
  ltb, ◌==◌, if◌then◌else◌,
}
use nmslite.Common.Results.{Result, ok, err, ◌>>=◌, or_err}

abbrev pub Bytes : Type 0
Bytes = List ℕ

-- A cipher.AEAD for a key; there is no additional data.
pub record Gcm : Type 0 where
  pub nonce_size : ℕ
  -- seal nonce plaintext
  pub seal : Bytes → Bytes → Bytes
  -- open nonce ciphertext
  pub opened : Bytes → Bytes → Option Bytes

pub record Crypto : Type 0 where
  -- base64.StdEncoding
  pub encode : Bytes → Bytes
  pub decode : Bytes → Option Bytes
  -- aes.NewCipher takes the key
  pub new_cipher : Bytes → Bool
  -- cipher.NewGCM of the cipher of the key
  pub new_gcm : Bytes → Option Gcm

pub record Claims : Type 0 where
  pub username : String
  pub expires_at : ℤ
  pub issued_at : ℤ
  pub issuer : String

pub data SigningMethod : Type 0 where
  hmac other_method : SigningMethod

-- What ParseWithClaims returns without an error.
pub record Token : Type 0 where
  pub claims : Claims
  pub valid : Bool

pub record Jwt : Type 0 where
  -- jwt.NewNumericDate
  pub numeric_date : ℤ → ℤ
  -- NewWithClaims with HS256, and SignedString with a key
  pub sign : Bytes → Claims → Option Bytes
  -- ParseWithClaims at a time, with the function that chooses the key for a method
  pub parse_with_claims : ℤ → Bytes → (SigningMethod → Option Bytes) → Option Token

pub data AuthError : Type 0 where
  short_secret bad_key_length invalid_credentials sign_failed parse_failed invalid_token : AuthError
  no_cipher no_gcm no_nonce bad_base64 too_short not_decrypted bad_json no_profile : AuthError

pub record Service : Type 0 where
  pub jwt_secret : Bytes
  pub encryption_key : Bytes
  pub token_expiry : ℤ
  pub admin_username : String
  pub admin_password : String

pub record LoginResponse : Type 0 where
  pub token : Bytes
  pub expires_at : ℤ

-- NewService
unfoldable pub new_service : Bytes → Bytes → String → String → ℤ → Result AuthError Service
new_service secret key user password expiry =
    if ltb (length secret) 32
    then err short_secret
    else if not (length key == 32)
    then err bad_key_length
    else ok (record {
      jwt_secret = secret;
      encryption_key = key;
      token_expiry = expiry;
      admin_username = user;
      admin_password = password;
    })

-- The key function of ValidateToken.
unfoldable pub key_for : Service → SigningMethod → Option Bytes
key_for s hmac = some s.jwt_secret
key_for s other_method = none

module _ (j : Jwt) where
  open j use {numeric_date, sign, parse_with_claims}

  -- The claims of Login, which reads the clock twice.
  unfoldable pub claims_of : String → ℤ → ℤ → Claims
  claims_of user expires_at now = record {
    username = user;
    expires_at = numeric_date expires_at;
    issued_at = numeric_date now;
    issuer = "nms-lite";
  }

  -- Login, at the times `now` and `later` of its two readings of the clock.
  unfoldable pub login : Service → String → String → ℤ → ℤ → Result AuthError LoginResponse
  unfolding claims_of
  login s user password now later =
      if not (str_eq user s.admin_username) || not (str_eq password s.admin_password)
      then err invalid_credentials
      else do
        let expires_at = now +ℤ s.token_expiry
        token ← or_err sign_failed (sign s.jwt_secret (claims_of user expires_at later))
        ok (record { token = token; expires_at = expires_at })

  -- ValidateToken, at a time.
  unfoldable pub validate_token : Service → ℤ → Bytes → Result AuthError Claims
  unfolding key_for
  validate_token s now text = do
    token ← or_err parse_failed (parse_with_claims now text (key_for s))
    if not token.valid then err invalid_token else ok token.claims

module _ (c : Crypto) where
  open c use {encode, decode, new_cipher, new_gcm}

  -- aes.NewCipher and cipher.NewGCM, as Encrypt and Decrypt begin.
  unfoldable pub gcm_of : Service → Result AuthError Gcm
  gcm_of s =
      if new_cipher s.encryption_key
      then or_err no_gcm (new_gcm s.encryption_key)
      else err no_cipher

  -- Encrypt, where `random n` is what reading n random bytes gives.
  unfoldable pub encrypt : Service → (ℕ → Option Bytes) → Bytes → Result AuthError Bytes
  unfolding gcm_of
  encrypt s random plaintext = do
    gcm ← gcm_of s
    nonce ← or_err no_nonce (random gcm.nonce_size)
    ok (encode (nonce ++ gcm.seal nonce plaintext))

  -- Decrypt
  unfoldable pub decrypt : Service → Bytes → Result AuthError Bytes
  unfolding gcm_of
  decrypt s text = do
    ciphertext ← or_err bad_base64 (decode text)
    gcm ← gcm_of s
    let nonce = take gcm.nonce_size ciphertext
    let sealed = drop gcm.nonce_size ciphertext
    if ltb (length ciphertext) gcm.nonce_size
        then err too_short
        else or_err not_decrypted (gcm.opened nonce sealed)
