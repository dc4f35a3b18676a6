-- ===== src/Auth/Roundtrip.antt =====
-- internal/api/auth/security.go: what is encrypted decrypts, and what Login returns is validated.
use nmslite.Common.{
  ℕ, ℤ, String, ◌≡◌, refl, sym, true, false, Option, some, ◌++◌, length, take, drop, ltb, arith,
  length-append, [], ◌∷◌,
}
use nmslite.Common.Results.{ok}
use nmslite.Auth.Security.{Bytes, Gcm, Crypto, Service, new_service, encrypt, decrypt, gcm_of}

-- The documented behaviour of base64 and AES-GCM: a text decodes to what it encodes, AES takes keys
-- of 32 bytes, and what is sealed under a nonce of the right size is opened by it.
pub record IsCrypto (c : Crypto) : Type 0 where
  pub decode-encode : (b : Bytes) → c.decode (c.encode b) ≡ some b
  pub takes_key : (key : Bytes) → length key ≡ 32 → c.new_cipher key ≡ true
  pub has_gcm : (key : Bytes) → length key ≡ 32 → (g : Gcm) × (c.new_gcm key ≡ some g)
  pub opened-seal :
      (key : Bytes) (g : Gcm) (nonce plaintext : Bytes)
      → c.new_gcm key ≡ some g
      → length nonce ≡ g.nonce_size
      → g.opened nonce (g.seal nonce plaintext) ≡ some plaintext

-- A random source that can be read.
pub record IsRandom (random : ℕ → Option Bytes) : Type 0 where
  pub read : (n : ℕ) → (b : Bytes) × (random n ≡ some b) × (length b ≡ n)

take-append : (xs ys : Bytes) → take (length xs) (xs ++ ys) ≡ xs
take-append [] ys = refl
take-append (x ∷ xs) ys = rw (take-append xs ys)

drop-append : (xs ys : Bytes) → drop (length xs) (xs ++ ys) ≡ ys
drop-append [] ys = refl
drop-append (x ∷ xs) ys = drop-append xs ys

-- A service has the key that it was made with, of 32 bytes, and a secret of at least 32.
new_service-key :
    (secret key : Bytes) (user password : String) (expiry : ℤ) (s : Service)
    → new_service secret key user password expiry ≡ ok s
    → length s.encryption_key ≡ 32
unfolding new_service
new_service-key secret key user password expiry s made = ground arith

module _ (c : Crypto) (law : IsCrypto c) where
  gcm_of_lem :
      (s : Service)
      → length s.encryption_key ≡ 32
      → (g : Gcm) × (gcm_of c s ≡ ok g) × (c.new_gcm s.encryption_key ≡ some g)
  unfolding gcm_of
  gcm_of_lem s h =
      let (g, e) = law.has_gcm s.encryption_key h in
      (g, rw (law.takes_key s.encryption_key h, e) refl, e)

  -- What was sealed under a nonce of the cipher's size, and encoded, decrypts.
  decrypt-sealed :
      (s : Service) (g : Gcm) (nonce p : Bytes)
      → gcm_of c s ≡ ok g
      → c.new_gcm s.encryption_key ≡ some g
      → length nonce ≡ g.nonce_size
      → decrypt c s (c.encode (nonce ++ g.seal nonce p)) ≡ ok p
  unfolding decrypt
  decrypt-sealed s g nonce p e e' l =
      let long : ltb (length (nonce ++ g.seal nonce p)) (length nonce) ≡ false =
        ground (arith, length-append nonce (g.seal nonce p)) in
      rw
        (
          law.decode-encode (nonce ++ g.seal nonce p),
          e,
          sym l,
          long,
          take-append nonce (g.seal nonce p),
          drop-append nonce (g.seal nonce p),
          law.opened-seal s.encryption_key g nonce p e' l,
        )
        refl

  -- Under the laws of base64 and AES-GCM and a random source that can be read: every service that
  -- NewService returns encrypts every payload to a
  -- base64 text, and decrypts this text to the same payload.
  pub decrypt-encrypt :
      (secret key : Bytes) (user password : String) (expiry : ℤ) (s : Service)
      → new_service secret key user password expiry ≡ ok s
      → (random : ℕ → Option Bytes) → IsRandom random
      → (p : Bytes)
      → (b : Bytes) × (encrypt c s random p ≡ ok (c.encode b)) × (decrypt c s (c.encode b) ≡ ok p)
  unfolding encrypt
  decrypt-encrypt secret key user password expiry s made random readable p =
      let (g, e, e') = gcm_of_lem s (new_service-key secret key user password expiry s made) in
      let (nonce, r, l) = readable.read g.nonce_size in
      (nonce ++ g.seal nonce p, rw (e, r) refl, decrypt-sealed s g nonce p e e' l)
