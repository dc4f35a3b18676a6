-- ===== src/Api/Secrets.antt =====
-- internal/api/handlers/credentialHandlers.go with internal/protocols and internal/api/auth: the
-- credentials of a profile, from the request that creates it to the scheduler that decrypts them.
use nmslite.Common.{
  lookup, ℕ, ℤ, String, ◌≡◌, refl, ◌∙◌, sym, ap, subst, true, Option, none, some, List, Fields,
  Json, Option-cases, inl, inr, arith, Bool-cases,
}
use nmslite.Common.Results.{Result, ok, err}
use nmslite.Database.{CredentialProfile}
use nmslite.Auth.Credentials.{credentials_by}
use nmslite.Auth.Security.{Bytes, Crypto, Service, encrypt, decrypt, new_service}
use nmslite.Auth.Containers.{Reader, read_field, credentials_of, decrypt_container, encrypted_text}
use nmslite.Auth.Roundtrip.{IsCrypto, IsRandom, decrypt-encrypt}
use nmslite.Protocols.Schemas.{Field, Values, value, zero_values, CredentialType}
use nmslite.Protocols.Registry.{
  CredentialError, Decoder, get_registry, validate_credentials, decode, decode_value, decode_fields,
}
use nmslite.Protocols.Decoded.{all_exact, IsReflexive, value-read_field}
use nmslite.Protocols.Accepted.{validate_credentials-Usable, validate_credentials_lem}
use nmslite.Protocols.Usable.{Usable}
use nmslite.Api.Profiles.{Vault, create, encrypt_payload, check_credentials, require_names}
use nmslite.Api.Requests.{bind_lem, Api, query, decode_json}
use nmslite.Database.Tables.{ask}
use nmslite.Database.Tables.Profiles.{is_null, create_credential_profile}

abbrev pub value_of : {E A : Type 0} → Result E A → Option A
value_of (ok a) = some a
value_of (err e) = none

abbrev error_of : {E A : Type 0} → (E → String) → Result E A → Option String
error_of show (ok a) = none
error_of show (err e) = some (show e)

-- What the handlers are given: the service, the registry, encoding/json and fmt.
pub record Parts : Type 0 where
  pub crypto : Crypto
  pub random : ℕ → Option Bytes
  pub service : Service
  pub reader : Reader
  pub decoder : Decoder
  pub error_text : CredentialError → String
  pub quote : Bytes → Bytes

-- Dependencies.Encrypt and Dependencies.Decrypt, with a service, and validateCredentials.
unfoldable pub vault_of : Parts → Vault
vault_of p = record {
  encrypt = λ t. value_of (encrypt p.crypto p.service p.random t);
  decrypt = λ t. value_of (decrypt p.crypto p.service t);
  validate =
      λ protocol t. error_of p.error_text (validate_credentials p.decoder get_registry protocol t);
  quote = p.quote;
  read_string = p.reader.read_string;
}

-- The documented behaviour of the parts: that of the cipher, of a random source that can be read, of
-- a service that NewService made, of %q on base64 and of encoding/json.
pub record IsParts (p : Parts) : Type 0 where
  pub cipher : IsCrypto p.crypto
  pub readable : IsRandom p.random
  pub secret : Bytes
  pub key : Bytes
  pub user : String
  pub password : String
  pub expiry : ℤ
  pub made : new_service secret key user password expiry ≡ ok p.service
  pub read-quote :
      (b : Bytes) → p.reader.read_string (p.quote (p.crypto.encode b)) ≡ some (p.crypto.encode b)
  pub same : IsReflexive p.decoder
  pub maps :
      (t : Bytes) (fs : Fields)
      → p.decoder.read t ≡ some (Json.obj fs)
      → p.reader.read_map t ≡ some fs

check_credentials_lem :
    (v : Vault) (protocol : String) (payload : Bytes) (u : Unit) (a b : Api)
    → check_credentials v protocol payload a ≡ (ok u, b)
    → v.validate protocol payload ≡ none
check_credentials_lem v protocol payload u a b e =
    elim (Option-cases (v.validate protocol payload)) [
      | inl f ↦ f
      | inr (m, f) ↦ absurd (ground (arith, rw (f, check_credentials) at (e)))
    ]

encrypt_payload_lem :
    (v : Vault) (payload stored : Bytes) (a b : Api)
    → encrypt_payload v payload a ≡ (ok stored, b)
    → (text : Bytes) × (v.encrypt payload ≡ some text) × (stored ≡ v.quote text)
unfolding encrypt_payload
encrypt_payload_lem v payload stored a b e = elim (Option-cases (v.encrypt payload)) [
  | inl f ↦ absurd (ground (arith, rw (f, encrypt_payload) at (e)))
  | inr (text, f) ↦ (text, f, ground (arith, rw (f, encrypt_payload) at (e)))
]

create_profile_lem :
    (c profile : CredentialProfile) (a b : Api)
    → query "Credential Profile" (create_credential_profile c) a ≡ (ok profile, b)
    → profile.payload ≡ c.payload
unfolding query create_credential_profile ask
create_profile_lem c profile a b e = elim (Bool-cases (a.db.fault a.db.asked)) [
  | inl f ↦ absurd (ground (arith, rw (f, query) at (e)))
  | inr f ↦ elim (Bool-cases (is_null c.payload)) [
    | inl g ↦ absurd (ground (arith, rw (f, g, query) at (e)))
    | inr g ↦ ground (arith, rw (f, g, query) at (e))
  ]
]

-- What Create has done when it answers with a profile: the payload was valid, and the profile has it
-- encrypted and quoted.
create_lem :
    (v : Vault) (input profile : CredentialProfile) (a a' : Api)
    → create v (some input) a ≡ (ok (201, some profile), a')
    → (v.validate input.protocol input.payload ≡ none)
      × ((text : Bytes) × (v.encrypt input.payload ≡ some text) × (profile.payload ≡ v.quote text))
unfolding create decode_json
create_lem v input profile a a' e0 =
    let (w0, a0, names, e1) = bind_lem (require_names v input) _ a a' (201, some profile) e0 in
    let (w1, a1, valid, e2) =
      bind_lem (check_credentials v input.protocol input.payload) _ a0 a' (201, some profile) e1 in
    let (payload, a2, sealed, e3) =
      bind_lem (encrypt_payload v input.payload) _ a1 a' (201, some profile) e2 in
    let (row, a3, kept, e4) =
      bind_lem
        (query "Credential Profile"
          (create_credential_profile (record input { payload = payload })))
        _ a2 a' (201, some profile) e3 in
    let (text, encrypted, quoted) = encrypt_payload_lem v input.payload payload a1 a2 sealed in
    let same : row ≡ profile = ground (arith, e4) in
    (
      check_credentials_lem v input.protocol input.payload w1 a0 a1 valid,
      (
        text,
        encrypted,
        ap (λ (c : CredentialProfile). c.payload) (sym same)
            ∙ create_profile_lem (record input { payload = payload }) row a2 a3 kept
            ∙ quoted,
      ),
    )

error_of_lem :
    {E A : Type 0} (show : E → String) (r : Result E A)
    → error_of show r ≡ none
    → (x : A) × (r ≡ ok x)
error_of_lem show (ok x) e = (x, refl)
error_of_lem show (err x) e = absurd (ground arith)

container_lem :
    (c : Crypto) (r : Reader) (s : Service) (container text plaintext : Bytes) (fs : Fields)
    → r.read_string container ≡ some text
    → decrypt c s text ≡ ok plaintext
    → r.read_map plaintext ≡ some fs
    → decrypt_container c r s container ≡ ok (credentials_by (read_field fs))
unfolding decrypt_container encrypted_text credentials_of
container_lem c r s container text plaintext fs e f g =
    rw (e, encrypted_text, f, g, decrypt_container) refl

decode_lem :
    (d : Decoder) (fields : List Field) (vs : Values) (t : Bytes) (fs : Fields)
    → d.read t ≡ some (Json.obj fs)
    → decode d (zero_values fields) t ≡ ok vs
    → decode_fields d (zero_values fields) fs ≡ ok vs
unfolding decode decode_value
decode_lem d fields vs t fs e h = ground arith

-- For the parts with their documented behaviour: when Create answers with a profile, for a payload
-- that is an object whose keys are spelled as the fields of the protocol's struct and whose values
-- are not `null`, then what the scheduler decrypts of the profile's payload is, field by field, the
-- strings of the object, and these credentials can be used with the profile's protocol.
pub create-Usable :
    (p : Parts) (input profile : CredentialProfile) (a a' : Api) (fs : Fields)
    → IsParts p
    → create (vault_of p) (some input) a ≡ (ok (201, some profile), a')
    → p.decoder.read input.payload ≡ some (Json.obj fs)
    → ((ct : CredentialType)
        → lookup input.protocol (get_registry.credential_types) ≡ some ct
        → all_exact p.decoder (zero_values ct.fields) fs ≡ true)
    → (decrypt_container p.crypto p.reader p.service profile.payload
        ≡ ok (credentials_by (read_field fs)))
      × Usable input.protocol (credentials_by (read_field fs))
unfolding vault_of
create-Usable p input profile a a' fs law created parsed exact =
    let (valid, made) = create_lem (vault_of p) input profile a a' created in
    let (text, sealed, stored) = made in
    let (vs, accepted) = error_of_lem p.error_text _ valid in
    let (b, encrypted, decrypted) =
      decrypt-encrypt p.crypto law.cipher law.secret law.key law.user law.password law.expiry
        p.service law.made p.random law.readable input.payload in
    let same : text ≡ p.crypto.encode b = ground (arith, ap value_of (sym encrypted) ∙ sealed) in
    let found = stored ∙ ap p.quote same in
    let (ct, known, decoded, clean) =
      validate_credentials_lem p.decoder input.protocol input.payload vs accepted in
    let values : (n : String) → value vs n ≡ read_field fs n = λ n.
      value-read_field p.decoder law.same ct.fields vs fs n (exact ct known)
        (decode_lem p.decoder ct.fields vs input.payload fs parsed decoded) in
    (
      ap (decrypt_container p.crypto p.reader p.service) found
          ∙ container_lem p.crypto p.reader p.service (p.quote (p.crypto.encode b))
              (p.crypto.encode b) input.payload fs (law.read-quote b) decrypted
              (law.maps input.payload fs parsed),
      subst (λ f. Usable input.protocol (credentials_by f)) (λ i n. values n i)
          (validate_credentials-Usable p.decoder input.protocol input.payload vs accepted),
    )
