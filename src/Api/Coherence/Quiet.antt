-- ===== src/Api/Coherence/Quiet.antt =====
-- internal/api/handlers/credentialHandlers.go: the parts of the handlers that ask no question and send
-- no event.
use nmslite.Common.{
  ℕ, String, str_eq, ◌||◌, ◌≡◌, refl, Bool, true, false, Option, none, some, List, if◌then◌else◌,
  ◌⊎◌, inl, inr, Option-cases,
}
use nmslite.Common.Results.{Result, err}
use nmslite.Database.{CredentialProfile}
use nmslite.Api.Requests.{pure, fail, Api, Action, Failure, parse_id_param, decode_json}
use nmslite.Api.Profiles.{Vault, check_credentials, require_names, encrypt_payload}
use nmslite.Api.Coherence.Served.{parse-cases}

-- An action that ends without a question to the database and without an event.
unfoldable pub Quiet : {A : Type 0} → Action A → Type 0
Quiet {A = A} m =
    ((x : A) × ((a : Api) → m a ≡ (Result.ok x, a)))
    ⊎ ((x : Failure) × ((a : Api) → m a ≡ (err x, a)))

pub decode_json-Quiet : {A : Type 0} (body : Option A) → Quiet (decode_json body)
unfolding Quiet decode_json
decode_json-Quiet none = inr (_, λ a. refl)
decode_json-Quiet (some x) = inl (x, λ a. refl)

pub parse_id-Quiet :
    (parse_int : String → Option ℕ) (param : String) → Quiet (parse_id_param parse_int param)
unfolding Quiet
parse_id-Quiet parse_int param = parse-cases parse_int param

pub check_credentials-Quiet :
    (vault : Vault) (protocol : String) (payload : List ℕ)
    → Quiet (check_credentials vault protocol payload)
unfolding Quiet
check_credentials-Quiet vault protocol payload =
    elim (Option-cases (vault.validate protocol payload)) [
      | inl e ↦ inl (tt, λ a. rw (e, check_credentials) refl)
      | inr (message, e) ↦ inr (
        record { status = 400; code = "VALIDATION_ERROR"; message = message },
        λ a. rw (e, check_credentials) refl,
      )
    ]

pub encrypt_payload-Quiet :
    (vault : Vault) (payload : List ℕ) → Quiet (encrypt_payload vault payload)
unfolding Quiet encrypt_payload
encrypt_payload-Quiet vault payload = elim (Option-cases (vault.encrypt payload)) [
  | inl e ↦ inr (
    record { status = 500; code = "ENCRYPTION_ERROR"; message = "Failed to encrypt payload" },
    λ a. rw (e, encrypt_payload) refl,
  )
  | inr (text, e) ↦ inl (vault.quote text, λ a. rw (e, encrypt_payload) refl)
]

pub if-Quiet :
    {A : Type 0} (b : Bool) (m k : Action A) → Quiet m → Quiet k → Quiet (if b then m else k)
if-Quiet true m k q r = q
if-Quiet false m k q r = r

pub pure-Quiet : {A : Type 0} (x : A) → Quiet (pure x)
unfolding Quiet
pure-Quiet x = inl (x, λ a. refl)

fail-Quiet :
    (A : Type 0) (status : ℕ) (code message : String) → Quiet (fail {A = A} status code message)
unfolding Quiet
fail-Quiet A status code message =
    inr (record { status = status; code = code; message = message }, λ a. refl)

pub require_names-Quiet :
    (vault : Vault) (input : CredentialProfile) → Quiet (require_names vault input)
require_names-Quiet vault input =
    if-Quiet (str_eq input.name "" || str_eq input.protocol "")
      (fail 400 "VALIDATION_ERROR" "Name and Protocol are required") (pure tt)
      (fail-Quiet Unit 400 "VALIDATION_ERROR" "Name and Protocol are required") (pure-Quiet tt)
