-- ===== src/Api/Profiles.antt =====
-- internal/api/handlers/credentialHandlers.go: CredentialHandler. Encryption, decryption, validation
-- and the forms of JSON strings are arguments (`Vault`), which internal/api/auth and
-- internal/protocols fill.
use nmslite.Common.{
  ℕ, String, str_eq, Bool, true, false, ◌||◌, not, ◌&&◌, Option, none, some, List, [], ◌∷◌,
  if◌then◌else◌,
}
use nmslite.Common.Results.{Result, ok, err}
use nmslite.Database.{CredentialProfile, MonitorRow}
use nmslite.Database.Tables.{Db, DbError, get_monitors_with_credentials_by_credential_id}
use nmslite.Database.Tables.Profiles.{
  get_credential_profile, create_credential_profile, update_credential_profile,
  delete_credential_profile,
}
use nmslite.Api.Requests.{Api, Action, ◌>>=◌, pure, fail, query, parse_id_param, decode_json, send}

abbrev Bytes : Type 0
Bytes = List ℕ

pub record Vault : Type 0 where
  pub encrypt : Bytes → Option Bytes
  pub decrypt : Bytes → Option Bytes
  -- The error of ValidateCredentials, if there is one.
  pub validate : String → Bytes → Option String
  -- fmt.Sprintf("%q", …)
  pub quote : Bytes → Bytes
  -- json.Unmarshal into a string
  pub read_string : Bytes → Option Bytes

-- pushUpdate, with the answer to its query. An error is only logged.
unfoldable pub push_rows : Api → Result DbError (List MonitorRow) × Db → Api
unfolding send
push_rows s (err e, db) = record s { db = db }
push_rows s (ok [], db) = record s { db = db }
push_rows s (ok (row ∷ rows), db) =
    send (record { update_type = "update"; monitors = row ∷ rows; monitor_ids = [] })
      (record s { db = db })

-- pushUpdate
unfoldable pub push_update : ℕ → Action Unit
unfolding get_monitors_with_credentials_by_credential_id push_rows
push_update id s = elim s.sent [
  | none ↦ (ok tt, s)
  | some events ↦ (ok tt, push_rows s (get_monitors_with_credentials_by_credential_id id s.db))
]

module _ (v : Vault) where
  open v use {encrypt, decrypt, validate, quote, read_string}

  -- The payload as List and Get show it: decrypted where that succeeds.
  unfoldable pub shown : CredentialProfile → CredentialProfile
  shown profile = elim (read_string profile.payload) [
    | none ↦ profile
    | some text ↦ elim (decrypt text) [
      | none ↦ profile
      | some plaintext ↦ record profile { payload = plaintext }
    ]
  ]

  abbrev pub check_credentials : String → Bytes → Action Unit
  check_credentials protocol payload = elim (validate protocol payload) [
    | none ↦ pure tt
    | some message ↦ fail 400 "VALIDATION_ERROR" message
  ]

  -- The payload, encrypted and wrapped as a JSON string.
  unfoldable pub encrypt_payload : Bytes → Action Bytes
  encrypt_payload payload = elim (encrypt payload) [
    | none ↦ fail 500 "ENCRYPTION_ERROR" "Failed to encrypt payload"
    | some text ↦ pure (quote text)
  ]

  abbrev pub require_names : CredentialProfile → Action Unit
  require_names input =
      if str_eq input.name "" || str_eq input.protocol ""
      then fail 400 "VALIDATION_ERROR" "Name and Protocol are required"
      else pure tt

  -- What the handlers answer: a status, and a profile if they send one.
  abbrev pub Answer : Type 0
  Answer = ℕ × Option CredentialProfile

  -- Create
  unfoldable pub create : Option CredentialProfile → Action Answer
  unfolding decode_json encrypt_payload query create_credential_profile
  create body = do
    input ← decode_json body
    _ ← require_names input
    _ ← check_credentials input.protocol input.payload
    payload ← encrypt_payload input.payload
    profile ←
        query "Credential Profile" (create_credential_profile (record input { payload = payload }))
    pure (201, some profile)

  abbrev pub has_payload : CredentialProfile → Bool
  has_payload input = elim input.payload [ [] ↦ false | _ ↦ true ]

  module _ (parse_int : String → Option ℕ) where
    -- Get
    unfoldable pub get : String → Action Answer
    unfolding parse_id_param query get_credential_profile shown
    get param = do
      id ← parse_id_param parse_int param
      profile ← query "Credential Profile" (get_credential_profile id)
      pure (200, some (shown profile))

    -- Update
    unfoldable pub update : String → Option CredentialProfile → Action Answer
    unfolding parse_id_param decode_json encrypt_payload query update_credential_profile push_update
    update param body = do
      id ← parse_id_param parse_int param
      input ← decode_json body
      _ ←
          (if not (str_eq input.protocol "") && has_payload input
            then check_credentials input.protocol input.payload
            else pure tt)
      payload ← (if has_payload input then encrypt_payload input.payload else pure input.payload)
      profile ←
          query "Credential Profile"
            (update_credential_profile (record input { id = id; payload = payload }))
      _ ← push_update id
      pure (200, some profile)

    -- Delete
    unfoldable pub delete : String → Action Answer
    unfolding parse_id_param query delete_credential_profile
    delete param = do
      id ← parse_id_param parse_int param
      _ ← query "Credential Profile" (delete_credential_profile id)
      pure (204, none)
