-- ===== src/Auth/Containers.antt =====
-- internal/api/auth/credentialService.go: CredentialService, which decrypts the payload of a
-- credential profile. The readers of encoding/json are arguments (`Reader`).
use nmslite.Common.{String, Option, none, some, Json, Fields, get_field}
use nmslite.Common.Results.{Result, ok, ◌>>=◌, or_err}
use nmslite.Auth.Credentials.{Credentials, credentials_by}
use nmslite.Auth.Security.{Bytes, AuthError, bad_json, no_profile, Crypto, Service, decrypt}

-- json.Unmarshal, by the type that is read. A map has no entries for `null`.
pub record Reader : Type 0 where
  pub read_string : Bytes → Option Bytes
  pub read_map : Bytes → Option Fields

-- `if v, ok := credMap[key].(string); ok { field = v }`, on a field that is empty.
abbrev pub string_of : Option Json → String
string_of (some (Json.str t)) = t
string_of v = ""

abbrev pub read_field : Fields → String → String
read_field fs key = string_of (get_field key fs)

-- DecryptContainer, from the map of the decrypted payload on.
unfoldable pub credentials_of : Fields → Credentials
credentials_of fs = credentials_by (read_field fs)

-- The encrypted text of a payload: a JSON string, or else the payload itself.
unfoldable pub encrypted_text : Reader → Bytes → Bytes
encrypted_text r container = elim (r.read_string container) [ some text ↦ text | none ↦ container ]

-- DecryptContainer
unfoldable pub decrypt_container : Crypto → Reader → Service → Bytes → Result AuthError Credentials
unfolding encrypted_text credentials_of
decrypt_container c r s container = do
  plaintext ← decrypt c s (encrypted_text r container)
  fs ← or_err bad_json (r.read_map plaintext)
  ok (credentials_of fs)

-- GetDecrypted, where `payload` is that of the profile the query finds.
unfoldable pub get_decrypted :
    Crypto → Reader → Service → Option Bytes → Result AuthError Credentials
unfolding decrypt_container
get_decrypted c r s payload = do
  container ← or_err no_profile payload
  decrypt_container c r s container
