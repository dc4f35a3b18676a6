-- ===== src/Protocols/Registry.antt =====
-- internal/protocols/registry.go: Registry, the protocols by their identifiers, and the strict
-- reading of credentials. encoding/json is an argument (`Decoder`).
use nmslite.Common.{
  Names, lookup, put, String, Bool, Option, none, some, List, [], ◌∷◌, ◌++◌, map, if◌then◌else◌,
  Json, Fields, end, field,
}
use nmslite.Common.Results.{Result, ok, err, ◌>>=◌}
use nmslite.Protocols.Schemas.{
  Text, codes, Values, zero_values, CredentialType, ValidationError, validate_credential_struct,
  winrm_credentials, ssh_credentials, snmp_credentials, snmp_v3_credentials,
}

pub record Protocol : Type 0 where
  pub id : String
  pub name : String

pub record Registry : Type 0 where
  pub protocols : Names Protocol
  pub credential_types : Names CredentialType

unfoldable pub new_registry : Registry
new_registry = record { protocols = []; credential_types = [] }

unfoldable pub register_protocol : Registry → Protocol → CredentialType → Registry
register_protocol r protocol cred_type = record {
  protocols = put protocol.id protocol r.protocols;
  credential_types = put protocol.id cred_type r.credential_types;
}

unfoldable pub initialize_protocols : Registry → Registry
unfolding register_protocol
initialize_protocols r0 =
    let r1 =
      register_protocol r0 (record { id = "windows-winrm"; name = "Windows Server (WinRM)" })
        winrm_credentials in
    let r2 =
      register_protocol r1 (record { id = "ssh"; name = "Linux/Unix (SSH)" }) ssh_credentials in
    let r3 =
      register_protocol r2 (record { id = "snmp-v2c"; name = "SNMP v2c" }) snmp_credentials in
    register_protocol r3 (record { id = "snmp-v3"; name = "SNMP v3" }) snmp_v3_credentials

-- GetRegistry
unfoldable pub get_registry : Registry
unfolding new_registry initialize_protocols
get_registry = initialize_protocols new_registry

-- GetProtocol
unfoldable get_protocol : Registry → String → Option Protocol
get_protocol r id = lookup id r.protocols

-- ListProtocols; the order of the list is not defined.
unfoldable pub list_protocols : Registry → List Protocol
list_protocols r = map (λ e. e.1) r.protocols

-- GetCredentialType
unfoldable get_credential_type : Registry → String → Option CredentialType
get_credential_type r id = lookup id r.credential_types

-- An error of Decode. Only the text of the second one has "unknown field" in it.
pub data DecodeError : Type 0 where
  not_json : DecodeError
  unknown_field : String → DecodeError
  wrong_type : DecodeError

pub record Decoder : Type 0 where
  -- The value that a text of JSON stands for.
  pub read : Text → Option Json
  -- A key is the name of a field of a struct, up to the case of letters.
  pub same_name : String → String → Bool
  -- The text of an error.
  pub show : DecodeError → Text

pub data CredentialError : Type 0 where
  unknown_protocol : String → CredentialError
  invalid : List ValidationError → CredentialError

-- A value for a field: a string replaces it, `null` leaves it.
abbrev pub overwrite : String → Json → Result DecodeError String
overwrite x (Json.str t) = ok t
overwrite x Json.null = ok x
overwrite x v = err wrong_type

module _ (d : Decoder) where
  open d use {read, same_name, show}

  -- One field of an object, decoded into a struct, where unknown fields are not allowed.
  unfoldable pub assign : Values → String → Json → Result DecodeError Values
  assign [] k v = err (unknown_field k)
  assign ((f, x) ∷ vs) k v =
      let rest = assign vs k v in
      if same_name k f.json
      then (do t ← overwrite x v; ok ((f, t) ∷ vs))
      else do vs' ← rest; ok ((f, x) ∷ vs')

  unfoldable pub decode_fields : Values → Fields → Result DecodeError Values
  unfolding assign
  decode_fields vs end = ok vs
  decode_fields vs (field k v fs) = do vs' ← assign vs k v; decode_fields vs' fs

  unfoldable pub decode_value : Values → Json → Result DecodeError Values
  unfolding decode_fields
  decode_value vs (Json.obj fs) = decode_fields vs fs
  decode_value vs Json.null = ok vs
  decode_value vs v = err wrong_type

  -- dec.Decode(creds)
  unfoldable pub decode : Values → Text → Result DecodeError Values
  unfolding decode_value
  decode vs data_text = elim (read data_text) [ none ↦ err not_json | some v ↦ decode_value vs v ]

  unfoldable pub message_of : DecodeError → Text
  message_of (unknown_field k) = codes "contains forbidden field: " ++ show (unknown_field k)
  message_of e = codes "invalid JSON format: " ++ show e

  -- ValidateCredentials, with the values of the struct it returns.
  unfoldable pub validate_credentials : Registry → String → Text → Result CredentialError Values
  unfolding decode zero_values validate_credential_struct message_of
  validate_credentials r protocol_id data_text = elim (lookup protocol_id r.credential_types) [
    | none ↦ err (unknown_protocol protocol_id)
    | some ct ↦ elim (decode (zero_values ct.fields) data_text) [
      | err e ↦ err (invalid (record { field = codes "_json"; message = message_of e } ∷ []))
      | ok vs ↦ elim (validate_credential_struct ct vs) [
        | some errors ↦ err (invalid errors)
        | none ↦ ok vs
      ]
    ]
  ]
