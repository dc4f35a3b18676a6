-- ===== src/Protocols/Tests.antt =====
-- The theorems on internal/protocols, applied to small inputs.
use nmslite.Common.{
  lookup, str_eq, str_eq_iff, ◌≡◌, refl, true, some, [], ◌∷◌, Json, Fields, end, field,
}
use nmslite.Common.Results.{ok, err}
use nmslite.Auth.Credentials.{credentials_by}
use nmslite.Protocols.Schemas.{
  Text, codes, Values, value, zero_values, filled, ssh_credentials, validate_ssh, broken,
  field_errors, validate_credential_struct,
}
use nmslite.Protocols.Registry.{
  Decoder, invalid, get_registry, new_registry, initialize_protocols, register_protocol,
  validate_credentials, decode, decode_value, decode_fields, assign,
}
use nmslite.Protocols.Decoded.{IsReflexive}
use nmslite.Protocols.Accepted.{validate_credentials-Usable}
use nmslite.Protocols.Usable.{Usable}
use nmslite.Protocols.Refused.{has_unknown, validate_credentials-unknown}

-- A decoder that reads one object, whatever the text.
abbrev pub reads : Fields → Decoder
reads fs = record { read = λ t. some (Json.obj fs); same_name = str_eq; show = λ e. [] }

pub reads-IsReflexive : (fs : Fields) → IsReflexive (reads fs)
reads-IsReflexive fs n = (str_eq_iff n n).1 refl

abbrev pub ssh_fields : Fields
ssh_fields = field "username" (Json.str "admin") (field "password" (Json.str "pw") end)

-- The decoded struct.
abbrev ssh_values : Values
ssh_values =
    (record { name = "Username"; json = "username"; rules = filled }, "admin")
    ∷ (record { name = "Password"; json = "password"; rules = [] }, "pw")
    ∷ (record { name = "PrivateKey"; json = "private_key"; rules = [] }, "")
    ∷ (record { name = "Passphrase"; json = "passphrase"; rules = [] }, "")
    ∷ []

ssh-accepted : validate_credentials (reads ssh_fields) get_registry "ssh" [] ≡ ok ssh_values
unfolding validate_credentials get_registry new_registry initialize_protocols register_protocol
    decode decode_value decode_fields assign zero_values ssh_credentials validate_ssh value broken
    field_errors validate_credential_struct
ssh-accepted = refl

validate_credentials-Usable_example : Usable "ssh" (credentials_by (value ssh_values))
validate_credentials-Usable_example =
    validate_credentials-Usable (reads ssh_fields) "ssh" [] ssh_values ssh-accepted

-- With a port, which is no field.
abbrev port_fields : Fields
port_fields = field "username" (Json.str "admin") (field "port" (Json.num "22") end)

ssh-found : lookup "ssh" (get_registry.credential_types) ≡ some ssh_credentials
unfolding get_registry new_registry initialize_protocols register_protocol
ssh-found = refl

port-unknown :
    has_unknown (reads port_fields) (zero_values ssh_credentials.fields) port_fields ≡ true
unfolding zero_values ssh_credentials
port-unknown = refl

validate_credentials-unknown_example :
    (message : Text) × (validate_credentials (reads port_fields) get_registry "ssh" []
      ≡ err (invalid (record { field = codes "_json"; message = message } ∷ [])))
validate_credentials-unknown_example =
    validate_credentials-unknown (reads port_fields) get_registry "ssh" ssh_credentials []
      port_fields ssh-found refl port-unknown
