-- ===== src/Protocols/Schemas.antt =====
-- internal/protocols/credentialSchemas.go: the credential structs and their validation. A struct is
-- what reflection sees of it, the list of its fields with their tags; its values stand beside the
-- fields. The rules are those of go-playground/validator. A text of an error is a list of code points.
use Prim.Native.Char.{code}
use Prim.Native.String.{count}
use nmslite.Common.{
  ℕ, suc, ◌+◌, String, str_eq, Bool, false, ◌&&◌, ◌||◌, Option, none, some, List, [], ◌∷◌, ◌++◌,
  ltb, leb, if◌then◌else◌,
}

abbrev pub Text : Type 0
Text = List ℕ

abbrev pub codes : String → Text
codes (String.[]) = []
codes (String.◌∷◌ c s) = code c ∷ codes s

-- A rule of a `validate` tag.
pub data Rule : Type 0 where
  required omitempty : Rule
  min : ℕ → Rule
  oneof : List String → Rule

pub record Field : Type 0 where
  pub name : String
  pub json : String
  pub rules : List Rule

-- The values of a struct, field by field.
abbrev pub Values : Type 0
Values = List (Field × String)

-- The zero value of a struct.
unfoldable pub zero_values : List Field → Values
zero_values [] = []
zero_values (f ∷ fs) = (f, "") ∷ zero_values fs

-- The value of the field with this JSON name.
unfoldable pub value : Values → String → String
value [] n = ""
value ((f, x) ∷ vs) n = if str_eq f.json n then x else value vs n

-- `custom` is what the method Validate, if there is one, says of the values.
pub record CredentialType : Type 0 where
  pub fields : List Field
  pub custom : Values → Option Text

abbrev no_custom : Values → Option Text
no_custom vs = none

abbrev pub filled : List Rule
filled = required ∷ min 1 ∷ []

unfoldable pub winrm_credentials : CredentialType
winrm_credentials = record {
  fields =
      record { name = "Username"; json = "username"; rules = filled }
      ∷ record { name = "Password"; json = "password"; rules = filled }
      ∷ record { name = "Domain"; json = "domain"; rules = [] }
      ∷ [];
  custom = no_custom;
}

-- SSHCredentials.Validate
unfoldable pub validate_ssh : Values → Option Text
unfolding value
validate_ssh s =
    if str_eq (value s "password") "" && str_eq (value s "private_key") ""
    then some (codes "either password or private_key is required for SSH")
    else none

unfoldable pub ssh_credentials : CredentialType
unfolding validate_ssh
ssh_credentials = record {
  fields =
      record { name = "Username"; json = "username"; rules = filled }
      ∷ record { name = "Password"; json = "password"; rules = [] }
      ∷ record { name = "PrivateKey"; json = "private_key"; rules = [] }
      ∷ record { name = "Passphrase"; json = "passphrase"; rules = [] }
      ∷ [];
  custom = validate_ssh;
}

unfoldable pub snmp_credentials : CredentialType
snmp_credentials = record {
  fields = record { name = "Community"; json = "community"; rules = filled } ∷ [];
  custom = no_custom;
}

abbrev pub security_levels : List String
security_levels = "noAuthNoPriv" ∷ "authNoPriv" ∷ "authPriv" ∷ []

abbrev pub auth_protocols : List String
auth_protocols = "MD5" ∷ "SHA" ∷ "SHA224" ∷ "SHA256" ∷ "SHA384" ∷ "SHA512" ∷ []

abbrev pub priv_protocols : List String
priv_protocols = "DES" ∷ "AES" ∷ "AES192" ∷ "AES256" ∷ []

unfoldable pub snmp_v3_credentials : CredentialType
snmp_v3_credentials = record {
  fields =
      record { name = "SecurityName"; json = "security_name"; rules = filled }
      ∷ record {
        name = "SecurityLevel";
        json = "security_level";
        rules = required ∷ oneof security_levels ∷ [];
      }
      ∷ record {
        name = "AuthProtocol";
        json = "auth_protocol";
        rules = omitempty ∷ oneof auth_protocols ∷ [];
      }
      ∷ record { name = "AuthPassword"; json = "auth_password"; rules = [] }
      ∷ record {
        name = "PrivProtocol";
        json = "priv_protocol";
        rules = omitempty ∷ oneof priv_protocols ∷ [];
      }
      ∷ record { name = "PrivPassword"; json = "priv_password"; rules = [] }
      ∷ [];
  custom = no_custom;
}

abbrev pub has_string : List String → String → Bool
has_string [] t = false
has_string (s ∷ ss) t = str_eq s t || has_string ss t

-- The first rule of a field that its value breaks.
unfoldable pub broken : List Rule → String → Option Rule
broken [] t = none
broken (required ∷ rs) t = if str_eq t "" then some required else broken rs t
broken (omitempty ∷ rs) t = if str_eq t "" then none else broken rs t
broken (min n ∷ rs) t = if ltb (count t) n then some (min n) else broken rs t
broken (oneof ts ∷ rs) t = if has_string ts t then broken rs t else some (oneof ts)

-- toSnakeCase, from the position `i` on.
unfoldable snake_from : ℕ → Text → Text
snake_from i [] = []
snake_from i (r ∷ rs) =
    let rest = snake_from (suc i) rs in
    if leb b'A' r && leb r b'Z'
    then (if ltb 0 i then b'_' ∷ (r + 32) ∷ rest else (r + 32) ∷ rest)
    else r ∷ rest

unfoldable to_snake_case : Text → Text
unfolding snake_from
to_snake_case s = snake_from 0 s

-- strings.Join at spaces, as the tag has the values of `oneof`.
abbrev pub join : List String → Text
join [] = []
join (s ∷ []) = codes s
join (s ∷ ss) = codes s ++ codes " " ++ join ss

-- The decimal digit of a number below 10.
abbrev digit : ℕ → Text
digit n = (b'0' + n) ∷ []

-- formatValidationMessage, for the rules of the credential structs.
unfoldable format_validation_message : Field → Rule → Text
unfolding to_snake_case
format_validation_message f required = to_snake_case (codes f.name) ++ codes " is required"
format_validation_message f omitempty =
    to_snake_case (codes f.name) ++ codes " failed omitempty validation"
format_validation_message f (min n) =
    to_snake_case (codes f.name) ++ codes " must be at least " ++ digit n ++ codes " characters"
format_validation_message f (oneof ts) =
    to_snake_case (codes f.name) ++ codes " must be one of: " ++ join ts

pub record ValidationError : Type 0 where
  pub field : Text
  pub message : Text

-- The errors of validate.Struct, under the names that ValidateCredentialStruct gives them.
unfoldable pub field_errors : Values → List ValidationError
unfolding to_snake_case broken format_validation_message
field_errors [] = []
field_errors ((f, x) ∷ vs) =
    let rest = field_errors vs in
    elim (broken f.rules x) [
      | none ↦ rest
      | some rule ↦
          record {
            field = to_snake_case (codes f.name);
            message = format_validation_message f rule;
          }
          ∷ rest
    ]

-- ValidateCredentialStruct: the errors, if there are any.
unfoldable pub validate_credential_struct : CredentialType → Values → Option (List ValidationError)
unfolding field_errors
validate_credential_struct ct vs = elim (field_errors vs) [
  | e ∷ es ↦ some (e ∷ es)
  | [] ↦ elim (ct.custom vs) [
    | none ↦ none
    | some message ↦ some (record { field = codes "_custom"; message = message } ∷ [])
  ]
]
