-- ===== src/Protocols/Usable.antt =====
-- internal/protocols/credentialSchemas.go: what the rules of the structs say of credentials.
use nmslite.Common.{
  lookup, String, str_eq, str_eq_iff, ◌≡◌, ◌≢◌, refl, ◌⊎◌, inl, inr, true, Option, none, some, List,
  [], ◌∷◌, if◌then◌else◌, arith, sym, ◌∙◌, ap, Bool-cases, Option-cases, List-cases,
}
use nmslite.Auth.Credentials.{Credentials, credentials_by}
use nmslite.Protocols.Schemas.{
  Field, Values, value, Rule, required, omitempty, min, oneof, filled, broken, field_errors,
  zero_values, CredentialType, has_string, security_levels, auth_protocols, priv_protocols,
  validate_credential_struct, winrm_credentials, ssh_credentials, snmp_credentials,
  snmp_v3_credentials, validate_ssh,
}
use nmslite.Protocols.Registry.{get_registry, new_registry, initialize_protocols, register_protocol}

-- The credentials have what a client of the protocol needs.
unfoldable pub Usable : String → Credentials → Type 0
Usable p c =
    ((p ≡ "windows-winrm") × (c.username ≢ "") × (c.password ≢ ""))
    ⊎ ((p ≡ "ssh") × (c.username ≢ "") × ((c.password ≢ "") ⊎ (c.private_key ≢ "")))
    ⊎ ((p ≡ "snmp-v2c") × (c.community ≢ ""))
    ⊎ ((p ≡ "snmp-v3")
        × (c.security_name ≢ "")
        × (has_string security_levels c.security_level ≡ true)
        × ((c.auth_protocol ≡ "") ⊎ (has_string auth_protocols c.auth_protocol ≡ true))
        × ((c.priv_protocol ≡ "") ⊎ (has_string priv_protocols c.priv_protocol ≡ true)))

-- The fields of the values, in order.
abbrev pub fields_of : Values → List Field
fields_of [] = []
fields_of ((f, x) ∷ vs) = f ∷ fields_of vs

-- The rules of the field with this JSON name.
abbrev rules_of : String → List Field → Option (List Rule)
rules_of n [] = none
rules_of n (f ∷ fs) = if str_eq f.json n then some f.rules else rules_of n fs

pub fields_of-zero_values : (fs : List Field) → fields_of (zero_values fs) ≡ fs
unfolding zero_values
fields_of-zero_values [] = refl
fields_of-zero_values (f ∷ fs) = rw (fields_of-zero_values fs) refl

-- Without errors, the value of a field breaks none of its rules.
broken-value :
    (vs : Values) (n : String) (rs : List Rule)
    → rules_of n (fields_of vs) ≡ some rs
    → field_errors vs ≡ []
    → broken rs (value vs n) ≡ none
unfolding field_errors value
broken-value [] n rs e h = ground arith
broken-value ((g, x) ∷ vs) n rs e h = elim (Option-cases (broken g.rules x)) [
  | inr (r, q) ↦ ground arith
  | inl q ↦ ground (arith, broken-value vs n rs)
]

broken-filled : (t : String) → broken (required ∷ min 1 ∷ []) t ≡ none → t ≢ ""
unfolding broken
broken-filled t h = ground (arith, str_eq_iff t "")

broken-required_oneof :
    (ts : List String) (t : String)
    → broken (required ∷ oneof ts ∷ []) t ≡ none
    → has_string ts t ≡ true
unfolding broken
broken-required_oneof ts t h = ground arith

broken-omitempty_oneof :
    (ts : List String) (t : String)
    → broken (omitempty ∷ oneof ts ∷ []) t ≡ none
    → (t ≡ "") ⊎ (has_string ts t ≡ true)
unfolding broken
broken-omitempty_oneof ts t h = ground (arith, str_eq_iff t "")

-- What the registry has.
lookup_lem :
    (p : String) (ct : CredentialType)
    → lookup p (get_registry.credential_types) ≡ some ct
    → ((p ≡ "windows-winrm") × (ct ≡ winrm_credentials))
      ⊎ ((p ≡ "ssh") × (ct ≡ ssh_credentials))
      ⊎ ((p ≡ "snmp-v2c") × (ct ≡ snmp_credentials))
      ⊎ ((p ≡ "snmp-v3") × (ct ≡ snmp_v3_credentials))
unfolding get_registry new_registry initialize_protocols register_protocol
lookup_lem p ct e = elim (Bool-cases (str_eq "windows-winrm" p)) [
  | inl a ↦ inl (sym ((str_eq_iff "windows-winrm" p).0 a), ground arith)
  | inr a ↦ elim (Bool-cases (str_eq "ssh" p)) [
    | inl b ↦ inr (inl (sym ((str_eq_iff "ssh" p).0 b), ground arith))
    | inr b ↦ elim (Bool-cases (str_eq "snmp-v2c" p)) [
      | inl c ↦ inr (inr (inl (sym ((str_eq_iff "snmp-v2c" p).0 c), ground arith)))
      | inr c ↦ elim (Bool-cases (str_eq "snmp-v3" p)) [
        | inl d ↦ inr (inr (inr (sym ((str_eq_iff "snmp-v3" p).0 d), ground arith)))
        | inr d ↦ ground arith
      ]
    ]
  ]
]

validate_credential_struct_lem :
    (ct : CredentialType) (vs : Values)
    → validate_credential_struct ct vs ≡ none
    → (field_errors vs ≡ []) × (ct.custom vs ≡ none)
unfolding validate_credential_struct
validate_credential_struct_lem ct vs h = elim (List-cases (field_errors vs)) [
  | inl e ↦ elim (Option-cases (ct.custom vs)) [ inl g ↦ (e, g) | inr (m, g) ↦ ground arith ]
  | inr (x, xs, e) ↦ ground arith
]

validate_ssh_lem :
    (vs : Values)
    → validate_ssh vs ≡ none
    → (value vs "password" ≢ "") ⊎ (value vs "private_key" ≢ "")
unfolding validate_ssh
validate_ssh_lem vs h =
    ground (arith, str_eq_iff (value vs "password") "", str_eq_iff (value vs "private_key") "")

-- Values that ValidateCredentialStruct lets pass, of a struct of the registry.
pub Usable-of_type :
    (p : String) (ct : CredentialType) (vs : Values)
    → lookup p (get_registry.credential_types) ≡ some ct
    → fields_of vs ≡ ct.fields
    → validate_credential_struct ct vs ≡ none
    → Usable p (credentials_by (value vs))
unfolding Usable winrm_credentials ssh_credentials snmp_credentials snmp_v3_credentials
Usable-of_type p ct vs e f h =
    let (clean, own) = validate_credential_struct_lem ct vs h in
    let keeps : (n : String) (rs : List Rule)
        → rules_of n ct.fields ≡ some rs
        → broken rs (value vs n) ≡ none =
      λ n rs q. broken-value vs n rs (ap (rules_of n) f ∙ q) clean in
    elim (lookup_lem p ct e) [
      | inl (a, q) ↦
          let has = λ (n : String). ap (λ (c : CredentialType). rules_of n c.fields) q in
          inl (
            a,
            broken-filled (value vs "username") (keeps "username" filled (has "username")),
            broken-filled (value vs "password") (keeps "password" filled (has "password")),
          )
      | inr (inl (a, q)) ↦
          let has = λ (n : String). ap (λ (c : CredentialType). rules_of n c.fields) q in
          inr (
            inl (
              a,
              broken-filled (value vs "username") (keeps "username" filled (has "username")),
              validate_ssh_lem vs (sym (ap (λ (c : CredentialType). c.custom vs) q) ∙ own),
            ))
      | inr (inr (inl (a, q))) ↦
          let has = λ (n : String). ap (λ (c : CredentialType). rules_of n c.fields) q in
          inr (
            inr (
              inl (
                a,
                broken-filled (value vs "community") (keeps "community" filled (has "community")),
              )))
      | inr (inr (inr (a, q))) ↦
          let has = λ (n : String). ap (λ (c : CredentialType). rules_of n c.fields) q in
          inr (
            inr (
              inr (
                a,
                broken-filled (value vs "security_name")
                    (keeps "security_name" filled (has "security_name")),
                broken-required_oneof security_levels (value vs "security_level") (
                    keeps "security_level" (required ∷ oneof security_levels ∷ [])
                      (has "security_level")),
                broken-omitempty_oneof auth_protocols (value vs "auth_protocol") (
                    keeps "auth_protocol" (omitempty ∷ oneof auth_protocols ∷ [])
                      (has "auth_protocol")),
                broken-omitempty_oneof priv_protocols (value vs "priv_protocol") (
                    keeps "priv_protocol" (omitempty ∷ oneof priv_protocols ∷ [])
                      (has "priv_protocol")),
              )))
    ]
