-- ===== src/Protocols/Accepted.antt =====
-- internal/protocols/registry.go: what credentials that ValidateCredentials accepts are good for.
use nmslite.Common.{
  lookup, String, ◌≡◌, inl, inr, none, some, [], ◌∷◌, arith, Json, Fields, end, field, sym, ◌∙◌, ap,
  Bool-cases, Option-cases,
}
use nmslite.Common.Results.{ok, Result-cases}
use nmslite.Auth.Credentials.{credentials_by}
use nmslite.Protocols.Schemas.{
  Text, Values, value, zero_values, CredentialType, validate_credential_struct,
}
use nmslite.Protocols.Registry.{
  Decoder, get_registry, decode, decode_value, decode_fields, assign, overwrite,
  validate_credentials,
}
use nmslite.Protocols.Usable.{Usable, fields_of, fields_of-zero_values, Usable-of_type}

module _ (d : Decoder) where
  fields_of-assign :
      (vs vs' : Values) (k : String) (v : Json)
      → assign d vs k v ≡ ok vs'
      → fields_of vs' ≡ fields_of vs
  unfolding assign
  fields_of-assign [] vs' k v e = ground arith
  fields_of-assign ((f, t) ∷ vs) vs' k v e = elim (Bool-cases (d.same_name k f.json)) [
    | inl here ↦ elim (Result-cases (overwrite t v)) [
      | inl (u, g) ↦ ground arith
      | inr (u, g) ↦ ground arith
    ]
    | inr later ↦ elim (Result-cases (assign d vs k v)) [
      | inl (us, g) ↦ ground (arith, fields_of-assign vs us k v g)
      | inr (u, g) ↦ ground arith
    ]
  ]

  fields_of-decode_fields :
      (vs vs' : Values) (fs : Fields)
      → decode_fields d vs fs ≡ ok vs'
      → fields_of vs' ≡ fields_of vs
  unfolding decode_fields
  fields_of-decode_fields vs vs' end e = ground arith
  fields_of-decode_fields vs vs' (field k v fs) e = elim (Result-cases (assign d vs k v)) [
    | inl (us, g) ↦ fields_of-decode_fields us vs' fs (ground arith) ∙ fields_of-assign vs us k v g
    | inr (u, g) ↦ ground arith
  ]

  fields_of-decode_value :
      (vs vs' : Values) (v : Json) → decode_value d vs v ≡ ok vs' → fields_of vs' ≡ fields_of vs
  unfolding decode_value
  fields_of-decode_value vs vs' (Json.obj fs) e = fields_of-decode_fields vs vs' fs e
  fields_of-decode_value vs vs' Json.null e = ground arith
  fields_of-decode_value vs vs' (Json.bool b) e = ground arith
  fields_of-decode_value vs vs' (Json.num b) e = ground arith
  fields_of-decode_value vs vs' (Json.str b) e = ground arith
  fields_of-decode_value vs vs' (Json.arr b) e = ground arith

  fields_of-decode :
      (vs vs' : Values) (t : Text) → decode d vs t ≡ ok vs' → fields_of vs' ≡ fields_of vs
  unfolding decode
  fields_of-decode vs vs' t e = elim (Option-cases (d.read t)) [
    | inl g ↦ ground arith
    | inr (v, g) ↦ fields_of-decode_value vs vs' v (ground arith)
  ]

  -- What ValidateCredentials accepts is read from the data by the strict decoder of one of the four
  -- protocols, and breaks no rule.
  pub validate_credentials_lem :
      (p : String) (t : Text) (vs : Values)
      → validate_credentials d get_registry p t ≡ ok vs
      → (ct : CredentialType) × (lookup p (get_registry.credential_types) ≡ some ct)
        × (decode d (zero_values ct.fields) t ≡ ok vs)
        × (validate_credential_struct ct vs ≡ none)
  unfolding validate_credentials
  validate_credentials_lem p t vs e =
      elim (Option-cases (lookup p (get_registry.credential_types))) [
        | inl g ↦ ground arith
        | inr (ct, g) ↦ elim (Result-cases (decode d (zero_values ct.fields) t)) [
          | inr (x, q) ↦ ground arith
          | inl (us, q) ↦ elim (Option-cases (validate_credential_struct ct us)) [
            | inr (x, k) ↦ ground arith
            | inl k ↦
                let same : us ≡ vs = ground arith in
                (ct, g, q ∙ ap ok same, ap (validate_credential_struct ct) (sym same) ∙ k)
          ]
        ]
      ]

  -- The credentials that ValidateCredentials accepts can be used: the protocol is one of the four,
  -- and its required values are there; for SSH that includes a password or a key, and for SNMPv3
  -- the level and the protocols are among those that are known.
  pub validate_credentials-Usable :
      (p : String) (t : Text) (vs : Values)
      → validate_credentials d get_registry p t ≡ ok vs
      → Usable p (credentials_by (value vs))
  validate_credentials-Usable p t vs e =
      let (ct, found, decoded, clean) = validate_credentials_lem p t vs e in
      Usable-of_type p ct vs found
        (fields_of-decode (zero_values ct.fields) vs t decoded ∙ fields_of-zero_values ct.fields)
        clean
