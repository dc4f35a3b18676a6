-- ===== src/Protocols/Refused.antt =====
-- internal/protocols/registry.go: what ValidateCredentials refuses.
use nmslite.Common.{
  lookup, String, ◌≡◌, refl, ◌∙◌, Bool, true, false, not, ◌&&◌, ◌||◌, some, [], ◌∷◌, arith,
  Bool-cases, Json, Fields, end, field, inl, inr,
}
use nmslite.Common.Results.{ok, err, Result-cases}
use nmslite.Protocols.Schemas.{Text, codes, Values, CredentialType, zero_values}
use nmslite.Protocols.Registry.{
  Decoder, DecodeError, unknown_field, invalid, Registry, overwrite, assign, validate_credentials,
  decode, decode_value, decode_fields, message_of,
}

module _ (d : Decoder) where
  open d use {same_name}

  -- No field of the struct has this key.
  abbrev is_unknown : Values → String → Bool
  is_unknown [] k = true
  is_unknown ((f, x) ∷ vs) k = not (same_name k f.json) && is_unknown vs k

  -- Some key is that of no field.
  abbrev pub has_unknown : Values → Fields → Bool
  has_unknown vs end = false
  has_unknown vs (field k v fs) = is_unknown vs k || has_unknown vs fs

  assign-unknown :
      (vs : Values) (k : String) (v : Json)
      → is_unknown vs k ≡ true
      → (e : DecodeError) × (assign d vs k v ≡ err e)
  unfolding assign
  assign-unknown [] k v h = (unknown_field k, refl)
  assign-unknown ((f, x) ∷ vs) k v h =
      let (e, g) = assign-unknown vs k v (ground arith) in (e, ground arith)

  is_unknown-assign :
      (vs vs' : Values) (j k : String) (v : Json)
      → assign d vs j v ≡ ok vs'
      → is_unknown vs' k ≡ is_unknown vs k
  unfolding assign
  is_unknown-assign [] vs' j k v e = ground arith
  is_unknown-assign ((f, t) ∷ vs) vs' j k v e = elim (Bool-cases (same_name j f.json)) [
    | inl here ↦ elim (Result-cases (overwrite t v)) [
      | inl (u, g) ↦ ground arith
      | inr (u, g) ↦ ground arith
    ]
    | inr later ↦ elim (Result-cases (assign d vs j v)) [
      | inl (us, g) ↦ ground (arith, is_unknown-assign vs us j k v g)
      | inr (u, g) ↦ ground arith
    ]
  ]

  has_unknown-assign :
      (vs vs' : Values) (j : String) (v : Json) (fs : Fields)
      → assign d vs j v ≡ ok vs'
      → has_unknown vs' fs ≡ has_unknown vs fs
  has_unknown-assign vs vs' j v end e = refl
  has_unknown-assign vs vs' j v (field k w fs) e =
      rw (is_unknown-assign vs vs' j k v e, has_unknown-assign vs vs' j v fs e) refl

  -- An object with a key that is no field's, at any place, is refused.
  decode_fields-unknown :
      (vs : Values) (fs : Fields)
      → has_unknown vs fs ≡ true
      → (e : DecodeError) × (decode_fields d vs fs ≡ err e)
  unfolding decode_fields
  decode_fields-unknown vs end h = absurd (ground arith)
  decode_fields-unknown vs (field k v fs) h = elim (Result-cases (assign d vs k v)) [
    | inr (e, g) ↦ (e, rw g refl)
    | inl (us, g) ↦ elim (Bool-cases (is_unknown vs k)) [
      | inl u ↦ let (e, q) = assign-unknown vs k v u in absurd (ground (arith, g, q))
      | inr u ↦
          let (e, f) =
            decode_fields-unknown us fs (has_unknown-assign vs us k v fs g ∙ ground arith) in
          (e, rw g f)
    ]
  ]

-- ValidateCredentials is strict: for any protocol of a registry, data that is an object with a key
-- that is no field's of the protocol's struct, wherever it stands and whatever the other fields hold,
-- is refused with exactly one error, under the name "_json".
pub validate_credentials-unknown :
    (d : Decoder) (r : Registry) (p : String) (ct : CredentialType) (t : Text) (fs : Fields)
    → lookup p r.credential_types ≡ some ct
    → d.read t ≡ some (Json.obj fs)
    → has_unknown d (zero_values ct.fields) fs ≡ true
    → (message : Text) × (validate_credentials d r p t
        ≡ err (invalid (record { field = codes "_json"; message = message } ∷ [])))
unfolding validate_credentials decode decode_value
validate_credentials-unknown d r p ct t fs found parsed unknown =
    let (e, h) = decode_fields-unknown d (zero_values ct.fields) fs unknown in
    (message_of d e, rw (found, parsed, h, validate_credentials, decode) refl)
