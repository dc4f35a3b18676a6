-- ===== src/Protocols/Decoded.antt =====
-- internal/protocols/registry.go: the values that are decoded strictly are those that a lookup by
-- name finds in the object.
use nmslite.Common.{
  String, str_eq, str_eq_iff, ◌≡◌, refl, ◌∙◌, Bool, true, false, not, ◌&&◌, ◌||◌, Option, none,
  some, List, [], ◌∷◌, if◌then◌else◌, arith, inl, inr, Bool-cases, Option-cases, Json, Fields, end,
  field, get_field,
}
use nmslite.Common.Results.{ok, Result-cases}
use nmslite.Auth.Containers.{read_field, string_of}
use nmslite.Protocols.Schemas.{Field, Values, value, zero_values}
use nmslite.Protocols.Registry.{Decoder, overwrite, assign, decode_fields}

abbrev is_null : Json → Bool
is_null Json.null = true
is_null v = false

overwrite-string :
    (x : String) (v : Json) (t : String)
    → is_null v ≡ false
    → overwrite x v ≡ ok t
    → string_of (some v) ≡ t
overwrite-string x (Json.str u) t z e = ground arith
overwrite-string x Json.null t z e = ground arith
overwrite-string x (Json.bool b) t z e = ground arith
overwrite-string x (Json.num b) t z e = ground arith
overwrite-string x (Json.arr b) t z e = ground arith
overwrite-string x (Json.obj b) t z e = ground arith

value-zero_values : (fields : List Field) (n : String) → value (zero_values fields) n ≡ ""
unfolding value zero_values
value-zero_values [] n = refl
value-zero_values (f ∷ fields) n = ground (arith, value-zero_values fields n)

module _ (d : Decoder) where
  open d use {same_name}

  -- A key that is read as a field of the struct is spelled as the field is.
  abbrev is_exact : Values → String → Bool
  is_exact [] k = true
  is_exact ((f, x) ∷ vs) k = (not (same_name k f.json) || str_eq k f.json) && is_exact vs k

  -- Every key is spelled exactly, and no value is `null`.
  abbrev pub all_exact : Values → Fields → Bool
  all_exact vs end = true
  all_exact vs (field k v fs) = is_exact vs k && not (is_null v) && all_exact vs fs

  -- A key that is spelled as a field is read as that field.
  abbrev pub IsReflexive : Type 0
  IsReflexive = (n : String) → same_name n n ≡ true

  value-assign :
      IsReflexive
      → (vs vs' : Values) (k n : String) (v : Json) → is_exact vs k ≡ true
      → is_null v ≡ false
      → assign d vs k v ≡ ok vs'
      → value vs' n ≡ (if str_eq k n then string_of (some v) else value vs n)
  unfolding assign value
  value-assign same [] vs' k n v x z e = ground arith
  value-assign same ((f, t) ∷ vs) vs' k n v x z e = elim (Bool-cases (same_name k f.json)) [
    | inl here ↦ elim (Result-cases (overwrite t v)) [
      | inl (u, g) ↦ ground (arith, overwrite-string t v u z g, str_eq_iff k f.json)
      | inr (u, g) ↦ ground arith
    ]
    | inr later ↦ elim (Result-cases (assign d vs k v)) [
      | inl (us, g) ↦
          let ih = value-assign same vs us k n v in
          ground (arith, ih, str_eq_iff k n, str_eq_iff f.json n, same n)
      | inr (u, g) ↦ ground arith
    ]
  ]

  is_exact-assign :
      (vs vs' : Values) (j k : String) (v : Json)
      → assign d vs j v ≡ ok vs'
      → is_exact vs' k ≡ is_exact vs k
  unfolding assign
  is_exact-assign [] vs' j k v e = ground arith
  is_exact-assign ((f, t) ∷ vs) vs' j k v e = elim (Bool-cases (same_name j f.json)) [
    | inl here ↦ elim (Result-cases (overwrite t v)) [
      | inl (u, g) ↦ ground arith
      | inr (u, g) ↦ ground arith
    ]
    | inr later ↦ elim (Result-cases (assign d vs j v)) [
      | inl (us, g) ↦ ground (arith, is_exact-assign vs us j k v g)
      | inr (u, g) ↦ ground arith
    ]
  ]

  all_exact-assign :
      (vs vs' : Values) (j : String) (v : Json) (fs : Fields)
      → assign d vs j v ≡ ok vs'
      → all_exact vs' fs ≡ all_exact vs fs
  all_exact-assign vs vs' j v end e = refl
  all_exact-assign vs vs' j v (field k w fs) e =
      rw (is_exact-assign vs vs' j k v e, all_exact-assign vs vs' j v fs e) refl

  -- The value of a field after decoding: that of the last key of its name, or what it was.
  abbrev found_or : String → Option Json → String
  found_or t none = t
  found_or t (some v) = string_of (some v)

  value-decode_fields :
      IsReflexive
      → (vs vs' : Values) (fs : Fields) (n : String) → all_exact vs fs ≡ true
      → decode_fields d vs fs ≡ ok vs'
      → value vs' n ≡ found_or (value vs n) (get_field n fs)
  unfolding decode_fields get_field
  value-decode_fields same vs vs' end n x e = ground arith
  value-decode_fields same vs vs' (field k v fs) n x e = elim (Result-cases (assign d vs k v)) [
    | inr (u, g) ↦ ground arith
    | inl (us, g) ↦
        let step = value-assign same vs us k n v (ground arith) (ground arith) g in
        let ih = value-decode_fields same us vs' fs n in
        elim (Option-cases (get_field n fs)) [
          | inl q ↦ ground (arith, step, ih, all_exact-assign vs us k v fs g)
          | inr (w, q) ↦ ground (arith, step, ih, all_exact-assign vs us k v fs g)
        ]
  ]

  -- For an object whose keys are spelled exactly and whose values are not `null`, the strict decoder
  -- fills a struct with the strings that a lookup by name finds in the object.
  pub value-read_field :
      IsReflexive
      → (fields : List Field) (vs : Values) (fs : Fields) (n : String)
      → all_exact (zero_values fields) fs ≡ true
      → decode_fields d (zero_values fields) fs ≡ ok vs
      → value vs n ≡ read_field fs n
  value-read_field same fields vs fs n x e =
      value-decode_fields same (zero_values fields) vs fs n x e ∙ found_lem (get_field n fs)
    where
      found_lem : (o : Option Json) → found_or (value (zero_values fields) n) o ≡ string_of o
      found_lem none = value-zero_values fields n
      found_lem (some v) = refl
