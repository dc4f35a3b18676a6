-- ===== src/Api/Requests.antt =====
-- internal/api/common/helpers.go and dependencies.go: what the handlers share. A handler asks the
-- database and sends cache events in turn (`Action`), and ends with a status and what it sends, or
-- with the error that it has sent. The body of a request arrives decoded, or as none where it is not
-- JSON of the type; an identifier is read by an argument of the handlers (strconv.ParseInt, of which
-- the negative numbers, which no row has, are left out). Texts of errors of the database and of
-- encoding/json, which go out as details, are left out.
use Prim.Native.String.{◌++◌ as append}
use nmslite.Common.{
  ◌≡◌, ◌∙◌, sym, inl, inr, arith, ℕ, String, str_eq, Option, none, some, List, [], ◌∷◌, ◌++◌,
  if◌then◌else◌,
}
use nmslite.Common.Results.{Result, ok, err, Result-cases}
use nmslite.Database.Tables.{Db, DbError, no_rows, other_error, Query}
use nmslite.Poller.Events.{CacheInvalidateEvent}

pub record Failure : Type 0 where
  pub status : ℕ
  pub code : String
  pub message : String

-- `sent` is what was sent on CacheInvalidate, or none where there are no channels.
pub record Api : Type 0 where
  pub db : Db
  pub sent : Option (List CacheInvalidateEvent)

abbrev pub Action : Type 0 → Type 0
Action A = Api → Result Failure A × Api

abbrev pub and_then :
    {A B : Type 0} → Result Failure A × Api → (A → Action B) → Result Failure B × Api
and_then (ok a, s) k = k a s
and_then (err e, s) k = (err e, s)

infixl 5 ◌>>=◌
abbrev pub ◌>>=◌ : {A B : Type 0} → Action A → (A → Action B) → Action B
(m >>= k) s = and_then (m s) k

abbrev pub pure : {A : Type 0} → A → Action A
pure a s = (ok a, s)

abbrev pub fail : {A : Type 0} → ℕ → String → String → Action A
fail status code message s = (err (record { status = status; code = code; message = message }), s)

-- HandleDBError
unfoldable pub handle_db_error : String → DbError → Failure
handle_db_error entity no_rows = record {
  status = 404;
  code = "NOT_FOUND";
  message = append entity " not found";
}
handle_db_error entity other_error = record {
  status = 500;
  code = "DB_ERROR";
  message = "Database error";
}

abbrev pub answered : {A : Type 0} → String → Api → Result DbError A × Db → Result Failure A × Api
answered entity s (ok a, db) = (ok a, record s { db = db })
answered entity s (err e, db) = (err (handle_db_error entity e), record s { db = db })

-- A query, and HandleDBError for its error.
unfoldable pub query : {A : Type 0} → String → Query A → Action A
unfolding handle_db_error
query entity q s = answered entity s (q s.db)

-- ParseIDParam
unfoldable pub parse_id_param : (String → Option ℕ) → String → Action ℕ
parse_id_param parse_int text =
    if str_eq text "" then fail 400 "MISSING_ID" "Missing ID parameter" else elim (parse_int text) [
      | none ↦ fail 400 "INVALID_ID" "Invalid ID format"
      | some id ↦ pure id
    ]

-- DecodeJSON
unfoldable pub decode_json : {A : Type 0} → Option A → Action A
decode_json none = fail 400 "INVALID_BODY" "Invalid JSON body"
decode_json (some a) = pure a

-- A send on CacheInvalidate.
unfoldable pub send : CacheInvalidateEvent → Api → Api
send event s = elim s.sent [
  | none ↦ s
  | some events ↦ record s { sent = some (events ++ event ∷ []) }
]

-- An action that ends well has done so in each of its parts.
pub bind_lem :
    {A B : Type 0} (m : Action A) (k : A → Action B) (a a' : Api) (y : B)
    → (m >>= k) a ≡ (ok y, a')
    → (x : A) × (b : Api) × (m a ≡ (ok x, b)) × (k x b ≡ (ok y, a'))
bind_lem m k a a' y e = elim (Result-cases (m a).0) [
  | inl (x, f) ↦ (x, (m a).1, (λ i. (f i, (m a).1)), (λ i. and_then (sym f i, (m a).1) k) ∙ e)
  | inr (x, f) ↦ absurd (ground (arith, (λ i. and_then (sym f i, (m a).1) k) ∙ e))
]
