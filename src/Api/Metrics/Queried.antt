-- ===== src/Api/Metrics/Queried.antt =====
-- internal/api/common/helpers.go, internal/database/dbgen: what a query that is answered has done.
use nmslite.Common.{
  suc, Bool, String, ◌≡◌, ap, subst, List, if◌then◌else◌, arith, Bool-cases, inl, inr,
}
use nmslite.Common.Results.{Result, ok, err}
use nmslite.Database.Tables.{Db, DbError, other_error, Query, settle, ask}
use nmslite.Database.Metrics.{Metric, with_db}
use nmslite.Api.Requests.{Api, answered, query}

settle_lem :
    {A : Type 0} (db : Db) (p : Result DbError (A × Db)) (x : A)
    → (settle db p).0 ≡ ok x
    → (db' : Db) × (p ≡ ok (x, db'))
settle_lem db (ok (y, db')) x e = (db', ap (λ y. ok (y, db')) (ground (arith, e)))
settle_lem db (err y) x e = absurd (ground (arith, e))

pub ask_lem :
    {A : Type 0} (statement : Db → Result DbError (A × Db)) (db : Db) (x : A)
    → (ask statement db).0 ≡ ok x
    → (db' : Db) × (statement (record db { asked = suc db.asked }) ≡ ok (x, db'))
unfolding ask
ask_lem statement db x e =
    let asked = record db { asked = suc db.asked } in
    elim (Bool-cases (db.fault db.asked)) [
      | inl f ↦ absurd (ground (arith, e, f))
      | inr f ↦ settle_lem asked (statement asked) x (
          subst
            (λ (b : Bool).
              (if b then (err other_error, asked) else settle asked (statement asked)).0 ≡ ok x)
            f e)
    ]

answered_lem :
    {A : Type 0} (entity : String) (a a' : Api) (p : Result DbError A × Db) (x : A)
    → answered entity a p ≡ (ok x, a')
    → p.0 ≡ ok x
answered_lem entity a a' (ok y, db) x e = ground (arith, e)
answered_lem entity a a' (err y, db) x e = absurd (ground (arith, e))

pub query_lem :
    {A : Type 0} (entity : String) (q : Query A) (a a' : Api) (x : A)
    → query entity q a ≡ (ok x, a')
    → (q a.db).0 ≡ ok x
unfolding query
query_lem entity q a a' x e = answered_lem entity a a' (q a.db) x e

pub with_db_lem :
    (db db' : Db) (p : Result DbError (List Metric)) (rows : List Metric)
    → with_db db p ≡ ok (rows, db')
    → p ≡ ok rows
with_db_lem db db' (ok y) rows e = ap ok (ground (arith, e))
with_db_lem db db' (err y) rows e = absurd (ground (arith, e))
