-- ===== src/Database/Metrics.antt =====
-- internal/database/dbgen/metrics.sql.go: the queries of metrics, over the rows of the table. LIKE and
-- the two orders are arguments (`Sql`). A time that is not given is the zero time, before all others.
pub mod Grouped
use nmslite.Common.{
  ℕ, ℤ, pos, negsuc, String, str_eq, Bool, true, false, not, ◌&&◌, ◌||◌, Option, none, some, List,
  [], ◌∷◌, ◌++◌, ◌==◌, leb, take, if◌then◌else◌,
}
use nmslite.Common.Results.{Result, ok, err}
use nmslite.Database.Tables.{Db, DbError, other_error, Query, ask, has_id}

-- A row of the table of metrics; its value, with which nothing here computes, is a text.
pub record Metric : Type 0 where
  pub timestamp : ℤ
  pub device_id : ℕ
  pub name : String
  pub value : String
  pub kind : Option String

pub record Sql : Type 0 where
  pub like : String → String → Bool
  -- ORDER BY device_id, name
  pub by_name : List (ℕ × String) → List (ℕ × String)
  -- ORDER BY timestamp DESC
  pub latest_first : List Metric → List Metric

-- The parameters of both queries that say which rows they are about.
pub record Window : Type 0 where
  pub device_ids : List ℕ
  pub metric_name_pattern : String
  pub start_time : Option ℤ
  pub end_time : Option ℤ

abbrev pub le_ℤ : ℤ → ℤ → Bool
le_ℤ (pos m) (pos n) = leb m n
le_ℤ (pos m) (negsuc n) = false
le_ℤ (negsuc m) (pos n) = true
le_ℤ (negsuc m) (negsuc n) = leb n m

abbrev pub is_since : Option ℤ → ℤ → Bool
is_since none t = true
is_since (some start) t = le_ℤ start t

abbrev pub is_until : Option ℤ → ℤ → Bool
is_until none t = false
is_until (some end) t = le_ℤ t end

-- The rows of a device and a name, in their order.
abbrev pub of_group : ℕ → String → List Metric → List Metric
of_group id name [] = []
of_group id name (row ∷ rows) =
    let rest = of_group id name rows in
    if (row.device_id == id) && str_eq row.name name then row ∷ rest else rest

abbrev pub has_group : ℕ → String → List (ℕ × String) → Bool
has_group id name [] = false
has_group id name ((i, n) ∷ gs) = ((i == id) && str_eq n name) || has_group id name gs

-- SELECT DISTINCT device_id, name
abbrev pub groups_of : List Metric → List (ℕ × String)
groups_of [] = []
groups_of (row ∷ rows) =
    let rest = groups_of rows in
    if has_group row.device_id row.name rest then rest else (row.device_id, row.name) ∷ rest

abbrev pub with_db : Db → Result DbError (List Metric) → Result DbError (List Metric × Db)
with_db db (ok rows) = ok (rows, db)
with_db db (err e) = err e

module _ (sql : Sql) where
  unfoldable pub within : Window → List Metric → List Metric
  within w [] = []
  within w (row ∷ rows) =
      let rest = within w rows in
      if has_id row.device_id w.device_ids
        && sql.like row.name w.metric_name_pattern
        && is_since w.start_time row.timestamp
        && is_until w.end_time row.timestamp
      then row ∷ rest
      else rest

  -- The latest rows of each group, up to a number.
  unfoldable pub latest_of : ℕ → List Metric → List (ℕ × String) → List Metric
  latest_of n rows [] = []
  latest_of n rows ((id, name) ∷ gs) =
      take n (sql.latest_first (of_group id name rows)) ++ latest_of n rows gs

  abbrev pub top : ℕ → List Metric → List Metric
  top n rows = latest_of n rows (sql.by_name (groups_of rows))

  -- The rows of the groups; a limit below 0 is an error where it is reached.
  unfoldable pub limited : ℤ → List Metric → Result DbError (List Metric)
  unfolding latest_of
  limited (pos n) rows = ok (top n rows)
  limited (negsuc n) [] = ok []
  limited (negsuc n) (row ∷ rows) = err other_error

  module _ (table : List Metric) where
    unfoldable pub get_latest_metrics_by_device_and_prefix : Window → Query (List Metric)
    unfolding ask within latest_of
    get_latest_metrics_by_device_and_prefix w = ask (λ db. ok (top 1 (within w table), db))

    unfoldable pub get_metrics_by_device_and_prefix : Window → ℤ → Query (List Metric)
    unfolding ask within limited
    get_metrics_by_device_and_prefix w limit =
        ask (λ db. with_db db (limited limit (within w table)))
