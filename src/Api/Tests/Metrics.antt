-- ===== src/Api/Tests/Metrics.antt =====
-- The theorem on the query of metrics, applied to small inputs.
use nmslite.Common.{
  ℕ, ◌+◌, ℤ, negsuc, leb, total, ◌⊎◌, inl, inr, if◌then◌else◌, arith, Bool-cases, pos, ◌≡◌, refl,
  true, false, none, some, List, [], ◌∷◌, find, insert,
}
use nmslite.Common.Results.{ok}
use nmslite.Database.Tables.{ask}
use nmslite.Api.Requests.{Api, query, decode_json}
use nmslite.Database.Tables.{get_existing_monitor_ids, existing_ids}
use nmslite.Database.Metrics.{
  Metric, Sql, le_ℤ, within, limited, latest_of, get_metrics_by_device_and_prefix,
}
use nmslite.Database.Metrics.Grouped.{IsSql, Le, Descending}
use nmslite.Api.Metrics.{
  MetricsQueryRequest, MetricsQueryResponse, query_metrics, with_limit, answer, empty_groups,
  group_rows, add_row, point_of, rows_query,
}
use nmslite.Api.Metrics.Reported.{Reports, query_metrics-Reports}
use nmslite.Api.Tests.{tables, input}

-- A device with two metrics, of which one has two rows.
abbrev monitored : Api
monitored = record {
  db = record tables { monitors = (1, record input { id = 1 }) ∷ [] };
  sent = none;
}

abbrev stored_rows : List Metric
stored_rows =
    record { timestamp = pos 1; device_id = 1; name = "cpu"; value = "0.5"; kind = none }
    ∷ record { timestamp = pos 2; device_id = 1; name = "cpu"; value = "0.7"; kind = none }
    ∷ record { timestamp = pos 2; device_id = 1; name = "mem"; value = "12"; kind = none }
    ∷ record { timestamp = pos 2; device_id = 3; name = "mem"; value = "7"; kind = none }
    ∷ []

-- Rows sorted by their time, the latest first.
abbrev insert_row : Metric → List Metric → List Metric
insert_row row [] = row ∷ []
insert_row row (next ∷ rows) =
    let rest = insert_row row rows in
    if le_ℤ next.timestamp row.timestamp then row ∷ next ∷ rows else next ∷ rest

abbrev sort_rows : List Metric → List Metric
sort_rows [] = []
sort_rows (row ∷ rows) = insert_row row (sort_rows rows)

total-insert_row :
    (w : Metric → ℕ) (row : Metric) (rows : List Metric)
    → total w (insert_row row rows) ≡ w row + total w rows
total-insert_row w row [] = refl
total-insert_row w row (next ∷ rows) = elim (Bool-cases (le_ℤ next.timestamp row.timestamp)) [
  | inl e ↦ rw e refl
  | inr e ↦ rw e (omega (arith, total-insert_row w row rows))
]

total-sort_rows : (w : Metric → ℕ) (rows : List Metric) → total w (sort_rows rows) ≡ total w rows
total-sort_rows w [] = refl
total-sort_rows w (row ∷ rows) =
    omega (arith, total-insert_row w row (sort_rows rows), total-sort_rows w rows)

Le-cases : (a b : ℤ) → ((le_ℤ a b ≡ true) × Le a b) ⊎ ((le_ℤ a b ≡ false) × Le b a)
Le-cases (pos m) (pos n) = elim (Bool-cases (leb m n)) [
  | inl e ↦ inl (e, ground (arith, e))
  | inr e ↦ inr (e, ground (arith, e))
]
Le-cases (pos m) (negsuc n) = inr (refl, tt)
Le-cases (negsuc m) (pos n) = inl (refl, tt)
Le-cases (negsuc m) (negsuc n) = elim (Bool-cases (leb n m)) [
  | inl e ↦ inl (e, ground (arith, e))
  | inr e ↦ inr (e, ground (arith, e))
]

-- A row that is not later than the first one is inserted behind it.
insert_row-behind :
    (first row : Metric) (rows : List Metric)
    → Le row.timestamp first.timestamp
    → Descending (first ∷ rows)
    → Descending (insert_row row rows)
    → Descending (first ∷ insert_row row rows)
insert_row-behind first row [] h d s = (h, tt)
insert_row-behind first row (next ∷ rows) h d s =
    elim (Bool-cases (le_ℤ next.timestamp row.timestamp)) [
      | inl e ↦ rw e (h, rw e at s)
      | inr e ↦ rw e (d.0, rw e at s)
    ]

Descending-tail : (row : Metric) (rows : List Metric) → Descending (row ∷ rows) → Descending rows
Descending-tail row [] h = tt
Descending-tail row (next ∷ rows) h = h.1

insert_row-Descending :
    (row : Metric) (rows : List Metric) → Descending rows → Descending (insert_row row rows)
insert_row-Descending row [] h = tt
insert_row-Descending row (next ∷ rows) h = elim (Le-cases next.timestamp row.timestamp) [
  | inl (e, l) ↦ rw e (l, h)
  | inr (e, l) ↦ rw e (
      insert_row-behind next row rows l h
        (insert_row-Descending row rows (Descending-tail next rows h)))
]

sort_rows-Descending : (rows : List Metric) → Descending (sort_rows rows)
sort_rows-Descending [] = tt
sort_rows-Descending (row ∷ rows) =
    insert_row-Descending row (sort_rows rows) (sort_rows-Descending rows)

-- A database with this order, in which each name is LIKE each pattern.
abbrev in_order : Sql
in_order = record { like = λ name p. true; by_name = λ gs. gs; latest_first = sort_rows }

in_order-IsSql : IsSql in_order
in_order-IsSql = record {
  same_groups = λ w gs. refl;
  same_rows = total-sort_rows;
  descending = sort_rows-Descending;
}

abbrev metrics_request : MetricsQueryRequest
metrics_request = record {
  device_ids = 1 ∷ 3 ∷ [];
  prefix = "";
  start = some (pos 0);
  end_time = some (pos 9);
  limit = pos 1;
  latest = false;
}

-- One row of each metric of the device that exists.
abbrev metrics_response : MetricsQueryResponse
metrics_response = record {
  data_points =
      (3, [])
      ∷ (
        1,
        ("cpu", record { timestamp = pos 2; value = pos 0 } ∷ [])
            ∷ ("mem", record { timestamp = pos 2; value = pos 0 } ∷ [])
            ∷ [],
      )
      ∷ [];
  count = 2;
  request = metrics_request;
}

abbrev asked_twice : Api
asked_twice = record { db = record monitored.db { asked = 2 }; sent = none }

metrics-answered :
    query_metrics in_order stored_rows (some metrics_request) monitored
    ≡ (ok metrics_response, asked_twice)
unfolding query_metrics query decode_json with_limit get_existing_monitor_ids existing_ids ask
    answer empty_groups group_rows add_row point_of insert find rows_query within limited latest_of
    get_metrics_by_device_and_prefix
metrics-answered = refl

query_metrics-Reports_example :
    Reports in_order stored_rows monitored.db metrics_request metrics_response
query_metrics-Reports_example =
    query_metrics-Reports in_order stored_rows metrics_request monitored asked_twice
      metrics_response in_order-IsSql metrics-answered
