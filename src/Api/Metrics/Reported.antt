-- ===== src/Api/Metrics/Reported.antt =====
-- internal/api/handlers/monitors.go: what a response of QueryMetrics reports.
use nmslite.Common.{
  ℕ, ◌+◌, ◌-◌, ◌%◌, ltb, pos_part, ℤ, pos, negsuc, String, ◌≡◌, ◌≢◌, refl, ap, subst, ◌⊎◌, inl, inr,
  true, false, some, List, length, total, take, ◌==◌, ==_iff, arith, Bool-cases,
}
use nmslite.Common.Results.{ok}
use nmslite.Database.Tables.{Db}
use nmslite.Database.Metrics.{Metric, Sql, of_group}
use nmslite.Database.Metrics.Grouped.{IsSql, Descending}
use nmslite.Api.Requests.{Api}
use nmslite.Api.Metrics.{
  MetricsQueryRequest, MetricsQueryResponse, MetricDataPoint, is_zero, to_int32, with_limit, points,
  query_metrics,
}
use nmslite.Api.Metrics.Points.{times}
use nmslite.Api.Metrics.Rows.{limit_of, asked_for, query_metrics-Answered}
use nmslite.Api.Metrics.Asked.{Selects, IsAsked, IsOf, within-Selects, of_group-Selects}

-- The request as it is answered: with a limit of 100 where it has a limit of 0.
abbrev pub IsLimited : MetricsQueryRequest → MetricsQueryRequest → Type 0
IsLimited input q =
    ((input.limit ≡ pos 0) × (q ≡ record input { limit = pos 100 }))
    ⊎ ((input.limit ≢ pos 0) × (q ≡ input))

-- The number that the 32 lowest bits of a limit stand for, or 0 where it is below 0.
abbrev pub rows_limit : ℤ → ℕ
rows_limit (pos m) = (m + 2147483648) % 4294967296 - 2147483648
rows_limit (negsuc m) = (6442450943 - m % 4294967296) % 4294967296 - 2147483648

-- How many rows of each device and name a response has at most.
abbrev pub IsMost : MetricsQueryRequest → ℕ → Type 0
IsMost q n = ((q.latest ≡ true) × (n ≡ 1)) ⊎ ((q.latest ≡ false) × (n ≡ rows_limit q.limit))

-- Of a device and a name: the rows of the response are the first rows, up to the number, of those that were
-- found, from the latest on; and a point with the time of each stands under the device and the name.
pub record Latest (n : ℕ) (found rows : List Metric) (shown : List MetricDataPoint) (id : ℕ)
    (name : String) : Type 0 where
  pub theirs : List Metric
  pub of_found : Selects (IsOf id name) found theirs
  pub sorted : List Metric
  pub descending : Descending sorted
  pub same : (w : Metric → ℕ) → total w sorted ≡ total w theirs
  pub reported : List Metric
  pub of_rows : Selects (IsOf id name) rows reported
  pub first : reported ≡ take n sorted
  pub as_points : shown ≡ times reported

-- What a response reports.
pub record Reports (sql : Sql) (table : List Metric) (db : Db) (input : MetricsQueryRequest)
    (response : MetricsQueryResponse) : Type 0 where
  pub request : IsLimited input response.request
  pub found : List Metric
  pub asked : Selects (IsAsked sql db response.request) table found
  pub most : ℕ
  pub is_most : IsMost response.request most
  pub rows : List Metric
  pub counted : response.count ≡ length rows
  pub latest :
      (id : ℕ) (name : String)
      → Latest most found rows (points response.data_points id name) id name

is_zero-cases : (i : ℤ) → ((is_zero i ≡ true) × (i ≡ pos 0)) ⊎ ((is_zero i ≡ false) × (i ≢ pos 0))
is_zero-cases (negsuc n) = inr (refl, λ e. absurd (ground (arith, e)))
is_zero-cases (pos n) = elim (Bool-cases (n == 0)) [
  | inl e ↦ inl (e, ap pos ((==_iff n 0).0 e))
  | inr e ↦ inr (e, λ q. absurd (ground (arith, e, q)))
]

with_limit-IsLimited : (input : MetricsQueryRequest) → IsLimited input (with_limit input)
unfolding with_limit
with_limit-IsLimited input = elim (is_zero-cases input.limit) [
  | inl (e, f) ↦ inl (f, rw e refl)
  | inr (e, f) ↦ inr (f, rw e refl)
]

to_int32_lem : (limit : ℤ) → pos_part (to_int32 limit) ≡ rows_limit limit
to_int32_lem (pos m) = elim (Bool-cases (ltb (m % 4294967296) 2147483648)) [
  | inl e ↦ rw e (ground (arith, e))
  | inr e ↦ rw e (ground (arith, e))
]
to_int32_lem (negsuc m) = elim (Bool-cases (ltb (m % 4294967296) 2147483648)) [
  | inl e ↦ rw e (ground (arith, e))
  | inr e ↦ rw e (ground (arith, e))
]

limit_of-IsMost : (q : MetricsQueryRequest) → IsMost q (limit_of q)
limit_of-IsMost q = elim (Bool-cases q.latest) [
  | inl e ↦ rw e (inl (refl, refl))
  | inr e ↦ rw e (inr (refl, to_int32_lem q.limit))
]

-- Where the orders of the database keep what they order, and that of times is descending: a response of QueryMetrics
-- holds, of each device and each name, the latest of the rows that the request asks for, up to its
-- limit as 32 bits, or the latest one: the rows of the devices of the request that a monitor exists of, whose
-- name is LIKE its prefix and a dot, from its start to its end. The limit is 100 where the request has 0. Under the
-- device and the name stands one point for each, from the latest on, with the row's time; and
-- `count` is the number of all of them. The value of every point is zero: the rows' values are not
-- in the response.
pub query_metrics-Reports :
    (sql : Sql) (table : List Metric) (input : MetricsQueryRequest) (a a' : Api)
    (response : MetricsQueryResponse)
    → IsSql sql
    → query_metrics sql table (some input) a ≡ (ok response, a')
    → Reports sql table a.db input response
query_metrics-Reports sql table input a a' response laws e =
    let (request, answered) = query_metrics-Answered sql table input a a' response laws e in
    let found = asked_for sql table a.db response.request in
    record {
      request = subst (IsLimited input) request (with_limit-IsLimited input);
      found = found;
      asked = within-Selects sql a.db response.request table;
      most = limit_of response.request;
      is_most = limit_of-IsMost response.request;
      rows = answered.rows;
      counted = answered.counted;
      latest = λ id name. record {
        theirs = of_group id name found;
        of_found = of_group-Selects id name found;
        sorted = sql.latest_first (of_group id name found);
        descending = laws.descending (of_group id name found);
        same = λ w. laws.same_rows w (of_group id name found);
        reported = of_group id name answered.rows;
        of_rows = of_group-Selects id name answered.rows;
        first = answered.latest id name;
        as_points = answered.shown id name;
      };
    }
