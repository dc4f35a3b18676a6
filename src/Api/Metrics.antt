-- ===== src/Api/Metrics.antt =====
-- internal/api/handlers/monitors.go: QueryMetrics, over the rows of the table of metrics;
-- identifiers stand for their decimal texts in the response. A date that is not given is none.
pub mod Queried
pub mod Points
pub mod Rows
pub mod Asked
pub mod Reported
use nmslite.Common.{
  ℕ, ◌-◌, ◌%◌, ltb, ℤ, pos, negsuc, String, str_eq, str_eq_iff, ◌≡◌, refl, ◌∙◌, sym, ap, subst,
  Bool, true, false, not, ◌&&◌, ◌||◌, Option, none, some, List, [], ◌∷◌, ◌++◌, length, ◌==◌, ==_iff,
  if◌then◌else◌, Assoc, find, insert, find-insert, Names, lookup, put, lookup-put, arith,
  Bool-cases, inl, inr,
}
use Prim.Native.String.{◌++◌ as append}
use mathlib.Core.List.{append-nil, append_assoc}
use nmslite.Common.Results.{ok}
use nmslite.Database.Tables.{Query, is_some, get_existing_monitor_ids}
use nmslite.Database.Metrics.{
  Metric, Sql, Window, get_latest_metrics_by_device_and_prefix, get_metrics_by_device_and_prefix,
}
use nmslite.Api.Requests.{Api, Action, bind_lem, ◌>>=◌, pure, fail, query, decode_json}

pub record MetricsQueryRequest : Type 0 where
  pub device_ids : List ℕ
  pub prefix : String
  pub start : Option ℤ
  pub end_time : Option ℤ
  pub limit : ℤ
  pub latest : Bool

-- The value is not set when a point is built: it is the zero of its type.
pub record MetricDataPoint : Type 0 where
  pub timestamp : ℤ
  pub value : ℤ

abbrev pub Grouped : Type 0
Grouped = Assoc (Names (List MetricDataPoint))

pub record MetricsQueryResponse : Type 0 where
  pub data_points : Grouped
  pub count : ℕ
  pub request : MetricsQueryRequest

abbrev pub or_empty {ℓ} : {A : Type ℓ} → Option (List A) → List A
or_empty none = []
or_empty (some xs) = xs

-- The points under a device and a name.
unfoldable pub points : Grouped → ℕ → String → List MetricDataPoint
points g id name = or_empty (lookup name (or_empty (find id g)))

unfoldable pub point_of : Metric → MetricDataPoint
point_of row = record { timestamp = row.timestamp; value = pos 0 }

-- An entry without names for each device of the request.
unfoldable pub empty_groups : List ℕ → Grouped
empty_groups [] = []
empty_groups (id ∷ ids) = insert id [] (empty_groups ids)

-- A row in the groups.
unfoldable pub add_row : Grouped → Metric → Grouped
unfolding points point_of
add_row g row =
    let names = or_empty (find row.device_id g) in
    insert row.device_id
      (put row.name (or_empty (lookup row.name names) ++ point_of row ∷ []) names) g

-- The loop over the rows.
unfoldable pub group_rows : Grouped → List Metric → Grouped
unfolding add_row
group_rows g [] = g
group_rows g (row ∷ rows) = group_rows (add_row g row) rows

abbrev pub is_incomplete : MetricsQueryRequest → Bool
is_incomplete r =
    (elim r.device_ids [ [] ↦ true | _ ↦ false ])
    || not (is_some r.start)
    || not (is_some r.end_time)

abbrev pub is_zero : ℤ → Bool
is_zero (pos n) = n == 0
is_zero i = false

unfoldable pub with_limit : MetricsQueryRequest → MetricsQueryRequest
with_limit r = if is_zero r.limit then record r { limit = pos 100 } else r

-- int32(limit)
abbrev pub to_int32 : ℤ → ℤ
to_int32 (pos n) =
    let m = n % 4294967296 in if ltb m 2147483648 then pos m else negsuc (4294967295 - m)
to_int32 (negsuc n) =
    let m = n % 4294967296 in if ltb m 2147483648 then negsuc m else pos (4294967295 - m)

abbrev pub pattern : String → String
pattern prefix = if str_eq prefix "" then "%" else append prefix ".%"

abbrev pub window : List ℕ → MetricsQueryRequest → Window
window ids r = record {
  device_ids = ids;
  metric_name_pattern = pattern r.prefix;
  start_time = r.start;
  end_time = r.end_time;
}

-- The query of a request, for some devices.
unfoldable pub rows_query : Sql → List Metric → List ℕ → MetricsQueryRequest → Query (List Metric)
unfolding get_latest_metrics_by_device_and_prefix get_metrics_by_device_and_prefix
rows_query sql table ids r =
    if r.latest
    then get_latest_metrics_by_device_and_prefix sql table (window ids r)
    else get_metrics_by_device_and_prefix sql table (window ids r) (to_int32 r.limit)

abbrev pub no_devices : MetricsQueryRequest → MetricsQueryResponse
no_devices r = record { data_points = empty_groups r.device_ids; count = 0; request = r }

abbrev pub with_rows : MetricsQueryRequest → List Metric → MetricsQueryResponse
with_rows r rows = record {
  data_points = group_rows (empty_groups r.device_ids) rows;
  count = length rows;
  request = r;
}

abbrev pub require_fields : MetricsQueryRequest → Action Unit
require_fields r =
    if is_incomplete r
    then fail 400 "INVALID_REQUEST" "device_ids, start, and end are required"
    else pure tt

-- QueryMetrics, from the identifiers that exist on.
unfoldable pub answer :
    Sql → List Metric → MetricsQueryRequest → List ℕ → Action MetricsQueryResponse
unfolding query empty_groups group_rows rows_query
answer sql table r [] = pure (no_devices r)
answer sql table r (i ∷ is) =
    query "Metrics" (rows_query sql table (i ∷ is) r) >>= (λ rows. pure (with_rows r rows))

-- QueryMetrics
unfoldable pub query_metrics :
    Sql → List Metric → Option MetricsQueryRequest → Action MetricsQueryResponse
unfolding decode_json query with_limit empty_groups group_rows get_existing_monitor_ids answer
query_metrics sql table body = do
  input ← decode_json body
  _ ← require_fields input
  let r = with_limit input
  ids ← query "Device IDs" (get_existing_monitor_ids r.device_ids)
  answer sql table r ids
