-- ===== src/Api/Metrics/Rows.antt =====
-- internal/api/handlers/monitors.go: which rows a response of QueryMetrics holds.
use nmslite.Common.{
  suc, Bool, ℤ, negsuc, pos_part, take, ℕ, pos, String, ◌≡◌, refl, ◌∙◌, sym, ap, subst, some, List,
  [], ◌∷◌, ◌++◌, length, if◌then◌else◌, arith, Bool-cases, inl, inr,
}
use nmslite.Common.Results.{ok}
use nmslite.Database.Tables.{Db, get_existing_monitor_ids, existing_ids}
use nmslite.Database.Metrics.{
  Metric, Sql, of_group, within, top, limited, with_db, get_latest_metrics_by_device_and_prefix,
  get_metrics_by_device_and_prefix,
}
use nmslite.Database.Metrics.Grouped.{IsSql, of_group-top, take-latest_first}
use nmslite.Api.Requests.{Api, bind_lem, fail, pure, query, decode_json}
use nmslite.Api.Metrics.{
  MetricsQueryRequest, MetricsQueryResponse, to_int32, window, points, is_incomplete, empty_groups,
  with_limit, rows_query, no_devices, with_rows, require_fields, answer, query_metrics,
}
use nmslite.Api.Metrics.Points.{times, points-empty_groups, points-group_rows}
use nmslite.Api.Metrics.Queried.{ask_lem, query_lem, with_db_lem}

-- How many rows of each device and name a response has at most.
abbrev pub limit_of : MetricsQueryRequest → ℕ
limit_of r = if r.latest then 1 else pos_part (to_int32 r.limit)

-- The rows of a request for some devices, with its prefix, in its time.
abbrev pub found_for : Sql → List Metric → List ℕ → MetricsQueryRequest → List Metric
found_for sql table ids r = within sql (window ids r) table

-- The rows that a request asks for: those of its devices that exist, with its prefix, in its time.
abbrev pub asked_for : Sql → List Metric → Db → MetricsQueryRequest → List Metric
asked_for sql table db r = found_for sql table (existing_ids db.monitors r.device_ids) r

-- The latest rows of a device and a name, among some.
abbrev pub latest_rows : Sql → MetricsQueryRequest → ℕ → String → List Metric → List Metric
latest_rows sql r id name rows = take (limit_of r) (sql.latest_first (of_group id name rows))

-- What a response is made of, for the rows that a request found.
pub record Answered (sql : Sql) (found : List Metric) (response : MetricsQueryResponse)
    : Type 0 where
  pub rows : List Metric
  pub counted : response.count ≡ length rows
  pub latest :
      (id : ℕ) (name : String)
      → of_group id name rows ≡ latest_rows sql response.request id name found
  pub shown :
      (id : ℕ) (name : String) → points response.data_points id name ≡ times (of_group id name rows)

within-nobody :
    (sql : Sql) (r : MetricsQueryRequest) (table : List Metric)
    → within sql (window [] r) table ≡ []
unfolding within
within-nobody sql r [] = refl
within-nobody sql r (row ∷ rows) = rw (within-nobody sql r rows) refl

module _ (sql : Sql) (laws : IsSql sql) (table : List Metric) where
  limited_lem :
      (limit : ℤ) (found rows : List Metric) (id : ℕ) (name : String)
      → limited sql limit found ≡ ok rows
      → of_group id name rows ≡ take (pos_part limit) (sql.latest_first (of_group id name found))
  unfolding limited
  limited_lem (pos n) found rows id name e =
      subst
        (λ (rs : List Metric).
          of_group id name rs ≡ take n (sql.latest_first (of_group id name found)))
        (ground (arith, e)) (of_group-top sql laws n found id name)
  limited_lem (negsuc n) [] rows id name e =
      let same : rows ≡ [] = ground (arith, e) in ap (of_group id name) same
  limited_lem (negsuc n) (row ∷ found) rows id name e = absurd (ground (arith, e))

  rows_query_lem :
      (ids : List ℕ) (r : MetricsQueryRequest) (db : Db) (rows : List Metric) (id : ℕ)
      (name : String)
      → (rows_query sql table ids r db).0 ≡ ok rows
      → of_group id name rows ≡ latest_rows sql r id name (found_for sql table ids r)
  unfolding rows_query get_latest_metrics_by_device_and_prefix get_metrics_by_device_and_prefix
  rows_query_lem ids r db rows id name e =
      let found = within sql (window ids r) table in
      let latest = get_latest_metrics_by_device_and_prefix sql table (window ids r) in
      let ranged = get_metrics_by_device_and_prefix sql table (window ids r) (to_int32 r.limit) in
      elim (Bool-cases r.latest) [
        | inl l ↦
            let (db', f) =
              ask_lem (λ db. ok (top sql 1 found, db)) db rows
                (subst (λ (b : Bool). ((if b then latest else ranged) db).0 ≡ ok rows) l e) in
            rw l (limited_lem (pos 1) found rows id name (ground (arith, f)))
        | inr l ↦
            let (db', f) =
              ask_lem (λ db. with_db db (limited sql (to_int32 r.limit) found)) db rows
                (subst (λ (b : Bool). ((if b then latest else ranged) db).0 ≡ ok rows) l e) in
            rw l (
              limited_lem (to_int32 r.limit) found rows id name (
                with_db_lem (record db { asked = suc db.asked }) db'
                  (limited sql (to_int32 r.limit) found) rows f))
      ]

  answer-Answered :
      (r : MetricsQueryRequest) (ids : List ℕ) (a a' : Api) (response : MetricsQueryResponse)
      → answer sql table r ids a ≡ (ok response, a')
      → Answered sql (found_for sql table ids response.request) response
  unfolding answer
  answer-Answered r [] a a' response e =
      let same : no_devices r ≡ response = ground (arith, e) in
      subst (λ (p : MetricsQueryResponse). Answered sql (found_for sql table [] p.request) p) same
        (record {
          rows = [];
          counted = refl;
          latest = λ id name.
              rw (within-nobody sql r table) (sym (take-latest_first sql laws (limit_of r)));
          shown = λ id name. points-empty_groups r.device_ids id name;
        })
  answer-Answered r (i ∷ is) a a' response e =
      let (rows, b, found, e') =
        bind_lem (query "Metrics" (rows_query sql table (i ∷ is) r))
          (λ rows. pure (with_rows r rows)) a a' response e in
      let same : with_rows r rows ≡ response = ground (arith, e') in
      subst (λ (p : MetricsQueryResponse). Answered sql (found_for sql table (i ∷ is) p.request) p)
        same
        (record {
          rows = rows;
          counted = refl;
          latest = λ id name.
              rows_query_lem (i ∷ is) r a.db rows id name
                (query_lem "Metrics" (rows_query sql table (i ∷ is) r) a b rows found);
          shown = λ id name.
              points-group_rows (empty_groups r.device_ids) rows id name
              ∙ ap (λ ps. ps ++ times (of_group id name rows))
                  (points-empty_groups r.device_ids id name);
        })

answer-request :
    (sql : Sql) (table : List Metric) (r : MetricsQueryRequest) (ids : List ℕ) (a a' : Api)
    (response : MetricsQueryResponse)
    → answer sql table r ids a ≡ (ok response, a')
    → r ≡ response.request
unfolding answer
answer-request sql table r [] a a' response e =
    let same : no_devices r ≡ response = ground (arith, e) in ap (λ p. p.request) same
answer-request sql table r (i ∷ is) a a' response e =
    let (rows, b, found, e') =
      bind_lem (query "Metrics" (rows_query sql table (i ∷ is) r)) (λ rows. pure (with_rows r rows))
        a a' response e in
    let same : with_rows r rows ≡ response = ground (arith, e') in ap (λ p. p.request) same

require_fields_lem :
    (r : MetricsQueryRequest) (a b : Api) (u : Unit) → require_fields r a ≡ (ok u, b) → a ≡ b
require_fields_lem r a b u e = elim (Bool-cases (is_incomplete r)) [
  | inl f ↦ absurd (ground (arith, e, f))
  | inr f ↦
      let same : pure tt a ≡ (ok u, b) =
        subst
          (λ (c : Bool).
            (if c
                then fail 400 "INVALID_REQUEST" "device_ids, start, and end are required"
                else pure tt)
              a
            ≡ (ok u, b))
          f e in
      ap (λ p. p.1) same
]

existing_ids_lem :
    (ids found : List ℕ) (a b : Api)
    → query "Device IDs" (get_existing_monitor_ids ids) a ≡ (ok found, b)
    → existing_ids a.db.monitors ids ≡ found
unfolding get_existing_monitor_ids
existing_ids_lem ids found a b e =
    let (db', f) =
      ask_lem (λ db. ok (existing_ids db.monitors ids, db)) a.db found
        (query_lem "Device IDs" (get_existing_monitor_ids ids) a b found e) in
    ground (arith, f)

-- A response holds the rows that its request asks for, and its request has a limit.
pub query_metrics-Answered :
    (sql : Sql) (table : List Metric) (input : MetricsQueryRequest) (a a' : Api)
    (response : MetricsQueryResponse)
    → IsSql sql
    → query_metrics sql table (some input) a ≡ (ok response, a')
    → (with_limit input ≡ response.request)
      × Answered sql (asked_for sql table a.db response.request) response
unfolding query_metrics decode_json
query_metrics-Answered sql table input a a' response laws e0 =
    let r = with_limit input in
    let (u, a1, complete, e1) = bind_lem (require_fields input) _ a a' response e0 in
    let (ids, a2, found, e2) =
      bind_lem (query "Device IDs" (get_existing_monitor_ids r.device_ids)) _ a1 a' response e1 in
    let request = answer-request sql table r ids a2 a' response e2 in
    let known : ids ≡ existing_ids a.db.monitors response.request.device_ids =
      sym (existing_ids_lem r.device_ids ids a1 a2 found)
      ∙ ap (λ (s : Api). existing_ids s.db.monitors r.device_ids)
          (sym (require_fields_lem input a a1 u complete))
      ∙ ap (λ (q : MetricsQueryRequest). existing_ids a.db.monitors q.device_ids) request in
    (
      request,
      subst (λ (is : List ℕ). Answered sql (found_for sql table is response.request) response) known
          (answer-Answered sql laws table r ids a2 a' response e2),
    )
