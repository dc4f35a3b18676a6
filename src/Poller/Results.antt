-- ===== src/Poller/Results.antt =====
-- internal/poller/pollResultsHelper.go: the metrics of a poll's results, and which of them are given
-- to the batch writer. Floats and times are read by functions of the standard library, which are
-- arguments (`Readers`, over a type of floats). An error of Submit is logged and passed over, so
-- `write` is the list of the records that Submit is called with.
use mathlib.Core.List.{append-nil, append_assoc}
use nmslite.Common.{
  ℕ, suc, ◌≡◌, ◌⊎◌, ◌∙◌, sym, refl, inl, inr, ℤ, String, str_eq, not, Option, none, some, List, [],
  ◌∷◌, ◌++◌, if◌then◌else◌, Json, null, bool, num, str, arr, obj, Items, nil, cons, Fields,
  get_field,
}
use nmslite.Poller.Events.{PollResult}

pub record Readers (F : Type 0) : Type 0 where
  -- a JSON number, as encoding/json decodes it into a float64
  pub of_number : String → F
  -- fmt.Sscanf with "%f"
  pub scan : String → Option F
  -- time.Parse with RFC 3339
  pub parse_time : String → Option ℤ

pub record MetricRecord (F : Type 0) : Type 0 where
  pub timestamp : ℤ
  pub monitor_id : ℕ
  pub name : String
  pub value : F
  pub kind : String

pub data FieldError : Type 0 where
  missing_name invalid_value invalid_timestamp : FieldError

-- An error names the index of the metric.
pub data MetricsError : Type 0 where
  nil_metrics : MetricsError
  not_an_object : ℕ → MetricsError
  bad_metric : ℕ → FieldError → MetricsError

pub data Parsed (E A : Type 0) : Type 0 where
  ok : A → Parsed E A
  err : E → Parsed E A

Parsed-cases : {E A : Type 0} (p : Parsed E A) → ((e : E) × (p ≡ err e)) ⊎ ((a : A) × (p ≡ ok a))
Parsed-cases (ok a) = inr (a, refl)
Parsed-cases (err e) = inl (e, refl)

-- `data[key].(string)`
abbrev text_at : String → Fields → Option String
text_at key metric_map = elim (get_field key metric_map) [ some (str t) ↦ some t | _ ↦ none ]

-- The same, for a text that is not empty.
abbrev filled_at : String → Fields → Option String
filled_at key metric_map = elim (text_at key metric_map) [
  | none ↦ none
  | some t ↦ if str_eq t "" then none else some t
]

module _ {F : Type 0} (r : Readers F) where
  unfoldable pub parse_float : Option Json → Option F
  parse_float (some (num n)) = some (r.of_number n)
  parse_float (some (str t)) = r.scan t
  parse_float (some null) = none
  parse_float (some (bool b)) = none
  parse_float (some (arr items)) = none
  parse_float (some (obj fields)) = none
  parse_float none = none

  -- parseMetricFromMap
  unfoldable pub parse_metric : Fields → ℕ → ℤ → Parsed FieldError (MetricRecord F)
  unfolding parse_float get_field
  parse_metric metric_map monitor_id now =
      let kind : String = elim (filled_at "type" metric_map) [ none ↦ "gauge" | some t ↦ t ] in
      elim (filled_at "name" metric_map) [
        | none ↦ err missing_name
        | some name ↦ elim (parse_float (get_field "value" metric_map)) [
          | none ↦ err invalid_value
          | some value ↦ elim (text_at "timestamp" metric_map) [
            | none ↦ ok (record {
              timestamp = now;
              monitor_id = monitor_id;
              name = name;
              value = value;
              kind = kind;
            })
            | some t ↦ elim (r.parse_time t) [
              | none ↦ err invalid_timestamp
              | some time ↦ ok (record {
                timestamp = time;
                monitor_id = monitor_id;
                name = name;
                value = value;
                kind = kind;
              })
            ]
          ]
        ]
      ]

  -- One round of the loop of parseMetricsFromPlugin.
  unfoldable pub parse_item : ℕ → Json → ℕ → ℤ → Parsed MetricsError (MetricRecord F)
  unfolding parse_metric
  parse_item i (obj metric_map) monitor_id now = elim (parse_metric metric_map monitor_id now) [
    | err e ↦ err (bad_metric i e)
    | ok metric ↦ ok metric
  ]
  parse_item i null monitor_id now = err (not_an_object i)
  parse_item i (bool b) monitor_id now = err (not_an_object i)
  parse_item i (num n) monitor_id now = err (not_an_object i)
  parse_item i (str t) monitor_id now = err (not_an_object i)
  parse_item i (arr items) monitor_id now = err (not_an_object i)

  -- The loop, from index `i` on, with the records that it has appended.
  unfoldable pub parse_items :
      ℕ → Items → ℕ → ℤ → List (MetricRecord F) → Parsed MetricsError (List (MetricRecord F))
  unfolding parse_item
  parse_items i nil monitor_id now metrics = ok metrics
  parse_items i (cons item items) monitor_id now metrics = elim (parse_item i item monitor_id now) [
    | err e ↦ err e
    | ok metric ↦ parse_items (suc i) items monitor_id now (metrics ++ metric ∷ [])
  ]

  -- parseMetricsFromPlugin
  unfoldable pub parse_metrics : ℕ → ℤ → Option Items → Parsed MetricsError (List (MetricRecord F))
  unfolding parse_items
  parse_metrics monitor_id now none = err nil_metrics
  parse_metrics monitor_id now (some items) = parse_items 0 items monitor_id now []

  -- What Write submits for one result.
  unfoldable pub submitted : ℕ → ℤ → PollResult → List (MetricRecord F)
  unfolding parse_metrics
  submitted monitor_id now result =
      if not (str_eq result.status "success")
      then []
      else elim (parse_metrics monitor_id now result.metrics) [ err e ↦ [] | ok metrics ↦ metrics ]

  -- Write
  unfoldable pub write : ℕ → ℤ → List PollResult → List (MetricRecord F)
  unfolding submitted
  write monitor_id now [] = []
  write monitor_id now (result ∷ results) =
      submitted monitor_id now result ++ write monitor_id now results

  -- Each record is that of the item at its place, from index `i` on.
  abbrev Matches : ℕ → ℕ → ℤ → Items → List (MetricRecord F) → Type 0
  Matches i monitor_id now nil [] = Unit {0}
  Matches i monitor_id now nil (m ∷ ms) = ⊥
  Matches i monitor_id now (cons item items) [] = ⊥
  Matches i monitor_id now (cons item items) (m ∷ ms) =
      (parse_item i item monitor_id now ≡ ok m) × Matches (suc i) monitor_id now items ms

  -- An error is that of the first item that does not parse.
  abbrev FirstError : ℕ → ℕ → ℤ → Items → MetricsError → Type 0
  FirstError i monitor_id now nil e = ⊥
  FirstError i monitor_id now (cons item items) e =
      (parse_item i item monitor_id now ≡ err e)
      ⊎ ((m : MetricRecord F) × (parse_item i item monitor_id now ≡ ok m)
          × FirstError (suc i) monitor_id now items e)

  abbrev pub Outcome :
      ℕ
      → ℕ
      → ℤ
      → Items
      → List (MetricRecord F)
      → Parsed MetricsError (List (MetricRecord F))
      → Type 0
  Outcome i monitor_id now items before (ok metrics) =
      (ms : List (MetricRecord F)) × (metrics ≡ before ++ ms) × Matches i monitor_id now items ms
  Outcome i monitor_id now items before (err e) = FirstError i monitor_id now items e

  Outcome-step :
      (i : ℕ) (item : Json) (items : Items) (monitor_id : ℕ) (now : ℤ)
      (before : List (MetricRecord F)) (m : MetricRecord F)
      → parse_item i item monitor_id now ≡ ok m
      → (result : Parsed MetricsError (List (MetricRecord F)))
      → Outcome (suc i) monitor_id now items (before ++ m ∷ []) result
      → Outcome i monitor_id now (cons item items) before result
  Outcome-step i item items monitor_id now before m p (ok metrics) (ms, e, k) =
      (m ∷ ms, e ∙ append_assoc before (m ∷ []) ms, (p, k))
  Outcome-step i item items monitor_id now before m p (err e) k = inr (m, p, k)

  parse_items-Outcome :
      (i : ℕ) (items : Items) (monitor_id : ℕ) (now : ℤ) (before : List (MetricRecord F))
      → Outcome i monitor_id now items before (parse_items i items monitor_id now before)
  unfolding parse_items
  parse_items-Outcome i nil monitor_id now before = ([], sym (append-nil before), tt)
  parse_items-Outcome i (cons item items) monitor_id now before =
      elim (Parsed-cases (parse_item i item monitor_id now)) [
        | inl (e, p) ↦ rw (p, parse_items) (inl p)
        | inr (m, p) ↦
            rw (p, parse_items)
              (Outcome-step i item items monitor_id now before m p
                (parse_items (suc i) items monitor_id now (before ++ m ∷ []))
                (parse_items-Outcome (suc i) items monitor_id now (before ++ m ∷ [])))
      ]

  -- The metrics of a result are taken all or none. If every item parses, the records are those of the
  -- items, in their order; otherwise the error is that of the first item that does not, and a nil
  -- slice is an error of its own.
  parse_metrics_lem :
      (monitor_id : ℕ) (now : ℤ) (items : Items)
      → (parse_metrics monitor_id now none ≡ err nil_metrics)
        × Outcome 0 monitor_id now items [] (parse_metrics monitor_id now (some items))
  unfolding parse_metrics
  parse_metrics_lem monitor_id now items = (refl, parse_items-Outcome 0 items monitor_id now [])
