-- ===== src/Poller/Tests/Metrics.antt =====
-- internal/poller/pollResultsHelper.go on small inputs.
use nmslite.Common.{
  pos, ◌≡◌, refl, String, none, some, [], ◌∷◌, Json, num, str, null, obj, Items, nil, cons, end,
  field, get_field,
}
use nmslite.Poller.Events.{PollResult}
use nmslite.Poller.Results.{
  Readers, MetricRecord, parse_float, parse_metric, parse_item, parse_items, parse_metrics,
  submitted, write,
}

-- Floats stay the text of their number.
abbrev readers : Readers String
readers = record { of_number = λ n. n; scan = λ t. none; parse_time = λ t. none }

abbrev load : Json
load = obj (field "name" (str "cpu.load") (field "value" (num "0.5") end))

abbrev unread : Json
unread = obj (field "name" (str "cpu.temp") (field "value" null end))

abbrev metrics : Items
metrics = cons load (cons unread nil)

abbrev answer_with : Items → PollResult
answer_with items = record {
  request_id = "r1";
  status = "success";
  timestamp = "";
  metrics = some items;
  error = "";
}

abbrev load_record : MetricRecord String
load_record = record {
  timestamp = pos 7;
  monitor_id = 3;
  name = "cpu.load";
  value = "0.5";
  kind = "gauge";
}

-- One result is submitted; one with a metric that does not parse is passed over whole.
write_result :
    write readers 3 (pos 7) (answer_with (cons load nil) ∷ answer_with metrics ∷ [])
    ≡ load_record ∷ []
unfolding write submitted parse_metrics parse_items parse_item parse_metric parse_float get_field
write_result = refl
