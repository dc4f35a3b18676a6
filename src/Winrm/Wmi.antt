-- ===== src/Winrm/Wmi.antt =====
-- plugin/windows-winrm/collector/collector.go: what the queries of the collectors answer, and
-- executeWMIQuery. encoding/json and ToLower are arguments (`Parsers`).
use nmslite.Common.{ℕ, Bool, Option, none, some, List, [], ◌∷◌, if◌then◌else◌}
use nmslite.Common.Results.{Result, ok, err, ◌>>=◌, map_err}
use nmslite.Winrm.{Text}
use nmslite.Winrm.Client.{Library, run_power_shell}

pub record CpuData : Type 0 where
  pub name : Text
  pub percent_processor_time : ℕ

pub record MemoryData : Type 0 where
  pub total_visible_memory_size : ℕ
  pub free_physical_memory : ℕ

pub record DiskData : Type 0 where
  pub device_id : Text
  pub size : ℕ
  pub free_space : ℕ

pub record NetworkData : Type 0 where
  pub name : Text
  pub bytes_received_persec : ℕ
  pub bytes_sent_persec : ℕ
  pub current_bandwidth : ℕ

-- json.Unmarshal into a slice, and into one value.
pub record Parser (A : Type 0) : Type 0 where
  pub many : Text → Option (List A)
  pub one : Text → Option A

pub record Parsers : Type 0 where
  pub cpu : Parser CpuData
  pub memory : Parser MemoryData
  pub disk : Parser DiskData
  pub network : Parser NetworkData
  pub to_lower : Text → Text

pub data CollectError : Type 0 where
  query_failed no_data parse_failed no_memory_data : CollectError
  -- the names of the collectors, in order; their errors, which the text has too, are left out
  all_failed : List Text → CollectError

module _ (l : Library) where
  abbrev parse : {A : Type 0} → Parser A → Bool → Text → Result CollectError (List A)
  parse p fallback [] = err no_data
  parse p fallback (c ∷ t) = elim (p.many (c ∷ t)) [
    | some rows ↦ ok rows
    | none ↦
        if fallback
        then elim (p.one (c ∷ t)) [ none ↦ err parse_failed | some row ↦ ok (row ∷ []) ]
        else err parse_failed
  ]

  -- executeWMIQuery
  unfoldable pub execute_wmi_query :
      {A : Type 0} → Parser A → l.Connection → Text → Bool → Result CollectError (List A)
  unfolding run_power_shell
  execute_wmi_query p client script fallback = do
    output ← map_err (λ e. query_failed) (run_power_shell l client script)
    parse p fallback output
