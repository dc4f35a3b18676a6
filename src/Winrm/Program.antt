-- ===== src/Winrm/Program.antt =====
-- plugin/windows-winrm/main.go: the program, from the tasks on its input to the results on its output.
-- Logging is left out; a fatal error ends the program without output.
pub mod Answers
use nmslite.Common.{
  ℕ, Bool, false, ℤ, pos, negsuc, ◌==◌, ◌≡◌, refl, inl, inr, Option, none, some, List, [], ◌∷◌,
  ◌++◌, if◌then◌else◌,
}
use nmslite.Common.Results.{Result, ok, err, Result-cases}
use nmslite.Protocols.Schemas.{codes}
use nmslite.Winrm.{Text, Floats, PluginInput, PluginOutput}
use nmslite.Winrm.Client.{Library, ClientError, make_client}
use nmslite.Winrm.Collector.{Metrics, collect}
use nmslite.Winrm.Wmi.{CollectError, Parsers}

pub record Setup : Type 1 where
  pub floats : Floats
  pub parsers : Parsers
  pub library : Library
  -- Error(), for either error
  pub client_error : ClientError → Text
  pub collect_error : CollectError → Text
  -- the time, in RFC 3339
  pub now : Text
  -- encoding/json
  pub read_tasks : Text → Option (List PluginInput)
  pub write_outputs : List (PluginOutput floats.Float) → Option Text

module _ (s : Setup) where
  abbrev pub Output : Type 0
  Output = PluginOutput s.floats.Float

  abbrev pub port_of : PluginInput → ℤ
  port_of task = elim task.port [ pos n ↦ if n == 0 then pos 5985 else pos n | negsuc n ↦ negsuc n ]

  abbrev pub failed : PluginInput → Text → Output
  failed task message = record {
    request_id = task.request_id;
    status = codes "failed";
    timestamp = [];
    metrics = [];
    error = message;
  }

  abbrev pub collected : PluginInput → Result CollectError (Metrics s.floats s.parsers) → Output
  collected task (err e) = failed task (codes "Metric collection failed: " ++ s.collect_error e)
  collected task (ok metrics) = record {
    request_id = task.request_id;
    status = codes "success";
    timestamp = s.now;
    metrics = metrics;
    error = [];
  }

  abbrev pub connected : PluginInput → Result ClientError s.library.Connection → Output
  connected task (err e) = failed task (codes "WinRM connection failed: " ++ s.client_error e)
  connected task (ok client) = collected task (collect s.floats s.parsers s.library client)

  -- processTask, and whether DefaultParameters have the decorator for NTLM before and after it.
  unfoldable pub process_task : Bool → PluginInput → Output × Bool
  unfolding make_client collect
  process_task decorated task =
      let (client, after) =
        make_client s.library decorated task.target (port_of task) task.credentials in
      (connected task client, after)

  -- The loop over the tasks.
  unfoldable pub process_tasks : Bool → List PluginInput → List Output
  process_tasks decorated [] = []
  process_tasks decorated (task ∷ tasks) =
      let (output, after) = process_task decorated task in output ∷ process_tasks after tasks

  -- main: what it writes, or none where it ends with a fatal error.
  unfoldable pub main : Text → Option Text
  unfolding process_tasks
  main [] = none
  main (c ∷ input) = elim (s.read_tasks (c ∷ input)) [
    | none ↦ none
    | some tasks ↦ s.write_outputs (process_tasks false tasks)
  ]
