-- ===== src/Winrm/Tests.antt =====
-- The theorems on the plugin for Windows, applied to one device.
use nmslite.Common.{
  ℕ, false, if◌then◌else◌, ◌+◌, ◌-◌, ◌*◌, ◌/◌, ◌≡◌, ◌≢◌, refl, ◌⊎◌, true, none, some, List, [], ◌∷◌,
  ◌++◌, pos, ltb, arith,
}
use nmslite.Common.Results.{ok, err}
use nmslite.Protocols.Schemas.{codes}
use nmslite.Winrm.{Floats, PluginInput, PluginOutput}
use nmslite.Winrm.Client.{Library, make_client}
use nmslite.Winrm.Names.{sanitize_interface_name, is_name, sanitize_interface_name_lem}
use nmslite.Winrm.Collector.{collect, disk_metrics, gauges}
use nmslite.Winrm.Wmi.{DiskData, Parser, Parsers, all_failed}
use nmslite.Winrm.Totals.{IsExact, each_disk, disk_metrics-Totals}
use nmslite.Winrm.Partial.{all_found, failures, collect_lem}
use nmslite.Winrm.Program.{Setup, main, process_task, failed}
use nmslite.Winrm.Program.Answers.{AllAnswered, main_lem}

-- Numbers that are whole.
abbrev whole : Floats
whole = record {
  Float = ℕ;
  of_uint = λ n. n;
  plus = λ a b. a + b;
  minus = λ a b. a - b;
  times = λ a b. a * b;
  over = λ a b. a / b;
  is_positive = λ a. ltb 0 a;
}

whole-IsExact : IsExact whole
whole-IsExact = record { plus_of = λ a b h. refl; positive_of = λ a h. refl }

abbrev disk : DiskData
disk = record { device_id = codes "C:"; size = 100; free_space = 25 }

abbrev nothing : {A : Type 0} → Parser A
nothing = record { many = λ t. none; one = λ t. none }

-- Disks are read, and nothing else.
abbrev parsers : Parsers
parsers = record {
  cpu = nothing;
  memory = nothing;
  disk = record { many = λ t. some (disk ∷ []); one = λ t. none };
  network = nothing;
  to_lower = λ t. t;
}

abbrev library : Library
library = record {
  Connection = Unit;
  new_client = λ d t p u w. if d then none else some tt;
  new_client_ntlm = λ t p u w. some tt;
  run_with_string = λ c t. some (codes "x", [], pos 0);
  trim_space = λ t. t;
}

sanitize_interface_name_lem_example :
    (is_name (sanitize_interface_name (codes "Eth 0 (x)")) ≡ true)
    × (is_name (codes "Eth 0 (x)") ≡ true
        → sanitize_interface_name (codes "Eth 0 (x)") ≡ codes "Eth 0 (x)")
    × (sanitize_interface_name (sanitize_interface_name (codes "Eth 0 (x)"))
        ≡ sanitize_interface_name (codes "Eth 0 (x)"))
sanitize_interface_name_lem_example = sanitize_interface_name_lem (codes "Eth 0 (x)")

abbrev disks : List DiskData
disks = disk ∷ record { device_id = codes "D:"; size = 0; free_space = 7 } ∷ disk ∷ []

disk_metrics-Totals_example :
    disk_metrics whole parsers disks
    ≡ each_disk whole parsers disks ++ gauges whole parsers (codes "system.disk") 200 50
disk_metrics-Totals_example =
    disk_metrics-Totals whole parsers disks whole-IsExact (omega arith) (omega arith)

collect_lem_example :
    ((all_found whole parsers library tt ≢ []) ⊎ (failures whole parsers library tt ≡ [])
      → collect whole parsers library tt ≡ ok (all_found whole parsers library tt))
    × (all_found whole parsers library tt ≡ []
        → failures whole parsers library tt ≢ []
        → collect whole parsers library tt ≡ err (all_failed (failures whole parsers library tt)))
collect_lem_example = collect_lem whole parsers library tt

abbrev task : PluginInput
task = record {
  request_id = codes "r";
  target = codes "host";
  port = pos 0;
  credentials = record { username = codes "u"; password = codes "p"; domain = [] };
}

-- A task with a domain.
abbrev domain_task : PluginInput
domain_task = record task {
  credentials = record { username = codes "u"; password = codes "p"; domain = codes "D" };
}

abbrev setup : Setup
setup = record {
  floats = whole;
  parsers = parsers;
  library = library;
  client_error = λ e. [];
  collect_error = λ e. [];
  now = codes "now";
  read_tasks = λ t. some (task ∷ domain_task ∷ task ∷ []);
  write_outputs = λ os. some (codes "[]");
}

main_lem_example :
    (outputs : List (PluginOutput ℕ)) × AllAnswered setup false
      (task ∷ domain_task ∷ task ∷ [])
      outputs
    × (main setup (codes "[{}]") ≡ some (codes "[]"))
main_lem_example = main_lem setup b'[' (codes "{}]") (task ∷ domain_task ∷ task ∷ []) refl

-- A device that takes basic authentication alone is not reached after a task with a domain.
task_after_domain :
    (process_task setup (process_task setup false domain_task).1 task).0
    ≡ failed setup task (codes "WinRM connection failed: ")
unfolding process_task make_client
task_after_domain = refl
