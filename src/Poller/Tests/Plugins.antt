-- ===== src/Poller/Tests/Plugins.antt =====
-- The theorem on the plugin manager, applied to a directory with two plugins of one protocol.
use Prim.Native.String.{◌++◌ as append}
use nmslite.Common.{ℕ, ◌≡◌, refl, true, none, some, List, [], ◌∷◌}
use nmslite.Common.Results.{err}
use nmslite.Poller.Plugins.{
  Entry, entries, Machine, PluginManager, scan, get_plugin, poll, no_plugin,
}
use nmslite.Poller.Plugins.Scanned.{IsLast, run_by, scan-IsLast}

abbrev two_entries : List Entry
two_entries = record { name = "a"; is_dir = true } ∷ record { name = "b"; is_dir = true } ∷ []

abbrev machine : Machine ℕ ℕ
machine = record {
  read_dir = λ d. entries two_entries;
  read_file = λ f. some (1 ∷ []);
  exists = λ f. true;
  join = λ d f. append d f;
  abs = λ f. some f;
  dir = λ f. f;
  read_manifest = λ t. some ("p", "ssh");
  marshal = λ ts. some ts;
  run = λ f d t. some t;
  unmarshal = λ t. some t;
}

abbrev manager : PluginManager
manager = record { plugin_dir = "plugins"; plugins = [] }

scan-IsLast_example :
    ((scan machine manager).1 ≡ true)
    × IsLast machine "plugins" "ssh" two_entries (get_plugin (scan machine manager).0 "ssh")
    × (poll machine (scan machine manager).0 "ssh" (7 ∷ [])
        ≡ elim (get_plugin (scan machine manager).0 "ssh") [
          | none ↦ err no_plugin
          | some plugin ↦ run_by machine plugin (7 ∷ [])
        ])
scan-IsLast_example = scan-IsLast machine manager two_entries "ssh" (7 ∷ []) refl
