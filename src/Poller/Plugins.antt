-- ===== src/Poller/Plugins.antt =====
-- internal/poller/plugins.go: PluginManager. The file system, encoding/json and the run of a program
-- are the record `Machine`; the lock of the map is left out, since each operation holds it throughout.
pub mod Scanned
use nmslite.Common.{
  ℕ, String, str_eq, ◌≡◌, Bool, true, false, not, Option, none, some, List, [], ◌∷◌, if◌then◌else◌,
  Names, lookup, put,
}
use nmslite.Common.Results.{Result, ok, err, ◌>>=◌, or_err}

pub record PluginInfo : Type 0 where
  pub name : String
  pub protocol : String
  pub binary_path : String

pub record Entry : Type 0 where
  pub name : String
  pub is_dir : Bool

pub data Directory : Type 0 where
  missing unreadable : Directory
  entries : List Entry → Directory

abbrev pub Bytes : Type 0
Bytes = List ℕ

pub record Machine (Task Answer : Type 0) : Type 0 where
  -- os.ReadDir, in the order of the names; os.ReadFile; whether os.Stat succeeds
  pub read_dir : String → Directory
  pub read_file : String → Option Bytes
  pub exists : String → Bool
  -- filepath.Join, filepath.Abs and filepath.Dir
  pub join : String → String → String
  pub abs : String → Option String
  pub dir : String → String
  -- the name and the protocol of a manifest
  pub read_manifest : Bytes → Option (String × String)
  pub marshal : List Task → Option Bytes
  -- the program, the directory that it runs in and its input; its output, if it succeeds
  pub run : String → String → Bytes → Option Bytes
  pub unmarshal : Bytes → Option (List Answer)

pub record PluginManager : Type 0 where
  pub plugin_dir : String
  pub plugins : Names PluginInfo

-- NewPluginManager; the timeout, which nothing reads, is left out.
unfoldable new_plugin_manager : String → PluginManager
new_plugin_manager plugin_dir = record { plugin_dir = plugin_dir; plugins = [] }

pub data PollError : Type 0 where
  no_plugin not_marshalled not_executed not_parsed : PollError

module _ {Task Answer : Type 0} (w : Machine Task Answer) where
  open w use {read_dir, read_file, exists, join, abs, dir, read_manifest, marshal, run, unmarshal}

  abbrev located : String × String → Option String → Option PluginInfo
  located manifest none = none
  located (name, protocol) (some path) =
      some (record { name = name; protocol = protocol; binary_path = path })

  -- The plugin of an entry with a manifest, if its binary is there.
  abbrev with_manifest : String → Option (String × String) → Option PluginInfo
  with_manifest binary none = none
  with_manifest binary (some manifest) =
      if exists binary then located manifest (abs binary) else none

  -- What the loop of Scan makes of an entry, if it does not pass it over.
  unfoldable pub load : String → Entry → Option PluginInfo
  load plugin_dir entry =
      let path = join plugin_dir entry.name in
      if not entry.is_dir then none else elim (read_file (join path "manifest.json")) [
        | none ↦ none
        | some text ↦ with_manifest (join path entry.name) (read_manifest text)
      ]

  -- The loop of Scan.
  unfoldable pub scan_entries : String → List Entry → Names PluginInfo → Names PluginInfo
  scan_entries plugin_dir [] plugins = plugins
  scan_entries plugin_dir (entry ∷ rest) plugins = elim (load plugin_dir entry) [
    | none ↦ scan_entries plugin_dir rest plugins
    | some info ↦ scan_entries plugin_dir rest (put info.protocol info plugins)
  ]

  -- Scan: the manager that it leaves, and whether it succeeds.
  unfoldable pub scan : PluginManager → PluginManager × Bool
  unfolding scan_entries
  scan m = elim (read_dir m.plugin_dir) [
    | missing ↦ (record m { plugins = [] }, true)
    | unreadable ↦ (record m { plugins = [] }, false)
    | entries es ↦ (record m { plugins = scan_entries m.plugin_dir es [] }, true)
  ]

  -- Poll
  unfoldable pub poll : PluginManager → String → List Task → Result PollError (List Answer)
  poll m protocol tasks = do
    plugin ← or_err no_plugin (lookup protocol m.plugins)
    input ← or_err not_marshalled (marshal tasks)
    output ← or_err not_executed (run plugin.binary_path (dir plugin.binary_path) input)
    or_err not_parsed (unmarshal output)

-- Get
abbrev pub get_plugin : PluginManager → String → Option PluginInfo
get_plugin m protocol = lookup protocol m.plugins

abbrev infos : Names PluginInfo → List PluginInfo
infos [] = []
infos ((protocol, info) ∷ rest) = info ∷ infos rest

-- List, in the order of the map
unfoldable list_plugins : PluginManager → List PluginInfo
list_plugins m = infos m.plugins
