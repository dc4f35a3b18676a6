-- ===== src/Poller/Plugins/Scanned.antt =====
-- internal/poller/plugins.go: which plugins Scan leaves, and which one Poll runs.
use nmslite.Common.{
  String, str_eq, str_eq_iff, ◌++◌, ◌≢◌, arith, subst, ◌≡◌, refl, sym, ◌∙◌, ap, inl, inr, true,
  Option, none, some, List, [], ◌∷◌, if◌then◌else◌, Names, lookup, put, lookup-put, Bool-cases,
  Option-cases,
}
use nmslite.Common.Results.{Result, err, ◌>>=◌, or_err}
use nmslite.Poller.Plugins.{
  Bytes, PluginInfo, Entry, entries, Machine, PluginManager, PollError, no_plugin, not_marshalled,
  not_executed, not_parsed, load, scan_entries, scan, poll, get_plugin,
}

module _ {Task Answer : Type 0} (w : Machine Task Answer) where
  abbrev later_or : Option PluginInfo → Option PluginInfo → Option PluginInfo
  later_or (some info) first = some info
  later_or none first = first

  abbrev of_protocol : String → Option PluginInfo → Option PluginInfo
  of_protocol protocol none = none
  of_protocol protocol (some info) = if str_eq info.protocol protocol then some info else none

  -- The last plugin of a protocol among those that the entries hold.
  abbrev last_of : String → String → List Entry → Option PluginInfo
  last_of plugin_dir protocol [] = none
  last_of plugin_dir protocol (entry ∷ rest) =
      later_or (last_of plugin_dir protocol rest) (of_protocol protocol (load w plugin_dir entry))

  later_or-none : (o : Option PluginInfo) → later_or o none ≡ o
  later_or-none none = refl
  later_or-none (some info) = refl

  put_lem :
      (protocol : String) (info : PluginInfo) (ps : Names PluginInfo) (later : Option PluginInfo)
      → later_or later (lookup protocol (put info.protocol info ps))
        ≡ later_or (later_or later (of_protocol protocol (some info))) (lookup protocol ps)
  put_lem protocol info ps (some l) = refl
  put_lem protocol info ps none = elim (Bool-cases (str_eq info.protocol protocol)) [
    | inl e ↦ rw (lookup-put info.protocol protocol info ps, e) refl
    | inr e ↦ rw (lookup-put info.protocol protocol info ps, e) refl
  ]

  scan_entries_lem :
      (plugin_dir protocol : String) (es : List Entry) (ps : Names PluginInfo)
      → lookup protocol (scan_entries w plugin_dir es ps)
        ≡ later_or (last_of plugin_dir protocol es) (lookup protocol ps)
  unfolding scan_entries
  scan_entries_lem plugin_dir protocol [] ps = refl
  scan_entries_lem plugin_dir protocol (entry ∷ rest) ps =
      elim (Option-cases (load w plugin_dir entry)) [
        | inl e ↦
            rw (e, scan_entries)
              (scan_entries_lem plugin_dir protocol rest ps
                ∙ ap (λ o. later_or o (lookup protocol ps))
                    (sym (later_or-none (last_of plugin_dir protocol rest))))
        | inr (info, e) ↦
            rw (e, scan_entries)
              (scan_entries_lem plugin_dir protocol rest (put info.protocol info ps)
                ∙ put_lem protocol info ps (last_of plugin_dir protocol rest))
      ]

  -- A batch of a protocol, run by a plugin.
  abbrev pub run_by : PluginInfo → List Task → Result PollError (List Answer)
  run_by plugin tasks = do
    input ← or_err not_marshalled (w.marshal tasks)
    output ← or_err not_executed (w.run plugin.binary_path (w.dir plugin.binary_path) input)
    or_err not_parsed (w.unmarshal output)

  poll_lem :
      (m : PluginManager) (protocol : String) (tasks : List Task)
      → poll w m protocol tasks ≡ elim (lookup protocol m.plugins) [
        | none ↦ err no_plugin
        | some plugin ↦ run_by plugin tasks
      ]
  unfolding poll
  poll_lem m protocol tasks = elim (Option-cases (lookup protocol m.plugins)) [
    | inl e ↦ rw (e, poll) refl
    | inr (plugin, e) ↦ rw (e, poll) refl
  ]

  -- An entry holds a plugin: it is a directory whose manifest is read, with these names, and that has a
  -- binary under its own name, at this absolute path.
  pub record Holds (plugin_dir : String) (entry : Entry) (info : PluginInfo) : Type 0 where
    pub directory : entry.is_dir ≡ true
    pub text : Bytes
    pub read : w.read_file (w.join (w.join plugin_dir entry.name) "manifest.json") ≡ some text
    pub manifest : w.read_manifest text ≡ some (info.name, info.protocol)
    pub binary : w.exists (w.join (w.join plugin_dir entry.name) entry.name) ≡ true
    pub path : w.abs (w.join (w.join plugin_dir entry.name) entry.name) ≡ some info.binary_path

  -- No entry holds a plugin of the protocol.
  abbrev NoneOf : String → String → List Entry → Type 0
  NoneOf plugin_dir protocol [] = Unit
  NoneOf plugin_dir protocol (entry ∷ rest) =
      ((info : PluginInfo) → Holds plugin_dir entry info → info.protocol ≢ protocol)
      × NoneOf plugin_dir protocol rest

  -- The plugin that the last entry with one of the protocol holds, or none where no entry holds one.
  abbrev pub IsLast : String → String → List Entry → Option PluginInfo → Type 0
  IsLast plugin_dir protocol es none = NoneOf plugin_dir protocol es
  IsLast plugin_dir protocol es (some info) =
      (before : List Entry) × (entry : Entry) × (after : List Entry) × (es
        ≡ before ++ entry ∷ after)
      × Holds plugin_dir entry info
      × (info.protocol ≡ protocol)
      × NoneOf plugin_dir protocol after

  Holds-load :
      (plugin_dir : String) (entry : Entry) (info : PluginInfo)
      → Holds plugin_dir entry info
      → load w plugin_dir entry ≡ some info
  unfolding load
  Holds-load plugin_dir entry info h =
      rw (h.directory, h.read, h.manifest, h.binary, h.path, load) refl

  load-Holds :
      (plugin_dir : String) (entry : Entry) (info : PluginInfo)
      → load w plugin_dir entry ≡ some info
      → Holds plugin_dir entry info
  unfolding load
  load-Holds plugin_dir entry info e =
      let path = w.join plugin_dir entry.name in
      let binary = w.join path entry.name in
      elim (Bool-cases entry.is_dir) [
        | inr a ↦ absurd (ground (arith, rw (a, load) at (e)))
        | inl a ↦ elim (Option-cases (w.read_file (w.join path "manifest.json"))) [
          | inl b ↦ absurd (ground (arith, rw (a, b, load) at (e)))
          | inr (text, b) ↦ elim (Option-cases (w.read_manifest text)) [
            | inl c ↦ absurd (ground (arith, rw (a, b, c, load) at (e)))
            | inr ((name, protocol), c) ↦ elim (Bool-cases (w.exists binary)) [
              | inr d ↦ absurd (ground (arith, rw (a, b, c, d, load) at (e)))
              | inl d ↦ elim (Option-cases (w.abs binary)) [
                | inl f ↦ absurd (ground (arith, rw (a, b, c, d, f, load) at (e)))
                | inr (p, f) ↦
                    let found : PluginInfo = record {
                      name = name;
                      protocol = protocol;
                      binary_path = p;
                    } in
                    let held : Holds plugin_dir entry found = record {
                      directory = a;
                      text = text;
                      read = b;
                      manifest = c;
                      binary = d;
                      path = f;
                    } in
                    let same : found ≡ info = ground (arith, rw (a, b, c, d, f, load) at (e)) in
                    subst (Holds plugin_dir entry) same held
              ]
            ]
          ]
        ]
      ]

  later-IsLast :
      (plugin_dir protocol : String) (entry : Entry) (rest : List Entry) (info : PluginInfo)
      → IsLast plugin_dir protocol rest (some info)
      → IsLast plugin_dir protocol (entry ∷ rest) (some info)
  later-IsLast plugin_dir protocol entry rest info (before, last, after, e, held, named, h) =
      (entry ∷ before, last, after, ap (◌∷◌ entry) e, held, named, h)

  here-IsLast :
      (plugin_dir protocol : String) (entry : Entry) (rest : List Entry)
      → NoneOf plugin_dir protocol rest
      → IsLast plugin_dir protocol (entry ∷ rest) (of_protocol protocol (load w plugin_dir entry))
  here-IsLast plugin_dir protocol entry rest h = elim (Option-cases (load w plugin_dir entry)) [
    | inl e ↦ rw e ((λ info k. absurd (ground (arith, e, Holds-load plugin_dir entry info k))), h)
    | inr (info, e) ↦ elim (Bool-cases (str_eq info.protocol protocol)) [
      | inl f ↦
          rw (e, f)
            (
              [],
              entry,
              rest,
              refl,
              load-Holds plugin_dir entry info e,
              (str_eq_iff info.protocol protocol).0 f,
              h,
            )
      | inr f ↦
          rw (e, f)
            (
              (λ other k p. absurd (
                  ground (
                    arith,
                    e,
                    f,
                    Holds-load plugin_dir entry other k,
                    p,
                    str_eq_iff info.protocol protocol,
                  ))),
              h,
            )
    ]
  ]

  last_of-IsLast :
      (plugin_dir protocol : String) (es : List Entry)
      → IsLast plugin_dir protocol es (last_of plugin_dir protocol es)
  last_of-IsLast plugin_dir protocol [] = tt
  last_of-IsLast plugin_dir protocol (entry ∷ rest) =
      elim (Option-cases (last_of plugin_dir protocol rest)) [
        | inl e ↦ rw e (
            here-IsLast plugin_dir protocol entry rest
              (rw e at (last_of-IsLast plugin_dir protocol rest)))
        | inr (info, e) ↦ rw e (
            later-IsLast plugin_dir protocol entry rest info
              (rw e at (last_of-IsLast plugin_dir protocol rest)))
      ]

  -- After a scan of a directory that can be read, whatever was registered before, Get finds for a
  -- protocol the plugin of the last entry that holds one of this protocol: a directory with a manifest that is
  -- read and a binary under its own name. Poll runs a batch by this plugin, in the directory of its
  -- binary, and fails with an error of its own where there is none.
  pub scan-IsLast :
      (m : PluginManager) (es : List Entry) (protocol : String) (tasks : List Task)
      → w.read_dir m.plugin_dir ≡ entries es
      → ((scan w m).1 ≡ true)
        × IsLast m.plugin_dir protocol es (get_plugin (scan w m).0 protocol)
        × (poll w (scan w m).0 protocol tasks ≡ elim (get_plugin (scan w m).0 protocol) [
          | none ↦ err no_plugin
          | some plugin ↦ run_by plugin tasks
        ])
  unfolding scan
  scan-IsLast m es protocol tasks e =
      let found : get_plugin (scan w m).0 protocol ≡ last_of m.plugin_dir protocol es =
        rw (e, scan)
          (scan_entries_lem m.plugin_dir protocol es []
            ∙ later_or-none (last_of m.plugin_dir protocol es)) in
      (
        rw (e, scan) refl,
        subst (IsLast m.plugin_dir protocol es) (sym found)
            (last_of-IsLast m.plugin_dir protocol es),
        poll_lem (scan w m).0 protocol tasks,
      )
