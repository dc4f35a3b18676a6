-- ===== src/Poller/Workers.antt =====
-- internal/poller/scheduler.go: the goroutines of SchedulerImpl. Run starts a goroutine for each batch
-- of a tick, and a batch one for each probe; the slots of livenessSem and pluginSem and the counter of
-- wg are shared. What the goroutines do to the queue and the cache is Poller/Scheduler; here is in
-- which order they may go. A step is one blocking operation or one change of what is shared. The
-- channel `done` is left out: nothing closes it.
pub mod Counted
pub mod Invariant
pub mod Progress
pub mod Shutdown
use nmslite.Common.{
  ℕ, zero, suc, ◌-◌, ◌+◌, ◌<◌, ◌≡◌, ◌⊎◌, Bool, true, false, List, [], ◌∷◌, ◌++◌, length, get_or,
  set, total,
}

-- The capacities of livenessSem and pluginSem.
pub record Limits : Type 0 where
  pub liveness_workers : ℕ
  pub plugin_workers : ℕ

-- The goroutine of a probe: at its select, at the dialer with a slot, and with its result sent.
pub data Probe : Type 0 where
  queued dialing : Probe
  sent : Bool → Probe

-- The goroutine of a batch, by where it stands in processPluginBatch.
pub data Batch : Type 0 where
  -- before it looks the plugin up, with its number of monitors
  started : ℕ → Batch
  -- at livenessWg.Wait
  probing : List Probe → Batch
  -- at the select for a plugin slot
  waiting : Batch
  -- with a plugin slot, until the plugin has answered and its results are handled
  polling : Batch
  -- behind processPluginBatch, before wg.Done
  leaving : Batch
  ended : Batch

pub record Shared : Type 0 where
  pub liveness_used : ℕ
  pub plugins_used : ℕ
  pub wg : ℕ
  pub cancelled : Bool

abbrev pub probes_of : ℕ → List Probe
probes_of zero = []
probes_of (suc n) = queued ∷ probes_of n

-- The results of the probes, once all have been sent: whether one is alive.
abbrev pub AllSent : List Probe → Type 0
AllSent [] = Unit
AllSent (sent b ∷ ps) = AllSent ps
AllSent (queued ∷ ps) = ⊥
AllSent (dialing ∷ ps) = ⊥

abbrev pub some_alive : List Probe → Bool
some_alive [] = false
some_alive (sent true ∷ ps) = true
some_alive (p ∷ ps) = some_alive ps

-- One step of a batch or of one of its probes.
pub data Move (c : Limits) (m : Shared) : Batch → Shared → Batch → Type 0 where
  plugin_missing : (n : ℕ) → Move c m (started n) m leaving
  launch : (n : ℕ) → Move c m (started n) m (probing (probes_of n))
  take_slot :
      (ps : List Probe) (i : ℕ)
      → i < length ps
      → get_or ps i (sent false) ≡ queued
      → m.liveness_used < c.liveness_workers
      → Move c m
          (probing ps)
          (record m { liveness_used = suc m.liveness_used })
          (probing (set ps i dialing))
  give_up :
      (ps : List Probe) (i : ℕ)
      → i < length ps
      → get_or ps i (sent false) ≡ queued
      → m.cancelled ≡ true
      → Move c m (probing ps) m (probing (set ps i (sent false)))
  answer :
      (ps : List Probe) (i : ℕ) (alive : Bool)
      → i < length ps
      → get_or ps i (sent false) ≡ dialing
      → Move c m
          (probing ps)
          (record m { liveness_used = m.liveness_used - 1 })
          (probing (set ps i (sent alive)))
  all_dead :
      (ps : List Probe) → AllSent ps → some_alive ps ≡ false → Move c m (probing ps) m leaving
  collect : (ps : List Probe) → AllSent ps → some_alive ps ≡ true → Move c m (probing ps) m waiting
  take_plugin :
      m.plugins_used < c.plugin_workers
      → Move c m waiting (record m { plugins_used = suc m.plugins_used }) polling
  cancel : m.cancelled ≡ true → Move c m waiting m leaving
  finish : Move c m polling (record m { plugins_used = m.plugins_used - 1 }) leaving
  done : Move c m leaving (record m { wg = m.wg - 1 }) ended

-- Where Run stands: not called, or returned; loading the monitors; at its select; in shutdown.
pub data Pc : Type 0 where
  out loading looping stopping : Pc

pub record System : Type 0 where
  pub pc : Pc
  pub running : Bool
  pub shared : Shared
  pub batches : List Batch

abbrev pub starts : List ℕ → List Batch
starts [] = []
starts (n ∷ ns) = started n ∷ starts ns

abbrev pub new_system : System
new_system = record {
  pc = out;
  running = false;
  shared = record { liveness_used = 0; plugins_used = 0; wg = 0; cancelled = false };
  batches = [];
}

pub data Step (c : Limits) (s : System) : System → Type 0 where
  -- Run, unless `running` is set already
  begin : s.pc ≡ out → s.running ≡ false → Step c s (record s { pc = loading; running = true })
  -- LoadActiveMonitors
  loaded : s.pc ≡ loading → Step c s (record s { pc = looping })
  load_fails : s.pc ≡ loading → Step c s (record s { pc = out })
  -- a tick starts a goroutine for each of its batches
  tick :
      (ns : List ℕ)
      → s.pc ≡ looping
      → Step c s (record s {
        shared = record s.shared { wg = s.shared.wg + length ns };
        batches = s.batches ++ starts ns;
      })
  -- the context ends
  cancels : Step c s (record s { shared = record s.shared { cancelled = true } })
  -- shutdown, and its wg.Wait
  stop : s.pc ≡ looping → s.shared.cancelled ≡ true → Step c s (record s { pc = stopping })
  stopped : s.pc ≡ stopping → s.shared.wg ≡ 0 → Step c s (record s { pc = out; running = false })
  work :
      (i : ℕ) {m : Shared} {b : Batch}
      → i < length s.batches
      → Move c s.shared (get_or s.batches i ended) m b
      → Step c s (record s { shared = m; batches = set s.batches i b })

pub data Reach (c : Limits) : System → Type 0 where
  start : Reach c new_system
  later : {s t : System} → Reach c s → Step c s t → Reach c t
