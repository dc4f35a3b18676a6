-- ===== src/Poller/Workers/Counted.antt =====
-- internal/poller/scheduler.go: what a step of a batch does to the slots and to the counter of wg, and
-- how many steps a batch has left.
use nmslite.Common.{
  ℕ, zero, suc, ◌+◌, ◌*◌, ◌<◌, ◌≤◌, ◌≡◌, refl, false, List, [], ◌∷◌, length, get_or, total,
  total-set, arith,
}
use nmslite.Poller.Workers.{
  Limits, Probe, queued, dialing, sent, Batch, started, probing, waiting, polling, leaving, ended,
  Shared, probes_of, AllSent, Move,
}
use nmslite.Poller.Workers.Move.{
  plugin_missing, launch, take_slot, give_up, answer, all_dead, collect, take_plugin, cancel,
  finish, done,
}

abbrev pub is_dialing : Probe → ℕ
is_dialing dialing = 1
is_dialing p = 0

-- The probes of a batch that hold a liveness slot.
abbrev pub dials : Batch → ℕ
dials (probing ps) = total is_dialing ps
dials b = 0

-- A batch that holds a plugin slot.
abbrev pub polls : Batch → ℕ
polls polling = 1
polls b = 0

-- A batch that wg counts.
abbrev pub is_live : Batch → ℕ
is_live ended = 0
is_live b = 1

-- The steps that are left.
abbrev probe_work : Probe → ℕ
probe_work queued = 2
probe_work dialing = 1
probe_work (sent b) = 0

abbrev pub work_of : Batch → ℕ
work_of (started n) = 2 * n + 5
work_of (probing ps) = total probe_work ps + 4
work_of waiting = 3
work_of polling = 2
work_of leaving = 1
work_of ended = 0

pub total-get_or :
    {A : Type 0} (w : A → ℕ) (xs : List A) (i : ℕ) (d : A)
    → i < length xs
    → w (get_or xs i d) ≤ total w xs
total-get_or w [] i d h = absurd (omega arith)
total-get_or w (x ∷ xs) zero d h = omega arith
total-get_or w (x ∷ xs) (suc i) d h = omega (arith, total-get_or w xs i d (omega arith))

total-probes_of : (w : Probe → ℕ) (n : ℕ) → total w (probes_of n) ≡ n * w queued
total-probes_of w zero = omega arith
total-probes_of w (suc n) = ground (arith, total-probes_of w n)

AllSent-dials : (ps : List Probe) → AllSent ps → total is_dialing ps ≡ 0
AllSent-dials [] all = refl
AllSent-dials (sent b ∷ ps) all = omega (arith, AllSent-dials ps all)
AllSent-dials (queued ∷ ps) all = absurd all
AllSent-dials (dialing ∷ ps) all = absurd all

-- The counters move with the batch, within the limits, and the batch has fewer steps left.
pub record Counts (c : Limits) (m : Shared) (b : Batch) (m' : Shared) (b' : Batch) : Type 0 where
  pub liveness : m'.liveness_used + dials b ≡ m.liveness_used + dials b'
  pub plugins : m'.plugins_used + polls b ≡ m.plugins_used + polls b'
  pub live : m'.wg + is_live b ≡ m.wg + is_live b'
  pub within : m.liveness_used ≤ c.liveness_workers → m'.liveness_used ≤ c.liveness_workers
  pub beside : m.plugins_used ≤ c.plugin_workers → m'.plugins_used ≤ c.plugin_workers
  pub same : m'.cancelled ≡ m.cancelled
  pub busy : is_live b ≡ 1
  pub less : work_of b' < work_of b

-- The batch's slots and its place in wg are among those that are counted.
pub record Holds (m : Shared) (b : Batch) : Type 0 where
  pub liveness : dials b ≤ m.liveness_used
  pub plugins : polls b ≤ m.plugins_used
  pub live : is_live b ≤ m.wg

pub Move-Counts :
    {c : Limits} {m m' : Shared} {b b' : Batch} → Move c m b m' b' → Holds m b → Counts c m b m' b'
Move-Counts (plugin_missing n) h = ground arith
Move-Counts (launch n) h =
    ground (arith, total-probes_of is_dialing n, total-probes_of probe_work n)
Move-Counts (take_slot ps i lt e free) h = ground (
  arith,
  total-set is_dialing ps i dialing (sent false) lt,
  total-set probe_work ps i dialing (sent false) lt,
)
Move-Counts (give_up ps i lt e ends) h = ground (
  arith,
  total-set is_dialing ps i (sent false) (sent false) lt,
  total-set probe_work ps i (sent false) (sent false) lt,
)
Move-Counts (answer ps i alive lt e) h = ground (
  arith,
  total-set is_dialing ps i (sent alive) (sent false) lt,
  total-set probe_work ps i (sent alive) (sent false) lt,
)
Move-Counts (all_dead ps all e) h = ground (arith, AllSent-dials ps all)
Move-Counts (collect ps all e) h = ground (arith, AllSent-dials ps all)
Move-Counts (take_plugin free) h = ground arith
Move-Counts (cancel ends) h = ground arith
Move-Counts finish h = ground arith
Move-Counts done h = ground arith
