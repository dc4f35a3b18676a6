-- ===== src/Poller/Scheduler.antt =====
-- internal/poller/scheduler.go: the scheduler's state and the operations on it.
-- Monitors are shared by pointer, so they live in a store: `objects` holds them, an address is an
-- index, and the map holds addresses. A method returns the new state; time is an argument. Each
-- method below holds the lock for as long as it runs, or is the part of one that does. What leaves
-- the scheduler (database updates, results written, events dropped) is recorded in `effects`.
-- A threshold is compared with counts only, so one below 0 is 0.
pub mod Cache
pub mod Dequeue
pub mod Dispatch
pub mod Outcome
pub mod Invariant
pub mod Kept
pub mod Round
pub mod Termination
pub mod Divergence
pub mod Outcomes
pub mod Dispatched
pub mod Ticked
pub mod Batch
pub mod Credentialed
pub mod Settled
pub mod Handled
pub mod Released
pub mod Reachable
pub mod Cached
use nmslite.Common.{
  ℕ, zero, suc, ◌+◌, ◌-◌, ◌*◌, ℤ, pos, negsuc, ◌+ℤ◌, ltb_ℤ, String, str_eq, Bool, true, false, not,
  ◌&&◌, Option, none, some, List, [], ◌∷◌, ◌++◌, length, get_or, set, ltb, leb, ◌==◌, if◌then◌else◌,
  Assoc, find, insert, erase,
}
use nmslite.Database.{Monitor, MonitorRow, text}
use nmslite.Auth.Credentials.{Credentials}
use nmslite.Poller.Events.{PollResult, MonitorStateEvent, EventType, down, recovered}
use nmslite.Poller.Queue.{HeapItem, PriorityQueue, push, pop}

pub record ScheduledMonitor : Type 0 where
  pub monitor : Monitor
  pub consecutive_failures : ℕ
  pub next_poll_deadline : ℤ
  pub is_polling : Bool
  pub encrypted_credentials : List ℕ
  pub credentials : Option Credentials

pub record SchedulerConfig : Type 0 where
  pub tick_interval_ms : ℕ
  pub down_threshold : ℕ

pub data Effect : Type 0 where
  update_status : ℕ → String → Effect
  emit : MonitorStateEvent → Effect
  drop_event : MonitorStateEvent → Effect
  write : ℕ → PollResult → Effect

pub record Scheduler : Type 0 where
  pub config : SchedulerConfig
  pub heap : PriorityQueue
  pub monitors : Assoc ℕ
  pub objects : List ScheduledMonitor
  pub state_ch : List MonitorStateEvent
  pub state_cap : ℕ
  pub effects : List Effect

-- Nanoseconds.
abbrev pub second : ℕ
second = 1_000_000_000

abbrev pub millisecond : ℕ
millisecond = 1_000_000

unfoldable pub seconds : ℤ → ℤ
seconds (pos n) = pos (n * second)
seconds (negsuc n) = negsuc (n * second + (second - 1))

-- What a read of the store returns for an address that was never given out.
abbrev pub nothing : ScheduledMonitor
nothing = record {
  monitor = record {
    id = 0;
    display_name = none;
    hostname = none;
    ip_address = none;
    plugin_id = "";
    credential_profile_id = 0;
    discovery_profile_id = 0;
    polling_interval_seconds = none;
    status = none;
    created_at = none;
    updated_at = none;
    port = none;
  };
  consecutive_failures = 0;
  next_poll_deadline = pos 0;
  is_polling = false;
  encrypted_credentials = [];
  credentials = none;
}

abbrev pub object : Scheduler → ℕ → ScheduledMonitor
object s a = get_or s.objects a nothing

abbrev pub modify : Scheduler → ℕ → ScheduledMonitor → Scheduler
modify s a sm = record s { objects = set s.objects a sm }

abbrev pub effect : Scheduler → Effect → Scheduler
effect s e = record s { effects = s.effects ++ e ∷ [] }

unfoldable pub new_scheduler : SchedulerConfig → ℕ → Scheduler
new_scheduler config state_cap = record {
  config = config;
  heap = [];
  monitors = [];
  objects = [];
  state_ch = [];
  state_cap = state_cap;
  effects = [];
}

abbrev pub interval : Monitor → ℤ
interval m = elim m.polling_interval_seconds [ none ↦ pos 60 | some n ↦ n ]

-- `exists && current == sm`
unfoldable pub is_tracked : Scheduler → ℕ → Bool
is_tracked s a = elim (find (object s a).monitor.id s.monitors) [ none ↦ false | some b ↦ b == a ]
