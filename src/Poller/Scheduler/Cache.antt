-- ===== src/Poller/Scheduler/Cache.antt =====
-- internal/poller/scheduler.go: the monitors that are tracked; LoadActiveMonitors and the updates
-- that arrive as CacheInvalidate events.
use nmslite.Common.{
  ℕ, suc, ℤ, str_eq, false, not, none, some, List, [], ◌∷◌, ◌++◌, length, if◌then◌else◌, find,
  insert, erase,
}
use nmslite.Database.{Monitor, MonitorRow, text}
use nmslite.Poller.Events.{CacheInvalidateEvent}
use nmslite.Poller.Queue.{push}
use nmslite.Poller.Scheduler.{ScheduledMonitor, Scheduler, object, modify}

unfoldable pub monitor_of_row : MonitorRow → Monitor
monitor_of_row row = record {
  id = row.id;
  display_name = row.display_name;
  hostname = row.hostname;
  ip_address = row.ip_address;
  plugin_id = row.plugin_id;
  credential_profile_id = row.credential_profile_id;
  discovery_profile_id = row.discovery_profile_id;
  polling_interval_seconds = row.polling_interval_seconds;
  status = row.status;
  created_at = row.created_at;
  updated_at = row.updated_at;
  port = row.port;
}

-- A new object under the row's id, due `now`.
unfoldable pub track : Scheduler → ℕ → ScheduledMonitor → ℤ → Scheduler
track s id sm now = record s {
  objects = s.objects ++ sm ∷ [];
  monitors = insert id (length s.objects) s.monitors;
  heap = push s.heap (record { monitor_id = id; next_poll_deadline = now });
}

-- The object that is created for a row, due `now`.
unfoldable pub scheduled_from_row : MonitorRow → ℤ → ScheduledMonitor
unfolding monitor_of_row
scheduled_from_row row now = record {
  monitor = monitor_of_row row;
  consecutive_failures = 0;
  next_poll_deadline = now;
  is_polling = false;
  encrypted_credentials = row.payload;
  credentials = none;
}

-- LoadActiveMonitors, over the rows of the query and the time at which each is read.
unfoldable pub load_active_monitors : Scheduler → List (MonitorRow × ℤ) → Scheduler
unfolding track scheduled_from_row
load_active_monitors s [] = s
load_active_monitors s ((row, now) ∷ rest) =
    load_active_monitors (track s row.id (scheduled_from_row row now) now) rest

-- updateMonitorCacheFromRow
unfoldable pub update_monitor_cache : Scheduler → MonitorRow → ℤ → Scheduler
unfolding track scheduled_from_row
update_monitor_cache s row now =
    if not (str_eq (text row.status) "active")
    then record s { monitors = erase row.id s.monitors }
    else elim (find row.id s.monitors) [
      | none ↦ track s row.id (scheduled_from_row row now) now
      | some a ↦ modify s a (record (object s a) {
        monitor = monitor_of_row row;
        encrypted_credentials = row.payload;
        credentials = none;
      })
    ]

-- removeMonitorFromCache
unfoldable pub remove_monitor_from_cache : Scheduler → ℕ → Scheduler
remove_monitor_from_cache s id = record s { monitors = erase id s.monitors }

unfoldable pub update_rows : Scheduler → List (MonitorRow × ℤ) → Scheduler
unfolding update_monitor_cache
update_rows s [] = s
update_rows s ((row, now) ∷ rest) = update_rows (update_monitor_cache s row now) rest

unfoldable remove_ids : Scheduler → List ℕ → Scheduler
unfolding remove_monitor_from_cache
remove_ids s [] = s
remove_ids s (id ∷ ids) = remove_ids (remove_monitor_from_cache s id) ids

-- Each row with the time at which it is handled, by its number.
unfoldable pub timed : (ℕ → ℤ) → ℕ → List MonitorRow → List (MonitorRow × ℤ)
timed clock i [] = []
timed clock i (row ∷ rows) = (row, clock i) ∷ timed clock (suc i) rows

-- What Run does with an event of CacheInvalidate.
unfoldable pub on_cache_invalidate : (ℕ → ℤ) → Scheduler → CacheInvalidateEvent → Scheduler
unfolding update_rows remove_ids timed
on_cache_invalidate clock s event =
    if str_eq event.update_type "update"
    then update_rows s (timed clock 0 event.monitors)
    else if str_eq event.update_type "delete"
    then remove_ids s event.monitor_ids
    else s
