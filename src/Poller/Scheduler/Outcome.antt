-- ===== src/Poller/Scheduler/Outcome.antt =====
-- internal/poller/scheduler.go: handleSuccess and handleFailure.
use nmslite.Common.{ℕ, ◌+◌, ℤ, false, ◌&&◌, [], ◌∷◌, ◌++◌, length, ltb, leb, if◌then◌else◌, erase}
use nmslite.Database.{address}
use nmslite.Poller.Events.{PollResult, MonitorStateEvent, EventType, down, recovered}
use nmslite.Poller.Scheduler.{
  ScheduledMonitor, update_status, emit, drop_event, write, Scheduler, object, modify, effect,
  is_tracked,
}

-- `select` with a `default` on the state channel.
unfoldable pub emit_event : Scheduler → MonitorStateEvent → Scheduler
emit_event s e =
    if ltb (length s.state_ch) s.state_cap
    then effect (record s { state_ch = s.state_ch ++ e ∷ [] }) (emit e)
    else effect s (drop_event e)

unfoldable pub state_event : ScheduledMonitor → EventType → ℕ → ℤ → MonitorStateEvent
state_event sm kind failures now = record {
  monitor_id = sm.monitor.id;
  ip = address sm.monitor.ip_address;
  event_type = kind;
  failures = failures;
  timestamp = now;
}

-- handleSuccess, for one result.
unfoldable pub handle_success : Scheduler → ℕ → PollResult → ℤ → Scheduler
unfolding emit_event state_event
handle_success s a result now =
    let sm = object s a in
    let was_down = leb s.config.down_threshold sm.consecutive_failures in
    let sm' = record sm { consecutive_failures = 0; is_polling = false } in
    let written = effect (modify s a sm') (write sm.monitor.id result) in
    if was_down
    then emit_event (effect written (update_status sm.monitor.id "active"))
        (state_event sm' recovered 0 now)
    else written

-- The part of handleFailure behind its guard.
unfoldable pub count_failure : Scheduler → ℕ → ℤ → Scheduler
unfolding emit_event state_event
count_failure s a now =
    let sm = object s a in
    let failures = sm.consecutive_failures + 1 in
    let sm' = record sm { consecutive_failures = failures; is_polling = false } in
    let counted = modify s a sm' in
    if ltb sm.consecutive_failures s.config.down_threshold && leb s.config.down_threshold failures
    then emit_event
        (effect (record counted { monitors = erase sm.monitor.id counted.monitors })
          (update_status sm.monitor.id "down"))
        (state_event sm' down failures now)
    else counted

-- handleFailure; its reason is only logged.
unfoldable pub handle_failure : Scheduler → ℕ → ℤ → Scheduler
unfolding count_failure
handle_failure s a now = if is_tracked s a then count_failure s a now else s
