-- ===== src/Poller/Tests/Rounds.antt =====
-- internal/poller/scheduler.go on small inputs.
use nmslite.Common.{
  ℕ, zero, suc, ◌≤◌, ◌<◌, ◌≡◌, refl, ap, ap, ℤ, pos, ◌+ℤ◌, ◌≤ℤ◌, String, true, none, some, List, [],
  ◌∷◌, total, find, insert, arith,
}
use Prim.Native.String.{◌∷◌ as with_char, count}
use text.Mathlib.TextLemmas.{length-cons}
use nmslite.Database.{MonitorRow}
use nmslite.Poller.Queue.{up, swap, push}
use nmslite.Poller.Scheduler.{
  SchedulerConfig, Scheduler, object, new_scheduler, interval, is_tracked,
}
use nmslite.Poller.Scheduler.Cache.{track, scheduled_from_row, monitor_of_row, load_active_monitors}
use nmslite.Poller.Scheduler.Dequeue.{dequeue_due_monitors}
use nmslite.Poller.Scheduler.Dispatch.{tick}
use nmslite.Poller.Scheduler.Outcome.{handle_failure}
use nmslite.Poller.Scheduler.Invariant.{IsValid, Tracked}
use nmslite.Poller.Scheduler.Round.{due_entry, measure, Positive}
use nmslite.Poller.Scheduler.Termination.{Dequeued, dequeue_due_monitors-Dequeued}
use nmslite.Poller.Scheduler.Divergence.{dequeue_due_monitors-diverges}
use nmslite.Poller.Scheduler.Ticked.{next_tick, Ticked, tick-Ticked}
use nmslite.Poller.Scheduler.Outcomes.{Reported, fail_at-Reported}
use nmslite.Poller.Scheduler.Reachable.{here, next, fail, scheduler-IsValid}
use nmslite.Poller.Scheduler.Batch.{World, process_plugin_batch}
use nmslite.Poller.Scheduler.Settled.{Settled}
use nmslite.Poller.Scheduler.Released.{Distinct, process_plugin_batch-Settled}

abbrev config : SchedulerConfig
config = record { tick_interval_ms = 1; down_threshold = 2 }

abbrev row : ℕ → ℤ → MonitorRow
row id seconds = record {
  id = id;
  display_name = none;
  hostname = none;
  ip_address = some "10.0.0.1";
  plugin_id = "windows-winrm";
  credential_profile_id = 1;
  discovery_profile_id = 1;
  port = some (pos 5985);
  polling_interval_seconds = some seconds;
  status = some "active";
  created_at = none;
  updated_at = none;
  payload = 1 ∷ [];
}

abbrev rows : ℤ → List (MonitorRow × ℤ)
rows seconds = (row 7 seconds, pos 0) ∷ []

abbrev loaded : ℤ → Scheduler
loaded seconds = load_active_monitors (new_scheduler config 1) (rows seconds)

loaded-IsValid : (seconds : ℤ) → IsValid (loaded seconds)
loaded-IsValid seconds = scheduler-IsValid config 1 (rows seconds) (loaded seconds) here

loaded-tracked : is_tracked (loaded (pos 60)) 0 ≡ true
unfolding is_tracked load_active_monitors new_scheduler track scheduled_from_row monitor_of_row find
    insert
loaded-tracked = refl

loaded-Tracked : (seconds : ℤ) → Tracked (loaded seconds) 7 0
unfolding load_active_monitors new_scheduler track scheduled_from_row monitor_of_row find insert
loaded-Tracked seconds = refl

loaded-interval : (seconds : ℤ) → interval (object (loaded seconds) 0).monitor ≡ seconds
unfolding load_active_monitors new_scheduler track scheduled_from_row monitor_of_row
loaded-interval seconds = refl

loaded-Positive : Positive (loaded (pos 60))
unfolding load_active_monitors new_scheduler track scheduled_from_row monitor_of_row find insert
loaded-Positive id zero t = omega arith
loaded-Positive id (suc a) t = omega arith

loaded-measure : measure (next_tick (loaded (pos 60)) (pos 0)) (loaded (pos 60)) < 2_000_000
unfolding load_active_monitors new_scheduler track scheduled_from_row monitor_of_row push up swap
    ◌+ℤ◌
loaded-measure = omega arith

tick-Ticked_example :
    (r : Scheduler × List (String × List ℕ)) × (tick 2_000_000 (pos 0) (loaded (pos 60)) ≡ some r)
    × Ticked (loaded (pos 60)) (pos 0) r
tick-Ticked_example =
    tick-Ticked 2_000_000 (pos 0) (loaded (pos 60)) (loaded-IsValid (pos 60)) loaded-Positive
      loaded-measure

dequeue_due_monitors-Dequeued_example :
    (due : List ℕ) × (t : Scheduler) × (dequeue_due_monitors 2_000_000
        (next_tick (loaded (pos 60)) (pos 0))
        (loaded (pos 60))
      ≡ some (due, t))
    × Dequeued (next_tick (loaded (pos 60)) (pos 0)) (loaded (pos 60)) due t
dequeue_due_monitors-Dequeued_example =
    dequeue_due_monitors-Dequeued 2_000_000 (next_tick (loaded (pos 60)) (pos 0)) (loaded (pos 60))
      (loaded-IsValid (pos 60)) loaded-Positive loaded-measure

stuck-due : 1 ≤ total (due_entry (pos 5) 7) (loaded (pos 0)).heap
unfolding load_active_monitors new_scheduler track scheduled_from_row monitor_of_row push up swap
stuck-due = omega arith

stuck-interval : interval (object (loaded (pos 0)) 0).monitor ≤ℤ pos 0
unfolding load_active_monitors new_scheduler track scheduled_from_row monitor_of_row
stuck-interval = omega arith

stuck-late : (object (loaded (pos 0)) 0).next_poll_deadline ≤ℤ pos 5
unfolding load_active_monitors new_scheduler track scheduled_from_row
stuck-late = omega arith

dequeue_due_monitors-diverges_example : dequeue_due_monitors 1000 (pos 5) (loaded (pos 0)) ≡ none
dequeue_due_monitors-diverges_example =
    dequeue_due_monitors-diverges 1000 (pos 5) (loaded (pos 0)) 7 0 (loaded-IsValid (pos 0))
      (loaded-Tracked (pos 0)) stuck-interval stuck-late stuck-due

positive-threshold : 0 < (loaded (pos 60)).config.down_threshold
unfolding load_active_monitors new_scheduler track
positive-threshold = omega arith

fail_at-Reported_example : Reported (loaded (pos 60)) 0 (pos 3 ∷ pos 4 ∷ pos 5 ∷ [])
fail_at-Reported_example =
    fail_at-Reported (loaded (pos 60)) 0 (pos 3 ∷ pos 4 ∷ pos 5 ∷ []) (loaded-IsValid (pos 60))
      loaded-tracked positive-threshold

scheduler-IsValid_example : IsValid (handle_failure (loaded (pos 60)) 0 (pos 3))
scheduler-IsValid_example =
    scheduler-IsValid config 1 (rows (pos 60)) (handle_failure (loaded (pos 60)) 0 (pos 3))
      (next here (fail (loaded (pos 60)) 0 (pos 3)))

abbrev repeat : ℕ → String
repeat zero = ""
repeat (suc n) = with_char "r" (repeat n)

abbrev world : World
world = record {
  known = true;
  arrivals = (0, true) ∷ [];
  slot = true;
  request_ids = repeat;
  decrypt = λ bytes. none;
  poll = λ tasks. some [];
  now = pos 3;
}

count-repeat : (n : ℕ) → count (repeat n) ≡ n
count-repeat zero = refl
count-repeat (suc n) = omega (arith, length-cons "r" (repeat n), count-repeat n)

world-Distinct : Distinct repeat
world-Distinct i j e = omega (arith, count-repeat i, count-repeat j, ap count e)

process_plugin_batch-Settled_example :
    Settled (process_plugin_batch world (loaded (pos 60)) (0 ∷ [])) 0
process_plugin_batch-Settled_example =
    process_plugin_batch-Settled world (loaded (pos 60)) (0 ∷ []) 0 world-Distinct (omega arith)
      (omega arith)
