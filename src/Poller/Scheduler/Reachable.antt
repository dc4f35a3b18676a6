-- ===== src/Poller/Scheduler/Reachable.antt =====
-- internal/poller/scheduler.go: the scheduler's operations in any order, as the goroutines that
-- share its lock take their turns.
use nmslite.Common.{
  ℕ, zero, suc, ◌<◌, find, subst, ◌≡◌, ◌∙◌, sym, inl, inr, ℤ, Option, some, List, [], ◌++◌, length,
  arith,
}
use nmslite.Auth.Credentials.{Credentials}
use nmslite.Database.{MonitorRow}
use nmslite.Poller.Events.{PollResult}
use nmslite.Poller.Queue.{pop}
use nmslite.Poller.Scheduler.{SchedulerConfig, Scheduler, new_scheduler}
use nmslite.Poller.Scheduler.Cache.{
  load_active_monitors, update_monitor_cache, remove_monitor_from_cache,
}
use nmslite.Poller.Scheduler.Dequeue.{dequeue_item, dequeue_loop, dequeue_due_monitors}
use nmslite.Poller.Scheduler.Dispatch.{process_monitors}
use nmslite.Poller.Scheduler.Outcome.{handle_success, handle_failure}
use nmslite.Poller.Scheduler.Invariant.{
  IsValid, load_active_monitors-IsValid, update_monitor_cache-IsValid,
  remove_monitor_from_cache-IsValid,
}
use nmslite.Poller.Scheduler.Kept.{
  handle_success-IsValid, handle_failure-IsValid, dequeue_item-IsValid,
}
use nmslite.Poller.Scheduler.Termination.{due_cases, loop-step, loop-stop}
use nmslite.Poller.Scheduler.Dispatched.{process_monitors-Dispatched}
use nmslite.Poller.Scheduler.Batch.{ensure_credentials}
use nmslite.Poller.Scheduler.Credentialed.{ensure_credentials-IsValid}

-- One turn of a goroutine with the lock. A worker holds addresses of monitors that were created.
pub data Step : Scheduler → Scheduler → Type 0 where
  dequeue :
      (s : Scheduler) (fuel : ℕ) (next_tick : ℤ) (due : List ℕ) (t : Scheduler)
      → dequeue_due_monitors fuel next_tick s ≡ some (due, t)
      → Step s t
  dispatch : (s : Scheduler) (due : List ℕ) → Step s (process_monitors s due).0
  decrypt :
      (s : Scheduler) (a : ℕ) (secret : List ℕ → Option Credentials)
      → a < length s.objects
      → Step s (ensure_credentials secret s a).1
  succeed :
      (s : Scheduler) (a : ℕ) (result : PollResult) (now : ℤ)
      → a < length s.objects
      → Step s (handle_success s a result now)
  fail : (s : Scheduler) (a : ℕ) (now : ℤ) → Step s (handle_failure s a now)
  update : (s : Scheduler) (row : MonitorRow) (now : ℤ) → Step s (update_monitor_cache s row now)
  remove : (s : Scheduler) (id : ℕ) → Step s (remove_monitor_from_cache s id)

pub data Reachable (s : Scheduler) : Scheduler → Type 0 where
  here : Reachable s s
  next : {t u : Scheduler} → Reachable s t → Step t u → Reachable s u

dequeue_loop-IsValid :
    (fuel : ℕ) (next_tick : ℤ) (s : Scheduler) (before due : List ℕ) (t : Scheduler)
    → IsValid s
    → dequeue_loop fuel next_tick s before ≡ some (due, t)
    → IsValid t
unfolding dequeue_loop
dequeue_loop-IsValid zero next_tick s before due t v e = absurd (ground arith)
dequeue_loop-IsValid (suc fuel) next_tick s before due t v e = elim (due_cases next_tick s v) [
  | inr none_due ↦
      let same : s ≡ t = ground (arith, loop-stop next_tick s fuel before none_due, e) in
      subst IsValid same v
  | inl d ↦
      dequeue_loop-IsValid fuel next_tick (dequeue_item s (pop s.heap)).0
        (before ++ (dequeue_item s (pop s.heap)).1) due t (dequeue_item-IsValid s d.0 v)
        (sym (loop-step next_tick s fuel before d) ∙ e)
]

Step-IsValid : {s t : Scheduler} → Step s t → IsValid s → IsValid t
unfolding dequeue_due_monitors
Step-IsValid (dequeue s fuel next_tick due t e) v =
    dequeue_loop-IsValid fuel next_tick s [] due t v e
Step-IsValid (dispatch s due) v = (process_monitors-Dispatched s due v).valid
Step-IsValid (decrypt s a secret h) v = ensure_credentials-IsValid secret s a h v
Step-IsValid (succeed s a result now h) v = handle_success-IsValid s a result now h v
Step-IsValid (fail s a now) v = handle_failure-IsValid s a now v
Step-IsValid (update s row now) v = update_monitor_cache-IsValid s row now v
Step-IsValid (remove s id) v = remove_monitor_from_cache-IsValid s id v

pub new_scheduler-IsValid :
    (config : SchedulerConfig) (state_cap : ℕ) → IsValid (new_scheduler config state_cap)
unfolding new_scheduler find
new_scheduler-IsValid config state_cap = record {
  ordered = λ c p q. absurd (omega arith);
  refs = λ id a t. absurd (ground arith);
  queued = λ id a t. absurd (ground arith);
  up = λ id a t p. absurd (ground arith);
}

Reachable-IsValid : {s t : Scheduler} → Reachable s t → IsValid s → IsValid t
Reachable-IsValid here v = v
Reachable-IsValid (next r h) v = Step-IsValid h (Reachable-IsValid r v)

-- Whatever rows LoadActiveMonitors finds, and in whatever order dequeues, dispatches, decryptions,
-- successes, failures, updates and removals follow, the queue stays in heap order, every tracked
-- address is an object with the id it is tracked under, every tracked monitor has an entry in the
-- queue, and (with a threshold above 0) has failed less often in a row than the threshold.
pub scheduler-IsValid :
    (config : SchedulerConfig) (state_cap : ℕ) (rows : List (MonitorRow × ℤ)) (t : Scheduler)
    → Reachable (load_active_monitors (new_scheduler config state_cap) rows) t
    → IsValid t
scheduler-IsValid config state_cap rows t r = Reachable-IsValid r (
    load_active_monitors-IsValid (new_scheduler config state_cap) rows
      (new_scheduler-IsValid config state_cap))
