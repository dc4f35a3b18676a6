-- ===== src/Poller/Scheduler/Ticked.antt =====
-- internal/poller/scheduler.go: what one tick dispatches.
use nmslite.Common.{
  ℕ, ◌*◌, ◌≤◌, ◌<◌, ◌≡◌, ◌∙◌, refl, ℤ, pos, ◌+ℤ◌, String, str_eq_iff, true, false, some, List, [],
  ◌∷◌, total, arith,
}
use nmslite.Poller.Scheduler.{Scheduler, object, is_tracked, millisecond}
use nmslite.Poller.Scheduler.Dequeue.{dequeue_due_monitors}
use nmslite.Poller.Scheduler.Dispatch.{pick_monitors, batch_by_plugin, process_monitors, tick}
use nmslite.Poller.Scheduler.Invariant.{IsValid, Tracked}
use nmslite.Poller.Scheduler.Round.{due_entry, measure, Positive, SameMonitors}
use nmslite.Poller.Scheduler.Termination.{times, Dequeued, dequeue_due_monitors-Dequeued}
use nmslite.Poller.Scheduler.Dispatched.{batch_of, process_monitors-Dispatched}

-- The time up to which a tick looks ahead.
abbrev pub next_tick : Scheduler → ℤ → ℤ
next_tick s now = now +ℤ pos (s.config.tick_interval_ms * millisecond)

-- Every monitor that is tracked, not being polled and due has been dispatched to its plugin once,
-- and no batch holds a monitor twice.
pub record Ticked (s : Scheduler) (now : ℤ) (r : Scheduler × List (String × List ℕ)) : Type 0 where
  pub valid : IsValid r.0
  pub dispatched :
      (id a : ℕ)
      → Tracked s id a
      → (object s a).is_polling ≡ false
      → 1 ≤ total (due_entry (next_tick s now) id) s.heap
      → times a (batch_of (object s a).monitor.plugin_id r.1) ≡ 1
  pub marked :
      (id a : ℕ)
      → Tracked s id a
      → 1 ≤ total (due_entry (next_tick s now) id) s.heap
      → (object r.0 a).is_polling ≡ true
  pub at_most_once : (plugin : String) (a : ℕ) → times a (batch_of plugin r.1) ≤ 1

is_tracked-SameMonitors :
    (s t : Scheduler) (a : ℕ) → SameMonitors s t → is_tracked t a ≡ is_tracked s a
unfolding is_tracked
is_tracked-SameMonitors s t a h = ground (arith, h.monitors, h.monitor a)

is_tracked_of_Tracked :
    (s : Scheduler) (id a : ℕ) → IsValid s → Tracked s id a → is_tracked s a ≡ true
unfolding is_tracked
is_tracked_of_Tracked s id a v t = ground (arith, (v.refs id a t).1)

process_monitors-Ticked :
    (s : Scheduler) (now : ℤ) (due : List ℕ) (t : Scheduler)
    → IsValid s
    → Dequeued (next_tick s now) s due t
    → Ticked s now (process_monitors t due)
process_monitors-Ticked s now due t v d =
    let r = process_monitors-Dispatched t due d.valid in
    let tracked = λ (id a : ℕ) (u : Tracked s id a).
      is_tracked-SameMonitors s t a d.same ∙ is_tracked_of_Tracked s id a v u in
    record {
      valid = r.valid;
      dispatched = λ id a u idle q. ground (
        arith,
        d.complete id a u q,
        r.once (object s a).monitor.plugin_id a,
        d.same.polling a,
        d.same.monitor a,
        tracked id a u,
        (str_eq_iff (object s a).monitor.plugin_id (object s a).monitor.plugin_id).1 refl,
      );
      marked = λ id a u q.
          ground (arith, d.complete id a u q, r.marked a, d.same.polling a, tracked id a u);
      at_most_once = λ plugin a. ground (arith, r.once plugin a);
    }

tick-some :
    (fuel : ℕ) (now : ℤ) (s : Scheduler) (due : List ℕ) (t : Scheduler)
    → dequeue_due_monitors fuel (next_tick s now) s ≡ some (due, t)
    → tick fuel now s ≡ some (process_monitors t due)
unfolding tick process_monitors pick_monitors batch_by_plugin
tick-some fuel now s [] t e = rw (e, tick)
tick-some fuel now s (a ∷ due) t e = rw (e, tick)

-- From a valid scheduler in which every tracked monitor has a positive polling interval, with fuel
-- for the rounds of the queue's loop, a tick ends. Every monitor that is tracked, not being polled
-- and due by the next tick then stands exactly once in the batch of its plugin, no batch holds a
-- monitor twice, every tracked monitor that was due is marked as being polled, and the scheduler is
-- valid.
pub tick-Ticked :
    (fuel : ℕ) (now : ℤ) (s : Scheduler)
    → IsValid s
    → Positive s
    → measure (next_tick s now) s < fuel
    → (r : Scheduler × List (String × List ℕ)) × (tick fuel now s ≡ some r) × Ticked s now r
tick-Ticked fuel now s v h f =
    let (due, t, e, d) = dequeue_due_monitors-Dequeued fuel (next_tick s now) s v h f in
    (process_monitors t due, tick-some fuel now s due t e, process_monitors-Ticked s now due t v d)
