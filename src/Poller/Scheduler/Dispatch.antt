-- ===== src/Poller/Scheduler/Dispatch.antt =====
-- internal/poller/scheduler.go: tick and processMonitors, up to the dispatch of the batches.
use nmslite.Common.{
  ℕ, ◌*◌, ℤ, pos, ◌+ℤ◌, String, str_eq, true, not, ◌&&◌, Option, none, some, List, [], ◌∷◌, ◌++◌,
  if◌then◌else◌,
}
use nmslite.Poller.Scheduler.{Scheduler, object, modify, is_tracked, millisecond}
use nmslite.Poller.Scheduler.Dequeue.{dequeue_due_monitors}

-- The loop of processMonitors that decides what is polled: the object must still be the one that is
-- tracked under its id, and must not be polling. What passes is marked.
unfoldable pub pick_monitors : Scheduler → List ℕ → Scheduler × List ℕ
pick_monitors s [] = (s, [])
pick_monitors s (a ∷ rest) =
    let sm = object s a in
    let ok = is_tracked s a && not sm.is_polling in
    let marked = if ok then modify s a (record sm { is_polling = true }) else s in
    let (s', picked) = pick_monitors marked rest in (s', if ok then a ∷ picked else picked)

-- pluginBatches[id] = append(pluginBatches[id], a)
unfoldable pub add_to_batch : String → ℕ → List (String × List ℕ) → List (String × List ℕ)
add_to_batch plugin a [] = (plugin, a ∷ []) ∷ []
add_to_batch plugin a ((p, batch) ∷ rest) =
    if str_eq p plugin then (p, batch ++ a ∷ []) ∷ rest else (p, batch) ∷ add_to_batch plugin a rest

unfoldable pub batch_by_plugin :
    Scheduler → List ℕ → List (String × List ℕ) → List (String × List ℕ)
unfolding add_to_batch
batch_by_plugin s [] batches = batches
batch_by_plugin s (a ∷ rest) batches =
    batch_by_plugin s rest (add_to_batch (object s a).monitor.plugin_id a batches)

-- processMonitors: the batches that are dispatched, one worker for each plugin.
unfoldable pub process_monitors : Scheduler → List ℕ → Scheduler × List (String × List ℕ)
unfolding pick_monitors batch_by_plugin
process_monitors s due =
    let (s', picked) = pick_monitors s due in (s', batch_by_plugin s' picked [])

-- tick
unfoldable pub tick : ℕ → ℤ → Scheduler → Option (Scheduler × List (String × List ℕ))
unfolding dequeue_due_monitors process_monitors
tick fuel now s =
    elim (dequeue_due_monitors fuel (now +ℤ pos (s.config.tick_interval_ms * millisecond)) s) [
      | none ↦ none
      | some ([], s') ↦ some (s', [])
      | some (a ∷ due, s') ↦ some (process_monitors s' (a ∷ due))
    ]
