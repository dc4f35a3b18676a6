-- ===== src/Poller/Scheduler/Dequeue.antt =====
-- internal/poller/scheduler.go: dequeueDueMonitors and rescheduleUnlocked.
use nmslite.Common.{
  ℕ, zero, suc, ℤ, ◌+ℤ◌, ltb_ℤ, Option, none, some, List, [], ◌∷◌, ◌++◌, set, if◌then◌else◌, find,
}
use nmslite.Poller.Queue.{HeapItem, PriorityQueue, push, pop}
use nmslite.Poller.Scheduler.{Scheduler, seconds, object, interval}

-- rescheduleUnlocked
unfoldable pub reschedule : Scheduler → ℕ → Scheduler
unfolding seconds
reschedule s a =
    let sm = object s a in
    let due = sm.next_poll_deadline +ℤ seconds (interval sm.monitor) in
    record s {
      objects = set s.objects a (record sm { next_poll_deadline = due });
      heap = push s.heap (record { monitor_id = sm.monitor.id; next_poll_deadline = due });
    }

-- One round of the loop of dequeueDueMonitors, on the item that heap.Pop returned.
unfoldable pub dequeue_item : Scheduler → PriorityQueue × HeapItem → Scheduler × List ℕ
dequeue_item s (rest, item) =
    let popped = record s { heap = rest } in
    elim (find item.monitor_id s.monitors) [
      | none ↦ (popped, [])
      | some a ↦ (reschedule popped a, a ∷ [])
    ]

-- heap[0], if the heap has entries.
unfoldable pub front : PriorityQueue → Option HeapItem
front [] = none
front (item ∷ _) = some item

-- `none` means that the fuel ran out.
unfoldable pub dequeue_loop : ℕ → ℤ → Scheduler → List ℕ → Option (List ℕ × Scheduler)
unfolding dequeue_item front
dequeue_loop zero next_tick s due = none
dequeue_loop (suc fuel) next_tick s due = elim (front s.heap) [
  | none ↦ some (due, s)
  | some item ↦
      let (s', found) = dequeue_item s (pop s.heap) in
      let rest = dequeue_loop fuel next_tick s' (due ++ found) in
      if ltb_ℤ next_tick item.next_poll_deadline then some (due, s) else rest
]

-- dequeueDueMonitors
unfoldable pub dequeue_due_monitors : ℕ → ℤ → Scheduler → Option (List ℕ × Scheduler)
unfolding dequeue_loop
dequeue_due_monitors fuel next_tick s = dequeue_loop fuel next_tick s []
