-- ===== src/Poller/Scheduler/Kept.antt =====
-- internal/poller/scheduler.go: the outcomes of polls and the rounds of the queue keep the invariant.
use nmslite.Common.{
  ℕ, ◌+◌, ◌≤◌, ◌<◌, ◌≡◌, ◌≢◌, refl, inl, inr, ℤ, ◌+ℤ◌, ◌&&◌, length, total, ltb, leb, find, erase,
  find-erase, length-set, get_or-set, arith, Bool-cases, Option-cases,
}
use nmslite.Poller.Events.{PollResult, MonitorStateEvent}
use nmslite.Poller.Queue.{HeapItem, pop}
use nmslite.Poller.Queue.Order.{IsHeap}
use nmslite.Poller.Queue.Up.{push-IsHeap, total-push}
use nmslite.Poller.Queue.Down.{pop-Popped}
use nmslite.Poller.Scheduler.{
  ScheduledMonitor, Effect, Scheduler, seconds, nothing, object, effect, interval, is_tracked,
}
use nmslite.Poller.Scheduler.Dequeue.{reschedule, dequeue_item}
use nmslite.Poller.Scheduler.Outcome.{emit_event, handle_success, count_failure, handle_failure}
use nmslite.Poller.Scheduler.Invariant.{
  entry, Tracked, IsValid, Tracked-of_is_tracked, modify-IsValid, erase-IsValid,
}

emit_event-IsValid : (s : Scheduler) (e : MonitorStateEvent) → IsValid s → IsValid (emit_event s e)
unfolding emit_event
emit_event-IsValid s e v = elim (Bool-cases (ltb (length s.state_ch) s.state_cap)) [
  | inl h ↦ rw h (record { ordered = v.ordered; refs = v.refs; queued = v.queued; up = v.up })
  | inr h ↦ rw h (record { ordered = v.ordered; refs = v.refs; queued = v.queued; up = v.up })
]

effect-IsValid : (s : Scheduler) (e : Effect) → IsValid s → IsValid (effect s e)
effect-IsValid s e v = record { ordered = v.ordered; refs = v.refs; queued = v.queued; up = v.up }

pub handle_success-IsValid :
    (s : Scheduler) (a : ℕ) (result : PollResult) (now : ℤ)
    → a < length s.objects
    → IsValid s
    → IsValid (handle_success s a result now)
unfolding handle_success
handle_success-IsValid s a result now inside v =
    let kept = modify-IsValid s a _ v inside refl (λ p t. p) in
    elim (Bool-cases (leb s.config.down_threshold (object s a).consecutive_failures)) [
      | inl e ↦ rw e (emit_event-IsValid _ _ (effect-IsValid _ _ (effect-IsValid _ _ kept)))
      | inr e ↦ rw e (effect-IsValid _ _ kept)
    ]

count_failure-IsValid :
    (s : Scheduler) (a : ℕ) (now : ℤ)
    → a < length s.objects
    → Tracked s (object s a).monitor.id a
    → IsValid s
    → IsValid (count_failure s a now)
unfolding count_failure
count_failure-IsValid s a now inside t v =
    let id = (object s a).monitor.id in
    let failures = (object s a).consecutive_failures in
    let gone : Scheduler = record s { monitors = erase id s.monitors } in
    elim (Bool-cases
      (ltb failures s.config.down_threshold && leb s.config.down_threshold (failures + 1))) [
        | inl e ↦ rw e (
            emit_event-IsValid _ _ (
              effect-IsValid _ _ (
                modify-IsValid gone a _ (erase-IsValid s id v) inside refl
                  (λ p u. ground (arith, find-erase id id s.monitors)))))
        | inr e ↦
            rw e (modify-IsValid s a _ v inside refl (λ p u. ground (arith, e, v.up id a t p)))
      ]

pub handle_failure-IsValid :
    (s : Scheduler) (a : ℕ) (now : ℤ) → IsValid s → IsValid (handle_failure s a now)
unfolding handle_failure
handle_failure-IsValid s a now v = elim (Bool-cases (is_tracked s a)) [
  | inr e ↦ rw e v
  | inl e ↦
      let t = Tracked-of_is_tracked s a e in
      rw e (count_failure-IsValid s a now (v.refs (object s a).monitor.id a t).0 t v)
]

reschedule-IsValid :
    (s : Scheduler) (a : ℕ)
    → a < length s.objects
    → IsHeap s.heap
    → ((id b : ℕ) → Tracked s id b → (b < length s.objects) × ((object s b).monitor.id ≡ id))
    → ((id b : ℕ) → Tracked s id b → (object s a).monitor.id ≢ id → 1 ≤ total (entry id) s.heap)
    → ((id b : ℕ)
        → Tracked s id b
        → 0 < s.config.down_threshold
        → (object s b).consecutive_failures < s.config.down_threshold)
    → IsValid (reschedule s a)
unfolding reschedule
reschedule-IsValid s a inside ordered refs queued up =
    let sm = object s a in
    let due = sm.next_poll_deadline +ℤ seconds (interval sm.monitor) in
    let item : HeapItem = record { monitor_id = sm.monitor.id; next_poll_deadline = due } in
    let sm' : ScheduledMonitor = record sm { next_poll_deadline = due } in
    let there = λ (b : ℕ). get_or-set s.objects a b sm' nothing inside in
    record {
      ordered = push-IsHeap s.heap item ordered;
      refs = λ id b t. ground (arith, refs id b, there b, length-set s.objects a sm');
      queued = λ id b t. ground (arith, queued id b t, total-push s.heap item (entry id) ordered);
      up = λ id b t p. ground (arith, up id b t p, there b);
    }

-- A round of the loop of dequeueDueMonitors.
pub dequeue_item-IsValid :
    (s : Scheduler) → 0 < length s.heap → IsValid s → IsValid (dequeue_item s (pop s.heap)).0
unfolding dequeue_item
dequeue_item-IsValid s p v =
    let popped = pop-Popped s.heap v.ordered p in
    let item = (pop s.heap).1 in
    elim (Option-cases (find item.monitor_id s.monitors)) [
      | inl e ↦
          rw (e, dequeue_item)
            (record {
              ordered = popped.ordered;
              refs = v.refs;
              queued = λ id b t. ground (arith, e, v.queued id b t, popped.same (entry id));
              up = v.up;
            })
      | inr (a, e) ↦
          let (inside, same) = v.refs item.monitor_id a e in
          rw (e, dequeue_item)
            (reschedule-IsValid (record s { heap = (pop s.heap).0 }) a inside popped.ordered v.refs
              (λ id b t ne. ground (arith, same, v.queued id b t, popped.same (entry id))) v.up)
    ]
