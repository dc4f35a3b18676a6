-- ===== src/Poller/Scheduler/Divergence.antt =====
-- internal/poller/scheduler.go: dequeueDueMonitors never ends when a due monitor has a polling
-- interval that is not positive. The handlers and the schema accept such an interval.
use nmslite.Common.{
  ℕ, zero, suc, ◌≤◌, ◌<◌, ◌≡◌, ◌≢◌, ◌∙◌, refl, sym, subst, inl, inr, ℤ, pos, ◌+ℤ◌, +ℤ_parts, ◌≤ℤ◌,
  none, List, [], ◌++◌, length, total, total-eq-zero, get_or-set, ◌==◌, arith, Bool-cases,
}
use nmslite.Poller.Queue.{default, pop}
use nmslite.Poller.Queue.Order.{IsHeap}
use nmslite.Poller.Queue.Up.{total-push}
use nmslite.Poller.Scheduler.{Scheduler, nothing, seconds, object, interval}
use nmslite.Poller.Scheduler.Dequeue.{reschedule, dequeue_item, dequeue_loop, dequeue_due_monitors}
use nmslite.Poller.Scheduler.Invariant.{IsValid, Tracked}
use nmslite.Poller.Scheduler.Kept.{dequeue_item-IsValid}
use nmslite.Poller.Scheduler.Round.{
  due_entry, IsDue, round-SameMonitors, seconds-nonpos, round_cases, popped, rest, item,
  round_keeps,
}
use nmslite.Poller.Scheduler.Termination.{due_cases, loop-step}

-- The monitor `id` is due, and its interval does not take it past the next tick.
record IsStuck (next_tick : ℤ) (s : Scheduler) (id a : ℕ) : Type 0 where
  tracked : Tracked s id a
  standing : interval (object s a).monitor ≤ℤ pos 0
  late : (object s a).next_poll_deadline ≤ℤ next_tick
  queued : 1 ≤ total (due_entry next_tick id) s.heap

module _ (next_tick : ℤ) (s : Scheduler) (a : ℕ) (inside : a < length s.objects) where
  reschedule_late :
      interval (object s a).monitor ≤ℤ pos 0
      → (object s a).next_poll_deadline ≤ℤ next_tick
      → (object (reschedule s a) a).next_poll_deadline ≤ℤ next_tick
  unfolding reschedule
  reschedule_late i d =
      let sm = object s a in
      let step = seconds (interval sm.monitor) in
      ground (
        arith,
        seconds-nonpos (interval sm.monitor) i,
        +ℤ_parts sm.next_poll_deadline step,
        get_or-set s.objects a a (record sm { next_poll_deadline = sm.next_poll_deadline +ℤ step })
            nothing inside,
      )

  reschedule_other :
      (b : ℕ)
      → b ≢ a
      → (object (reschedule s a) b).next_poll_deadline ≡ (object s b).next_poll_deadline
  unfolding reschedule
  reschedule_other b ne =
      let sm = object s a in
      let due = sm.next_poll_deadline +ℤ seconds (interval sm.monitor) in
      ground
        (arith, get_or-set s.objects a b (record sm { next_poll_deadline = due }) nothing inside)

  reschedule_queued :
      IsHeap s.heap
      → interval (object s a).monitor ≤ℤ pos 0
      → (object s a).next_poll_deadline ≤ℤ next_tick
      → 1 ≤ total (due_entry next_tick (object s a).monitor.id) (reschedule s a).heap
  unfolding reschedule
  reschedule_queued h i d =
      let sm = object s a in
      let step = seconds (interval sm.monitor) in
      let later = sm.next_poll_deadline +ℤ step in
      ground (
        arith,
        seconds-nonpos (interval sm.monitor) i,
        +ℤ_parts sm.next_poll_deadline step,
        total-push s.heap (record { monitor_id = sm.monitor.id; next_poll_deadline = later })
            (due_entry next_tick sm.monitor.id) h,
      )

module _ (next_tick : ℤ) (s : Scheduler) (id a : ℕ) (v : IsValid s)
    (k : IsStuck next_tick s id a) where
  IsStuck-due : IsDue next_tick s
  IsStuck-due = elim (due_cases next_tick s v) [
    | inl d ↦ d
    | inr h ↦ absurd (
        omega (
          arith,
          k.queued,
          total-eq-zero (due_entry next_tick id) s.heap default (λ i q. ground (arith, h i q)),
        ))
  ]

  abbrev d : IsDue next_tick s
  d = IsStuck-due

  abbrev after : Scheduler
  after = (dequeue_item s (pop s.heap)).0

  abbrev left : Scheduler
  left = rest next_tick s v d

  after_late : (object after a).next_poll_deadline ≤ℤ next_tick
  after_late = elim (round_cases next_tick s v d) [
    | inl (e, f, g) ↦ rw f k.late
    | inr (b, e, f, g) ↦
        let inside = (v.refs (item next_tick s v d).monitor_id b e).0 in
        elim (Bool-cases (b == a)) [
          | inl same ↦
              let eq : b ≡ a = ground (arith, same) in
              rw f (
                subst (λ c. (object (reschedule left c) a).next_poll_deadline ≤ℤ next_tick) (sym eq)
                  (reschedule_late next_tick left a (v.refs id a k.tracked).0 k.standing k.late))
          | inr other ↦ rw f (
              rw (reschedule_other next_tick left b inside a (λ q. ground (arith, q, other)))
                k.late)
        ]
  ]

  after_queued : 1 ≤ total (due_entry next_tick id) after.heap
  after_queued = elim (round_keeps next_tick s v d id a k.tracked k.queued) [
    | inr q ↦ q
    | inl found ↦ elim (round_cases next_tick s v d) [
      | inl (e, f, g) ↦ cc
      | inr (b, e, f, g) ↦
          let eq : b ≡ a = ground (arith, found, g) in
          let (inside, same) = v.refs id a k.tracked in
          let kept =
            reschedule_queued next_tick left a inside (popped next_tick s v d).ordered k.standing
              k.late in
          rw f (
            subst (λ c. 1 ≤ total (due_entry next_tick id) (reschedule left c).heap) (sym eq)
              (rw same at kept))
    ]
  ]

  after-IsStuck : IsStuck next_tick after id a
  after-IsStuck =
      let same = round-SameMonitors next_tick s v d in
      record {
        tracked = rw same.monitors k.tracked;
        standing = rw (same.monitor a) k.standing;
        late = after_late;
        queued = after_queued;
      }

loop-diverges :
    (fuel : ℕ) (next_tick : ℤ) (s : Scheduler) (id a : ℕ) (before : List ℕ)
    → IsValid s
    → IsStuck next_tick s id a
    → dequeue_loop fuel next_tick s before ≡ none
unfolding dequeue_loop
loop-diverges zero next_tick s id a before v k = refl
loop-diverges (suc fuel) next_tick s id a before v k =
    let d = IsStuck-due next_tick s id a v k in
    let after = (dequeue_item s (pop s.heap)).0 in
    loop-step next_tick s fuel before d
    ∙ loop-diverges fuel next_tick after id a (before ++ (dequeue_item s (pop s.heap)).1)
        (dequeue_item-IsValid s d.0 v) (after-IsStuck next_tick s id a v k)

-- In a valid scheduler with a tracked monitor whose polling interval is zero or negative and which
-- is due (its deadline, and an entry of it in the queue, not after the next tick),
-- dequeueDueMonitors does not end, however many rounds it is given: it holds the lock for ever.
pub dequeue_due_monitors-diverges :
    (fuel : ℕ) (next_tick : ℤ) (s : Scheduler) (id a : ℕ)
    → IsValid s
    → Tracked s id a
    → interval (object s a).monitor ≤ℤ pos 0
    → (object s a).next_poll_deadline ≤ℤ next_tick
    → 1 ≤ total (due_entry next_tick id) s.heap
    → dequeue_due_monitors fuel next_tick s ≡ none
unfolding dequeue_due_monitors
dequeue_due_monitors-diverges fuel next_tick s id a v t i l q =
    loop-diverges fuel next_tick s id a [] v
      (record { tracked = t; standing = i; late = l; queued = q })
