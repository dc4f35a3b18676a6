-- ===== src/Poller/Scheduler/Round.antt =====
-- internal/poller/scheduler.go: one round of the loop of dequeueDueMonitors.
use nmslite.Common.{
  ℕ, ◌+◌, ◌-◌, ◌≤◌, ◌<◌, ◌≡◌, ◌⊎◌, ◌∙◌, refl, ap, inl, inr, ℤ, pos, negsuc, pos_part, neg_part,
  ◌+ℤ◌, ◌≤ℤ◌, ◌<ℤ◌, +ℤ_parts, ltb_ℤ, false, none, some, List, [], ◌∷◌, length, total, ◌==◌,
  if◌then◌else◌, find, get_or-set, total-set, arith, Bool-cases, Option-cases,
}
use nmslite.Poller.Queue.{HeapItem, PriorityQueue, deadline, pop}
use nmslite.Poller.Queue.Order.{IsHeap}
use nmslite.Poller.Queue.Up.{total-push}
use nmslite.Poller.Queue.Down.{Popped, pop-Popped}
use nmslite.Poller.Scheduler.{ScheduledMonitor, Scheduler, seconds, nothing, object, interval}
use nmslite.Poller.Scheduler.Dequeue.{reschedule, dequeue_item}
use nmslite.Poller.Scheduler.Invariant.{IsValid, Tracked, entry}

-- Counts the queue's entries that are due.
abbrev is_due : ℤ → HeapItem → ℕ
is_due next_tick item = if ltb_ℤ next_tick item.next_poll_deadline then 0 else 1

-- Counts the entries of one monitor that are due.
abbrev pub due_entry : ℤ → ℕ → HeapItem → ℕ
due_entry next_tick id item = if ltb_ℤ next_tick item.next_poll_deadline then 0 else entry id item

-- How far an object's deadline lies before the next tick.
abbrev pub gap : ℤ → ScheduledMonitor → ℕ
gap next_tick sm =
    pos_part next_tick
    + neg_part sm.next_poll_deadline
    - (pos_part sm.next_poll_deadline + neg_part next_tick)

abbrev pub measure : ℤ → Scheduler → ℕ
measure next_tick s = total (is_due next_tick) s.heap + total (gap next_tick) s.objects

abbrev pub Positive : Scheduler → Type 0
Positive s = (id a : ℕ) → Tracked s id a → pos 0 <ℤ interval (object s a).monitor

abbrev pub IsDue : ℤ → Scheduler → Type 0
IsDue next_tick s = (0 < length s.heap) × (deadline s.heap 0 ≤ℤ next_tick)

seconds-pos : (i : ℤ) → pos 0 <ℤ i → pos 0 <ℤ seconds i
unfolding seconds
seconds-pos (pos n) h = omega arith
seconds-pos (negsuc n) h = absurd (omega arith)

pub seconds-nonpos : (i : ℤ) → i ≤ℤ pos 0 → seconds i ≤ℤ pos 0
unfolding seconds
seconds-nonpos (pos n) h = omega arith
seconds-nonpos (negsuc n) h = omega arith

-- The objects of `t` are those of `s`, but for their deadlines: every other field is as it was.
pub record SameMonitors (s t : Scheduler) : Type 0 where
  pub monitors : t.monitors ≡ s.monitors
  pub config : t.config ≡ s.config
  pub monitor : (a : ℕ) → (object t a).monitor ≡ (object s a).monitor
  pub polling : (a : ℕ) → (object t a).is_polling ≡ (object s a).is_polling
  pub failures : (a : ℕ) → (object t a).consecutive_failures ≡ (object s a).consecutive_failures
  pub encrypted : (a : ℕ) → (object t a).encrypted_credentials ≡ (object s a).encrypted_credentials
  pub decrypted : (a : ℕ) → (object t a).credentials ≡ (object s a).credentials

pub SameMonitors-refl : (s : Scheduler) → SameMonitors s s
SameMonitors-refl s = record {
  monitors = refl;
  config = refl;
  monitor = λ a. refl;
  polling = λ a. refl;
  failures = λ a. refl;
  encrypted = λ a. refl;
  decrypted = λ a. refl;
}

pub SameMonitors-trans :
    (s t u : Scheduler) → SameMonitors s t → SameMonitors t u → SameMonitors s u
SameMonitors-trans s t u h k = record {
  monitors = k.monitors ∙ h.monitors;
  config = k.config ∙ h.config;
  monitor = λ a. k.monitor a ∙ h.monitor a;
  polling = λ a. k.polling a ∙ h.polling a;
  failures = λ a. k.failures a ∙ h.failures a;
  encrypted = λ a. k.encrypted a ∙ h.encrypted a;
  decrypted = λ a. k.decrypted a ∙ h.decrypted a;
}

reschedule-SameMonitors :
    (s : Scheduler) (a : ℕ) → a < length s.objects → SameMonitors s (reschedule s a)
unfolding reschedule
reschedule-SameMonitors s a inside =
    let sm = object s a in
    let due = sm.next_poll_deadline +ℤ seconds (interval sm.monitor) in
    let there =
      λ (b : ℕ). get_or-set s.objects a b (record sm { next_poll_deadline = due }) nothing inside in
    record {
      monitors = refl;
      config = refl;
      monitor = λ b. ground (arith, there b);
      polling = λ b. ground (arith, there b);
      failures = λ b. ground (arith, there b);
      encrypted = λ b. ground (arith, there b);
      decrypted = λ b. ground (arith, there b);
    }

dequeue_item-stale :
    (s : Scheduler) (p : PriorityQueue × HeapItem)
    → find p.1.monitor_id s.monitors ≡ none
    → dequeue_item s p ≡ (record s { heap = p.0 }, [])
unfolding dequeue_item
dequeue_item-stale s p e = rw (e, dequeue_item)

dequeue_item-live :
    (s : Scheduler) (p : PriorityQueue × HeapItem) (a : ℕ)
    → find p.1.monitor_id s.monitors ≡ some a
    → dequeue_item s p ≡ (reschedule (record s { heap = p.0 }) a, a ∷ [])
unfolding dequeue_item
dequeue_item-live s p a e = rw (e, dequeue_item)

total-reschedule :
    (s : Scheduler) (a : ℕ) (w : HeapItem → ℕ)
    → IsHeap s.heap
    → total w s.heap ≤ total w (reschedule s a).heap
unfolding reschedule
total-reschedule s a w h =
    let sm = object s a in
    let due = sm.next_poll_deadline +ℤ seconds (interval sm.monitor) in
    omega (
      arith,
      total-push s.heap (record { monitor_id = sm.monitor.id; next_poll_deadline = due }) w h,
    )

-- The round on a due entry of a valid scheduler.
module _ (next_tick : ℤ) (s : Scheduler) (v : IsValid s) (due : IsDue next_tick s) where
  abbrev next_state : Scheduler
  next_state = (dequeue_item s (pop s.heap)).0

  abbrev pub found : List ℕ
  found = (dequeue_item s (pop s.heap)).1

  abbrev pub rest : Scheduler
  rest = record s { heap = (pop s.heap).0 }

  abbrev pub item : HeapItem
  item = (pop s.heap).1

  pub popped : Popped s.heap (pop s.heap)
  popped = pop-Popped s.heap v.ordered due.0

  item-due : item.next_poll_deadline ≤ℤ next_tick
  item-due = ground (arith, popped.first, due.1)

  -- Either the entry is stale, or it is the entry of a tracked object, which is found.
  pub round_cases :
      ((find item.monitor_id s.monitors ≡ none) × (next_state ≡ rest) × (found ≡ []))
      ⊎ ((a : ℕ) × Tracked s item.monitor_id a
          × (next_state ≡ reschedule rest a)
          × (found ≡ a ∷ []))
  round_cases = elim (Option-cases (find item.monitor_id s.monitors)) [
    | inl e ↦
        let r = dequeue_item-stale s (pop s.heap) e in
        inl (e, ap (λ (q : Scheduler × List ℕ). q.0) r, ap (λ (q : Scheduler × List ℕ). q.1) r)
    | inr (a, e) ↦
        let r = dequeue_item-live s (pop s.heap) a e in
        inr (a, e, ap (λ (q : Scheduler × List ℕ). q.0) r, ap (λ (q : Scheduler × List ℕ). q.1) r)
  ]

  same_rest : SameMonitors s rest
  same_rest = record {
    monitors = refl;
    config = refl;
    monitor = λ a. refl;
    polling = λ a. refl;
    failures = λ a. refl;
    encrypted = λ a. refl;
    decrypted = λ a. refl;
  }

  pub round-SameMonitors : SameMonitors s next_state
  round-SameMonitors = elim round_cases [
    | inl (e, f, g) ↦ rw f same_rest
    | inr (a, e, f, g) ↦ rw f (
        SameMonitors-trans s rest (reschedule rest a) same_rest
          (reschedule-SameMonitors rest a (v.refs item.monitor_id a e).0))
  ]

  measure-reschedule :
      (a : ℕ)
      → Tracked s item.monitor_id a
      → pos 0 <ℤ interval (object s a).monitor
      → measure next_tick (reschedule rest a) < measure next_tick s
  unfolding reschedule
  measure-reschedule a t h =
      let sm = object s a in
      let step = seconds (interval sm.monitor) in
      let later = sm.next_poll_deadline +ℤ step in
      let pushed : HeapItem = record { monitor_id = sm.monitor.id; next_poll_deadline = later } in
      ground (
        arith,
        item-due,
        seconds-pos (interval sm.monitor) h,
        +ℤ_parts sm.next_poll_deadline step,
        popped.same (is_due next_tick),
        total-push rest.heap pushed (is_due next_tick) popped.ordered,
        total-set (gap next_tick) s.objects a (record sm { next_poll_deadline = later }) nothing
            (v.refs item.monitor_id a t).0,
      )

  pub round-measure : Positive s → measure next_tick next_state < measure next_tick s
  round-measure h = elim round_cases [
    | inl (e, f, g) ↦ rw f (ground (arith, item-due, popped.same (is_due next_tick)))
    | inr (a, e, f, g) ↦ rw f (measure-reschedule a e (h item.monitor_id a e))
  ]

  -- What is found is tracked, under its own id.
  pub found_cases :
      (found ≡ []) ⊎ ((a : ℕ) × (found ≡ a ∷ []) × Tracked s (object s a).monitor.id a)
  found_cases = elim round_cases [
    | inl (e, f, g) ↦ inl g
    | inr (b, e, f, g) ↦ inr (b, g, rw (v.refs item.monitor_id b e).1 e)
  ]

  -- A tracked monitor with a due entry is found, or keeps a due entry.
  pub round_keeps :
      (id a : ℕ)
      → Tracked s id a
      → 1 ≤ total (due_entry next_tick id) s.heap
      → (found ≡ a ∷ []) ⊎ (1 ≤ total (due_entry next_tick id) next_state.heap)
  round_keeps id a t h = elim round_cases [
    | inl (e, f, g) ↦ inr (rw f (ground (arith, e, t, popped.same (due_entry next_tick id))))
    | inr (b, e, f, g) ↦ elim (Bool-cases (item.monitor_id == id)) [
      | inl same ↦ inl (g ∙ ground (arith, same, e, t))
      | inr other ↦ inr (rw f (more b e other))
    ]
  ]
    where
      more :
          (b : ℕ)
          → Tracked s item.monitor_id b
          → (item.monitor_id == id) ≡ false
          → 1 ≤ total (due_entry next_tick id) (reschedule rest b).heap
      more b e other = ground (
        arith,
        other,
        h,
        popped.same (due_entry next_tick id),
        total-reschedule rest b (due_entry next_tick id) popped.ordered,
      )
