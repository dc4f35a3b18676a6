-- ===== src/Poller/Scheduler/Termination.antt =====
-- internal/poller/scheduler.go: dequeueDueMonitors ends, and what it leaves behind, when every
-- polling interval is positive; it never ends when a due monitor has an interval that is not.
use nmslite.Common.{
  ℕ, zero, suc, ◌≤◌, ◌<◌, ◌≡◌, ◌⊎◌, ◌∙◌, refl, inl, inr, ℤ, ◌<ℤ◌, ltb_ℤ, true, false, Option, none,
  some, List, [], ◌∷◌, ◌++◌, length, total, total-append, total-eq-zero, ◌==◌, if◌then◌else◌, arith,
  Bool-cases,
}
use mathlib.Core.List.{append-nil, append_assoc}
use nmslite.Poller.Queue.{default, PriorityQueue, at, deadline, pop}
use nmslite.Poller.Queue.Order.{root_first}
use nmslite.Poller.Scheduler.{Scheduler, object}
use nmslite.Poller.Scheduler.Dequeue.{front, dequeue_item, dequeue_loop, dequeue_due_monitors}
use nmslite.Poller.Scheduler.Invariant.{IsValid, Tracked}
use nmslite.Poller.Scheduler.Kept.{dequeue_item-IsValid}
use nmslite.Poller.Scheduler.Round.{
  due_entry, measure, Positive, IsDue, SameMonitors, SameMonitors-refl, SameMonitors-trans,
  round-SameMonitors, round-measure, found_cases, round_keeps,
}

-- How often an address stands in a list.
abbrev pub times : ℕ → List ℕ → ℕ
times a = total (λ b. if b == a then 1 else 0)

abbrev AllTracked : Scheduler → List ℕ → Type 0
AllTracked s [] = Unit {0}
AllTracked s (a ∷ rest) = Tracked s (object s a).monitor.id a × AllTracked s rest

-- What dequeueDueMonitors returns: no entry that is left is due, every monitor returned is tracked,
-- every tracked monitor that had a due entry is returned, and only deadlines have changed.
pub record Dequeued (next_tick : ℤ) (s : Scheduler) (due : List ℕ) (t : Scheduler) : Type 0 where
  pub valid : IsValid t
  pub same : SameMonitors s t
  pub later : (i : ℕ) → i < length t.heap → next_tick <ℤ deadline t.heap i
  pub tracked : AllTracked s due
  pub complete :
      (id a : ℕ) → Tracked s id a → 1 ≤ total (due_entry next_tick id) s.heap → 1 ≤ times a due

abbrev Ends : ℤ → Scheduler → List ℕ → Option (List ℕ × Scheduler) → Type 0
Ends next_tick s before r =
    (due : List ℕ) × (t : Scheduler) × (r ≡ some (before ++ due, t)) × Dequeued next_tick s due t

front-at : (pq : PriorityQueue) → 0 < length pq → front pq ≡ some (at pq 0)
unfolding front
front-at [] h = absurd (omega arith)
front-at (x ∷ pq) h = refl

front-none : (pq : PriorityQueue) → length pq ≡ 0 → front pq ≡ none
unfolding front
front-none [] h = refl
front-none (x ∷ pq) h = absurd (omega arith)

module _ (next_tick : ℤ) (s : Scheduler) where
  abbrev NoneDue : Type 0
  NoneDue = (i : ℕ) → i < length s.heap → next_tick <ℤ deadline s.heap i

  pub due_cases : IsValid s → IsDue next_tick s ⊎ NoneDue
  due_cases v = elim (Bool-cases (length s.heap == 0)) [
    | inl e ↦ inr (λ i p. absurd (ground (arith, e)))
    | inr e ↦ elim (Bool-cases (ltb_ℤ next_tick (deadline s.heap 0))) [
      | inl f ↦ inr (λ i p. ground (arith, f, root_first (length s.heap) s.heap i v.ordered p))
      | inr f ↦ inl (ground (arith, e), ground (arith, f))
    ]
  ]

  pub loop-stop :
      (fuel : ℕ) (before : List ℕ)
      → NoneDue
      → dequeue_loop (suc fuel) next_tick s before ≡ some (before, s)
  unfolding dequeue_loop
  loop-stop fuel before h = elim (Bool-cases (length s.heap == 0)) [
    | inl e ↦ rw (front-none s.heap (ground (arith, e)), dequeue_loop)
    | inr e ↦
        let p : 0 < length s.heap = ground (arith, e) in
        let after : ltb_ℤ next_tick (deadline s.heap 0) ≡ true = ground (arith, h 0 p) in
        rw (front-at s.heap p, after, dequeue_loop)
  ]

  pub loop-step :
      (fuel : ℕ) (before : List ℕ)
      → IsDue next_tick s
      → dequeue_loop (suc fuel) next_tick s before
        ≡ dequeue_loop fuel next_tick
            (dequeue_item s (pop s.heap)).0
            (before ++ (dequeue_item s (pop s.heap)).1)
  unfolding dequeue_loop
  loop-step fuel before (p, q) =
      let due : ltb_ℤ next_tick (deadline s.heap 0) ≡ false = ground (arith, q) in
      rw (front-at s.heap p, due, dequeue_loop)

AllTracked-SameMonitors :
    (s t : Scheduler) (due : List ℕ) → SameMonitors s t → AllTracked t due → AllTracked s due
AllTracked-SameMonitors s t [] h k = tt
AllTracked-SameMonitors s t (a ∷ due) h k =
    (ground (arith, k.0, h.monitors, h.monitor a), AllTracked-SameMonitors s t due h k.1)

AllTracked-append :
    (s : Scheduler) (xs ys : List ℕ) → AllTracked s xs → AllTracked s ys → AllTracked s (xs ++ ys)
AllTracked-append s [] ys h k = k
AllTracked-append s (a ∷ xs) ys h k = (h.0, AllTracked-append s xs ys h.1 k)

Dequeued-stop :
    (next_tick : ℤ) (s : Scheduler) → IsValid s → NoneDue next_tick s → Dequeued next_tick s [] s
Dequeued-stop next_tick s v h = record {
  valid = v;
  same = SameMonitors-refl s;
  later = h;
  tracked = tt;
  complete = λ id a t p. absurd (
      omega (
        arith,
        p,
        total-eq-zero (due_entry next_tick id) s.heap default (λ i q. ground (arith, h i q)),
      ));
}

module _ (next_tick : ℤ) (s : Scheduler) (v : IsValid s) (d : IsDue next_tick s) (due : List ℕ)
    (t : Scheduler) where
  abbrev after : Scheduler
  after = (dequeue_item s (pop s.heap)).0

  abbrev found : List ℕ
  found = (dequeue_item s (pop s.heap)).1

  Dequeued-step : Dequeued next_tick after due t → Dequeued next_tick s (found ++ due) t
  Dequeued-step r =
      let same = round-SameMonitors next_tick s v d in
      record {
        valid = r.valid;
        same = SameMonitors-trans s after t same r.same;
        later = r.later;
        tracked =
            AllTracked-append s found due
              (elim (found_cases next_tick s v d) [
                | inl e ↦ rw e tt
                | inr (a, e, f) ↦ rw e (f, tt)
              ])
              (AllTracked-SameMonitors s after due same r.tracked);
        complete = λ id a u p. elim (round_keeps next_tick s v d id a u p) [
          | inl e ↦ rw e (ground arith)
          | inr q ↦ omega (
            arith,
            r.complete id a (rw same.monitors u) q,
            total-append (λ b. if b == a then 1 else 0) found due,
          )
        ];
      }

  Positive-step : Positive s → Positive after
  Positive-step h id a u =
      let same = round-SameMonitors next_tick s v d in
      rw (same.monitor a) (h id a (rw same.monitors at u))

dequeue_loop-Ends :
    (fuel : ℕ) (next_tick : ℤ) (s : Scheduler) (before : List ℕ)
    → IsValid s
    → Positive s
    → measure next_tick s < fuel
    → Ends next_tick s before (dequeue_loop fuel next_tick s before)
dequeue_loop-Ends zero next_tick s before v h f = absurd (omega arith)
dequeue_loop-Ends (suc fuel) next_tick s before v h f = elim (due_cases next_tick s v) [
  | inr none_due ↦ (
    [],
    s,
    rw append-nil (loop-stop next_tick s fuel before none_due),
    Dequeued-stop next_tick s v none_due,
  )
  | inl d ↦
      let after = (dequeue_item s (pop s.heap)).0 in
      let found = (dequeue_item s (pop s.heap)).1 in
      let (due, t, e, r) =
        dequeue_loop-Ends fuel next_tick after (before ++ found) (dequeue_item-IsValid s d.0 v)
          (Positive-step next_tick s v d [] s h) (omega (arith, round-measure next_tick s v d h)) in
      (
        found ++ due,
        t,
        loop-step next_tick s fuel before d ∙ e ∙ rw append_assoc,
        Dequeued-step next_tick s v d due t r,
      )
]

-- From a valid scheduler in which every tracked monitor has a positive polling interval,
-- dequeueDueMonitors ends, within a number of rounds that the entries due and the distances of the
-- deadlines from the next tick bound. Then no entry of the queue is due any more, every monitor
-- returned is tracked, every tracked monitor that had a due entry is returned, the scheduler is
-- valid again, and no monitor has changed but in its deadline.
pub dequeue_due_monitors-Dequeued :
    (fuel : ℕ) (next_tick : ℤ) (s : Scheduler)
    → IsValid s
    → Positive s
    → measure next_tick s < fuel
    → (due : List ℕ) × (t : Scheduler) × (dequeue_due_monitors fuel next_tick s ≡ some (due, t))
      × Dequeued next_tick s due t
unfolding dequeue_due_monitors
dequeue_due_monitors-Dequeued fuel next_tick s v h f = dequeue_loop-Ends fuel next_tick s [] v h f
