-- ===== src/Poller/Scheduler/Released.antt =====
-- internal/poller/scheduler.go: processPluginBatch leaves no monitor of its batch marked as being
-- polled, whatever fails on the way.
use nmslite.Common.{
  ℕ, suc, ◌≤◌, ◌<◌, ◌≡◌, ◌⊎◌, refl, subst, inl, inr, String, str_eq, str_eq_iff, Bool, true, false,
  none, some, Option, List, Option-cases, [], ◌∷◌, length, length-append, total, ◌==◌,
  if◌then◌else◌, arith, Bool-cases,
}
use nmslite.Auth.Credentials.{Credentials}
use nmslite.Poller.Events.{PollTask}
use nmslite.Poller.Scheduler.{Scheduler, object}
use nmslite.Poller.Scheduler.Outcome.{handle_failure}
use nmslite.Poller.Scheduler.Termination.{times}
use nmslite.Poller.Scheduler.Batch.{
  World, Requests, Tasks, find_request, is_handled, ensure_credentials, fail_all, collect_live,
  task_of, add_task, build_tasks, handle_results, fail_missing, run_tasks, poll_live,
  process_plugin_batch,
}
use nmslite.Poller.Scheduler.Settled.{
  Settled, Calms, Calms-refl, Calms-trans, Settled-Calms, handle_failure-Calms,
  handle_failure-Settled, ensure_credentials-Calms,
}
use nmslite.Poller.Scheduler.Handled.{
  find_request-add_request, fail_all-Calms, fail_all-Settled, fail_requests-Calms,
  fail_requests-Settled, fail_missing-Calms, fail_missing-Settled, handle_results-Calms,
  handle_results-HandledSettled,
}

-- The ids of requests are distinct, as UUIDs are.
abbrev pub Distinct : (ℕ → String) → Type 0
Distinct ids = (i j : ℕ) → ids i ≡ ids j → i ≡ j

-- How often an address answers, or fails to.
abbrev arrived : ℕ → List (ℕ × Bool) → ℕ
arrived a = total (λ r. if r.0 == a then 1 else 0)

-- Phase 2 before the i-th request.
record Built (w : World) (i : ℕ) (t : Tasks) : Type 0 where
  fresh : (j : ℕ) → i ≤ j → find_request (w.request_ids j) t.requests ≡ none
  filled : (k : String) (a : ℕ) → find_request k t.requests ≡ some a → 0 < length t.tasks

-- A monitor is settled, or has a request.
abbrev Known : Tasks → ℕ → Type 0
Known t a = Settled t.scheduler a ⊎ ((k : String) × (find_request k t.requests ≡ some a))

module _ (w : World) (distinct : Distinct w.request_ids) where
  module _ (i : ℕ) (t : Tasks) (b : ℕ) (v : Built w i t) where
    abbrev found : Option Credentials
    found = (ensure_credentials w.decrypt t.scheduler b).0

    abbrev opened : Scheduler
    opened = (ensure_credentials w.decrypt t.scheduler b).1

    other_id : (j : ℕ) → suc i ≤ j → str_eq (w.request_ids i) (w.request_ids j) ≡ false
    other_id j h = elim (Bool-cases (str_eq (w.request_ids i) (w.request_ids j))) [
      | inr e ↦ e
      | inl e ↦
          absurd
            (omega (arith, distinct i j ((str_eq_iff (w.request_ids i) (w.request_ids j)).0 e)))
    ]

    add_task-Built : Built w (suc i) (add_task w i t b)
    unfolding add_task
    add_task-Built = elim (Option-cases found) [
      | inl e ↦
          rw (e, add_task) (record { fresh = λ j h. v.fresh j (omega arith); filled = v.filled })
      | inr (cred, e) ↦
          rw (e, add_task)
            (record {
              fresh = λ j h. ground (
                arith,
                find_request-add_request (w.request_ids j) (w.request_ids i) b t.requests,
                other_id j h,
                v.fresh j (omega arith),
              );
              filled = λ k a h. ground (
                arith,
                length-append t.tasks (task_of (w.request_ids i) (object opened b) cred ∷ []),
              );
            })
    ]

    add_task-Calms : Calms t.scheduler (add_task w i t b).scheduler
    unfolding add_task
    add_task-Calms =
        let calm = ensure_credentials-Calms w.decrypt t.scheduler b in
        elim (Option-cases found) [
          | inl e ↦
              rw (e, add_task)
                (Calms-trans t.scheduler opened (handle_failure opened b w.now) calm
                  (handle_failure-Calms opened b w.now))
          | inr (cred, e) ↦ rw (e, add_task) calm
        ]

    add_task_keeps :
        (k : String) (a : ℕ)
        → find_request k t.requests ≡ some a
        → find_request k (add_task w i t b).requests ≡ some a
    unfolding add_task
    add_task_keeps k a h = elim (Option-cases found) [
      | inl e ↦ rw (e, add_task) h
      | inr (cred, e) ↦
          rw (e, add_task)
            (elim (Bool-cases (str_eq (w.request_ids i) k)) [
              | inr f ↦ ground (arith, f, find_request-add_request k (w.request_ids i) b t.requests)
              | inl f ↦
                  let key : w.request_ids i ≡ k = (str_eq_iff (w.request_ids i) k).0 f in
                  absurd (ground (arith, h, key, v.fresh i (omega arith)))
            ])
    ]

    add_task-Known : (a : ℕ) → Known t a → Known (add_task w i t b) a
    add_task-Known a (inl h) =
        inl (Settled-Calms t.scheduler (add_task w i t b).scheduler a add_task-Calms h)
    add_task-Known a (inr (k, h)) = inr (k, add_task_keeps k a h)

    add_task-Known_here : Known (add_task w i t b) b
    unfolding add_task
    add_task-Known_here = elim (Option-cases found) [
      | inl e ↦ rw (e, add_task) (inl (handle_failure-Settled opened b w.now))
      | inr (cred, e) ↦
          rw (e, add_task)
            (inr (
              w.request_ids i,
              ground (
                arith,
                find_request-add_request (w.request_ids i) (w.request_ids i) b t.requests,
                (str_eq_iff (w.request_ids i) (w.request_ids i)).1 refl,
              ),
            ))
    ]

  build_tasks-Built :
      (i : ℕ) (t : Tasks) (xs : List ℕ)
      → Built w i t
      → ((k : String) (a : ℕ)
          → find_request k (build_tasks w i t xs).requests ≡ some a
          → 0 < length (build_tasks w i t xs).tasks)
  unfolding build_tasks
  build_tasks-Built i t [] v = v.filled
  build_tasks-Built i t (b ∷ xs) v =
      build_tasks-Built (suc i) (add_task w i t b) xs (add_task-Built i t b v)

  build_tasks-Known :
      (i : ℕ) (t : Tasks) (xs : List ℕ) (a : ℕ)
      → Built w i t
      → Known t a ⊎ (1 ≤ times a xs)
      → Known (build_tasks w i t xs) a
  unfolding build_tasks
  build_tasks-Known i t [] a v (inl h) = h
  build_tasks-Known i t [] a v (inr h) = absurd (omega arith)
  build_tasks-Known i t (b ∷ xs) a v (inl h) =
      build_tasks-Known (suc i) (add_task w i t b) xs a (add_task-Built i t b v)
        (inl (add_task-Known i t b v a h))
  build_tasks-Known i t (b ∷ xs) a v (inr h) =
      build_tasks-Known (suc i) (add_task w i t b) xs a (add_task-Built i t b v)
        (elim (Bool-cases (b == a)) [
          | inr e ↦ inr (ground (arith, h, e))
          | inl e ↦
              let same : b ≡ a = ground (arith, e) in
              inl (subst (λ c. Known (add_task w i t b) c) same (add_task-Known_here i t b v))
        ])

  run_tasks-Calms :
      (s : Scheduler) (requests : Requests) (tasks : List PollTask)
      → Calms s (run_tasks w s requests tasks)
  unfolding run_tasks
  run_tasks-Calms s requests [] = Calms-refl s
  run_tasks-Calms s requests (task ∷ tasks) = elim (Option-cases (w.poll (task ∷ tasks))) [
    | inl e ↦ rw (e, run_tasks) (fail_requests-Calms w.now s requests)
    | inr (results, e) ↦
        let r = handle_results w.now requests (s, []) results in
        rw (e, run_tasks)
          (Calms-trans s r.0 (fail_missing w.now r.1 r.0 requests)
            (handle_results-Calms w.now requests s [] results)
            (fail_missing-Calms w.now r.1 r.0 requests))
  ]

  run_tasks-Settled :
      (s : Scheduler) (requests : Requests) (tasks : List PollTask) (k : String) (a : ℕ)
      → 0 < length tasks
      → find_request k requests ≡ some a
      → Settled (run_tasks w s requests tasks) a
  unfolding run_tasks is_handled
  run_tasks-Settled s requests [] k a p h = absurd (omega arith)
  run_tasks-Settled s requests (task ∷ tasks) k a p h =
      elim (Option-cases (w.poll (task ∷ tasks))) [
        | inl e ↦ rw (e, run_tasks) (fail_requests-Settled w.now s requests k a h)
        | inr (results, e) ↦
            let r = handle_results w.now requests (s, []) results in
            let none_yet =
              λ (j : String) (b : ℕ) (f : find_request j requests ≡ some b)
                  (q : is_handled j [] ≡ true).
                absurd (ground (arith, q)) in
            rw (e, run_tasks)
              (fail_missing-Settled w.now r.1 r.0 requests k a
                (handle_results-HandledSettled w.now requests s [] results none_yet k a h) h)
      ]

  collect_live-Calms :
      (s : Scheduler) (arrivals : List (ℕ × Bool)) → Calms s (collect_live w.now s arrivals).0
  unfolding collect_live
  collect_live-Calms s [] = Calms-refl s
  collect_live-Calms s ((b, true) ∷ rest) = collect_live-Calms s rest
  collect_live-Calms s ((b, false) ∷ rest) =
      let failed = handle_failure s b w.now in
      Calms-trans s failed (collect_live w.now failed rest).0 (handle_failure-Calms s b w.now)
        (collect_live-Calms failed rest)

  collect_live_cases :
      (s : Scheduler) (arrivals : List (ℕ × Bool)) (a : ℕ)
      → 1 ≤ arrived a arrivals
      → Settled (collect_live w.now s arrivals).0 a
        ⊎ (1 ≤ times a (collect_live w.now s arrivals).1)
  unfolding collect_live
  collect_live_cases s [] a h = absurd (omega arith)
  collect_live_cases s ((b, true) ∷ rest) a h = elim (Bool-cases (b == a)) [
    | inl e ↦ inr (ground (arith, e))
    | inr e ↦ elim (collect_live_cases s rest a (ground (arith, h, e))) [
      | inl k ↦ inl k
      | inr k ↦ inr (ground (arith, k, e))
    ]
  ]
  collect_live_cases s ((b, false) ∷ rest) a h = elim (Bool-cases (b == a)) [
    | inl e ↦
        let failed = handle_failure s b w.now in
        let same : b ≡ a = ground (arith, e) in
        inl (
          Settled-Calms failed (collect_live w.now failed rest).0 a (collect_live-Calms failed rest)
            (subst (λ c. Settled failed c) same (handle_failure-Settled s b w.now)))
    | inr e ↦ collect_live_cases (handle_failure s b w.now) rest a (ground (arith, h, e))
  ]

  poll_tasks-Settled :
      (s : Scheduler) (live : List ℕ) (a : ℕ)
      → Settled s a ⊎ (1 ≤ times a live)
      → let t = build_tasks w 0 (record { scheduler = s; tasks = []; requests = [] }) live in
        Settled (run_tasks w t.scheduler t.requests t.tasks) a
  unfolding find_request
  poll_tasks-Settled s live a h =
      let start : Tasks = record { scheduler = s; tasks = []; requests = [] } in
      let t = build_tasks w 0 start live in
      let built : Built w 0 start = record {
        fresh = λ j p. refl;
        filled = λ k b p. absurd (ground (arith, p));
      } in
      let known : Known start a ⊎ (1 ≤ times a live) = elim h [
        | inl k ↦ inl (inl k)
        | inr k ↦ inr k
      ] in
      elim (build_tasks-Known 0 start live a built known) [
        | inl k ↦
            Settled-Calms t.scheduler (run_tasks w t.scheduler t.requests t.tasks) a
              (run_tasks-Calms t.scheduler t.requests t.tasks) k
        | inr (k, f) ↦
            run_tasks-Settled t.scheduler t.requests t.tasks k a
              (build_tasks-Built 0 start live built k a f) f
      ]

  poll_live-Settled :
      (s : Scheduler) (live : List ℕ) (a : ℕ)
      → Settled s a ⊎ (1 ≤ times a live)
      → Settled (poll_live w s live) a
  unfolding poll_live
  poll_live-Settled s [] a (inl h) = h
  poll_live-Settled s [] a (inr h) = absurd (omega arith)
  poll_live-Settled s (b ∷ live) a h = elim (Bool-cases w.slot) [
    | inl e ↦ rw (e, poll_live) (poll_tasks-Settled s (b ∷ live) a h)
    | inr e ↦
        rw (e, poll_live)
          (elim h [
            | inl k ↦
                Settled-Calms s (fail_all w.now s (b ∷ live)) a (fail_all-Calms w.now s (b ∷ live))
                  k
            | inr k ↦ fail_all-Settled w.now s (b ∷ live) a k
          ])
  ]

-- A plugin's batch is processed to its end: when request ids are distinct, and the liveness results
-- (which come in any order) cover the batch, every monitor of the batch that is tracked afterwards
-- is marked as not being polled, whether the plugin is missing, the probe fails, the context ends,
-- credentials do not decrypt, the plugin fails, reports an error, answers for other requests or does
-- not answer at all.
pub process_plugin_batch-Settled :
    (w : World) (s : Scheduler) (monitors : List ℕ) (a : ℕ)
    → Distinct w.request_ids
    → times a monitors ≤ arrived a w.arrivals
    → 1 ≤ times a monitors
    → Settled (process_plugin_batch w s monitors) a
unfolding process_plugin_batch
process_plugin_batch-Settled w s monitors a distinct covered h = elim (Bool-cases w.known) [
  | inr e ↦ rw (e, process_plugin_batch) (fail_all-Settled w.now s monitors a h)
  | inl e ↦
      let r = collect_live w.now s w.arrivals in
      rw (e, process_plugin_batch)
        (poll_live-Settled w distinct r.0 r.1 a
          (collect_live_cases w distinct s w.arrivals a (omega (arith, covered, h))))
]
