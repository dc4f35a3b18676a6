-- ===== src/Poller/Scheduler/Handled.antt =====
-- internal/poller/scheduler.go: what the loops of processPluginBatch settle.
use nmslite.Common.{
  ℕ, ◌≤◌, ◌≡◌, ◌∙◌, refl, sym, subst, inl, inr, ℤ, String, str_eq, str_eq_iff, true, some, List,
  Option-cases, [], ◌∷◌, ◌==◌, if◌then◌else◌, arith, Bool-cases,
}
use nmslite.Poller.Events.{PollResult}
use nmslite.Poller.Scheduler.{Scheduler}
use nmslite.Poller.Scheduler.Outcome.{handle_success, handle_failure}
use nmslite.Poller.Scheduler.Termination.{times}
use nmslite.Poller.Scheduler.Batch.{
  Requests, find_request, add_request, is_handled, fail_all, handle_results, fail_missing,
  fail_requests,
}
use nmslite.Poller.Scheduler.Settled.{
  Settled, Calms, Calms-refl, Calms-trans, Settled-Calms, handle_success-Calms,
  handle_failure-Calms, handle_success-Settled, handle_failure-Settled,
}

pub find_request-add_request :
    (j k : String) (a : ℕ) (m : Requests)
    → find_request j (add_request k a m) ≡ (if str_eq k j then some a else find_request j m)
unfolding find_request add_request
find_request-add_request j k a [] = refl
find_request-add_request j k a ((i, b) ∷ m) = elim (Bool-cases (str_eq i k)) [
  | inl e ↦ let same : i ≡ k = (str_eq_iff i k).0 e in rw (e, same) (ground arith)
  | inr e ↦ elim (Bool-cases (str_eq i j)) [
    | inr f ↦ rw (e, f) (find_request-add_request j k a m)
    | inl f ↦ elim (Bool-cases (str_eq k j)) [
      | inr g ↦ rw (e, f, g) refl
      | inl g ↦
          let same : i ≡ k = (str_eq_iff i j).0 f ∙ sym ((str_eq_iff k j).0 g) in
          absurd (ground (arith, e, (str_eq_iff i k).1 same))
    ]
  ]
]

module _ (now : ℤ) where
  pub fail_all-Calms : (s : Scheduler) (xs : List ℕ) → Calms s (fail_all now s xs)
  unfolding fail_all
  fail_all-Calms s [] = Calms-refl s
  fail_all-Calms s (a ∷ xs) =
      Calms-trans s (handle_failure s a now) (fail_all now (handle_failure s a now) xs)
        (handle_failure-Calms s a now) (fail_all-Calms (handle_failure s a now) xs)

  pub fail_all-Settled :
      (s : Scheduler) (xs : List ℕ) (a : ℕ) → 1 ≤ times a xs → Settled (fail_all now s xs) a
  unfolding fail_all
  fail_all-Settled s [] a h = absurd (omega arith)
  fail_all-Settled s (b ∷ xs) a h = elim (Bool-cases (b == a)) [
    | inr e ↦ fail_all-Settled (handle_failure s b now) xs a (ground (arith, h, e))
    | inl e ↦
        let same : b ≡ a = ground (arith, e) in
        Settled-Calms (handle_failure s b now) _ a (fail_all-Calms (handle_failure s b now) xs)
          (subst (λ c. Settled (handle_failure s b now) c) same (handle_failure-Settled s b now))
  ]

  pub fail_requests-Calms : (s : Scheduler) (m : Requests) → Calms s (fail_requests now s m)
  unfolding fail_requests
  fail_requests-Calms s [] = Calms-refl s
  fail_requests-Calms s ((k, a) ∷ m) =
      Calms-trans s (handle_failure s a now) (fail_requests now (handle_failure s a now) m)
        (handle_failure-Calms s a now) (fail_requests-Calms (handle_failure s a now) m)

  pub fail_requests-Settled :
      (s : Scheduler) (m : Requests) (k : String) (a : ℕ)
      → find_request k m ≡ some a
      → Settled (fail_requests now s m) a
  unfolding fail_requests find_request
  fail_requests-Settled s [] k a h = absurd (ground arith)
  fail_requests-Settled s ((j, b) ∷ m) k a h = elim (Bool-cases (str_eq j k)) [
    | inr e ↦ fail_requests-Settled (handle_failure s b now) m k a (rw e at h)
    | inl e ↦
        let same : b ≡ a = ground (arith, rw e at h) in
        Settled-Calms (handle_failure s b now) _ a (fail_requests-Calms (handle_failure s b now) m)
          (subst (λ c. Settled (handle_failure s b now) c) same (handle_failure-Settled s b now))
  ]

  pub fail_missing-Calms :
      (handled : List String) (s : Scheduler) (m : Requests)
      → Calms s (fail_missing now handled s m)
  unfolding fail_missing
  fail_missing-Calms handled s [] = Calms-refl s
  fail_missing-Calms handled s ((k, a) ∷ m) = elim (Bool-cases (is_handled k handled)) [
    | inl e ↦ rw e (fail_missing-Calms handled s m)
    | inr e ↦ rw e (
        Calms-trans s (handle_failure s a now) (fail_missing now handled (handle_failure s a now) m)
          (handle_failure-Calms s a now) (fail_missing-Calms handled (handle_failure s a now) m))
  ]

  pub fail_missing-Settled :
      (handled : List String) (s : Scheduler) (m : Requests) (k : String) (a : ℕ)
      → (is_handled k handled ≡ true → Settled s a)
      → find_request k m ≡ some a
      → Settled (fail_missing now handled s m) a
  unfolding fail_missing find_request
  fail_missing-Settled handled s [] k a f h = absurd (ground arith)
  fail_missing-Settled handled s ((j, b) ∷ m) k a f h =
      let u = if is_handled j handled then s else handle_failure s b now in
      elim (Bool-cases (str_eq j k)) [
        | inr e ↦
            let calm : Calms s u = elim (Bool-cases (is_handled j handled)) [
              | inl g ↦ rw g (Calms-refl s)
              | inr g ↦ rw g (handle_failure-Calms s b now)
            ] in
            fail_missing-Settled handled u m k a (λ p. Settled-Calms s u a calm (f p)) (rw e at h)
        | inl e ↦
            let same : b ≡ a = ground (arith, rw e at h) in
            let key : j ≡ k = (str_eq_iff j k).0 e in
            let settled : Settled u a = elim (Bool-cases (is_handled j handled)) [
              | inl g ↦ rw g (f (subst (λ i. is_handled i handled ≡ true) key g))
              | inr g ↦
                  subst
                    (λ c. Settled (if is_handled j handled then s else handle_failure s b now) c)
                    same (rw g (handle_failure-Settled s b now))
            ] in
            Settled-Calms u (fail_missing now handled u m) a (fail_missing-Calms handled u m)
              settled
      ]

  pub handle_results-Calms :
      (requests : Requests) (s : Scheduler) (handled : List String) (results : List PollResult)
      → Calms s (handle_results now requests (s, handled) results).0
  unfolding handle_results
  handle_results-Calms requests s handled [] = Calms-refl s
  handle_results-Calms requests s handled (result ∷ rest) =
      elim (Option-cases (find_request result.request_id requests)) [
        | inl e ↦ rw (e, handle_results) (handle_results-Calms requests s handled rest)
        | inr (a, e) ↦
            let t =
              if str_eq result.status "success"
              then handle_success s a result now
              else handle_failure s a now in
            let calm : Calms s t = elim (Bool-cases (str_eq result.status "success")) [
              | inl g ↦ rw g (handle_success-Calms s a now result)
              | inr g ↦ rw g (handle_failure-Calms s a now)
            ] in
            rw (e, handle_results)
              (Calms-trans s t (handle_results now requests (t, result.request_id ∷ handled) rest).0
                calm (handle_results-Calms requests t (result.request_id ∷ handled) rest))
      ]

  -- What was handled among the requests is settled.
  abbrev HandledSettled : Requests → Scheduler × List String → Type 0
  HandledSettled requests (s, handled) =
      (k : String) (a : ℕ)
      → find_request k requests ≡ some a
      → is_handled k handled ≡ true
      → Settled s a

  pub handle_results-HandledSettled :
      (requests : Requests) (s : Scheduler) (handled : List String) (results : List PollResult)
      → HandledSettled requests (s, handled)
      → HandledSettled requests (handle_results now requests (s, handled) results)
  unfolding handle_results is_handled
  handle_results-HandledSettled requests s handled [] h = h
  handle_results-HandledSettled requests s handled (result ∷ rest) h =
      elim (Option-cases (find_request result.request_id requests)) [
        | inl e ↦ rw (e, handle_results) (handle_results-HandledSettled requests s handled rest h)
        | inr (a, e) ↦
            let t =
              if str_eq result.status "success"
              then handle_success s a result now
              else handle_failure s a now in
            let outcome : Calms s t × Settled t a =
              elim (Bool-cases (str_eq result.status "success")) [
                | inl g ↦
                    rw g
                      (handle_success-Calms s a now result, handle_success-Settled s a now result)
                | inr g ↦ rw g (handle_failure-Calms s a now, handle_failure-Settled s a now)
              ] in
            rw (e, handle_results)
              (handle_results-HandledSettled requests t (result.request_id ∷ handled) rest
                (λ k b f p. elim (Bool-cases (str_eq result.request_id k)) [
                  | inl g ↦
                      let key : result.request_id ≡ k = (str_eq_iff result.request_id k).0 g in
                      let same : a ≡ b = ground (arith, e, f, key) in
                      subst (λ c. Settled t c) same outcome.1
                  | inr g ↦ Settled-Calms s t b outcome.0 (h k b f (ground (arith, p, g)))
                ]))
      ]
