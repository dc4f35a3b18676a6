-- ===== src/Poller/Scheduler/Settled.antt =====
-- internal/poller/scheduler.go: who is still marked as being polled.
use nmslite.Common.{
  ap, zero, ℕ, suc, ◌+◌, ◌≡◌, ◌⊎◌, refl, inl, inr, ℤ, true, false, ◌&&◌, some, List, [], ◌∷◌,
  length, get_or, set, ltb, leb, erase, find-erase, arith, Bool-cases, Option,
}
use nmslite.Auth.Credentials.{Credentials}
use nmslite.Poller.Events.{PollResult, MonitorStateEvent, recovered}
use nmslite.Poller.Scheduler.{
  ScheduledMonitor, Scheduler, Effect, update_status, write, nothing, object, modify, effect,
  is_tracked,
}
use nmslite.Poller.Scheduler.Outcome.{
  emit_event, state_event, handle_success, count_failure, handle_failure,
}
use nmslite.Poller.Scheduler.Batch.{ensure_credentials}
use nmslite.Poller.Scheduler.Credentialed.{ensure_credentials_cases}

-- A monitor that is still tracked is not being polled.
abbrev pub Settled : Scheduler → ℕ → Type 0
Settled s a = is_tracked s a ≡ true → (object s a).is_polling ≡ false

-- Nothing is tracked anew, and no poll begins.
pub record Calms (s t : Scheduler) : Type 0 where
  pub tracked : (b : ℕ) → is_tracked t b ≡ true → is_tracked s b ≡ true
  pub polling : (b : ℕ) → (object s b).is_polling ≡ false → (object t b).is_polling ≡ false

pub Calms-refl : (s : Scheduler) → Calms s s
Calms-refl s = record { tracked = λ b h. h; polling = λ b h. h }

pub Calms-trans : (s t u : Scheduler) → Calms s t → Calms t u → Calms s u
Calms-trans s t u h k = record {
  tracked = λ b p. h.tracked b (k.tracked b p);
  polling = λ b p. k.polling b (h.polling b p);
}

pub Settled-Calms : (s t : Scheduler) (a : ℕ) → Calms s t → Settled s a → Settled t a
Settled-Calms s t a h k p = h.polling a (k (h.tracked a p))

-- A write to the store reaches one address, if it reaches any.
get_or-set_cases :
    (xs : List ScheduledMonitor) (i j : ℕ) (v : ScheduledMonitor)
    → (get_or (set xs i v) j nothing ≡ get_or xs j nothing)
      ⊎ ((i ≡ j) × (get_or (set xs i v) j nothing ≡ v))
get_or-set_cases [] i j v = inl refl
get_or-set_cases (x ∷ xs) zero zero v = inr (refl, refl)
get_or-set_cases (x ∷ xs) zero (suc j) v = inl refl
get_or-set_cases (x ∷ xs) (suc i) zero v = inl refl
get_or-set_cases (x ∷ xs) (suc i) (suc j) v = elim (get_or-set_cases xs i j v) [
  | inl e ↦ inl e
  | inr (e, f) ↦ inr (ap suc e, f)
]

get_or-set_idle :
    (xs : List ScheduledMonitor) (i : ℕ) (v : ScheduledMonitor)
    → v.is_polling ≡ false
    → (get_or (set xs i v) i nothing).is_polling ≡ false
get_or-set_idle [] i v h = refl
get_or-set_idle (x ∷ xs) zero v h = h
get_or-set_idle (x ∷ xs) (suc i) v h = get_or-set_idle xs i v h

module _ (s : Scheduler) (a : ℕ) (sm : ScheduledMonitor) where
  modify-Calms :
      sm.monitor.id ≡ (object s a).monitor.id
      → ((object s a).is_polling ≡ false → sm.is_polling ≡ false)
      → Calms s (modify s a sm)
  unfolding is_tracked
  modify-Calms e f = record {
    tracked = λ b h. elim (get_or-set_cases s.objects a b sm) [
      | inl g ↦ ground (arith, g)
      | inr (same, g) ↦ ground (arith, g, same)
    ];
    polling = λ b h. elim (get_or-set_cases s.objects a b sm) [
      | inl g ↦ rw g h
      | inr (same, g) ↦ rw g (f (rw same h))
    ];
  }

emit_event-Calms : (s : Scheduler) (e : MonitorStateEvent) → Calms s (emit_event s e)
unfolding emit_event is_tracked
emit_event-Calms s e = elim (Bool-cases (ltb (length s.state_ch) s.state_cap)) [
  | inl h ↦ rw h (record { tracked = λ b p. p; polling = λ b p. p })
  | inr h ↦ rw h (record { tracked = λ b p. p; polling = λ b p. p })
]

erase-Calms :
    (s : Scheduler) (id : ℕ) (e : Effect)
    → Calms s (effect (record s { monitors = erase id s.monitors }) e)
unfolding is_tracked
erase-Calms s id e = record {
  tracked = λ b h. ground (arith, find-erase id (object s b).monitor.id s.monitors);
  polling = λ b h. h;
}

effect-Calms : (s : Scheduler) (e : Effect) → Calms s (effect s e)
unfolding is_tracked
effect-Calms s e = record { tracked = λ b p. p; polling = λ b p. p }

module _ (s : Scheduler) (a : ℕ) (now : ℤ) where
  pub handle_success-Calms : (result : PollResult) → Calms s (handle_success s a result now)
  unfolding handle_success
  handle_success-Calms result =
      let sm = object s a in
      let sm' : ScheduledMonitor = record sm { consecutive_failures = 0; is_polling = false } in
      let reset = modify s a sm' in
      let written = effect reset (write sm.monitor.id result) in
      let calm =
        Calms-trans s reset written (modify-Calms s a sm' refl (λ p. refl))
          (effect-Calms reset (write sm.monitor.id result)) in
      elim (Bool-cases (leb s.config.down_threshold (object s a).consecutive_failures)) [
        | inl e ↦
            let told = effect written (update_status sm.monitor.id "active") in
            let event = state_event sm' recovered 0 now in
            rw e (
              Calms-trans s told (emit_event told event)
                (Calms-trans s written told calm
                  (effect-Calms written (update_status sm.monitor.id "active")))
                (emit_event-Calms told event))
        | inr e ↦ rw e calm
      ]

  count_failure-Calms : Calms s (count_failure s a now)
  unfolding count_failure
  count_failure-Calms =
      elim (Bool-cases (
        ltb (object s a).consecutive_failures s.config.down_threshold
        && leb s.config.down_threshold ((object s a).consecutive_failures + 1))) [
          | inl e ↦ rw e (
              Calms-trans _ _ _
                (Calms-trans s _ _ (modify-Calms s a _ refl (λ p. refl)) (erase-Calms _ _ _))
                (emit_event-Calms _ _))
          | inr e ↦ rw e (modify-Calms s a _ refl (λ p. refl))
        ]

  pub handle_failure-Calms : Calms s (handle_failure s a now)
  unfolding handle_failure
  handle_failure-Calms = elim (Bool-cases (is_tracked s a)) [
    | inl e ↦ rw e count_failure-Calms
    | inr e ↦ rw e (Calms-refl s)
  ]

  pub handle_success-Settled : (result : PollResult) → Settled (handle_success s a result now) a
  unfolding handle_success emit_event
  handle_success-Settled result h = ground (
    arith,
    get_or-set_idle s.objects a
        (record (object s a) { consecutive_failures = 0; is_polling = false }) refl,
  )

  count_failure-Settled : (object (count_failure s a now) a).is_polling ≡ false
  unfolding count_failure emit_event
  count_failure-Settled = ground (
    arith,
    get_or-set_idle s.objects a
        (record (object s a) {
          consecutive_failures = (object s a).consecutive_failures + 1;
          is_polling = false;
        })
        refl,
  )

  pub handle_failure-Settled : Settled (handle_failure s a now) a
  unfolding handle_failure
  handle_failure-Settled h = elim (Bool-cases (is_tracked s a)) [
    | inl e ↦ rw e count_failure-Settled
    | inr e ↦ absurd (ground (arith, rw e at h))
  ]

pub ensure_credentials-Calms :
    (secret : List ℕ → Option Credentials) (s : Scheduler) (a : ℕ)
    → Calms s (ensure_credentials secret s a).1
ensure_credentials-Calms secret s a = elim (ensure_credentials_cases secret s a) [
  | inl e ↦ rw e (Calms-refl s)
  | inr (cred, e) ↦
      rw e (modify-Calms s a (record (object s a) { credentials = some cred }) refl (λ p. p))
]
