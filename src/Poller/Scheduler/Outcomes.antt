-- ===== src/Poller/Scheduler/Outcomes.antt =====
-- internal/poller/scheduler.go: when a monitor is reported down, and when it is not.
use nmslite.Common.{
  ℕ, suc, ◌+◌, ◌-◌, ◌<◌, ◌≡◌, ◌∙◌, refl, sym, inl, inr, ℤ, pos, true, false, ◌&&◌, List, [], ◌∷◌,
  ◌++◌, length, get_or, ltb, leb, if◌then◌else◌, erase, find-erase, get_or-set, arith, Bool-cases,
}
use mathlib.Core.List.{append_assoc, append-nil}
use nmslite.Poller.Events.{PollResult, MonitorStateEvent, down}
use nmslite.Poller.Scheduler.{
  Effect, update_status, emit, drop_event, write, ScheduledMonitor, Scheduler, nothing, object,
  modify, effect, is_tracked,
}
use nmslite.Poller.Scheduler.Outcome.{
  emit_event, state_event, handle_success, count_failure, handle_failure,
}
use nmslite.Poller.Scheduler.Invariant.{IsValid, Tracked-of_is_tracked}
use nmslite.Poller.Scheduler.Kept.{handle_failure-IsValid}

-- Failures of one monitor, at these times.
abbrev fail_at : Scheduler → ℕ → List ℤ → Scheduler
fail_at s a [] = s
fail_at s a (now ∷ rest) = fail_at (handle_failure s a now) a rest

-- What the state channel does with an event.
abbrev pub sent : Scheduler → MonitorStateEvent → Effect
sent s e = if ltb (length s.state_ch) s.state_cap then emit e else drop_event e

fail_at-untracked :
    (s : Scheduler) (a : ℕ) (nows : List ℤ) → is_tracked s a ≡ false → fail_at s a nows ≡ s
unfolding handle_failure
fail_at-untracked s a [] h = refl
fail_at-untracked s a (now ∷ nows) h = rw h (fail_at-untracked s a nows h)

module _ (s : Scheduler) (a : ℕ) (now : ℤ) (v : IsValid s) (t : is_tracked s a ≡ true) where
  abbrev sm : ScheduledMonitor
  sm = object s a

  abbrev failed : Scheduler
  failed = handle_failure s a now

  inside : a < length s.objects
  inside = (v.refs sm.monitor.id a (Tracked-of_is_tracked s a t)).0

  -- One failure below the threshold only counts.
  failure_counts :
      ltb (sm.consecutive_failures + 1) s.config.down_threshold ≡ true
      → failed
        ≡ modify s a
            (record sm { consecutive_failures = sm.consecutive_failures + 1; is_polling = false })
  unfolding handle_failure count_failure
  failure_counts h =
      let f : (ltb sm.consecutive_failures s.config.down_threshold
            && leb s.config.down_threshold (sm.consecutive_failures + 1))
          ≡ false =
        ground (arith, h) in
      rw (t, f) refl

  -- The failure that reaches it stops the tracking and reports.
  abbrev stopped : Scheduler
  stopped =
      effect
        (record s {
          objects =
              (modify s a (record sm {
                consecutive_failures = sm.consecutive_failures + 1;
                is_polling = false;
              })).objects;
          monitors = erase sm.monitor.id s.monitors;
        })
        (update_status sm.monitor.id "down")

  failure_stops :
      sm.consecutive_failures < s.config.down_threshold
      → ltb (sm.consecutive_failures + 1) s.config.down_threshold ≡ false
      → failed ≡ emit_event stopped (state_event sm down s.config.down_threshold now)
  unfolding handle_failure count_failure state_event
  failure_stops h k =
      let f : (ltb sm.consecutive_failures s.config.down_threshold
            && leb s.config.down_threshold (sm.consecutive_failures + 1))
          ≡ true =
        ground (arith, k) in
      let same : sm.consecutive_failures + 1 ≡ s.config.down_threshold = ground (arith, k) in
      rw (t, f, same) refl

  emit-effects :
      (u : Scheduler) (e : MonitorStateEvent)
      → (emit_event u e).effects ≡ u.effects ++ sent u e ∷ []
  unfolding emit_event
  emit-effects u e = ground arith

  emit-is_tracked :
      (u : Scheduler) (e : MonitorStateEvent) (b : ℕ)
      → is_tracked (emit_event u e) b ≡ is_tracked u b
  unfolding emit_event is_tracked
  emit-is_tracked u e b = elim (Bool-cases (ltb (length u.state_ch) u.state_cap)) [
    | inl h ↦ rw h refl
    | inr h ↦ rw h refl
  ]

  stopped-is_tracked : is_tracked stopped a ≡ false
  unfolding is_tracked
  stopped-is_tracked =
      let sm' : ScheduledMonitor = record sm {
        consecutive_failures = sm.consecutive_failures + 1;
        is_polling = false;
      } in
      ground (
        arith,
        get_or-set s.objects a a sm' nothing inside,
        find-erase sm.monitor.id sm.monitor.id s.monitors,
      )

  failure_reports :
      sm.consecutive_failures < s.config.down_threshold
      → ltb (sm.consecutive_failures + 1) s.config.down_threshold ≡ false
      → (is_tracked failed a ≡ false)
        × (failed.effects
            ≡ s.effects
              ++ update_status sm.monitor.id "down"
                ∷ sent s (state_event sm down s.config.down_threshold now)
                ∷ [])
  failure_reports h k =
      let e : MonitorStateEvent = state_event sm down s.config.down_threshold now in
      rw (failure_stops h k) (
        emit-is_tracked stopped e a ∙ stopped-is_tracked,
        emit-effects stopped e ∙ append_assoc s.effects _ _,
      )

  counted-is_tracked :
      ltb (sm.consecutive_failures + 1) s.config.down_threshold ≡ true → is_tracked failed a ≡ true
  unfolding is_tracked
  counted-is_tracked h =
      let sm' : ScheduledMonitor = record sm {
        consecutive_failures = sm.consecutive_failures + 1;
        is_polling = false;
      } in
      rw (failure_counts h) (ground (arith, t, get_or-set s.objects a a sm' nothing inside))

  object-counted :
      ltb (sm.consecutive_failures + 1) s.config.down_threshold ≡ true
      → object failed a
        ≡ record sm { consecutive_failures = sm.consecutive_failures + 1; is_polling = false }
  object-counted h =
      let sm' : ScheduledMonitor = record sm {
        consecutive_failures = sm.consecutive_failures + 1;
        is_polling = false;
      } in
      rw (failure_counts h) (ground (arith, get_or-set s.objects a a sm' nothing inside))

-- What a row of failures of a monitor with `count` of them behind it does.
abbrev pub Reported : Scheduler → ℕ → List ℤ → Type 0
Reported s a nows =
    let sm = object s a in
    let threshold = s.config.down_threshold in
    let up = ltb (sm.consecutive_failures + length nows) threshold in
    let last = get_or nows (threshold - sm.consecutive_failures - 1) (pos 0) in
    (is_tracked (fail_at s a nows) a ≡ up)
    × ((fail_at s a nows).effects
        ≡ s.effects
          ++ (if up
              then []
              else update_status sm.monitor.id "down"
                ∷ sent s (state_event sm down threshold last)
                ∷ []))

-- In a valid scheduler with a threshold above 0, failures of a tracked monitor have no effect until
-- the count of failures in a row reaches the threshold. The failure that reaches it sets the status
-- "down" in the database and sends one event (dropped, if the channel is full) with its time; the
-- monitor is not tracked from then on, and further failures have no effect.
pub fail_at-Reported :
    (s : Scheduler) (a : ℕ) (nows : List ℤ)
    → IsValid s
    → is_tracked s a ≡ true
    → 0 < s.config.down_threshold
    → Reported s a nows
unfolding handle_failure state_event
fail_at-Reported s a [] v t p =
    let below = v.up (object s a).monitor.id a (Tracked-of_is_tracked s a t) p in
    let f : ltb ((object s a).consecutive_failures + 0) s.config.down_threshold ≡ true =
      ground (arith, below) in
    rw f (t, sym (append-nil s.effects))
fail_at-Reported s a (now ∷ nows) v t p =
    let sm = object s a in
    let below = v.up sm.monitor.id a (Tracked-of_is_tracked s a t) p in
    elim (Bool-cases (ltb (sm.consecutive_failures + 1) s.config.down_threshold)) [
      | inl e ↦
          let failed = handle_failure s a now in
          let config : failed.config ≡ s.config = rw (failure_counts s a now v t e) in
          let effects : failed.effects ≡ s.effects = rw (failure_counts s a now v t e) in
          let ch : failed.state_ch ≡ s.state_ch = rw (failure_counts s a now v t e) in
          let cap : failed.state_cap ≡ s.state_cap = rw (failure_counts s a now v t e) in
          let later =
            fail_at-Reported failed a nows (handle_failure-IsValid s a now v)
              (counted-is_tracked s a now v t e) (rw config p) in
          let len : sm.consecutive_failures + 1 + length nows
              ≡ sm.consecutive_failures + length (now ∷ nows) =
            omega arith in
          let index : suc (s.config.down_threshold - (sm.consecutive_failures + 1) - 1)
              ≡ s.config.down_threshold - sm.consecutive_failures - 1 =
            ground (arith, e) in
          rw (← len, ← index) (rw (config, effects, ch, cap, object-counted s a now v t e) at later)
      | inr e ↦
          let (gone, reports) = failure_reports s a now v t below e in
          let f : ltb (sm.consecutive_failures + length (now ∷ nows)) s.config.down_threshold
              ≡ false =
            ground (arith, e) in
          let index : s.config.down_threshold - sm.consecutive_failures - 1 ≡ 0 =
            ground (arith, e) in
          rw (f, index, fail_at-untracked _ a nows gone) (gone, reports)
    ]

-- In a valid scheduler with a threshold above 0, a success of a tracked monitor starts its count of
-- failures again, ends its poll and writes the result, and does nothing else: it never sets a status
-- and never sends an event.
handle_success_lem :
    (s : Scheduler) (a : ℕ) (result : PollResult) (now : ℤ)
    → IsValid s
    → is_tracked s a ≡ true
    → 0 < s.config.down_threshold
    → handle_success s a result now
      ≡ effect
          (modify s a (record (object s a) { consecutive_failures = 0; is_polling = false }))
          (write (object s a).monitor.id result)
unfolding handle_success
handle_success_lem s a result now v t p =
    let below = v.up (object s a).monitor.id a (Tracked-of_is_tracked s a t) p in
    let f : leb s.config.down_threshold (object s a).consecutive_failures ≡ false =
      ground (arith, below) in
    rw f refl
