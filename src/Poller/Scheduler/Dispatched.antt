-- ===== src/Poller/Scheduler/Dispatched.antt =====
-- internal/poller/scheduler.go: what processMonitors and tick dispatch.
use nmslite.Common.{
  ℕ, ◌+◌, ◌<◌, ◌≡◌, ◌∙◌, refl, sym, inl, inr, String, str_eq, str_eq_iff, Bool, true, not, ◌&&◌,
  List, [], ◌∷◌, length, total-append, ltb, ◌==◌, if◌then◌else◌, get_or-set, arith, Bool-cases,
}
use nmslite.Poller.Scheduler.{Scheduler, object, nothing, modify, is_tracked}
use nmslite.Poller.Scheduler.Dispatch.{
  pick_monitors, add_to_batch, batch_by_plugin, process_monitors,
}
use nmslite.Poller.Scheduler.Invariant.{IsValid, Tracked, Tracked-of_is_tracked, modify-IsValid}
use nmslite.Poller.Scheduler.Termination.{times}

-- What the loop of processMonitors asks of a monitor.
abbrev is_ready : Scheduler → ℕ → Bool
is_ready s a = is_tracked s a && not (object s a).is_polling

-- What picking `picked` from `due` means: each ready monitor once, which is marked; no other
-- monitor changes.
record Picked (s : Scheduler) (due : List ℕ) (r : Scheduler × List ℕ) : Type 0 where
  pub valid : IsValid r.0
  pub once : (a : ℕ) → times a r.1 ≡ (if is_ready s a && ltb 0 (times a due) then 1 else 0)
  pub marked :
      (a : ℕ)
      → object r.0 a ≡ (
          if is_ready s a && ltb 0 (times a due)
          then record (object s a) { is_polling = true }
          else object s a)
  pub monitors : r.0.monitors ≡ s.monitors

module _ (s : Scheduler) (a : ℕ) (v : IsValid s) (h : is_ready s a ≡ true) where
  abbrev marked : Scheduler
  marked = modify s a (record (object s a) { is_polling = true })

  tracked : Tracked s (object s a).monitor.id a
  tracked = Tracked-of_is_tracked s a (ground (arith, h))

  inside : a < length s.objects
  inside = (v.refs (object s a).monitor.id a tracked).0

  object-marked :
      (b : ℕ)
      → object marked b ≡ (if a == b then record (object s a) { is_polling = true } else object s b)
  object-marked b =
      get_or-set s.objects a b (record (object s a) { is_polling = true }) nothing inside

  is_tracked-marked : (b : ℕ) → is_tracked marked b ≡ is_tracked s b
  unfolding is_tracked
  is_tracked-marked b = ground (arith, object-marked b)

  marked-IsValid : IsValid marked
  marked-IsValid = modify-IsValid s a _ v inside refl (λ p t. v.up (object s a).monitor.id a t p)

pick_monitors-Picked :
    (s : Scheduler) (due : List ℕ) → IsValid s → Picked s due (pick_monitors s due)
unfolding pick_monitors
pick_monitors-Picked s [] v = record {
  valid = v;
  once = λ a. ground arith;
  marked = λ a. ground arith;
  monitors = refl;
}
pick_monitors-Picked s (b ∷ due) v = elim (Bool-cases (is_ready s b)) [
  | inr e ↦
      let k = pick_monitors-Picked s due v in
      rw e (record {
        valid = k.valid;
        once = λ a. ground (arith, k.once a);
        marked = λ a. ground (arith, k.marked a);
        monitors = k.monitors;
      })
  | inl e ↦
      let k = pick_monitors-Picked (marked s b v e) due (marked-IsValid s b v e) in
      rw e (record {
        valid = k.valid;
        once = λ a. ground (arith, k.once a, object-marked s b v e a, is_tracked-marked s b v e a);
        marked =
            λ a. ground (arith, k.marked a, object-marked s b v e a, is_tracked-marked s b v e a);
        monitors = k.monitors;
      })
]

-- The batch that is dispatched to one plugin.
unfoldable pub batch_of : String → List (String × List ℕ) → List ℕ
batch_of plugin [] = []
batch_of plugin ((p, batch) ∷ rest) = if str_eq p plugin then batch else batch_of plugin rest

module _ (plugin : String) (a : ℕ) where
  times-batch_of-add_to_batch :
      (p : String) (b : ℕ) (batches : List (String × List ℕ))
      → times a (batch_of plugin (add_to_batch p b batches))
        ≡ times a (batch_of plugin batches) + (if str_eq p plugin && b == a then 1 else 0)
  unfolding batch_of add_to_batch
  times-batch_of-add_to_batch p b [] = ground arith
  times-batch_of-add_to_batch p b ((q, batch) ∷ rest) = elim (Bool-cases (str_eq q p)) [
    | inl e ↦
        let same : q ≡ p = (str_eq_iff q p).0 e in
        elim (Bool-cases (str_eq q plugin)) [
          | inl f ↦
              rw (e, f, ← same, f)
                (omega (arith, total-append (λ c. if c == a then 1 else 0) batch (b ∷ [])))
          | inr f ↦ rw (e, f, ← same, f) (omega arith)
        ]
    | inr e ↦ elim (Bool-cases (str_eq q plugin)) [
      | inr f ↦ rw (e, f) (times-batch_of-add_to_batch p b rest)
      | inl f ↦ elim (Bool-cases (str_eq p plugin)) [
        | inr g ↦ rw (e, f, g) (omega arith)
        | inl g ↦
            let same : q ≡ p = (str_eq_iff q plugin).0 f ∙ sym ((str_eq_iff p plugin).0 g) in
            absurd (ground (arith, e, (str_eq_iff q p).1 same))
      ]
    ]
  ]

  times-batch_of-batch_by_plugin :
      (s : Scheduler) (picked : List ℕ) (batches : List (String × List ℕ))
      → times a (batch_of plugin (batch_by_plugin s picked batches))
        ≡ times a (batch_of plugin batches)
          + (if str_eq (object s a).monitor.plugin_id plugin then times a picked else 0)
  unfolding batch_by_plugin
  times-batch_of-batch_by_plugin s [] batches = ground arith
  times-batch_of-batch_by_plugin s (b ∷ picked) batches =
      let p = (object s b).monitor.plugin_id in
      ground (
        arith,
        times-batch_of-batch_by_plugin s picked (add_to_batch p b batches),
        times-batch_of-add_to_batch p b batches,
      )

-- What processMonitors does with the monitors that are due.
pub record Dispatched (s : Scheduler) (due : List ℕ) (r : Scheduler × List (String × List ℕ))
    : Type 0 where
  pub valid : IsValid r.0
  pub once :
      (plugin : String) (a : ℕ)
      → times a (batch_of plugin r.1) ≡ (
          if is_ready s a && ltb 0 (times a due) && str_eq (object s a).monitor.plugin_id plugin
          then 1
          else 0)
  pub marked :
      (a : ℕ)
      → object r.0 a ≡ (
          if is_ready s a && ltb 0 (times a due)
          then record (object s a) { is_polling = true }
          else object s a)
  pub monitors : r.0.monitors ≡ s.monitors

-- From a valid scheduler, processMonitors puts a monitor in the batch of a plugin exactly when it is
-- due, still the object tracked under its id, not being polled, and has that plugin; then it is in
-- there exactly once, however often it is listed as due. These monitors are marked as being polled,
-- no other monitor changes, and the scheduler stays valid.
pub process_monitors-Dispatched :
    (s : Scheduler) (due : List ℕ) → IsValid s → Dispatched s due (process_monitors s due)
unfolding process_monitors batch_of
process_monitors-Dispatched s due v =
    let k = pick_monitors-Picked s due v in
    let (s', picked) = pick_monitors s due in
    record {
      valid = k.valid;
      once = λ plugin a. ground (
        arith,
        k.once a,
        k.marked a,
        times-batch_of-batch_by_plugin plugin a (pick_monitors s due).0 (pick_monitors s due).1 [],
      );
      marked = k.marked;
      monitors = k.monitors;
    }
