-- ===== src/Poller/Workers/Progress.antt =====
-- internal/poller/scheduler.go: with slots of both kinds, the goroutines never wait for each other in
-- vain.
use nmslite.Common.{
  ℕ, suc, ◌<◌, ◌≡◌, ◌≢◌, refl, sym, subst, ◌⊎◌, inl, inr, Bool, true, false, List, [], ◌∷◌, length,
  get_or, total, ltb, arith, Bool-cases,
}
use nmslite.Poller.Workers.{
  Limits, Probe, queued, dialing, sent, Batch, started, probing, waiting, polling, leaving, ended,
  Shared, AllSent, some_alive, Move, System,
}
use nmslite.Poller.Workers.Move.{
  launch, take_slot, answer, all_dead, collect, take_plugin, finish, done,
}
use nmslite.Poller.Workers.Counted.{is_dialing, dials, polls, is_live}
use nmslite.Poller.Workers.Invariant.{IsCounted}

-- Some batch can take a step.
pub record CanMove (c : Limits) (s : System) : Type 0 where
  pub index : ℕ
  pub inside : index < length s.batches
  pub after : Shared
  pub batch : Batch
  pub move : Move c s.shared (get_or s.batches index ended) after batch

-- An entry that has a weight.
weighed :
    {A : Type 0} (w : A → ℕ) (xs : List A) (d : A)
    → 0 < total w xs
    → (i : ℕ) × (i < length xs) × (0 < w (get_or xs i d))
weighed w [] d h = absurd (omega arith)
weighed w (x ∷ xs) d h = elim (Bool-cases (ltb 0 (w x))) [
  | inl e ↦ (0, omega arith, ground (arith, e))
  | inr e ↦ let (i, lt, v) = weighed w xs d (ground (arith, e, h)) in (suc i, omega (arith, lt), v)
]

data Stage (ps : List Probe) : Type 0 where
  queues : (i : ℕ) → i < length ps → get_or ps i (sent false) ≡ queued → Stage ps
  dials_at : (i : ℕ) → i < length ps → get_or ps i (sent false) ≡ dialing → Stage ps
  finished : AllSent ps → Stage ps

later-Stage : (p : Probe) (ps : List Probe) (b : Bool) → p ≡ sent b → Stage ps → Stage (p ∷ ps)
later-Stage p ps b e (queues i lt q) = queues (suc i) (omega (arith, lt)) q
later-Stage p ps b e (dials_at i lt q) = dials_at (suc i) (omega (arith, lt)) q
later-Stage p ps b e (finished all) = finished (subst (λ r. AllSent (r ∷ ps)) (sym e) all)

stage : (ps : List Probe) → Stage ps
stage [] = finished tt
stage (queued ∷ ps) = queues 0 (omega arith) refl
stage (dialing ∷ ps) = dials_at 0 (omega arith) refl
stage (sent b ∷ ps) = later-Stage (sent b) ps b refl (stage ps)

module _ (c : Limits) (m : Shared) where
  -- A batch with a probe at its dialer can take a step.
  dialing-Move : (b : Batch) → 0 < dials b → (m' : Shared) × (b' : Batch) × Move c m b m' b'
  dialing-Move (probing ps) h =
      let (i, lt, v) = weighed is_dialing ps (sent false) h in
      (_, _, answer ps i true lt (is_dialing_lem (get_or ps i (sent false)) v))
    where
      is_dialing_lem : (p : Probe) → 0 < is_dialing p → p ≡ dialing
      is_dialing_lem dialing v = refl
      is_dialing_lem p v = absurd (omega arith)
  dialing-Move b h = absurd (omega arith)

  polling-Move : (b : Batch) → 0 < polls b → (m' : Shared) × (b' : Batch) × Move c m b m' b'
  polling-Move polling h = (_, _, finish)
  polling-Move b h = absurd (omega arith)

  -- A batch that has not ended can take a step, where slots are free.
  free-Move :
      (b : Batch)
      → 0 < is_live b
      → (0 < dials b) ⊎ (m.liveness_used < c.liveness_workers)
      → (0 < polls b) ⊎ (m.plugins_used < c.plugin_workers)
      → (m' : Shared) × (b' : Batch) × Move c m b m' b'
  free-Move (started n) h l p = (_, _, launch n)
  free-Move (probing ps) h l p = elim (stage ps) [
    | queues i lt e ↦ elim l [
      | inl d ↦ dialing-Move (probing ps) d
      | inr free ↦ (_, _, take_slot ps i lt e free)
    ]
    | dials_at i lt e ↦ (_, _, answer ps i true lt e)
    | finished all ↦ elim (Bool-cases (some_alive ps)) [
      | inl e ↦ (_, _, collect ps all e)
      | inr e ↦ (_, _, all_dead ps all e)
    ]
  ]
  free-Move waiting h l p = elim p [
    | inl e ↦ absurd (omega (arith, e))
    | inr free ↦ (_, _, take_plugin free)
  ]
  free-Move polling h l p = (_, _, finish)
  free-Move leaving h l p = (_, _, done)
  free-Move ended h l p = absurd (omega arith)

can_move :
    {c : Limits} {s : System} (i : ℕ)
    → i < length s.batches
    → (m' : Shared) × (b' : Batch) × Move c s.shared (get_or s.batches i ended) m' b'
    → CanMove c s
can_move i lt (m', b', mv) = record { index = i; inside = lt; after = m'; batch = b'; move = mv }

pub counted-CanMove :
    {c : Limits} {s : System}
    → 0 < c.liveness_workers
    → 0 < c.plugin_workers
    → IsCounted c s
    → s.shared.wg ≢ 0
    → CanMove c s
counted-CanMove {c} {s} k l v busy =
    elim (Bool-cases (ltb s.shared.liveness_used c.liveness_workers)) [
      | inr e ↦
          let (i, lt, d) = weighed dials s.batches ended (ground (arith, e, v.liveness, k)) in
          can_move i lt (dialing-Move c s.shared (get_or s.batches i ended) d)
      | inl e ↦ elim (Bool-cases (ltb s.shared.plugins_used c.plugin_workers)) [
        | inr f ↦
            let (i, lt, d) = weighed polls s.batches ended (ground (arith, f, v.plugins, l)) in
            can_move i lt (polling-Move c s.shared (get_or s.batches i ended) d)
        | inl f ↦
            let (i, lt, d) = weighed is_live s.batches ended (ground (arith, v.live, busy)) in
            can_move i lt (
              free-Move c s.shared (get_or s.batches i ended) d (inr (ground (arith, e)))
                (inr (ground (arith, f))))
      ]
    ]
