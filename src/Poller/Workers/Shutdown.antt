-- ===== src/Poller/Workers/Shutdown.antt =====
-- internal/poller/scheduler.go: Run and its shutdown.
use nmslite.Common.{
  ℕ, suc, ◌+◌, ◌<◌, ◌≤◌, ◌≡◌, refl, ◌∙◌, ◌⊎◌, inl, inr, true, false, List, [], ◌∷◌, length, get_or,
  set, total, total-set, ◌==◌, arith, Bool-cases,
}
use nmslite.Poller.Workers.{
  Limits, Batch, ended, Shared, Move, out, loading, stopping, System, Step, begin, loaded,
  load_fails, tick, cancels, stop, stopped, work, Reach, later,
}
use nmslite.Poller.Workers.Counted.{dials, polls, is_live, work_of, Move-Counts}
use nmslite.Poller.Workers.Invariant.{Reach-IsCounted, get_or-Holds}
use nmslite.Poller.Workers.Progress.{CanMove, counted-CanMove}

-- Steps of the batches alone, in any order, with their number.
pub data Works (c : Limits) (s : System) : ℕ → System → Type 0 where
  none_yet : Works c s 0 s
  one_more :
      {n : ℕ} {t : System} (i : ℕ) {m : Shared} {b : Batch}
      → Works c s n t
      → i < length t.batches
      → Move c t.shared (get_or t.batches i ended) m b
      → Works c s (suc n) (record t { shared = m; batches = set t.batches i b })

Works-Reach : {c : Limits} {s t : System} {n : ℕ} → Reach c s → Works c s n t → Reach c t
Works-Reach r none_yet = r
Works-Reach r (one_more i w lt mv) = later (Works-Reach r w) (work i lt mv)

Works-pc : {c : Limits} {s t : System} {n : ℕ} → Works c s n t → t.pc ≡ s.pc
Works-pc none_yet = refl
Works-pc (one_more i w lt mv) = Works-pc w

Works-less :
    {c : Limits} {s t : System} {n : ℕ}
    → Reach c s
    → Works c s n t
    → n + total work_of t.batches ≤ total work_of s.batches
Works-less r none_yet = omega arith
Works-less r (one_more {t} i {b} w lt mv) =
    let k = Move-Counts mv (get_or-Holds (Reach-IsCounted (Works-Reach r w)) i lt) in
    omega (arith, Works-less r w, k.less, total-set work_of t.batches i b ended lt)

-- Where there are slots of both kinds, a shutdown that has begun ends, in whatever order the goroutines
-- go: their steps are no more than the batches had left, and after any of them some batch can take
-- another, or Run returns and is no longer marked as running.
pub shutdown-Stops :
    {c : Limits} {s : System}
    → 0 < c.liveness_workers
    → 0 < c.plugin_workers
    → Reach c s
    → s.pc ≡ stopping
    → (n : ℕ) (t : System) → Works c s n t
    → (n ≤ total work_of s.batches)
      × (CanMove c t ⊎ Step c t (record t { pc = out; running = false }))
shutdown-Stops {c} {s} k l r e n t w = (
  omega (arith, Works-less r w),
  elim (Bool-cases (t.shared.wg == 0)) [
    | inl f ↦ inr (stopped (Works-pc w ∙ e) (ground (arith, f)))
    | inr f ↦ inl (counted-CanMove k l (Reach-IsCounted (Works-Reach r w)) (ground (arith, f)))
  ],
)

all_ended : (bs : List Batch) → total is_live bs ≡ 0 → (total dials bs ≡ 0) × (total polls bs ≡ 0)
all_ended [] e = (refl, refl)
all_ended (ended ∷ bs) e =
    let (d, p) = all_ended bs (omega (arith, e)) in (omega (arith, d), omega (arith, p))
all_ended (b ∷ bs) e = absurd (omega (arith, e))

-- In every order of the steps, no more probes are at their dialers than there are liveness slots, and no
-- more batches at their plugins than plugin slots. Where Run has returned, or has not begun, every
-- batch has ended and every slot is free.
pub Reach-Limited :
    {c : Limits} {s : System}
    → Reach c s
    → (total dials s.batches ≤ c.liveness_workers)
      × (total polls s.batches ≤ c.plugin_workers)
      × (s.pc ≡ out
          → (total is_live s.batches ≡ 0)
            × (s.shared.liveness_used ≡ 0)
            × (s.shared.plugins_used ≡ 0))
Reach-Limited {s} r =
    let v = Reach-IsCounted r in
    (
      omega (arith, v.liveness, v.within),
      omega (arith, v.plugins, v.beside),
      λ e.
          let none_live : total is_live s.batches ≡ 0 = elim v.quiet [
            | inl f ↦ absurd (ground (arith, e, f))
            | inr (inl f) ↦ absurd (ground (arith, e, f))
            | inr (inr f) ↦ omega (arith, f, v.live)
          ] in
          let (d, p) = all_ended s.batches none_live in
          (none_live, omega (arith, d, v.liveness), omega (arith, p, v.plugins)),
    )

pub data Steps (c : Limits) (s : System) : System → Type 0 where
  here : Steps c s s
  next : {t u : System} → Steps c s t → Step c t u → Steps c s u

-- What LoadActiveMonitors leaves when it fails.
abbrev pub unloaded : System → System
unloaded s = record s { pc = out }

stays_out :
    {c : Limits} {s t : System}
    → (s.pc ≡ out) × (s.running ≡ true)
    → Step c s t
    → (t.pc ≡ out) × (t.running ≡ true)
stays_out h (begin e f) = absurd (ground arith)
stays_out h (loaded e) = absurd (ground arith)
stays_out h (load_fails e) = absurd (ground arith)
stays_out h (tick ns e) = absurd (ground arith)
stays_out h cancels = h
stays_out h (stop e f) = absurd (ground arith)
stays_out h (stopped e f) = absurd (ground arith)
stays_out h (work i lt mv) = h

-- When LoadActiveMonitors fails, Run returns and never starts again: whatever follows, the scheduler
-- stays marked as running, so that each further call of Run is refused.
pub load_fails-stuck :
    {c : Limits} {s : System}
    → Reach c s
    → s.pc ≡ loading
    → Step c s (unloaded s)
      × ((t : System) → Steps c (unloaded s) t → (t.pc ≡ out) × (t.running ≡ true))
load_fails-stuck {c} {s} r e = (load_fails e, λ t path. follow t path)
  where
    marked : s.running ≡ true
    marked = elim (Reach-IsCounted r).runs [ inl f ↦ absurd (ground (arith, e, f)) | inr f ↦ f ]

    follow : (t : System) → Steps c (unloaded s) t → (t.pc ≡ out) × (t.running ≡ true)
    follow t here = (refl, marked)
    follow t (next path st) = stays_out (follow _ path) st
