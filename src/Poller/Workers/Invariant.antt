-- ===== src/Poller/Workers/Invariant.antt =====
-- internal/poller/scheduler.go: what holds of the goroutines in every order of their steps.
use nmslite.Common.{
  ℕ, ◌+◌, ◌*◌, ◌<◌, ◌≤◌, ◌≡◌, refl, ◌∙◌, ◌⊎◌, inl, inr, true, List, [], ◌∷◌, ◌++◌, length, get_or,
  set, total, total-set, total-append, arith,
}
use nmslite.Poller.Workers.{
  Limits, Batch, started, ended, Shared, Move, starts, out, looping, stopping, System, Step, begin,
  loaded, load_fails, tick, cancels, stop, stopped, work, Reach, start, later,
}
use nmslite.Poller.Workers.Counted.{dials, polls, is_live, Holds, Move-Counts, total-get_or}

-- The slots that are taken are those that the goroutines hold, within the capacities; wg counts the
-- batches that have not ended; and outside of Run's loop and its shutdown there are none.
pub record IsCounted (c : Limits) (s : System) : Type 0 where
  pub liveness : s.shared.liveness_used ≡ total dials s.batches
  pub plugins : s.shared.plugins_used ≡ total polls s.batches
  pub live : s.shared.wg ≡ total is_live s.batches
  pub within : s.shared.liveness_used ≤ c.liveness_workers
  pub beside : s.shared.plugins_used ≤ c.plugin_workers
  pub runs : (s.pc ≡ out) ⊎ (s.running ≡ true)
  pub quiet : (s.pc ≡ looping) ⊎ (s.pc ≡ stopping) ⊎ (s.shared.wg ≡ 0)
  pub ending : s.pc ≡ stopping → s.shared.cancelled ≡ true

total-starts :
    (w : Batch → ℕ) (k : ℕ)
    → ((n : ℕ) → w (started n) ≡ k)
    → (ns : List ℕ) → total w (starts ns) ≡ length ns * k
total-starts w k each [] = omega arith
total-starts w k each (n ∷ ns) = grind (arith, each n, total-starts w k each ns)

pub get_or-Holds :
    {c : Limits} {s : System}
    → IsCounted c s
    → (i : ℕ) → i < length s.batches
    → Holds s.shared (get_or s.batches i ended)
get_or-Holds {s} v i lt = record {
  liveness = omega (arith, v.liveness, total-get_or dials s.batches i ended lt);
  plugins = omega (arith, v.plugins, total-get_or polls s.batches i ended lt);
  live = omega (arith, v.live, total-get_or is_live s.batches i ended lt);
}

work-IsCounted :
    {c : Limits} {s : System} {m : Shared} {b : Batch}
    → IsCounted c s
    → (i : ℕ) → i < length s.batches
    → Move c s.shared (get_or s.batches i ended) m b
    → IsCounted c (record s { shared = m; batches = set s.batches i b })
work-IsCounted {s} {b} v i lt mv =
    let k = Move-Counts mv (get_or-Holds v i lt) in
    record {
      liveness = omega (arith, v.liveness, k.liveness, total-set dials s.batches i b ended lt);
      plugins = omega (arith, v.plugins, k.plugins, total-set polls s.batches i b ended lt);
      live = omega (arith, v.live, k.live, total-set is_live s.batches i b ended lt);
      within = k.within v.within;
      beside = k.beside v.beside;
      runs = v.runs;
      quiet = elim v.quiet [
        | inl e ↦ inl e
        | inr (inl e) ↦ inr (inl e)
        | inr (inr e) ↦
            absurd (omega (arith, e, v.live, k.busy, total-get_or is_live s.batches i ended lt))
      ];
      ending = λ e. k.same ∙ v.ending e;
    }

tick-IsCounted :
    {c : Limits} {s : System} (ns : List ℕ)
    → IsCounted c s
    → s.pc ≡ looping
    → IsCounted c (record s {
      shared = record s.shared { wg = s.shared.wg + length ns };
      batches = s.batches ++ starts ns;
    })
tick-IsCounted {s} ns v e = record {
  liveness = omega (
    arith,
    v.liveness,
    total-append dials s.batches (starts ns),
    total-starts dials 0 (λ n. refl) ns,
  );
  plugins = omega (
    arith,
    v.plugins,
    total-append polls s.batches (starts ns),
    total-starts polls 0 (λ n. refl) ns,
  );
  live = omega (
    arith,
    v.live,
    total-append is_live s.batches (starts ns),
    total-starts is_live 1 (λ n. refl) ns,
  );
  within = v.within;
  beside = v.beside;
  runs = v.runs;
  quiet = inl e;
  ending = v.ending;
}

Step-IsCounted : {c : Limits} {s t : System} → Step c s t → IsCounted c s → IsCounted c t
Step-IsCounted (begin e f) v = ground arith
Step-IsCounted (loaded e) v = ground arith
Step-IsCounted (load_fails e) v = ground arith
Step-IsCounted (tick ns e) v = tick-IsCounted ns v e
Step-IsCounted cancels v = ground arith
Step-IsCounted (stop e f) v = ground arith
Step-IsCounted (stopped e f) v = ground arith
Step-IsCounted (work i lt mv) v = work-IsCounted v i lt mv

pub Reach-IsCounted : {c : Limits} {s : System} → Reach c s → IsCounted c s
Reach-IsCounted start = ground arith
Reach-IsCounted (later r st) = Step-IsCounted st (Reach-IsCounted r)
