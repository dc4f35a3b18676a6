-- ===== src/Poller/Tests/Workers.antt =====
-- The theorems on the scheduler's goroutines, applied to one batch of one monitor.
use nmslite.Common.{◌≤◌, ◌≡◌, refl, ◌⊎◌, true, false, [], ◌∷◌, total, arith}
use nmslite.Poller.Workers.{
  Limits, probing, dialing, sent, System, Step, begin, loaded, tick, cancels, stop, work, Reach,
  start, later, Pc, out, loading, new_system,
}
use nmslite.Poller.Workers.Move.{launch, take_slot, answer}
use nmslite.Poller.Workers.Counted.{dials, polls, is_live, work_of}
use nmslite.Poller.Workers.Progress.{CanMove}
use nmslite.Poller.Workers.Shutdown.{
  none_yet, one_more, shutdown-Stops, Reach-Limited, Steps, unloaded, load_fails-stuck,
}

abbrev one_each : Limits
one_each = record { liveness_workers = 1; plugin_workers = 1 }

abbrev at_select : System
at_select = record new_system { pc = Pc.looping; running = true }

looped : Reach one_each at_select
looped = later (later start (begin refl refl)) (loaded refl)

-- The probe is at its dialer, and the context ends.
abbrev dials_at_end : System
dials_at_end = record {
  pc = Pc.stopping;
  running = true;
  shared = record { liveness_used = 1; plugins_used = 0; wg = 1; cancelled = true };
  batches = probing (dialing ∷ []) ∷ [];
}

dialed : Reach one_each dials_at_end
dialed =
    later
      (later
        (later (later (later looped (tick (1 ∷ []) refl)) (work 0 (omega arith) (launch 1)))
          (work 0 (omega arith) (take_slot _ 0 (omega arith) refl (omega arith))))
        cancels)
      (stop refl refl)

abbrev answered_at_end : System
answered_at_end = record dials_at_end {
  shared = record { liveness_used = 0; plugins_used = 0; wg = 1; cancelled = true };
  batches = probing (sent true ∷ []) ∷ [];
}

shutdown-Stops_example :
    (1 ≤ total work_of dials_at_end.batches)
    × (CanMove one_each answered_at_end
        ⊎ Step one_each answered_at_end (record answered_at_end { pc = out; running = false }))
shutdown-Stops_example =
    shutdown-Stops (omega arith) (omega arith) dialed refl 1 answered_at_end
      (one_more 0 none_yet (omega arith) (answer _ 0 true (omega arith) refl))

Reach-Limited_example :
    (total dials dials_at_end.batches ≤ 1)
    × (total polls dials_at_end.batches ≤ 1)
    × (dials_at_end.pc ≡ out
        → (total is_live dials_at_end.batches ≡ 0)
          × (dials_at_end.shared.liveness_used ≡ 0)
          × (dials_at_end.shared.plugins_used ≡ 0))
Reach-Limited_example = Reach-Limited dialed

abbrev loads : System
loads = record new_system { pc = loading; running = true }

load_fails-stuck_example :
    Step one_each loads (unloaded loads)
    × ((t : System) → Steps one_each (unloaded loads) t → (t.pc ≡ out) × (t.running ≡ true))
load_fails-stuck_example = load_fails-stuck (later start (begin refl refl)) refl
