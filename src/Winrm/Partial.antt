-- ===== src/Winrm/Partial.antt =====
-- plugin/windows-winrm/collector/collector.go: Collect keeps what its collectors find.
use mathlib.Core.List.{append-nil}
use nmslite.Common.{◌≡◌, ◌≢◌, refl, sym, ◌∙◌, ap, ◌⊎◌, List, [], ◌∷◌, ◌++◌, arith}
use nmslite.Common.Results.{Result, ok, err}
use nmslite.Protocols.Schemas.{codes}
use nmslite.Winrm.{Text, Floats}
use nmslite.Winrm.Client.{Library}
use nmslite.Winrm.Collector.{
  Metrics, collect_cpu, collect_memory, collect_disk, collect_network, gather, verdict, collect,
}
use nmslite.Winrm.Wmi.{CollectError, all_failed, Parsers}

module _ (f : Floats) (p : Parsers) (l : Library) where
  -- The metrics of a collector, and its name if it failed.
  abbrev pub found : Result CollectError (Metrics f p) → Metrics f p
  found (ok ms) = ms
  found (err e) = []

  abbrev pub failed : Text → Result CollectError (Metrics f p) → List Text
  failed name (ok ms) = []
  failed name (err e) = name ∷ []

  gather_lem :
      (name : Text) (r : Result CollectError (Metrics f p)) (ms : Metrics f p) (es : List Text)
      → gather f p l name r (ms, es) ≡ (ms ++ found r, es ++ failed name r)
  gather_lem name (ok ns) ms es = λ i. (ms ++ ns, sym (append-nil es) i)
  gather_lem name (err e) ms es = λ i. (sym (append-nil ms) i, es ++ name ∷ [])

  -- The metrics that are collected from a device, and the collectors that fail.
  abbrev pub all_found : l.Connection → Metrics f p
  all_found c =
      ((found (collect_cpu f p l c) ++ found (collect_memory f p l c))
        ++ found (collect_disk f p l c))
      ++ found (collect_network f p l c)

  abbrev pub failures : l.Connection → List Text
  failures c =
      ((failed (codes "cpu") (collect_cpu f p l c)
          ++ failed (codes "memory") (collect_memory f p l c))
        ++ failed (codes "disk") (collect_disk f p l c))
      ++ failed (codes "network") (collect_network f p l c)

  collect-verdict : (c : l.Connection) → collect f p l c ≡ verdict f p l (all_found c, failures c)
  unfolding collect
  collect-verdict c =
      let cpu = collect_cpu f p l c in
      let memory = collect_memory f p l c in
      let disk = collect_disk f p l c in
      let network = collect_network f p l c in
      let with_cpu = gather_lem (codes "cpu") cpu [] [] in
      let with_memory =
        ap (gather f p l (codes "memory") memory) with_cpu
        ∙ gather_lem (codes "memory") memory _ _ in
      let with_disk =
        ap (gather f p l (codes "disk") disk) with_memory ∙ gather_lem (codes "disk") disk _ _ in
      let with_network =
        ap (gather f p l (codes "network") network) with_disk
        ∙ gather_lem (codes "network") network _ _ in
      ap (verdict f p l) with_network

  verdict_lem :
      (ms : Metrics f p) (es : List Text)
      → ((ms ≢ []) ⊎ (es ≡ []) → verdict f p l (ms, es) ≡ ok ms)
        × (ms ≡ [] → es ≢ [] → verdict f p l (ms, es) ≡ err (all_failed es))
  verdict_lem [] [] = (λ h. refl, λ h k. absurd (k refl))
  verdict_lem [] (e ∷ es) = (λ h. absurd (ground (arith, h)), λ h k. refl)
  verdict_lem (m ∷ ms) es = (λ h. refl, λ h k. absurd (ground (arith, h)))

  -- Collect returns all that its four collectors find, in their order, whichever of the others fail. It
  -- fails only where nothing is found and some collector fails, with the names of those that did.
  pub collect_lem :
      (c : l.Connection)
      → ((all_found c ≢ []) ⊎ (failures c ≡ []) → collect f p l c ≡ ok (all_found c))
        × (all_found c ≡ [] → failures c ≢ [] → collect f p l c ≡ err (all_failed (failures c)))
  collect_lem c =
      let (kept, refused) = verdict_lem (all_found c) (failures c) in
      (λ h. collect-verdict c ∙ kept h, λ h k. collect-verdict c ∙ refused h k)
