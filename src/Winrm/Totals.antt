-- ===== src/Winrm/Totals.antt =====
-- plugin/windows-winrm/collector/collector.go: the aggregates over disks and over interfaces.
use mathlib.Core.List.{append-nil, append_assoc}
use nmslite.Common.{
  ℕ, ◌+◌, ◌^◌, ◌≤◌, ◌≡◌, refl, sym, ◌∙◌, ap, true, false, List, [], ◌∷◌, ◌++◌, total, ltb, ◌==◌,
  if◌then◌else◌, arith, Bool-cases, inl, inr,
}
use nmslite.Protocols.Schemas.{codes}
use nmslite.Winrm.{Floats}
use nmslite.Winrm.Collector.{
  Metrics, gauges, trim_colon, Disks, add_disk, disk_loop, disk_totals, disk_metrics,
}
use nmslite.Winrm.Wmi.{DiskData, NetworkData, Parsers}

-- Sums of whole numbers are exact in a float64 up to 2 ^ 53.
pub record IsExact (f : Floats) : Type 0 where
  pub plus_of : (a b : ℕ) → a + b ≤ 2 ^ 53 → f.plus (f.of_uint a) (f.of_uint b) ≡ f.of_uint (a + b)
  pub positive_of : (a : ℕ) → a ≤ 2 ^ 53 → f.is_positive (f.of_uint a) ≡ ltb 0 a

-- The bytes of a disk, and those free on it; a disk without a size does not count.
abbrev size_of : DiskData → ℕ
size_of d = d.size

abbrev free_of : DiskData → ℕ
free_of d = if d.size == 0 then 0 else d.free_space

abbrev received_of : NetworkData → ℕ
received_of n = n.bytes_received_persec

abbrev sent_of : NetworkData → ℕ
sent_of n = n.bytes_sent_persec

positive-zero : (a : ℕ) → (a == 0) ≡ true → ltb 0 a ≡ false
positive-zero a e = ground (arith, e)

positive-suc : (a : ℕ) → (a == 0) ≡ false → ltb 0 a ≡ true
positive-suc a e = ground (arith, e)

module _ (f : Floats) (p : Parsers) where
  -- The gauges of each disk that has a size, in order.
  abbrev pub each_disk : List DiskData → Metrics f p
  each_disk [] = []
  each_disk (d ∷ ds) =
      (if d.size == 0
        then []
        else gauges f p (codes "system.disk." ++ p.to_lower (trim_colon f p d.device_id))
            (f.of_uint d.size) (f.of_uint d.free_space))
      ++ each_disk ds

  abbrev of_disks : Metrics f p → ℕ → ℕ → Disks f p
  of_disks ms a b = record { metrics = ms; total = f.of_uint a; free = f.of_uint b }

  of_disks-eq :
      (ms ms' : Metrics f p) (a a' b b' : ℕ)
      → ms ≡ ms'
      → a ≡ a'
      → b ≡ b'
      → of_disks ms a b ≡ of_disks ms' a' b'
  of_disks-eq ms ms' a a' b b' e g h = λ i. of_disks (e i) (g i) (h i)

  skip-disk :
      (d : DiskData) (ds : List DiskData) (x : Disks f p)
      → (d.size == 0) ≡ true
      → disk_loop f p (d ∷ ds) x ≡ disk_loop f p ds x
  unfolding disk_loop
  skip-disk d ds x e = rw e refl

  take-disk :
      (d : DiskData) (ds : List DiskData) (x : Disks f p)
      → (d.size == 0) ≡ false
      → disk_loop f p (d ∷ ds) x ≡ disk_loop f p ds (add_disk f p d x)
  unfolding disk_loop
  take-disk d ds x e = rw e refl

  disk_loop-nil :
      (ms : Metrics f p) (a b : ℕ)
      → disk_loop f p [] (of_disks ms a b) ≡ of_disks (ms ++ []) (a + 0) (b + 0)
  unfolding disk_loop
  disk_loop-nil ms a b = of_disks-eq _ _ _ _ _ _ (sym (append-nil ms)) (omega arith) (omega arith)

  added :
      (d : DiskData) (ms : Metrics f p) (a b : ℕ)
      → IsExact f
      → a + d.size ≤ 2 ^ 53
      → b + d.free_space ≤ 2 ^ 53
      → add_disk f p d (of_disks ms a b)
        ≡ of_disks
            (ms
              ++ gauges f p
                  (codes "system.disk." ++ p.to_lower (trim_colon f p d.device_id))
                  (f.of_uint d.size)
                  (f.of_uint d.free_space))
            (a + d.size)
            (b + d.free_space)
  added d ms a b exact h k = λ i. record {
    metrics =
        ms
        ++ gauges f p (codes "system.disk." ++ p.to_lower (trim_colon f p d.device_id))
            (f.of_uint d.size) (f.of_uint d.free_space);
    total = exact.plus_of a d.size h i;
    free = exact.plus_of b d.free_space k i;
  }

  disk_loop_lem :
      (ds : List DiskData) (ms : Metrics f p) (a b : ℕ)
      → IsExact f
      → a + total size_of ds ≤ 2 ^ 53
      → b + total free_of ds ≤ 2 ^ 53
      → disk_loop f p ds (of_disks ms a b)
        ≡ of_disks (ms ++ each_disk ds) (a + total size_of ds) (b + total free_of ds)
  disk_loop_lem [] ms a b exact h k = disk_loop-nil ms a b
  disk_loop_lem (d ∷ ds) ms a b exact h k = elim (Bool-cases (d.size == 0)) [
    | inl e ↦
        skip-disk d ds (of_disks ms a b) e
        ∙ disk_loop_lem ds ms a b exact (ground (arith, h)) (ground (arith, k))
        ∙ of_disks-eq _ _ _ _ _ _ (rw e refl) (ground (arith, e)) (ground (arith, e))
    | inr e ↦
        let ours =
          gauges f p (codes "system.disk." ++ p.to_lower (trim_colon f p d.device_id))
            (f.of_uint d.size) (f.of_uint d.free_space) in
        take-disk d ds (of_disks ms a b) e
        ∙ ap (disk_loop f p ds) (added d ms a b exact (ground (arith, h)) (ground (arith, k, e)))
        ∙ disk_loop_lem ds (ms ++ ours) (a + d.size) (b + d.free_space) exact (ground (arith, h))
            (ground (arith, k, e))
        ∙ of_disks-eq _ _ _ _ _ _ (rw e (append_assoc ms ours (each_disk ds))) (ground (arith, e))
            (ground (arith, e))
  ]

  disk_totals_lem :
      (ms : Metrics f p) (a b : ℕ)
      → IsExact f
      → a ≤ 2 ^ 53
      → disk_totals f p (of_disks ms a b)
        ≡ ms
          ++ (if a == 0 then [] else gauges f p (codes "system.disk") (f.of_uint a) (f.of_uint b))
  disk_totals_lem ms a b exact h = elim (Bool-cases (a == 0)) [
    | inl e ↦ rw (exact.positive_of a h, e, positive-zero a e) (sym (append-nil ms))
    | inr e ↦ rw (exact.positive_of a h, e, positive-suc a e) refl
  ]

  -- Where sums of whole numbers are exact up to 2 ^ 53, and the sizes and the free bytes of the disks add
  -- up to no more: CollectDisk's metrics are the gauges of each disk that has a size, in order, and then,
  -- unless all sizes are zero, those of the whole, whose total is the sum of the sizes, and whose free
  -- bytes are the sum of those of the disks that have a size.
  pub disk_metrics-Totals :
      (ds : List DiskData)
      → IsExact f
      → total size_of ds ≤ 2 ^ 53
      → total free_of ds ≤ 2 ^ 53
      → disk_metrics f p ds
        ≡ each_disk ds
          ++ (if total size_of ds == 0
              then []
              else gauges f p
                  (codes "system.disk")
                  (f.of_uint (total size_of ds))
                  (f.of_uint (total free_of ds)))
  unfolding disk_metrics
  disk_metrics-Totals ds exact h k =
      ap (disk_totals f p) (disk_loop_lem ds [] 0 0 exact (omega (arith, h)) (omega (arith, k)))
      ∙ ap (disk_totals f p) (of_disks-eq _ _ _ _ _ _ refl (omega arith) (omega arith))
      ∙ disk_totals_lem (each_disk ds) (total size_of ds) (total free_of ds) exact h
