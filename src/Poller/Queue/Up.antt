-- ===== src/Poller/Queue/Up.antt =====
-- container/heap's `up`, as the scheduler's queue uses it: it restores the heap order.
use nmslite.Common.{
  ℕ, zero, suc, ◌+◌, ◌-◌, ◌<◌, ◌≡◌, ◌≢◌, ◌∙◌, refl, inl, inr, ◌≤ℤ◌, ltb_ℤ, true, not, ◌||◌, [], ◌∷◌,
  ◌++◌, length, total, length-append, get_or-append, total-append, arith, ◌==◌, Bool-cases,
}
use nmslite.Poller.Queue.{HeapItem, default, PriorityQueue, deadline, less, parent, swap, up, push}
use nmslite.Poller.Queue.Order.{IsHeapTo, IsHeap, IsBridged, length-swap, at-swap, total-swap}

-- `r` holds the entries of `pq`, and its first `n` are in heap order.
pub record Sifted (n : ℕ) (pq r : PriorityQueue) : Type 0 where
  pub ordered : IsHeapTo n r
  pub size : length r ≡ length pq
  pub same : (w : HeapItem → ℕ) → total w r ≡ total w pq

pub Sifted-swap :
    (n : ℕ) (pq r : PriorityQueue) (i j : ℕ)
    → i < length pq
    → j < length pq
    → Sifted n (swap pq i j) r
    → Sifted n pq r
Sifted-swap n pq r i j hi hj s = record {
  ordered = s.ordered;
  size = s.size ∙ length-swap pq i j;
  same = λ w. s.same w ∙ total-swap pq i j hi hj w;
}

-- Only the edge above `i` may be out of order.
record UpInv (pq : PriorityQueue) (i : ℕ) : Type 0 where
  inside : i < length pq
  edges : (c : ℕ) → 0 < c → c < length pq → c ≢ i → deadline pq (parent c) ≤ℤ deadline pq c
  bridged : IsBridged (length pq) pq i

swap-UpInv :
    (pq : PriorityQueue) (i : ℕ)
    → UpInv pq i
    → 0 < i
    → ltb_ℤ (deadline pq i) (deadline pq (parent i)) ≡ true
    → UpInv (swap pq (parent i) i) (parent i)
swap-UpInv pq i v p below =
    let hp : parent i < length pq = omega (arith, v.inside) in
    let size = length-swap pq (parent i) i in
    let moved = at-swap pq (parent i) i hp v.inside in
    record {
      inside = omega (arith, size);
      edges = λ c q r s.
          ground
            (arith, size, moved c, moved (parent c), v.edges c, v.bridged c, v.edges (parent i));
      bridged = λ c q r s t. ground (
        arith,
        size,
        moved c,
        moved (parent (parent i)),
        v.edges c,
        v.edges (parent i),
        v.edges i,
      );
    }

up_restores :
    (fuel : ℕ) (pq : PriorityQueue) (i : ℕ)
    → i < fuel
    → UpInv pq i
    → Sifted (length pq) pq (up fuel pq i)
unfolding up
up_restores zero pq i f v = absurd (omega arith)
up_restores (suc fuel) pq i f v = elim (Bool-cases (parent i == i || not (less pq i (parent i)))) [
  | inl e ↦
      rw (e, up)
        (record { ordered = λ c p q. ground (arith, e, v.edges c); size = refl; same = λ w. refl })
  | inr e ↦
      let hp : parent i < length pq = omega (arith, v.inside) in
      rw (e, up)
        (Sifted-swap _ pq _ (parent i) i hp v.inside (
          rw (← length-swap pq (parent i) i) (
            up_restores fuel (swap pq (parent i) i) (parent i) (ground (arith, e))
              (swap-UpInv pq i v (ground (arith, e)) (ground (arith, e))))))
]

append-UpInv :
    (pq : PriorityQueue) (item : HeapItem)
    → IsHeap pq
    → UpInv (pq ++ item ∷ []) (length (pq ++ item ∷ []) - 1)
append-UpInv pq item h =
    let size = length-append pq (item ∷ []) in
    record {
      inside = omega (arith, size);
      edges = λ c p q r. ground (
        arith,
        size,
        h c,
        get_or-append pq (item ∷ []) c default,
        get_or-append pq (item ∷ []) (parent c) default,
      );
      bridged = λ c p q r s. absurd (omega (arith, size));
    }

push-Sifted :
    (pq : PriorityQueue) (item : HeapItem)
    → IsHeap pq
    → Sifted (length (pq ++ item ∷ [])) (pq ++ item ∷ []) (push pq item)
unfolding push
push-Sifted pq item h =
    let size = length-append pq (item ∷ []) in
    up_restores (length (pq ++ item ∷ [])) (pq ++ item ∷ []) (length (pq ++ item ∷ []) - 1)
      (omega (arith, size)) (append-UpInv pq item h)

-- Push keeps the heap order.
pub push-IsHeap : (pq : PriorityQueue) (item : HeapItem) → IsHeap pq → IsHeap (push pq item)
push-IsHeap pq item h = let s = push-Sifted pq item h in rw s.size s.ordered

-- Push adds its item and changes no other.
pub total-push :
    (pq : PriorityQueue) (item : HeapItem) (w : HeapItem → ℕ)
    → IsHeap pq
    → total w (push pq item) ≡ total w pq + w item
total-push pq item w h =
    omega (arith, (push-Sifted pq item h).same w, total-append w pq (item ∷ []))

pub length-push :
    (pq : PriorityQueue) (item : HeapItem) → IsHeap pq → length (push pq item) ≡ length pq + 1
length-push pq item h = omega (arith, (push-Sifted pq item h).size, length-append pq (item ∷ []))
