-- ===== src/Poller/Queue/Down.antt =====
-- container/heap's `down`, as the scheduler's queue uses it: Pop returns an item that is due first.
use nmslite.Common.{
  ℕ, zero, suc, ◌+◌, ◌-◌, ◌*◌, ◌≤◌, ◌<◌, ◌≡◌, ◌≢◌, ◌⊎◌, ◌∙◌, refl, sym, subst, inl, inr, ◌≤ℤ◌,
  ltb_ℤ, true, not, ◌||◌, length, take, total, length-take, get_or-take, total-take_last, arith,
  leb, get_or-eq-zero, total-eq-zero, if◌then◌else◌, Bool-cases,
}
use nmslite.Poller.Queue.{
  HeapItem, default, PriorityQueue, at, deadline, less, parent, swap, first_child, down, pop,
}
use nmslite.Poller.Queue.Order.{
  IsHeapTo, IsHeap, IsBridged, length-swap, at-swap, total-swap, root_first,
}
use nmslite.Poller.Queue.Up.{Sifted, Sifted-swap}

-- Only the edges below `i` may be out of order, among the entries before `n`.
record DownInv (n : ℕ) (pq : PriorityQueue) (i : ℕ) : Type 0 where
  edges : (c : ℕ) → 0 < c → c < n → parent c ≢ i → deadline pq (parent c) ≤ℤ deadline pq c
  bridged : IsBridged n pq i

-- `m` is the child of `i` that is due first.
record IsFirstChild (n : ℕ) (pq : PriorityQueue) (i m : ℕ) : Type 0 where
  inside : m < n
  child : (m ≡ 2 * i + 1) ⊎ (m ≡ 2 * i + 2)
  first : (c : ℕ) → 0 < c → c < n → parent c ≡ i → deadline pq m ≤ℤ deadline pq c

first_child-IsFirstChild :
    (pq : PriorityQueue) (i n : ℕ) → 2 * i + 1 < n → IsFirstChild n pq i (first_child pq i n)
unfolding first_child
first_child-IsFirstChild pq i n h = grind arith

swap-DownInv :
    (n : ℕ) (pq : PriorityQueue) (i m : ℕ)
    → n ≤ length pq
    → DownInv n pq i
    → IsFirstChild n pq i m
    → ltb_ℤ (deadline pq m) (deadline pq i) ≡ true
    → DownInv n (swap pq i m) m
swap-DownInv n pq i m fits v s below =
    let moved = at-swap pq i m (omega (arith, s.inside, s.child)) (omega (arith, s.inside)) in
    record {
      edges = λ c p q r.
          ground (
            arith,
            moved c,
            moved (parent c),
            v.edges c,
            v.bridged m,
            s.first c,
            s.child,
            s.inside,
          );
      bridged =
          λ c p q r t. ground (arith, moved c, moved (parent m), v.edges c, s.child, s.inside);
    }

settled :
    (pq : PriorityQueue) (i n : ℕ)
    → DownInv n pq i
    → (leb n (2 * i + 1) || not (less pq (first_child pq i n) i)) ≡ true
    → IsHeapTo n pq
settled pq i n v e c p q = elim (Bool-cases (leb n (2 * i + 1))) [
  | inl leaf ↦ ground (arith, leaf, v.edges c)
  | inr inner ↦
      let s = first_child-IsFirstChild pq i n (ground (arith, inner)) in
      ground (arith, inner, e, v.edges c, s.first c)
]

down_restores :
    (fuel : ℕ) (pq : PriorityQueue) (i n : ℕ)
    → n ≤ length pq
    → n < fuel + i
    → DownInv n pq i
    → Sifted n pq (down fuel pq i n)
unfolding down
down_restores zero pq i n fits f v = record {
  ordered = λ c p q. ground (arith, v.edges c);
  size = refl;
  same = λ w. refl;
}
down_restores (suc fuel) pq i n fits f v =
    let m = first_child pq i n in
    elim (Bool-cases (leb n (2 * i + 1) || not (less pq m i))) [
      | inl e ↦
          rw (e, down) (record { ordered = settled pq i n v e; size = refl; same = λ w. refl })
      | inr e ↦
          let inside : 2 * i + 1 < n = ground (arith, e) in
          let s = first_child-IsFirstChild pq i n inside in
          let hi : i < length pq = omega arith in
          let hm : m < length pq = omega (arith, s.inside) in
          rw (e, down)
            (Sifted-swap n pq (down fuel (swap pq i m) m n) i m hi hm (
              down_restores fuel (swap pq i m) m n (omega (arith, length-swap pq i m))
                (omega (arith, s.child)) (swap-DownInv n pq i m fits v s (ground (arith, e)))))
    ]

-- The entries from `n` on stay where they are.
at-down :
    (fuel : ℕ) (pq : PriorityQueue) (i n k : ℕ)
    → n ≤ length pq
    → n ≤ k
    → at (down fuel pq i n) k ≡ at pq k
unfolding down
at-down zero pq i n k fits h = refl
at-down (suc fuel) pq i n k fits h =
    let m = first_child pq i n in
    elim (Bool-cases (leb n (2 * i + 1) || not (less pq m i))) [
      | inl e ↦ rw (e, down)
      | inr e ↦
          let inside : 2 * i + 1 < n = ground (arith, e) in
          let s = first_child-IsFirstChild pq i n inside in
          rw (e, down)
            (at-down fuel (swap pq i m) m n k (omega (arith, length-swap pq i m)) h
              ∙ ground (arith, s.inside, at-swap pq i m (omega arith) (omega (arith, s.inside)) k))
    ]

-- What Pop returns: the rest, in heap order, and an item that is due no later than any other.
pub record Popped (pq : PriorityQueue) (r : PriorityQueue × HeapItem) : Type 0 where
  pub ordered : IsHeap r.0
  pub size : length r.0 + 1 ≡ length pq
  pub first : r.1 ≡ at pq 0
  pub least : (i : ℕ) → i < length r.0 → r.1.next_poll_deadline ≤ℤ deadline r.0 i
  pub same : (w : HeapItem → ℕ) → total w r.0 + w r.1 ≡ total w pq

module _ (pq : PriorityQueue) (h : IsHeap pq) (n : ℕ) (size : length pq ≡ suc n) where
  abbrev ends : PriorityQueue
  ends = swap pq 0 n

  abbrev sifted : PriorityQueue
  sifted = down (suc n) ends 0 n

  ends-DownInv : DownInv n ends 0
  ends-DownInv =
      let moved = at-swap pq 0 n (omega arith) (omega arith) in
      record {
        edges = λ c p q r. ground (arith, moved c, moved (parent c), h c);
        bridged = λ c p q r t. absurd (omega arith);
      }

  sifted-Sifted : Sifted n ends sifted
  sifted-Sifted =
      down_restores (suc n) ends 0 n (omega (arith, length-swap pq 0 n)) (omega arith) ends-DownInv

  at-sifted : at sifted n ≡ at pq 0
  at-sifted =
      at-down (suc n) ends 0 n n (omega (arith, length-swap pq 0 n)) (omega arith)
      ∙ ground (arith, at-swap pq 0 n (omega arith) (omega arith) n)

  -- The weight of the items that are due before the first entry: there are none.
  abbrev early : HeapItem → ℕ
  early item = if ltb_ℤ item.next_poll_deadline (deadline pq 0) then 1 else 0

  total-early : total early sifted ≡ 0
  total-early =
      sifted-Sifted.same early
      ∙ total-swap pq 0 n (omega arith) (omega arith) early
      ∙ total-eq-zero early pq default (λ i p. ground (arith, root_first (length pq) pq i h p))

  sifted-Popped : Popped pq (take n sifted, at sifted n)
  sifted-Popped =
      let long : length sifted ≡ suc n = sifted-Sifted.size ∙ length-swap pq 0 n ∙ size in
      let short : length (take n sifted) ≡ n = omega (arith, length-take n sifted) in
      let kept = λ (i : ℕ) (p : i < n). get_or-take n sifted i default p in
      record {
        ordered = λ c p q. ground (arith, short, kept c, kept (parent c), sifted-Sifted.ordered c);
        size = omega (arith, short);
        first = at-sifted;
        least = λ i p.
            ground
              (arith, short, at-sifted, kept i, get_or-eq-zero early sifted i default total-early);
        same = λ w. omega (
          arith,
          total-take_last w n sifted default long,
          sifted-Sifted.same w,
          total-swap pq 0 n (omega arith) (omega arith) w,
        );
      }

-- Pop of a queue with entries, in heap order, returns an item that is due no later than any other;
-- the other items stay, in heap order.
pub pop-Popped : (pq : PriorityQueue) → IsHeap pq → 0 < length pq → Popped pq (pop pq)
unfolding pop
pop-Popped pq h p =
    let n = length pq - 1 in
    let size : length pq ≡ suc n = omega arith in
    subst
      (λ fuel. Popped pq (take n (down fuel (swap pq 0 n) 0 n), at (down fuel (swap pq 0 n) 0 n) n))
      (sym size) (sifted-Popped pq h n size)
