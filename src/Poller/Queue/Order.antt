-- ===== src/Poller/Queue/Order.antt =====
-- The heap order of the scheduler's queue, and what a swap does.
use nmslite.Common.{
  ℕ, zero, suc, ◌<◌, ◌≡◌, ◌∙◌, ◌≤ℤ◌, length, set, total, length-set, get_or-set, total-set, arith,
  ◌==◌, if◌then◌else◌,
}
use nmslite.Poller.Queue.{HeapItem, default, PriorityQueue, at, deadline, parent, swap}

-- Every entry before `n` but the first is due no earlier than its parent.
abbrev pub IsHeapTo : ℕ → PriorityQueue → Type 0
IsHeapTo n pq = (c : ℕ) → 0 < c → c < n → deadline pq (parent c) ≤ℤ deadline pq c

abbrev pub IsHeap : PriorityQueue → Type 0
IsHeap pq = IsHeapTo (length pq) pq

-- The entries below `i` are due no earlier than its parent.
abbrev pub IsBridged : ℕ → PriorityQueue → ℕ → Type 0
IsBridged n pq i =
    (c : ℕ) → 0 < c → c < n → parent c ≡ i → 0 < i → deadline pq (parent i) ≤ℤ deadline pq c

pub length-swap : (pq : PriorityQueue) (i j : ℕ) → length (swap pq i j) ≡ length pq
unfolding swap
length-swap pq i j = length-set (set pq i (at pq j)) j (at pq i) ∙ length-set pq i (at pq j)

module _ (pq : PriorityQueue) (i j : ℕ) (hi : i < length pq) (hj : j < length pq) where
  pub at-swap :
      (c : ℕ)
      → at (swap pq i j) c ≡ (if j == c then at pq i else if i == c then at pq j else at pq c)
  unfolding swap
  at-swap c =
      let inner = set pq i (at pq j) in
      ground (
        arith,
        get_or-set inner j c (at pq i) default,
        get_or-set pq i c (at pq j) default,
        length-set pq i (at pq j),
      )

  pub total-swap : (w : HeapItem → ℕ) → total w (swap pq i j) ≡ total w pq
  unfolding swap
  total-swap w =
      let inner = set pq i (at pq j) in
      let sum = length-set pq i (at pq j) in
      ground (
        arith,
        sum,
        total-set w inner j (at pq i) default,
        total-set w pq i (at pq j) default,
        get_or-set pq i j (at pq j) default,
      )

root_first_below :
    (k : ℕ) (n : ℕ) (pq : PriorityQueue) (i : ℕ)
    → IsHeapTo n pq
    → i < k
    → i < n
    → deadline pq 0 ≤ℤ deadline pq i
root_first_below zero n pq i h f p = absurd (omega arith)
root_first_below (suc k) n pq zero h f p = omega arith
root_first_below (suc k) n pq (suc i) h f p = omega (
  arith,
  h (suc i) (omega arith) p,
  root_first_below k n pq (parent (suc i)) h (omega arith) (omega arith),
)

-- The first entry of a heap is due first.
pub root_first :
    (n : ℕ) (pq : PriorityQueue) (i : ℕ) → IsHeapTo n pq → i < n → deadline pq 0 ≤ℤ deadline pq i
root_first n pq i h p = root_first_below (suc i) n pq i h (omega arith) p
