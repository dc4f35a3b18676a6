-- ===== src/Poller/Queue.antt =====
-- internal/poller/scheduler.go: PriorityQueue, and the use that the scheduler makes of it through
-- container/heap: Push appends and sifts up; Pop swaps the first entry to the end, sifts down and
-- cuts the end off. Every index stays inside the queue, so `default` is never read (Go would panic).
-- The sift loops take fuel; the length of the queue is enough.
pub mod Order
pub mod Up
pub mod Down
use nmslite.Common.{
  ℕ, zero, suc, ◌+◌, ◌-◌, ◌*◌, ◌/◌, ℤ, pos, Bool, true, false, not, ◌&&◌, ◌||◌, List, [], ◌∷◌, ◌++◌,
  length, get_or, set, take, ltb, leb, ltb_ℤ, ◌==◌, if◌then◌else◌,
}

pub record HeapItem : Type 0 where
  pub monitor_id : ℕ
  pub next_poll_deadline : ℤ

abbrev pub default : HeapItem
default = record { monitor_id = 0; next_poll_deadline = pos 0 }

abbrev pub PriorityQueue : Type 0
PriorityQueue = List HeapItem

abbrev pub at : PriorityQueue → ℕ → HeapItem
at pq i = get_or pq i default

abbrev pub deadline : PriorityQueue → ℕ → ℤ
deadline pq i = (at pq i).next_poll_deadline

-- Earlier deadlines have higher priority.
abbrev pub less : PriorityQueue → ℕ → ℕ → Bool
less pq i j = ltb_ℤ (deadline pq i) (deadline pq j)

unfoldable pub swap : PriorityQueue → ℕ → ℕ → PriorityQueue
swap pq i j = set (set pq i (at pq j)) j (at pq i)

abbrev pub parent : ℕ → ℕ
parent j = (j - 1) / 2

unfoldable pub up : ℕ → PriorityQueue → ℕ → PriorityQueue
up zero pq j = pq
up (suc fuel) pq j = elim (parent j == j || not (less pq j (parent j))) [
  | true ↦ pq
  | false ↦ up fuel (swap pq (parent j) j) (parent j)
]

-- The child of `i` that is due first, among the entries before `n`.
unfoldable pub first_child : PriorityQueue → ℕ → ℕ → ℕ
first_child pq i n =
    let left = 2 * i + 1 in if ltb (left + 1) n && less pq (left + 1) left then left + 1 else left

unfoldable pub down : ℕ → PriorityQueue → ℕ → ℕ → PriorityQueue
unfolding first_child
down zero pq i n = pq
down (suc fuel) pq i n =
    let child = first_child pq i n in
    elim (leb n (2 * i + 1) || not (less pq child i)) [
      | true ↦ pq
      | false ↦ down fuel (swap pq i child) child n
    ]

-- heap.Push
unfoldable pub push : PriorityQueue → HeapItem → PriorityQueue
unfolding up swap
push pq item = let pq' = pq ++ item ∷ [] in up (length pq') pq' (length pq' - 1)

-- heap.Pop: the queue that is left, and the item. The scheduler calls it on a queue with entries.
unfoldable pub pop : PriorityQueue → PriorityQueue × HeapItem
unfolding down swap
pop pq =
    let n = length pq - 1 in
    let sifted = down (length pq) (swap pq 0 n) 0 n in (take n sifted, at sifted n)
