-- ===== src/Poller/Scheduler/Invariant.antt =====
-- internal/poller/scheduler.go: what every operation of the scheduler keeps.
use nmslite.Common.{
  ℕ, ◌≤◌, ◌<◌, ◌≡◌, refl, inl, inr, ℤ, str_eq, true, some, List, [], ◌∷◌, length, total, ◌==◌,
  if◌then◌else◌, find, erase, find-insert, find-erase, length-append, length-set, get_or-set,
  get_or-append, get_or-last, arith, Bool-cases, Option-cases,
}
use nmslite.Database.{MonitorRow, text}
use nmslite.Poller.Queue.{HeapItem}
use nmslite.Poller.Queue.Order.{IsHeap}
use nmslite.Poller.Queue.Up.{push-IsHeap, total-push}
use nmslite.Poller.Scheduler.{ScheduledMonitor, Scheduler, nothing, object, modify, is_tracked}
use nmslite.Poller.Scheduler.Cache.{
  track, scheduled_from_row, load_active_monitors, update_monitor_cache, remove_monitor_from_cache,
}

-- Counts the queue's entries of one monitor.
abbrev pub entry : ℕ → HeapItem → ℕ
entry id item = if item.monitor_id == id then 1 else 0

abbrev pub Tracked : Scheduler → ℕ → ℕ → Type 0
Tracked s id a = find id s.monitors ≡ some a

-- The queue is in order; a tracked address is that of an object with the id it is tracked under;
-- the queue has an entry for every tracked monitor, and none of them is down (where a threshold is
-- set at all).
pub record IsValid (s : Scheduler) : Type 0 where
  pub ordered : IsHeap s.heap
  pub refs : (id a : ℕ) → Tracked s id a → (a < length s.objects) × ((object s a).monitor.id ≡ id)
  pub queued : (id a : ℕ) → Tracked s id a → 1 ≤ total (entry id) s.heap
  pub up :
      (id a : ℕ)
      → Tracked s id a
      → 0 < s.config.down_threshold
      → (object s a).consecutive_failures < s.config.down_threshold

pub Tracked-of_is_tracked :
    (s : Scheduler) (a : ℕ) → is_tracked s a ≡ true → Tracked s (object s a).monitor.id a
unfolding is_tracked
Tracked-of_is_tracked s a h = ground arith

-- A write to a tracked object, or to one that is not, which keeps its id.
pub modify-IsValid :
    (s : Scheduler) (a : ℕ) (sm : ScheduledMonitor)
    → IsValid s
    → a < length s.objects
    → sm.monitor.id ≡ (object s a).monitor.id
    → (0 < s.config.down_threshold
        → Tracked s (object s a).monitor.id a
        → sm.consecutive_failures < s.config.down_threshold)
    → IsValid (modify s a sm)
modify-IsValid s a sm v h e f = record {
  ordered = v.ordered;
  refs = λ id b t.
      ground (arith, v.refs id b, get_or-set s.objects a b sm nothing, length-set s.objects a sm);
  queued = v.queued;
  up = λ id b t p. ground (arith, v.refs id b, v.up id b, get_or-set s.objects a b sm nothing, f p);
}

pub erase-IsValid :
    (s : Scheduler) (id : ℕ) → IsValid s → IsValid (record s { monitors = erase id s.monitors })
erase-IsValid s id v = record {
  ordered = v.ordered;
  refs = λ j a t. ground (arith, find-erase id j s.monitors, v.refs j a);
  queued = λ j a t. ground (arith, find-erase id j s.monitors, v.queued j a);
  up = λ j a t p. ground (arith, find-erase id j s.monitors, v.up j a);
}

pub track-IsValid :
    (s : Scheduler) (id : ℕ) (sm : ScheduledMonitor) (now : ℤ)
    → IsValid s
    → sm.monitor.id ≡ id
    → sm.consecutive_failures ≡ 0
    → IsValid (track s id sm now)
unfolding track
track-IsValid s id sm now v e f =
    let item : HeapItem = record { monitor_id = id; next_poll_deadline = now } in
    let here = get_or-last s.objects sm nothing in
    let found = λ (j : ℕ). find-insert id j (length s.objects) s.monitors in
    record {
      ordered = push-IsHeap s.heap item v.ordered;
      refs = λ j a t. ground (
        arith,
        here,
        found j,
        v.refs j a,
        length-append s.objects (sm ∷ []),
        get_or-append s.objects (sm ∷ []) a nothing,
      );
      queued = λ j a t.
          ground (arith, found j, v.queued j a, total-push s.heap item (entry j) v.ordered);
      up = λ j a t p.
          ground (
            arith,
            here,
            found j,
            v.refs j a,
            v.up j a,
            get_or-append s.objects (sm ∷ []) a nothing,
          );
    }

pub remove_monitor_from_cache-IsValid :
    (s : Scheduler) (id : ℕ) → IsValid s → IsValid (remove_monitor_from_cache s id)
unfolding remove_monitor_from_cache
remove_monitor_from_cache-IsValid s id v = erase-IsValid s id v

pub load_active_monitors-IsValid :
    (s : Scheduler) (rows : List (MonitorRow × ℤ))
    → IsValid s
    → IsValid (load_active_monitors s rows)
unfolding load_active_monitors
load_active_monitors-IsValid s [] v = v
load_active_monitors-IsValid s ((row, now) ∷ rest) v =
    load_active_monitors-IsValid (track s row.id (scheduled_from_row row now) now) rest
      (track-IsValid s row.id (scheduled_from_row row now) now v refl refl)

pub update_monitor_cache-IsValid :
    (s : Scheduler) (row : MonitorRow) (now : ℤ)
    → IsValid s
    → IsValid (update_monitor_cache s row now)
unfolding update_monitor_cache
update_monitor_cache-IsValid s row now v = elim (Bool-cases (str_eq (text row.status) "active")) [
  | inr e ↦ rw e (erase-IsValid s row.id v)
  | inl e ↦ elim (Option-cases (find row.id s.monitors)) [
    | inl f ↦ rw (e, f, update_monitor_cache) (track-IsValid s row.id _ now v refl refl)
    | inr (a, f) ↦
        rw (e, f, update_monitor_cache)
          (let (inside, same) = v.refs row.id a f in
            modify-IsValid s a _ v inside (ground (arith, same)) (λ p t. v.up row.id a f p))
  ]
]
