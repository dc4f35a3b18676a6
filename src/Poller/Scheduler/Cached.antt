-- ===== src/Poller/Scheduler/Cached.antt =====
-- internal/poller/scheduler.go: the cache as a map from identifiers to monitors and payloads, and
-- what updates and removals do to it.
use nmslite.Common.{
  ℕ, suc, ℤ, str_eq, ◌≡◌, refl, ◌∙◌, ap, inl, inr, Bool, true, ◌&&◌, Option, none, some, List, [],
  ◌∷◌, length, ◌==◌, if◌then◌else◌, find, find-insert, find-erase, get_or-set, get_or-append,
  get_or-last, arith, Bool-cases, Option-cases,
}
use nmslite.Database.{Monitor, MonitorRow, text}
use nmslite.Poller.Scheduler.{Scheduler, ScheduledMonitor, nothing, object, modify}
use nmslite.Poller.Scheduler.Cache.{
  monitor_of_row, track, scheduled_from_row, update_monitor_cache, remove_monitor_from_cache,
  update_rows, timed, load_active_monitors,
}
use nmslite.Poller.Scheduler.Invariant.{
  IsValid, Tracked, track-IsValid, update_monitor_cache-IsValid,
}

abbrev pub Entry : Type 0
Entry = Monitor × List ℕ

abbrev entry_of : ScheduledMonitor → Entry
entry_of sm = (sm.monitor, sm.encrypted_credentials)

abbrev entry_at : Scheduler → Option ℕ → Option Entry
entry_at s none = none
entry_at s (some a) = some (entry_of (object s a))

-- The cache's monitor under an identifier, with its encrypted credentials.
unfoldable pub cached : Scheduler → ℕ → Option Entry
cached s id = entry_at s (find id s.monitors)

-- What the cache is to hold of a row: nothing, where the monitor is not active.
unfoldable pub entry_of_row : MonitorRow → Option Entry
unfolding monitor_of_row
entry_of_row row =
    if str_eq (text row.status) "active" then some (monitor_of_row row, row.payload) else none

pub cached-remove_monitor_from_cache :
    (s : Scheduler) (id j : ℕ)
    → cached (remove_monitor_from_cache s id) j ≡ (if id == j then none else cached s j)
unfolding cached remove_monitor_from_cache
cached-remove_monitor_from_cache s id j = ground (arith, find-erase id j s.monitors)

cached-track :
    (s : Scheduler) (row : MonitorRow) (now : ℤ) (j : ℕ)
    → IsValid s
    → cached (track s row.id (scheduled_from_row row now) now) j
      ≡ (if row.id == j then some (monitor_of_row row, row.payload) else cached s j)
unfolding cached track scheduled_from_row
cached-track s row now j v =
    let sm = scheduled_from_row row now in
    let found = find-insert row.id j (length s.objects) s.monitors in
    let here = get_or-last s.objects sm nothing in
    elim (Bool-cases (row.id == j)) [
      | inl e ↦ ground (arith, found, here)
      | inr e ↦ elim (Option-cases (find j s.monitors)) [
        | inl f ↦ ground (arith, found)
        | inr (b, f) ↦
            let (inside, same) = v.refs j b f in
            ground (arith, found, get_or-append s.objects (sm ∷ []) b nothing inside)
      ]
    ]

cached-modify :
    (s : Scheduler) (row : MonitorRow) (sm : ScheduledMonitor) (a j : ℕ)
    → IsValid s
    → Tracked s row.id a
    → sm.monitor ≡ monitor_of_row row
    → sm.encrypted_credentials ≡ row.payload
    → cached (modify s a sm) j
      ≡ (if row.id == j then some (monitor_of_row row, row.payload) else cached s j)
unfolding cached
cached-modify s row sm a j v t p q =
    let (inside, same) = v.refs row.id a t in
    elim (Option-cases (find j s.monitors)) [
      | inl f ↦ ground arith
      | inr (b, f) ↦
          let (inside', same') = v.refs j b f in
          let written = get_or-set s.objects a b sm nothing inside in
          elim (Bool-cases (a == b)) [
            | inl e ↦ ground (arith, written)
            | inr e ↦ ground (arith, written)
          ]
    ]

cached-update_monitor_cache :
    (s : Scheduler) (row : MonitorRow) (now : ℤ) (j : ℕ)
    → IsValid s
    → cached (update_monitor_cache s row now) j
      ≡ (if row.id == j then entry_of_row row else cached s j)
unfolding update_monitor_cache entry_of_row remove_monitor_from_cache
cached-update_monitor_cache s row now j v = elim (Bool-cases (str_eq (text row.status) "active")) [
  | inr e ↦ rw e (cached-remove_monitor_from_cache s row.id j)
  | inl e ↦ elim (Option-cases (find row.id s.monitors)) [
    | inl f ↦ rw (e, f, update_monitor_cache) (cached-track s row now j v)
    | inr (a, f) ↦ rw (e, f, update_monitor_cache) (cached-modify s row _ a j v f refl refl)
  ]
]

-- The cache's entry under `j` after the rows of an update: that of the last row of `j`, if any.
abbrev pub entry_after : List MonitorRow → ℕ → Option Entry → Option Entry
entry_after [] j e = e
entry_after (row ∷ rows) j e = entry_after rows j (if row.id == j then entry_of_row row else e)

pub update_rows-IsValid :
    (clock : ℕ → ℤ) (i : ℕ) (s : Scheduler) (rows : List MonitorRow)
    → IsValid s
    → IsValid (update_rows s (timed clock i rows))
unfolding update_rows timed
update_rows-IsValid clock i s [] v = v
update_rows-IsValid clock i s (row ∷ rows) v =
    update_rows-IsValid clock (suc i) (update_monitor_cache s row (clock i)) rows
      (update_monitor_cache-IsValid s row (clock i) v)

pub cached-update_rows :
    (clock : ℕ → ℤ) (i : ℕ) (s : Scheduler) (rows : List MonitorRow) (j : ℕ)
    → IsValid s
    → cached (update_rows s (timed clock i rows)) j ≡ entry_after rows j (cached s j)
unfolding update_rows timed
cached-update_rows clock i s [] j v = refl
cached-update_rows clock i s (row ∷ rows) j v =
    cached-update_rows clock (suc i) (update_monitor_cache s row (clock i)) rows j
      (update_monitor_cache-IsValid s row (clock i) v)
    ∙ ap (entry_after rows j) (cached-update_monitor_cache s row (clock i) j v)

abbrev pub all_active : List MonitorRow → Bool
all_active [] = true
all_active (row ∷ rows) = str_eq (text row.status) "active" && all_active rows

-- LoadActiveMonitors, from any scheduler: it keeps the scheduler valid and caches the rows.
pub cached-load_active_monitors :
    (clock : ℕ → ℤ) (i : ℕ) (s : Scheduler) (rows : List MonitorRow) (j : ℕ)
    → all_active rows ≡ true
    → IsValid s
    → cached (load_active_monitors s (timed clock i rows)) j ≡ entry_after rows j (cached s j)
unfolding load_active_monitors timed entry_of_row
cached-load_active_monitors clock i s [] j h v = refl
cached-load_active_monitors clock i s (row ∷ rows) j h v =
    let now = clock i in
    let t = track s row.id (scheduled_from_row row now) now in
    let active : str_eq (text row.status) "active" ≡ true = ground arith in
    cached-load_active_monitors clock (suc i) t rows j (ground arith)
      (track-IsValid s row.id (scheduled_from_row row now) now v refl refl)
    ∙ ap (entry_after rows j) (cached-track s row now j v ∙ rw active refl)
