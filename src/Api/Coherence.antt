-- ===== src/Api/Coherence.antt =====
-- internal/api/handlers with internal/poller/scheduler.go: requests on monitors and credential
-- profiles, whose cache events the scheduler handles. The scheduler's cache agrees with the tables.
pub mod Served
pub mod Quiet
pub mod Refreshed
pub mod Provisioned
pub mod Unaffected
pub mod Idle
pub mod Histories
use nmslite.Common.{
  ℕ, suc, ◌<◌, ℤ, ◌≡◌, refl, ◌∙◌, sym, ap, Bool, true, false, Option, none, some, List, [], ◌∷◌,
  ◌==◌, ==_iff, if◌then◌else◌, find, insert, find-insert, ◌⊎◌, inl, inr, arith, Bool-cases,
  Option-cases, find-erase, erase,
}
use nmslite.Common.Results.{Result, ok, err}
use nmslite.Database.{Monitor, MonitorRow, CredentialProfile}
use nmslite.Database.Tables.{
  Db, DbError, other_error, no_rows, ask, is_some, has_references, new_row, create_monitor,
  update_monitor, delete_monitor, find_row, join_row, joined, get_monitor_with_credentials,
}
use nmslite.Database.Joined.{Keyed, Keyed-insert, Keyed-erase, active, active-insert, active-erase}
use nmslite.Poller.Events.{CacheInvalidateEvent}
use nmslite.Poller.Scheduler.{Scheduler}
use nmslite.Poller.Scheduler.Cache.{on_cache_invalidate, remove_monitor_from_cache}
use nmslite.Poller.Scheduler.Cached.{
  cached, entry_after, update_rows-IsValid, cached-update_rows, cached-remove_monitor_from_cache,
}
use nmslite.Poller.Scheduler.Invariant.{IsValid, remove_monitor_from_cache-IsValid}
use nmslite.Api.Requests.{Api, send}
use nmslite.Api.Monitors.{push_update}

-- The scheduler handles the events in their order.
abbrev pub handled : (ℕ → ℤ) → Scheduler → Option (List CacheInvalidateEvent) → Scheduler
handled clock s none = s
handled clock s (some []) = s
handled clock s (some (event ∷ events)) =
    handled clock (on_cache_invalidate clock s event) (some events)

-- Every question to the database is answered.
abbrev pub IsCalm : Db → Type 0
IsCalm db = (n : ℕ) → db.fault n ≡ false

-- Tables with rows under their identifiers, where monitors refer to profiles that were given out.
pub record IsSound (db : Db) : Type 0 where
  pub keyed : Keyed db.monitors
  pub calm : IsCalm db
  pub known : (id : ℕ) (c : CredentialProfile) → find id db.profiles ≡ some c → id < db.next_profile
  pub fresh :
      (id : ℕ) (m : Monitor)
      → find id db.monitors ≡ some m
      → m.credential_profile_id < db.next_profile

-- Both sides are well formed, and under every identifier the scheduler holds the monitor and the
-- payload that the tables have for it, or nothing where they have no active monitor.
pub record Synced (db : Db) (s : Scheduler) : Type 0 where
  pub valid : IsValid s
  pub sound : IsSound db
  pub agrees : (id : ℕ) → cached s id ≡ active db id

-- The state that an action leaves, once the scheduler has handled its events.
abbrev pub Coherent : (ℕ → ℤ) → Scheduler → Api → Type 0
Coherent clock s a = Synced a.db (handled clock s a.sent)

abbrev pub start : Db → Api
start db = record { db = db; sent = some [] }

abbrev pub update_event : List MonitorRow → CacheInvalidateEvent
update_event rows = record { update_type = "update"; monitors = rows; monitor_ids = [] }

module _ (clock : ℕ → ℤ) (db : Db) (s : Scheduler) (v : Synced db s) where
  pub Coherent-asked : (n : ℕ) → Coherent clock s (start (record db { asked = n }))
  unfolding active find_row join_row
  Coherent-asked n = record {
    valid = v.valid;
    sound = record {
      keyed = v.sound.keyed;
      calm = v.sound.calm;
      known = v.sound.known;
      fresh = v.sound.fresh;
    };
    agrees = v.agrees;
  }

  -- Tables with rows that the scheduler is told of.
  pub Coherent-update :
      (db' : Db) (rows : List MonitorRow)
      → IsSound db'
      → ((id : ℕ) → entry_after rows id (active db id) ≡ active db' id)
      → Coherent clock s (record { db = db'; sent = some (update_event rows ∷ []) })
  unfolding on_cache_invalidate
  Coherent-update db' rows sound told = record {
    valid = update_rows-IsValid clock 0 s rows v.valid;
    sound = sound;
    agrees = λ id.
        cached-update_rows clock 0 s rows id v.valid
        ∙ ap (entry_after rows id) (v.agrees id)
        ∙ told id;
  }

  -- A monitor that is stored, whose joined row is sent.
  pub Coherent-stored :
      (n next : ℕ) (m : Monitor) (c : CredentialProfile)
      → find m.credential_profile_id db.profiles ≡ some c
      → Coherent clock s (record {
        db = record db { asked = n; monitors = insert m.id m db.monitors; next_monitor = next };
        sent = some (update_event (joined m c ∷ []) ∷ []);
      })
  unfolding active find_row join_row joined
  Coherent-stored n next m c e =
      Coherent-update
        (record db { asked = n; monitors = insert m.id m db.monitors; next_monitor = next })
        (joined m c ∷ [])
        (record {
          keyed = Keyed-insert db.monitors m v.sound.keyed;
          calm = v.sound.calm;
          known = v.sound.known;
          fresh = λ id u f. ground (
            arith,
            find-insert m.id id m db.monitors,
            v.sound.fresh id u,
            v.sound.known m.credential_profile_id c e,
          );
        })
        (λ id. sym (active-insert db m c id e))

  -- A monitor that is deleted, whose identifier is sent.
  pub Coherent-deleted :
      (n id : ℕ)
      → Coherent clock s (record {
        db = record db { asked = n; monitors = erase id db.monitors };
        sent = some (record { update_type = "delete"; monitors = []; monitor_ids = id ∷ [] } ∷ []);
      })
  unfolding active find_row join_row on_cache_invalidate
  Coherent-deleted n id = record {
    valid = remove_monitor_from_cache-IsValid s id v.valid;
    sound = record {
      keyed = Keyed-erase db.monitors id v.sound.keyed;
      calm = v.sound.calm;
      known = v.sound.known;
      fresh = λ j u f. ground (arith, find-erase id j db.monitors, v.sound.fresh j u);
    };
    agrees = λ j.
        cached-remove_monitor_from_cache s id j
        ∙ ap (λ e. if id == j then none else e) (v.agrees j)
        ∙ sym (active-erase db id j);
  }

-- What a statement that stores a monitor has done: nothing, or a row was stored that refers to an
-- existing profile.
pub data Stored (db : Db) (answer : Result DbError Monitor × Db) : Type 0 where
  refused : (e : DbError) → answer ≡ (err e, record db { asked = suc db.asked }) → Stored db answer
  stored :
      (m : Monitor) (c : CredentialProfile) (next : ℕ)
      → find m.credential_profile_id db.profiles ≡ some c
      → answer ≡ (
        ok m,
        record db {
          asked = suc db.asked;
          monitors = insert m.id m db.monitors;
          next_monitor = next;
        },
      )
      → Stored db answer

has_references_lem :
    (db : Db) (m : Monitor)
    → has_references db m ≡ true
    → (c : CredentialProfile) × (find m.credential_profile_id db.profiles ≡ some c)
unfolding has_references
has_references_lem db m h = elim (Option-cases (find m.credential_profile_id db.profiles)) [
  | inl e ↦ absurd (ground arith)
  | inr (c, e) ↦ (c, e)
]

pub create_monitor-Stored : (db : Db) (m : Monitor) → IsCalm db → Stored db (create_monitor m db)
unfolding create_monitor ask has_references new_row
create_monitor-Stored db m calm = elim (Bool-cases (has_references db (new_row db m))) [
  | inr e ↦ refused other_error (rw (calm db.asked, e) refl)
  | inl e ↦
      let (c, f) = has_references_lem db (new_row db m) e in
      stored (new_row db m) c (suc db.next_monitor) f (rw (calm db.asked, e) refl)
]

-- A statement that stores a monitor under an identifier that is in use.
pub update_monitor-Stored : (db : Db) (m : Monitor) → IsCalm db → Stored db (update_monitor m db)
unfolding update_monitor ask has_references
update_monitor-Stored db m calm = elim (Option-cases (find m.id db.monitors)) [
  | inl f ↦ refused no_rows (rw (calm db.asked, f) refl)
  | inr (old, f) ↦
      let row : Monitor = record m {
        discovery_profile_id = old.discovery_profile_id;
        created_at = old.created_at;
        updated_at = some db.now;
      } in
      elim (Bool-cases (has_references db row)) [
        | inr e ↦ refused other_error (rw (calm db.asked, f, e) refl)
        | inl e ↦
            let (c, g) = has_references_lem db row e in
            stored row c db.next_monitor g (rw (calm db.asked, f, e) refl)
      ]
]
