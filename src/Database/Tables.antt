-- ===== src/Database/Tables.antt =====
-- internal/database/dbgen: the queries of monitors.sql.go that the handlers use, and what all queries
-- share: tables by identifier, with the foreign keys of the schema (internal/database/migrations). A
-- statement that fails changes nothing. Each query asks the database once; `fault` says which of these
-- questions, counted from 0, it does not answer.
pub mod Discoveries
pub mod Profiles
use nmslite.Common.{
  ℕ, suc, ℤ, pos, String, str_eq, Bool, true, false, ◌&&◌, ◌||◌, Option, none, some, List, [], ◌∷◌,
  ◌==◌, if◌then◌else◌, Assoc, find, insert, erase,
}
use nmslite.Common.Results.{Result, ok, err, or_err}
use nmslite.Database.{
  Monitor, MonitorRow, CredentialProfile, DiscoveryProfile, DiscoveredDevice, text,
}

-- `no_rows` is pgx.ErrNoRows.
pub data DbError : Type 0 where
  no_rows other_error : DbError

pub record Db : Type 0 where
  pub monitors : Assoc Monitor
  pub profiles : Assoc CredentialProfile
  pub discoveries : Assoc DiscoveryProfile
  pub devices : Assoc DiscoveredDevice
  pub next_monitor : ℕ
  pub next_profile : ℕ
  pub next_device : ℕ
  pub next_discovery : ℕ
  pub now : ℤ
  pub asked : ℕ
  pub fault : ℕ → Bool

abbrev pub is_some {ℓ} : {A : Type ℓ} → Option A → Bool
is_some none = false
is_some (some a) = true

-- One statement: its answer, with the state it leaves.
abbrev pub Query : Type 0 → Type 0
Query A = Db → Result DbError A × Db

abbrev pub settle : {A : Type 0} → Db → Result DbError (A × Db) → Result DbError A × Db
settle db (ok (a, db')) = (ok a, db')
settle db (err e) = (err e, db)

unfoldable pub ask : {A : Type 0} → (Db → Result DbError (A × Db)) → Query A
ask statement db =
    let asked = record db { asked = suc db.asked } in
    let answer = statement asked in
    if db.fault db.asked then (err other_error, asked) else settle asked answer

-- COALESCE
abbrev or_else {ℓ} : {A : Type ℓ} → Option A → A → A
or_else none d = d
or_else (some a) d = a

unfoldable pub get_monitor : ℕ → Query Monitor
unfolding ask
get_monitor id =
    ask (λ db. or_err no_rows (elim (find id db.monitors) [ none ↦ none | some m ↦ some (m, db) ]))

-- A monitor refers to profiles that exist.
unfoldable pub has_references : Db → Monitor → Bool
has_references db m =
    is_some (find m.credential_profile_id db.profiles)
    && is_some (find m.discovery_profile_id db.discoveries)

-- The row that CreateMonitor stores: a new identifier, and the defaults of the statement.
unfoldable pub new_row : Db → Monitor → Monitor
new_row db m = record m {
  id = db.next_monitor;
  polling_interval_seconds = some (or_else m.polling_interval_seconds (pos 60));
  status = some (or_else m.status "active");
  created_at = some db.now;
  updated_at = some db.now;
}

-- CreateMonitor, with the fields of the parameters as those of a monitor.
unfoldable pub create_monitor : Monitor → Query Monitor
unfolding ask has_references new_row
create_monitor m = ask (λ db.
    let row = new_row db m in
    if has_references db row
    then ok (
      row,
      record db { monitors = insert row.id row db.monitors; next_monitor = suc db.next_monitor },
    )
    else err other_error)

-- UpdateMonitor: the row keeps its discovery profile and its time of creation.
unfoldable pub update_monitor : Monitor → Query Monitor
unfolding ask has_references
update_monitor m = ask (λ db. elim (find m.id db.monitors) [
  | none ↦ err no_rows
  | some old ↦
      let row = record m {
        discovery_profile_id = old.discovery_profile_id;
        created_at = old.created_at;
        updated_at = some db.now;
      } in
      if has_references db row
      then ok (row, record db { monitors = insert m.id row db.monitors })
      else err other_error
])

-- DeleteMonitor; metrics go with the monitor.
unfoldable pub delete_monitor : ℕ → Query Unit
unfolding ask
delete_monitor id = ask (λ db. ok (tt, record db { monitors = erase id db.monitors }))

-- A monitor joined with a credential profile.
unfoldable pub joined : Monitor → CredentialProfile → MonitorRow
joined m c = record {
  id = m.id;
  display_name = m.display_name;
  hostname = m.hostname;
  ip_address = m.ip_address;
  plugin_id = m.plugin_id;
  credential_profile_id = m.credential_profile_id;
  discovery_profile_id = m.discovery_profile_id;
  port = m.port;
  polling_interval_seconds = m.polling_interval_seconds;
  status = m.status;
  created_at = m.created_at;
  updated_at = m.updated_at;
  payload = c.payload;
}

unfoldable pub join_row : Db → Monitor → Option MonitorRow
unfolding joined
join_row db m = elim (find m.credential_profile_id db.profiles) [
  | none ↦ none
  | some c ↦ some (joined m c)
]

unfoldable pub find_row : Db → ℕ → Option MonitorRow
unfolding join_row
find_row db id = elim (find id db.monitors) [ none ↦ none | some m ↦ join_row db m ]

abbrev pub keep_db : {A : Type 0} → Db → Result DbError A → Result DbError (A × Db)
keep_db db (ok a) = ok (a, db)
keep_db db (err e) = err e

unfoldable pub get_monitor_with_credentials : ℕ → Query MonitorRow
unfolding ask find_row
get_monitor_with_credentials id = ask (λ db. keep_db db (or_err no_rows (find_row db id)))

abbrev pub has_id : ℕ → List ℕ → Bool
has_id k [] = false
has_id k (id ∷ ids) = id == k || has_id k ids

unfoldable pub existing_ids : Assoc Monitor → List ℕ → List ℕ
existing_ids [] ids = []
existing_ids ((k, m) ∷ rest) ids =
    let later = existing_ids rest ids in if has_id k ids then k ∷ later else later

unfoldable pub get_existing_monitor_ids : List ℕ → Query (List ℕ)
unfolding ask existing_ids
get_existing_monitor_ids ids = ask (λ db. ok (existing_ids db.monitors ids, db))

-- The rows of the active monitors.
unfoldable pub active_rows : Db → Assoc Monitor → List MonitorRow
unfolding join_row
active_rows db [] = []
active_rows db ((k, m) ∷ rest) =
    let rows = active_rows db rest in
    if str_eq (text m.status) "active"
    then elim (join_row db m) [ none ↦ rows | some row ↦ row ∷ rows ]
    else rows

unfoldable list_active_monitors_with_credentials : Query (List MonitorRow)
unfolding ask active_rows
list_active_monitors_with_credentials = ask (λ db. ok (active_rows db db.monitors, db))

-- The rows of the monitors with this credential profile.
unfoldable pub rows_with : Db → ℕ → Assoc Monitor → List MonitorRow
unfolding join_row
rows_with db c [] = []
rows_with db c ((k, m) ∷ rest) =
    let rows = rows_with db c rest in
    if m.credential_profile_id == c
    then elim (join_row db m) [ none ↦ rows | some row ↦ row ∷ rows ]
    else rows

unfoldable pub get_monitors_with_credentials_by_credential_id : ℕ → Query (List MonitorRow)
unfolding ask rows_with
get_monitors_with_credentials_by_credential_id c = ask (λ db. ok (rows_with db c db.monitors, db))
