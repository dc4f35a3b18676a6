-- ===== src/Database/Tables/Discoveries.antt =====
-- internal/database/dbgen: the queries of discoveryProfiles.sql.go and discoveredDevices.sql.go.
use nmslite.Common.{
  ℕ, suc, pos, String, Bool, true, false, Option, none, some, [], ◌∷◌, ◌==◌, if◌then◌else◌, Assoc,
  find, insert, erase,
}
use nmslite.Common.Results.{Result, ok, err, or_err}
use nmslite.Database.{Monitor, DiscoveryProfile, DiscoveredDevice}
use nmslite.Database.Tables.{DbError, no_rows, other_error, Db, Query, is_some, ask, keep_db}

unfoldable pub get_discovered_device : ℕ → Query DiscoveredDevice
unfolding ask
get_discovered_device id = ask (λ db. keep_db db (or_err no_rows (find id db.devices)))

unfoldable pub get_discovery_profile : ℕ → Query DiscoveryProfile
unfolding ask
get_discovery_profile id = ask (λ db. keep_db db (or_err no_rows (find id db.discoveries)))

unfoldable pub update_discovered_device_status : ℕ → Option String → Query Unit
unfolding ask
update_discovered_device_status id status = ask (λ db. elim (find id db.devices) [
  | none ↦ ok (tt, db)
  | some d ↦
      let row = record d { status = status; updated_at = some db.now } in
      ok (tt, record db { devices = insert id row db.devices })
])

-- The discovery profile that a row refers to exists, if it refers to one.
abbrev pub names_profile : Db → Option ℕ → Bool
names_profile db none = true
names_profile db (some p) = is_some (find p db.discoveries)

-- CreateDiscoveredDevice, with the fields of the parameters as those of a device.
unfoldable pub create_discovered_device : DiscoveredDevice → Query DiscoveredDevice
unfolding ask
create_discovered_device d = ask (λ db.
    let row = record d {
      id = db.next_device;
      created_at = some db.now;
      updated_at = some db.now;
    } in
    if names_profile db d.discovery_profile_id
    then ok (
      row,
      record db { devices = insert row.id row db.devices; next_device = suc db.next_device },
    )
    else err other_error)

-- What CreateDiscoveryProfile does to the tables, with the fields of the parameters as those of a
-- profile.
abbrev pub create_discovery : DiscoveryProfile → Db → Result DbError (DiscoveryProfile × Db)
create_discovery p db =
    let row = record p {
      id = db.next_discovery;
      last_run_at = none;
      last_run_status = none;
      devices_discovered = some (pos 0);
      created_at = some db.now;
      updated_at = some db.now;
    } in
    if is_some (find p.credential_profile_id db.profiles)
    then ok (
      row,
      record db {
        discoveries = insert row.id row db.discoveries;
        next_discovery = suc db.next_discovery;
      },
    )
    else err other_error

-- CreateDiscoveryProfile, with the fields of the parameters as those of a profile.
unfoldable pub create_discovery_profile : DiscoveryProfile → Query DiscoveryProfile
unfolding ask
create_discovery_profile p = ask (create_discovery p)

abbrev pub update_discovery : DiscoveryProfile → Db → Result DbError (DiscoveryProfile × Db)
update_discovery p db = elim (find p.id db.discoveries) [
  | none ↦ err no_rows
  | some old ↦
      let row = record p {
        last_run_at = old.last_run_at;
        last_run_status = old.last_run_status;
        devices_discovered = old.devices_discovered;
        created_at = old.created_at;
        updated_at = some db.now;
      } in
      if is_some (find p.credential_profile_id db.profiles)
      then ok (row, record db { discoveries = insert p.id row db.discoveries })
      else err other_error
]

-- UpdateDiscoveryProfile: the row keeps what its runs have left, and its time of creation.
unfoldable pub update_discovery_profile : DiscoveryProfile → Query DiscoveryProfile
unfolding ask
update_discovery_profile p = ask (update_discovery p)

-- Whether a monitor refers to the discovery profile.
unfoldable pub found_by : ℕ → Assoc Monitor → Bool
found_by id [] = false
found_by id ((k, m) ∷ rest) =
    let later = found_by id rest in if m.discovery_profile_id == id then true else later

-- The devices that were not found by the discovery profile.
unfoldable pub other_devices : ℕ → Assoc DiscoveredDevice → Assoc DiscoveredDevice
other_devices id [] = []
other_devices id ((k, d) ∷ rest) =
    let later = other_devices id rest in
    elim d.discovery_profile_id [
      | none ↦ (k, d) ∷ later
      | some p ↦ if p == id then later else (k, d) ∷ later
    ]

abbrev pub delete_discovery : ℕ → Db → Result DbError (Unit × Db)
delete_discovery id db =
    if found_by id db.monitors
    then err other_error
    else ok (
      tt,
      record db { discoveries = erase id db.discoveries; devices = other_devices id db.devices },
    )

-- DeleteDiscoveryProfile; its devices go with it, and a profile that a monitor refers to is kept,
-- with an error.
unfoldable pub delete_discovery_profile : ℕ → Query Unit
unfolding ask
delete_discovery_profile id = ask (delete_discovery id)

unfoldable pub delete_discovered_device : ℕ → Query Unit
unfolding ask
delete_discovered_device id = ask (λ db. ok (tt, record db { devices = erase id db.devices }))
