-- ===== src/Database/Tables/Profiles.antt =====
-- internal/database/dbgen/credentialProfiles.sql.go: the queries of credential profiles.
use nmslite.Common.{
  ℕ, suc, Bool, true, false, none, some, List, [], ◌∷◌, ◌==◌, if◌then◌else◌, Assoc, find, insert,
  erase,
}
use nmslite.Common.Results.{ok, err, or_err}
use nmslite.Database.{Monitor, CredentialProfile, DiscoveryProfile}
use nmslite.Database.Tables.{no_rows, other_error, Query, ask, keep_db}

unfoldable pub get_credential_profile : ℕ → Query CredentialProfile
unfolding ask
get_credential_profile id = ask (λ db. keep_db db (or_err no_rows (find id db.profiles)))

-- A payload that is left out is nil, which goes to the database as NULL; the column refuses it.
abbrev pub is_null : List ℕ → Bool
is_null [] = true
is_null (b ∷ bs) = false

-- CreateCredentialProfile, with the fields of the parameters as those of a profile.
unfoldable pub create_credential_profile : CredentialProfile → Query CredentialProfile
unfolding ask
create_credential_profile c = ask (λ db.
    let row = record c {
      id = db.next_profile;
      created_at = some db.now;
      updated_at = some db.now;
    } in
    if is_null c.payload
    then err other_error
    else ok (
      row,
      record db { profiles = insert row.id row db.profiles; next_profile = suc db.next_profile },
    ))

unfoldable pub update_credential_profile : CredentialProfile → Query CredentialProfile
unfolding ask
update_credential_profile c = ask (λ db. elim (find c.id db.profiles) [
  | none ↦ err no_rows
  | some old ↦
      let row = record c { created_at = old.created_at; updated_at = some db.now } in
      if is_null c.payload
      then err other_error
      else ok (row, record db { profiles = insert c.id row db.profiles })
])

-- Whether a monitor uses the profile.
unfoldable pub used_by_monitor : ℕ → Assoc Monitor → Bool
used_by_monitor c [] = false
used_by_monitor c ((k, m) ∷ rest) =
    let later = used_by_monitor c rest in if m.credential_profile_id == c then true else later

unfoldable pub used_by_discovery : ℕ → Assoc DiscoveryProfile → Bool
used_by_discovery c [] = false
used_by_discovery c ((k, p) ∷ rest) =
    let later = used_by_discovery c rest in if p.credential_profile_id == c then true else later

-- DeleteCredentialProfile; a profile that is in use is kept, with an error.
unfoldable pub delete_credential_profile : ℕ → Query Unit
unfolding ask used_by_monitor used_by_discovery
delete_credential_profile id = ask (λ db.
    if used_by_monitor id db.monitors
    then err other_error
    else if used_by_discovery id db.discoveries
    then err other_error
    else ok (tt, record db { profiles = erase id db.profiles }))
