-- ===== src/Database/Listed.antt =====
-- internal/database/dbgen: the queries that list a table. The order of the rows (ORDER BY) is an
-- argument: it depends on a collation, and on the order of rows that are equal.
use nmslite.Common.{ℕ, ◌==◌, ◌≡◌, none, some, List, [], ◌∷◌, Assoc, total, if◌then◌else◌}
use nmslite.Common.Results.{ok}
use nmslite.Database.{Monitor, CredentialProfile, DiscoveryProfile, DiscoveredDevice}
use nmslite.Database.Tables.{Query, ask}

pub record Orders : Type 0 where
  -- by name
  pub profiles : List CredentialProfile → List CredentialProfile
  -- by the time of creation, the latest first
  pub monitors : List Monitor → List Monitor
  pub discoveries : List DiscoveryProfile → List DiscoveryProfile
  pub devices : List DiscoveredDevice → List DiscoveredDevice

-- An order keeps the rows, as often.
pub record IsOrder (o : Orders) : Type 0 where
  pub same_profiles :
      (w : CredentialProfile → ℕ) (rows : List CredentialProfile)
      → total w (o.profiles rows) ≡ total w rows
  pub same_monitors :
      (w : Monitor → ℕ) (rows : List Monitor) → total w (o.monitors rows) ≡ total w rows
  pub same_discoveries :
      (w : DiscoveryProfile → ℕ) (rows : List DiscoveryProfile)
      → total w (o.discoveries rows) ≡ total w rows
  pub same_devices :
      (w : DiscoveredDevice → ℕ) (rows : List DiscoveredDevice)
      → total w (o.devices rows) ≡ total w rows

abbrev pub rows_of {ℓ} : {A : Type ℓ} → Assoc A → List A
rows_of [] = []
rows_of ((k, row) ∷ rest) = row ∷ rows_of rest

-- The devices that a discovery profile has found.
unfoldable found_by_profile : ℕ → List DiscoveredDevice → List DiscoveredDevice
found_by_profile id [] = []
found_by_profile id (d ∷ ds) =
    let rest = found_by_profile id ds in
    elim d.discovery_profile_id [ none ↦ rest | some p ↦ if p == id then d ∷ rest else rest ]

module _ (o : Orders) where
  unfoldable pub list_credential_profiles : Query (List CredentialProfile)
  unfolding ask
  list_credential_profiles = ask (λ db. ok (o.profiles (rows_of db.profiles), db))

  unfoldable pub list_monitors : Query (List Monitor)
  unfolding ask
  list_monitors = ask (λ db. ok (o.monitors (rows_of db.monitors), db))

  unfoldable pub list_discovery_profiles : Query (List DiscoveryProfile)
  unfolding ask
  list_discovery_profiles = ask (λ db. ok (o.discoveries (rows_of db.discoveries), db))

  unfoldable pub list_all_discovered_devices : Query (List DiscoveredDevice)
  unfolding ask
  list_all_discovered_devices = ask (λ db. ok (o.devices (rows_of db.devices), db))

  unfoldable pub list_discovered_devices : ℕ → Query (List DiscoveredDevice)
  unfolding ask found_by_profile
  list_discovered_devices id =
      ask (λ db. ok (o.devices (found_by_profile id (rows_of db.devices)), db))
