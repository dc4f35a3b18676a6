-- ===== src/Api/Tests/Discoveries.antt =====
-- The theorems on discovery profiles, the router and logins, applied to small inputs.
use nmslite.Common.{
  ℕ, pos, String, ◌≡◌, refl, false, Option, none, some, [], ◌∷◌, ◌++◌, insert, find,
}
use nmslite.Common.Results.{ok}
use nmslite.Database.{DiscoveryProfile}
use nmslite.Database.Tables.{ask}
use nmslite.Database.Tables.Discoveries.{create_discovery_profile, get_discovery_profile}
use nmslite.Auth.Security.{encrypt, gcm_of}
use nmslite.Auth.Tests.{zeros}
use nmslite.Api.Requests.{Api, query, decode_json}
use nmslite.Api.Secrets.{vault_of}
use nmslite.Api.Discoveries.{Requests, create, get, run, trigger_discovery, with_target}
use nmslite.Api.Targets.{get-create}
use nmslite.Api.Lists.{Covers, all_profiles, all_discoveries, all_profiles-get}
use nmslite.Api.Profiles.{shown}
use nmslite.Api.Profiles.{get as get_profile}
use nmslite.Database.Listed.{Orders, IsOrder}
use nmslite.Api.Targets.Rows.{Shows}
use nmslite.Api.Triggered.{Triggers, run-Triggers}
use nmslite.Api.Tests.{parts, parts-IsParts, discovery, stored, tables, api, always_one}

abbrev kept : DiscoveryProfile
kept = record discovery {
  id = 2;
  target_value = zeros 12 ++ b'x' ∷ [];
  created_at = some (pos 5);
  updated_at = some (pos 5);
}

abbrev with_kept : Api
with_kept = record {
  db = record tables {
    discoveries = (1, discovery) ∷ (2, kept) ∷ [];
    next_discovery = 3;
    asked = 1;
  };
  sent = none;
}

discovery-created :
    create (vault_of parts) (some discovery) none api ≡ (ok (201, some kept, none), with_kept)
unfolding create vault_of decode_json query create_discovery_profile ask insert encrypt gcm_of
    trigger_discovery find
discovery-created = refl

abbrev always_two : String → Option ℕ
always_two t = some 2

get-create_example :
    (shown : DiscoveryProfile) × ((get (vault_of parts) always_two "2" none with_kept).0
      ≡ ok (200, some shown, none))
    × Shows discovery shown
get-create_example =
    get-create parts always_two "2" "" none none discovery kept api with_kept parts-IsParts
      discovery-created refl refl refl

-- A channel with room for one event.
abbrev channel : Requests
channel = record { waiting = []; capacity = 1; has_ended = false; takes_send = false; now = pos 7 }

discovery-found : (get_discovery_profile 1 tables).0 ≡ ok discovery
unfolding get_discovery_profile ask find
discovery-found = refl

run-Triggers_example :
    (left : Requests) × ((run always_one "1" (some channel) api).0 ≡ ok (202, none, some left))
    × Triggers channel left 1
run-Triggers_example = run-Triggers always_one "1" 1 discovery channel api refl refl discovery-found

-- A database that lists rows as they stand.
abbrev as_stored : Orders
as_stored = record {
  profiles = λ rows. rows;
  monitors = λ rows. rows;
  discoveries = λ rows. rows;
  devices = λ rows. rows;
}

as_stored-IsOrder : IsOrder as_stored
as_stored-IsOrder = record {
  same_profiles = λ w rows. refl;
  same_monitors = λ w rows. refl;
  same_discoveries = λ w rows. refl;
  same_devices = λ w rows. refl;
}

abbrev with_stored : Api
with_stored = record { db = record tables { profiles = (1, stored) ∷ [] }; sent = none }

all_profiles-get_example :
    Covers
      (all_profiles as_stored (vault_of parts) with_stored).0
      (shown (vault_of parts))
      (stored ∷ [])
    × Covers
        (all_discoveries as_stored (vault_of parts) with_stored).0
        (with_target (vault_of parts))
        (discovery ∷ [])
    × ((get_profile (vault_of parts) always_one "1" with_stored).0
        ≡ ok (200, some (shown (vault_of parts) stored)))
    × ((get (vault_of parts) always_one "1" none with_stored).0
        ≡ ok (200, some (with_target (vault_of parts) discovery), none))
unfolding find
all_profiles-get_example =
    all_profiles-get as_stored (vault_of parts) with_stored always_one "1" 1 none as_stored-IsOrder
      refl refl refl
