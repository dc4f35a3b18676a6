-- ===== src/Api/Lists.antt =====
-- internal/api/handlers: the handlers that list, in monitors.go, credentialHandlers.go, discovery.go and
-- devices.go. SendListResponse of internal/api/common/helpers.go sends the rows and their number.
use nmslite.Common.{
  ℕ, String, str_eq, ◌≡◌, refl, ◌∙◌, false, Option, none, some, inl, inr, Option-cases, List, [],
  ◌∷◌, length, total, find, map, arith,
}
use nmslite.Common.Results.{Result, ok, err}
use nmslite.Database.{Monitor, CredentialProfile, DiscoveryProfile, DiscoveredDevice}
use nmslite.Database.Tables.{ask}
use nmslite.Database.Tables.Discoveries.{get_discovery_profile}
use nmslite.Database.Tables.Profiles.{get_credential_profile}
use nmslite.Database.Listed.{
  Orders, IsOrder, rows_of, list_credential_profiles, list_monitors, list_discovery_profiles,
  list_all_discovered_devices, list_discovered_devices,
}
use nmslite.Api.Requests.{Api, Action, Failure, ◌>>=◌, pure, query, parse_id_param}
use nmslite.Api.Profiles.{Vault, shown}
use nmslite.Api.Profiles.{get as get_profile}
use nmslite.Api.Discoveries.{Requests, with_target}
use nmslite.Api.Discoveries.{get as get_discovery}

-- A status, the rows and their number.
abbrev Listing : Type 0 → Type 0
Listing A = ℕ × List A × ℕ

-- SendListResponse
abbrev send_list : {A : Type 0} → List A → Action (Listing A)
send_list rows = pure (200, rows, length rows)

module _ (o : Orders) where
  -- MonitorHandler.List
  unfoldable all_monitors : Action (Listing Monitor)
  unfolding query list_monitors
  all_monitors = do monitors ← query "Monitor" (list_monitors o); send_list monitors

  -- CredentialHandler.List
  unfoldable pub all_profiles : Vault → Action (Listing CredentialProfile)
  unfolding query list_credential_profiles
  all_profiles vault = do
    profiles ← query "Credential Profile" (list_credential_profiles o)
    send_list (map (shown vault) profiles)

  -- DiscoveryHandler.List
  unfoldable pub all_discoveries : Vault → Action (Listing DiscoveryProfile)
  unfolding query list_discovery_profiles
  all_discoveries vault = do
    profiles ← query "Discovery Profile" (list_discovery_profiles o)
    send_list (map (with_target vault) profiles)

  -- DeviceHandler.List
  unfoldable all_devices : Action (Listing DiscoveredDevice)
  unfolding query list_all_discovered_devices
  all_devices = do devices ← query "Device" (list_all_discovered_devices o); send_list devices

  -- DiscoveryHandler.GetResults
  unfoldable get_results : (String → Option ℕ) → String → Action (Listing DiscoveredDevice)
  unfolding parse_id_param query list_discovered_devices
  get_results parse_int param = do
    id ← parse_id_param parse_int param
    results ← query "Discovery results" (list_discovered_devices o id)
    send_list results

total-map :
    {A B : Type 0} (w : B → ℕ) (f : A → B) (xs : List A)
    → total w (map f xs) ≡ total (λ x. w (f x)) xs
total-map w f [] = refl
total-map w f (x ∷ xs) = omega (arith, total-map w f xs)

-- What Get answers, by the row that stands under the identifier: the row as it is shown, or 404.
abbrev pub get_answer : {A B : Type 0} → String → (A → B) → Option A → Result Failure B
get_answer message show none = err (record { status = 404; code = "NOT_FOUND"; message = message })
get_answer message show (some row) = ok (show row)

profile_lem :
    (vault : Vault) (parse_int : String → Option ℕ) (param : String) (id : ℕ) (a : Api)
    → str_eq param "" ≡ false
    → parse_int param ≡ some id
    → a.db.fault a.db.asked ≡ false
    → (get_profile vault parse_int param a).0
      ≡ get_answer "Credential Profile not found"
          (λ c. (200, some (shown vault c)))
          (find id a.db.profiles)
unfolding get_profile parse_id_param query get_credential_profile ask
profile_lem vault parse_int param id a e f calm = elim (Option-cases (find id a.db.profiles)) [
  | inl g ↦ rw (e, f, calm, g) refl
  | inr (c, g) ↦ rw (e, f, calm, g) refl
]

discovery_lem :
    (vault : Vault) (parse_int : String → Option ℕ) (param : String) (id : ℕ)
    (channel : Option Requests) (a : Api)
    → str_eq param "" ≡ false
    → parse_int param ≡ some id
    → a.db.fault a.db.asked ≡ false
    → (get_discovery vault parse_int param channel a).0
      ≡ get_answer "Discovery Profile not found"
          (λ c. (200, some (with_target vault c), channel))
          (find id a.db.discoveries)
unfolding get_discovery parse_id_param query get_discovery_profile ask
discovery_lem vault parse_int param id channel a e f calm =
    elim (Option-cases (find id a.db.discoveries)) [
      | inl g ↦ rw (e, f, calm, g) refl
      | inr (c, g) ↦ rw (e, f, calm, g) refl
    ]

-- A list that is answered: the rows of the table as they are shown, each as often as it stands there, and
-- their number.
pub data Covers {A : Type 0} (answer : Result Failure (Listing A)) (show : A → A) (table : List A)
    : Type 0 where
  covers :
      (rows : List A)
      → answer ≡ ok (200, rows, length rows)
      → ((w : A → ℕ) → total w rows ≡ total (λ c. w (show c)) table)
      → Covers answer show table

all_profiles-Covers :
    (o : Orders) (vault : Vault) (a : Api)
    → IsOrder o
    → a.db.fault a.db.asked ≡ false
    → Covers (all_profiles o vault a).0 (shown vault) (rows_of a.db.profiles)
unfolding all_profiles query list_credential_profiles ask
all_profiles-Covers o vault a order calm =
    covers (map (shown vault) (o.profiles (rows_of a.db.profiles))) (rw calm refl) (λ w.
      total-map w (shown vault) (o.profiles (rows_of a.db.profiles))
      ∙ order.same_profiles (λ c. w (shown vault c)) (rows_of a.db.profiles))

all_discoveries-Covers :
    (o : Orders) (vault : Vault) (a : Api)
    → IsOrder o
    → a.db.fault a.db.asked ≡ false
    → Covers (all_discoveries o vault a).0 (with_target vault) (rows_of a.db.discoveries)
unfolding all_discoveries query list_discovery_profiles ask
all_discoveries-Covers o vault a order calm =
    covers (map (with_target vault) (o.discoveries (rows_of a.db.discoveries))) (rw calm refl) (λ w.
      total-map w (with_target vault) (o.discoveries (rows_of a.db.discoveries))
      ∙ order.same_discoveries (λ c. w (with_target vault c)) (rows_of a.db.discoveries))

-- Where the database answers: the lists of credential profiles and of discovery profiles have, as often,
-- what the tables hold, shown as Get shows it, and their number; and Get of an identifier that is read
-- answers, for either kind, with the profile that stands under it as the list shows it, or with 404 and
-- a message that names the kind where none does.
pub all_profiles-get :
    (o : Orders) (vault : Vault) (a : Api) (parse_int : String → Option ℕ) (param : String) (id : ℕ)
    (channel : Option Requests)
    → IsOrder o
    → a.db.fault a.db.asked ≡ false
    → str_eq param "" ≡ false
    → parse_int param ≡ some id
    → Covers (all_profiles o vault a).0 (shown vault) (rows_of a.db.profiles)
      × Covers (all_discoveries o vault a).0 (with_target vault) (rows_of a.db.discoveries)
      × ((get_profile vault parse_int param a).0
          ≡ get_answer "Credential Profile not found"
              (λ c. (200, some (shown vault c)))
              (find id a.db.profiles))
      × ((get_discovery vault parse_int param channel a).0
          ≡ get_answer "Discovery Profile not found"
              (λ c. (200, some (with_target vault c), channel))
              (find id a.db.discoveries))
all_profiles-get o vault a parse_int param id channel order calm named read = (
  all_profiles-Covers o vault a order calm,
  all_discoveries-Covers o vault a order calm,
  profile_lem vault parse_int param id a named read calm,
  discovery_lem vault parse_int param id channel a named read calm,
)
