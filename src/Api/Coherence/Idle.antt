-- ===== src/Api/Coherence/Idle.antt =====
-- internal/api/handlers/discovery.go and devices.go: each request on discovery profiles and devices
-- keeps the scheduler's cache in agreement with the tables.
use nmslite.Common.{
  ℕ, ℤ, String, str_eq, ◌||◌, not, ◌≡◌, refl, sym, subst, Bool, true, false, Option, List, inl, inr,
  Option-cases, if◌then◌else◌,
}
use nmslite.Common.Results.{Result, ok, err}
use nmslite.Database.{DiscoveryProfile}
use nmslite.Database.Tables.{Db}
use nmslite.Database.Tables.Discoveries.{
  create_discovery_profile, update_discovery_profile, delete_discovery_profile,
  get_discovery_profile, get_discovered_device, delete_discovered_device,
}
use nmslite.Poller.Scheduler.{Scheduler}
use nmslite.Api.Requests.{Api, Action, pure, fail, query, parse_id_param, decode_json}
use nmslite.Api.Profiles.{Vault}
use nmslite.Api.Discoveries
use nmslite.Api.Discoveries.{Requests, encrypt_target, require_target, has_target}
use nmslite.Api.Devices
use nmslite.Api.Coherence.{Synced, Coherent, start}
use nmslite.Database.{Monitor}
use nmslite.Api.Requests.{and_then}
use nmslite.Discovery.Provisioning.{Surroundings, ProvisionError, provision_from_id}
use nmslite.Api.Coherence.Served.{parse-cases}
use nmslite.Api.Coherence.Provisioned.{provision_from_id-Coherent}
use nmslite.Api.Coherence.Unaffected.{
  Still, bind-Still, pure-Still, fail-Still, query-Still, decode-Still, parse-Still,
  create_discovery-Synced, update_discovery-Synced, delete_discovery-Synced, get_discovery-Synced,
  get_device-Synced, delete_device-Synced,
}

module _ (s : Scheduler) where
  require_target-Still : (v : Vault) (input : DiscoveryProfile) → Still s (require_target v input)
  require_target-Still v input = choose (str_eq input.name "" || not (has_target v input))
    where
      choose :
          (b : Bool)
          → Still s (
              if b
              then fail 400 "VALIDATION_ERROR" "Name and TargetValue are required"
              else pure tt)
      choose true = fail-Still s Unit 400 "VALIDATION_ERROR" "Name and TargetValue are required"
      choose false = pure-Still s tt

  encrypt_target-Still : (v : Vault) (target : List ℕ) → Still s (encrypt_target v target)
  unfolding Still
  encrypt_target-Still v target db w = elim (Option-cases (v.encrypt target)) [
    | inl e ↦ (db, rw (e, encrypt_target) refl, w)
    | inr (text, e) ↦ (db, rw (e, encrypt_target) refl, w)
  ]

  module _ (vault : Vault) (parse_int : String → Option ℕ) (channel : Option Requests) where
    pub create-Still :
        (body : Option DiscoveryProfile) → Still s (Discoveries.create vault body channel)
    unfolding Discoveries.create
    create-Still body = bind-Still s (decode_json body) _ (decode-Still s body) (λ input.
        bind-Still s (require_target vault input) _ (require_target-Still vault input) (λ u.
          bind-Still s (encrypt_target vault input.target_value) _
            (encrypt_target-Still vault input.target_value)
            (λ target.
              let row : DiscoveryProfile = record input { target_value = target } in
              bind-Still s (query "Discovery Profile" (create_discovery_profile row)) _
                (query-Still s "Discovery Profile" (create_discovery_profile row)
                  (create_discovery-Synced s row))
                (λ profile. pure-Still s _))))

    pub get-Still : (param : String) → Still s (Discoveries.get vault parse_int param channel)
    unfolding Discoveries.get
    get-Still param =
        bind-Still s (parse_id_param parse_int param) _ (parse-Still s parse_int param) (λ id.
          bind-Still s (query "Discovery Profile" (get_discovery_profile id)) _
            (query-Still s "Discovery Profile" (get_discovery_profile id)
              (get_discovery-Synced s id))
            (λ profile. pure-Still s _))

    pub update-Still :
        (param : String) (body : Option DiscoveryProfile)
        → Still s (Discoveries.update vault parse_int param body channel)
    unfolding Discoveries.update
    update-Still param body =
        bind-Still s (parse_id_param parse_int param) _ (parse-Still s parse_int param) (λ id.
          bind-Still s (decode_json body) _ (decode-Still s body) (λ input.
            bind-Still s (encrypt_target vault input.target_value) _
              (encrypt_target-Still vault input.target_value)
              (λ target.
                let row : DiscoveryProfile = record input { id = id; target_value = target } in
                bind-Still s (query "Discovery Profile" (update_discovery_profile row)) _
                  (query-Still s "Discovery Profile" (update_discovery_profile row)
                    (update_discovery-Synced s row))
                  (λ profile. pure-Still s _))))

    pub delete-Still : (param : String) → Still s (Discoveries.delete parse_int param channel)
    unfolding Discoveries.delete
    delete-Still param =
        bind-Still s (parse_id_param parse_int param) _ (parse-Still s parse_int param) (λ id.
          bind-Still s (query "Discovery Profile" (delete_discovery_profile id)) _
            (query-Still s "Discovery Profile" (delete_discovery_profile id)
              (delete_discovery-Synced s id))
            (λ u. pure-Still s _))

    pub run-Still : (param : String) → Still s (Discoveries.run parse_int param channel)
    unfolding Discoveries.run
    run-Still param =
        bind-Still s (parse_id_param parse_int param) _ (parse-Still s parse_int param) (λ id.
          bind-Still s (query "Discovery profile" (get_discovery_profile id)) _
            (query-Still s "Discovery profile" (get_discovery_profile id)
              (get_discovery-Synced s id))
            (λ profile. pure-Still s _))

  module _ (parse_int : String → Option ℕ) where
    pub get_device-Still : (param : String) → Still s (Devices.get parse_int param)
    unfolding Devices.get
    get_device-Still param =
        bind-Still s (parse_id_param parse_int param) _ (parse-Still s parse_int param) (λ id.
          bind-Still s (query "Device" (get_discovered_device id)) _
            (query-Still s "Device" (get_discovered_device id) (get_device-Synced s id))
            (λ device. pure-Still s _))

    pub delete_device-Still : (param : String) → Still s (Devices.delete parse_int param)
    unfolding Devices.delete
    delete_device-Still param =
        bind-Still s (parse_id_param parse_int param) _ (parse-Still s parse_int param) (λ id.
          bind-Still s (query "Device" (delete_discovered_device id)) _
            (query-Still s "Device" (delete_discovered_device id) (delete_device-Synced s id))
            (λ u. pure-Still s _))

  pub Still-Coherent :
      {A : Type 0} (m : Action A) (clock : ℕ → ℤ) (db : Db)
      → Still s m
      → Synced db s
      → Coherent clock s (m (start db)).1
  unfolding Still
  Still-Coherent m clock db still v =
      let (db', e, v') = still db v in subst (λ a. Coherent clock s a) (sym e) v'

-- Provision ends where the provisioner does.
provisioned-state :
    (parse_int : String → Option ℕ) (r : Result ProvisionError Monitor × Api)
    → (and_then {A = Monitor} {B = ℕ × Monitor}
        (Devices.provisioned parse_int r)
        (λ monitor. pure (201, monitor))).1
      ≡ r.1
provisioned-state parse_int (ok x, a) = refl
provisioned-state parse_int (err x, a) = refl

pub provision-Coherent :
    (clock : ℕ → ℤ) (s : Scheduler) (parse_int : String → Option ℕ) (w : Surroundings)
    (param : String) (db : Db)
    → w.sends ≡ true
    → Synced db s
    → Coherent clock s (Devices.provision parse_int w param (start db)).1
unfolding Devices.provision
provision-Coherent clock s parse_int w param db h v = elim (parse-cases parse_int param) [
  | inl (id, e) ↦
      rw (e (start db), provisioned-state parse_int (provision_from_id w id (start db)))
        (provision_from_id-Coherent clock s w h id db v)
  | inr (x, e) ↦ rw (e (start db)) v
]
