-- ===== src/Api/Tests.antt =====
-- The theorems on internal/api/handlers, applied to small inputs.
pub mod Metrics
pub mod Discoveries
pub mod Guards
use nmslite.Common.{
  length, lookup, ℕ, pos, String, subst, ◌≡◌, refl, true, false, Option, none, some, List, [], ◌∷◌,
  ◌++◌, arith, find, insert, ==_iff,
}
use nmslite.Common.Results.{ok}
use nmslite.Database.{Monitor, CredentialProfile, DiscoveryProfile}
use nmslite.Database.Tables.{Db, ask}
use nmslite.Database.Tables.Profiles.{create_credential_profile}
use nmslite.Database.Joined.{Keyed, active}
use nmslite.Auth.Credentials.{credentials_by}
use nmslite.Auth.Security.{encrypt, gcm_of}
use nmslite.Auth.Containers.{read_field, decrypt_container}
use nmslite.Auth.Tests.{
  zeros, open_crypto, open_crypto-IsCrypto, zero_random, zero_random-IsRandom, service,
  service-made,
}
use nmslite.Protocols.Schemas.{
  zero_values, CredentialType, ssh_credentials, validate_ssh, value, broken, field_errors,
  validate_credential_struct,
}
use nmslite.Protocols.Registry.{
  get_registry, new_registry, initialize_protocols, register_protocol, validate_credentials, decode,
  decode_value, decode_fields, assign,
}
use nmslite.Protocols.Decoded.{all_exact}
use nmslite.Protocols.Usable.{Usable}
use nmslite.Protocols.Tests.{reads, reads-IsReflexive, ssh_fields}
use nmslite.Discovery.Provisioning.{Surroundings}
use nmslite.Poller.Scheduler.{SchedulerConfig}
use nmslite.Poller.Scheduler.Cached.{cached}
use nmslite.Poller.Scheduler.Invariant.{IsValid}
use nmslite.Api.Requests.{Api, query, decode_json}
use nmslite.Api.Profiles.{create, encrypt_payload}
use nmslite.Database.Tables.{get_existing_monitor_ids, existing_ids}
use nmslite.Api.Metrics.Points.{times}
use nmslite.Api.Secrets.{Parts, IsParts, vault_of, create-Usable}
use nmslite.Api.Coherence.{IsSound}
use nmslite.Api.Coherence.Histories.{
  Request, create_monitor, update_monitor, update_profile, delete_monitor, serve_all, started,
  serve_all-Refines,
}

abbrev parts : Parts
parts = record {
  crypto = open_crypto;
  random = zero_random;
  service = service;
  reader = record { read_string = λ t. some t; read_map = λ t. some ssh_fields };
  decoder = reads ssh_fields;
  error_text = λ e. "";
  quote = λ t. t;
}

parts-IsParts : IsParts parts
parts-IsParts = record {
  cipher = open_crypto-IsCrypto;
  readable = zero_random-IsRandom;
  secret = zeros 32;
  key = zeros 32;
  user = "admin";
  password = "secret";
  expiry = pos 100;
  made = service-made;
  read-quote = λ b. refl;
  same = reads-IsReflexive ssh_fields;
  maps = λ t fs e. ground arith;
}

abbrev profile : CredentialProfile
profile = record {
  id = 0;
  name = "ssh";
  description = none;
  protocol = "ssh";
  payload = b'{' ∷ b'}' ∷ [];
  created_at = none;
  updated_at = none;
}

abbrev discovery : DiscoveryProfile
discovery = record {
  id = 1;
  name = "office";
  target_value = b'x' ∷ [];
  port = pos 22;
  port_scan_timeout_ms = none;
  credential_profile_id = 1;
  last_run_at = none;
  last_run_status = none;
  devices_discovered = some (pos 0);
  created_at = none;
  updated_at = none;
  auto_provision = none;
  auto_run = none;
}

-- One discovery profile, and a database that answers.
abbrev tables : Db
tables = record {
  monitors = [];
  profiles = (1, record profile { id = 1 }) ∷ [];
  discoveries = (1, discovery) ∷ [];
  devices = [];
  next_monitor = 1;
  next_profile = 2;
  next_device = 1;
  next_discovery = 2;
  now = pos 5;
  asked = 0;
  fault = λ n. false;
}

abbrev api : Api
api = record { db = tables; sent = none }

-- The profile that Create stores.
abbrev stored : CredentialProfile
stored = record profile {
  id = 2;
  payload = zeros 12 ++ b'{' ∷ b'}' ∷ [];
  created_at = some (pos 5);
  updated_at = some (pos 5);
}

abbrev after : Api
after = record {
  db = record tables {
    profiles = (1, record profile { id = 1 }) ∷ (2, stored) ∷ [];
    next_profile = 3;
    asked = 1;
  };
  sent = none;
}

profile-created : create (vault_of parts) (some profile) api ≡ (ok (201, some stored), after)
unfolding create vault_of decode_json encrypt_payload query create_credential_profile ask insert
    encrypt gcm_of validate_credentials get_registry new_registry initialize_protocols
    register_protocol decode decode_value decode_fields assign zero_values ssh_credentials
    validate_ssh value broken field_errors validate_credential_struct
profile-created = refl

ssh-exact :
    (ct : CredentialType)
    → lookup "ssh" (get_registry.credential_types) ≡ some ct
    → all_exact (reads ssh_fields) (zero_values ct.fields) ssh_fields ≡ true
unfolding zero_values ssh_credentials get_registry new_registry initialize_protocols
    register_protocol
ssh-exact ct e =
    subst (λ c. all_exact (reads ssh_fields) (zero_values c.fields) ssh_fields ≡ true)
      (ssh-only ct e) refl
  where
    ssh-only :
        (c : CredentialType)
        → lookup "ssh" (get_registry.credential_types) ≡ some c
        → ssh_credentials ≡ c
    ssh-only c h = ground arith

create-Usable_example :
    (decrypt_container open_crypto parts.reader service stored.payload
      ≡ ok (credentials_by (read_field ssh_fields)))
    × Usable "ssh" (credentials_by (read_field ssh_fields))
create-Usable_example =
    create-Usable parts profile stored api after ssh_fields parts-IsParts profile-created refl
      ssh-exact

tables-IsSound : IsSound tables
unfolding find Keyed
tables-IsSound = record {
  keyed = tt;
  calm = λ n. refl;
  known = λ id c e. ground (arith, ==_iff 1 id);
  fresh = λ id m e. absurd (ground arith);
}

-- A monitor as a request has it, of profiles 1 and 1.
abbrev input : Monitor
input = record {
  id = 0;
  display_name = none;
  hostname = none;
  ip_address = some "10.0.0.1";
  plugin_id = "ssh";
  credential_profile_id = 1;
  discovery_profile_id = 1;
  polling_interval_seconds = none;
  status = none;
  created_at = none;
  updated_at = none;
  port = none;
}

abbrev requests : List Request
requests =
    create_monitor (some input)
    ∷ update_profile "1" (some (record profile { name = "renamed" }))
    ∷ update_monitor "1" (some (record input { status = some "down" }))
    ∷ delete_monitor "1"
    ∷ []

abbrev surroundings : Surroundings
surroundings = record { parse_addr = λ t. none; plugin_for = λ p. none; sends = true }

abbrev settings : SchedulerConfig
settings = record { tick_interval_ms = 1000; down_threshold = 3 }

abbrev always_one : String → Option ℕ
always_one t = some 1

serve_all-Refines_example :
    let (db, s) =
      serve_all
        (vault_of parts)
        always_one
        surroundings
        (λ n. pos n)
        requests
        tables
        (started settings 8 (λ n. pos n) tables) in
    IsValid s × ((id : ℕ) → cached s id ≡ active db id)
serve_all-Refines_example =
    serve_all-Refines (vault_of parts) always_one surroundings (λ n. pos n) settings 8 tables
      requests refl tables-IsSound
