-- ===== src/Discovery/Provisioning.antt =====
-- internal/discovery/provisioning.go: Provisioner, and StartProvisionHandler of worker.go. What is
-- not in the program is an argument (`Surroundings`): the parser of addresses, the plugins that are
-- registered, and whether the context ends before an event can be sent.
use nmslite.Common.{ℕ, ℤ, String, str_eq, Bool, false, Option, none, some, [], ◌∷◌, if◌then◌else◌}
use nmslite.Common.Results.{Result, ok, err}
use nmslite.Database.{Monitor, MonitorRow, DiscoveredDevice}
use nmslite.Database.Tables.{Db, DbError, Query, create_monitor, get_monitor_with_credentials}
use nmslite.Database.Tables.Discoveries.{
  get_discovered_device, get_discovery_profile, update_discovered_device_status,
  create_discovered_device,
}
use nmslite.Database.Tables.Profiles.{get_credential_profile}
use nmslite.Discovery.Addresses.{Text}
use nmslite.Discovery.World.{DeviceValidatedEvent}
use nmslite.Api.Requests.{Api, send}

-- `panicked` is the end of MustParseAddr on a text that is no address.
pub data ProvisionError : Type 0 where
  panicked no_device no_profile_of_device no_profile no_credentials not_created not_fetched
        cancelled :
      ProvisionError

pub record Surroundings : Type 0 where
  pub parse_addr : Text → Option String
  -- The protocol of the plugin that the manager has for a protocol.
  pub plugin_for : String → Option String
  -- The event is sent, and the context is not done before.
  pub sends : Bool

abbrev pub Step : Type 0 → Type 0
Step A = Api → Result ProvisionError A × Api

abbrev pub continued :
    {A B : Type 0} → Result ProvisionError A × Api → (A → Step B) → Result ProvisionError B × Api
continued (ok a, s) k = k a s
continued (err e, s) k = (err e, s)

infixl 5 ◌>>=◌
abbrev pub ◌>>=◌ : {A B : Type 0} → Step A → (A → Step B) → Step B
(m >>= k) s = continued (m s) k

abbrev pub give : {A : Type 0} → A → Step A
give a s = (ok a, s)

abbrev pub answer_or :
    {A : Type 0} → ProvisionError → Api → Result DbError A × Db → Result ProvisionError A × Api
answer_or e s (ok a, db) = (ok a, record s { db = db })
answer_or e s (err x, db) = (err e, record s { db = db })

-- A query whose error ends the operation with an error of its own.
unfoldable pub query_or : {A : Type 0} → ProvisionError → Query A → Step A
query_or e q s = answer_or e s (q s.db)

abbrev pub must : {A : Type 0} → ProvisionError → Option A → Step A
must e none s = (err e, s)
must e (some a) s = (ok a, s)

-- The parameters of CreateMonitor, with the fields that are not set.
abbrev pub params : Option String → Option String → ℤ → String → ℕ → ℕ → Monitor
params ip hostname port plugin credentials discovery = record {
  id = 0;
  display_name = none;
  hostname = hostname;
  ip_address = ip;
  plugin_id = plugin;
  credential_profile_id = credentials;
  discovery_profile_id = discovery;
  polling_interval_seconds = none;
  status = none;
  created_at = none;
  updated_at = none;
  port = some port;
}

module _ (w : Surroundings) where
  open w use {parse_addr, plugin_for, sends}

  -- The select of pushToPoller.
  unfoldable pub send_row : MonitorRow → Step Unit
  unfolding send
  send_row row s =
      if sends
      then (
        ok tt,
        send (record { update_type = "update"; monitors = row ∷ []; monitor_ids = [] }) s,
      )
      else (err cancelled, s)

  -- pushToPoller
  unfoldable pub push_to_poller : ℕ → Step Unit
  unfolding query_or send_row
  push_to_poller id = do row ← query_or not_fetched (get_monitor_with_credentials id); send_row row

  unfoldable pub params_of_event : DeviceValidatedEvent → String → Monitor
  params_of_event event ip =
      params (some ip) (if str_eq event.hostname "" then none else some event.hostname) event.port
        event.plugin.protocol event.credential_profile.id event.discovery_profile.id

  -- ProvisionFromEvent
  unfoldable pub provision_from_event : DeviceValidatedEvent → Step Unit
  unfolding query_or params_of_event push_to_poller create_monitor
  provision_from_event event = do
    ip ← must panicked (parse_addr event.ip)
    monitor ← query_or not_created (create_monitor (params_of_event event ip))
    push_to_poller monitor.id

  -- The plugin of a protocol: the registered one, or the protocol's name.
  abbrev pub plugin_of : String → String
  plugin_of protocol = elim (plugin_for protocol) [ none ↦ protocol | some p ↦ p ]

  abbrev pub mark : ℕ → Step Unit
  mark id s =
      (ok tt, record s { db = (update_discovered_device_status id (some "provisioned") s.db).1 })

  -- ProvisionFromID
  unfoldable pub provision_from_id : ℕ → Step Monitor
  unfolding query_or push_to_poller create_monitor get_discovered_device get_discovery_profile
      get_credential_profile update_discovered_device_status
  provision_from_id device_id = do
    device ← query_or no_device (get_discovered_device device_id)
    profile_id ← must no_profile_of_device device.discovery_profile_id
    profile ← query_or no_profile (get_discovery_profile profile_id)
    cred_profile ← query_or no_credentials (get_credential_profile profile.credential_profile_id)
    monitor ← query_or not_created (
        create_monitor (
          params device.ip_address none device.port (plugin_of cred_profile.protocol)
            profile.credential_profile_id profile.id))
    _ ← mark device_id
    _ ← push_to_poller monitor.id
    give monitor

  abbrev pub wants_monitor : DeviceValidatedEvent → Bool
  wants_monitor event = elim event.discovery_profile.auto_provision [ none ↦ false | some b ↦ b ]

  unfoldable pub device_of_event : DeviceValidatedEvent → String → DiscoveredDevice
  device_of_event event ip = record {
    id = 0;
    discovery_profile_id = some event.discovery_profile.id;
    ip_address = some ip;
    port = event.port;
    status = some "validated";
    created_at = none;
    updated_at = none;
  }

  -- What StartProvisionHandler does with an event.
  unfoldable pub handle_validated : DeviceValidatedEvent → Step Unit
  unfolding query_or provision_from_event create_discovered_device device_of_event
  handle_validated event = do
    ip ← must panicked (parse_addr event.ip)
    _ ← query_or not_created (create_discovered_device (device_of_event event ip))
    if wants_monitor event then provision_from_event event else give tt
