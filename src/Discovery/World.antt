-- ===== src/Discovery/World.antt =====
-- internal/discovery/worker.go, internal/globals/events.go: the state of the worker, its messages, and what
-- the database, the network and the context decide.
use nmslite.Common.{ℕ, ℤ, String, Bool, Option, List, Assoc}
use nmslite.Auth.Credentials.{Credentials}
use nmslite.Discovery.Addresses.{Text}
use nmslite.Discovery.Targets.{Netip}

pub record Profile : Type 0 where
  pub id : ℕ
  pub target_value : Text
  pub port : ℤ
  pub credential_profile_id : ℕ
  pub port_scan_timeout_ms : Option ℤ
  pub auto_provision : Option Bool

pub record CredentialProfile : Type 0 where
  pub id : ℕ
  pub protocol : String

pub record PluginInfo : Type 0 where
  pub name : String
  pub protocol : String

pub record Handshake : Type 0 where
  pub success : Bool
  pub hostname : String

pub record DeviceValidatedEvent : Type 0 where
  pub discovery_profile : Profile
  pub credential_profile : CredentialProfile
  pub plugin : PluginInfo
  pub ip : Text
  pub port : ℤ
  pub hostname : String

pub record DiscoveryRequestEvent : Type 0 where
  pub profile_id : ℕ
  pub started_at : ℤ

pub record DiscoveryStatusEvent : Type 0 where
  pub profile_id : ℕ
  pub status : String
  pub devices_found : ℕ
  pub started_at : ℤ
  pub completed_at : ℤ

pub data ProfileLookup : Type 0 where
  found : Profile → ProfileLookup
  not_found database_error : ProfileLookup

-- `plugin` is nil in an invalid result.
pub record ValidationResult : Type 0 where
  pub ip : Text
  pub plugin : Option PluginInfo
  pub hostname : String

pub record World : Type 0 where
  pub netip : Netip
  pub fuel : ℕ
  pub get_profile : ℕ → ProfileLookup
  pub decrypt : Text → Option Text
  pub get_credential_profile : ℕ → Option CredentialProfile
  pub get_plugin : String → Option PluginInfo
  pub get_decrypted : ℕ → Option Credentials
  -- the Validate functions, by protocol; the timeout is in milliseconds
  pub validate : String → Text → ℤ → Credentials → ℤ → Option Handshake
  -- the context ends while this target waits for a slot
  pub stopped : Text → Bool
  pub arrive : List ValidationResult → List ValidationResult
  -- the context is done when the i-th result is read; where the channel is ready too, `pick` sends
  pub done : ℕ → Bool
  pub pick : ℕ → Bool
  -- the same for the status event
  pub done_at_end : Bool
  pub pick_at_end : Bool
  pub now : ℤ

pub record Worker : Type 0 where
  pub running_profiles : Assoc Bool
  pub status_ch : List DiscoveryStatusEvent
  pub status_cap : ℕ
  pub validated_ch : List DeviceValidatedEvent
  pub validated_cap : ℕ
  -- UpdateDiscoveryProfileStatus: profile, status, devices
  pub updates : List (ℕ × String × ℕ)

pub data JobError : Type 0 where
  bad_target no_credential_profile no_credentials cancelled out_of_fuel : JobError
