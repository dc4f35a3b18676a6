-- ===== src/Database.antt =====
-- internal/database/dbgen: the rows of the tables, as the other packages read them. A nullable
-- column (pgtype's value with its Valid flag) is an Option; an address is the text that it prints
-- as, or none where it is the zero address; payloads are bytes.
pub mod Tables
pub mod Joined
pub mod Listed
pub mod Metrics
use nmslite.Common.{Bool, ℕ, ℤ, String, Option, none, some, List}

pub record Monitor : Type 0 where
  pub id : ℕ
  pub display_name : Option String
  pub hostname : Option String
  pub ip_address : Option String
  pub plugin_id : String
  pub credential_profile_id : ℕ
  pub discovery_profile_id : ℕ
  pub polling_interval_seconds : Option ℤ
  pub status : Option String
  pub created_at : Option ℤ
  pub updated_at : Option ℤ
  pub port : Option ℤ

-- A monitor joined with the encrypted payload of its credential profile.
pub record MonitorRow : Type 0 where
  pub id : ℕ
  pub display_name : Option String
  pub hostname : Option String
  pub ip_address : Option String
  pub plugin_id : String
  pub credential_profile_id : ℕ
  pub discovery_profile_id : ℕ
  pub port : Option ℤ
  pub polling_interval_seconds : Option ℤ
  pub status : Option String
  pub created_at : Option ℤ
  pub updated_at : Option ℤ
  pub payload : List ℕ

pub record CredentialProfile : Type 0 where
  pub id : ℕ
  pub name : String
  pub description : Option String
  pub protocol : String
  pub payload : List ℕ
  pub created_at : Option ℤ
  pub updated_at : Option ℤ

-- The target value is kept as the bytes of its text.
pub record DiscoveryProfile : Type 0 where
  pub id : ℕ
  pub name : String
  pub target_value : List ℕ
  pub port : ℤ
  pub port_scan_timeout_ms : Option ℤ
  pub credential_profile_id : ℕ
  pub last_run_at : Option ℤ
  pub last_run_status : Option String
  pub devices_discovered : Option ℤ
  pub created_at : Option ℤ
  pub updated_at : Option ℤ
  pub auto_provision : Option Bool
  pub auto_run : Option Bool

pub record DiscoveredDevice : Type 0 where
  pub id : ℕ
  pub discovery_profile_id : Option ℕ
  pub ip_address : Option String
  pub port : ℤ
  pub status : Option String
  pub created_at : Option ℤ
  pub updated_at : Option ℤ

-- The field String of a pgtype.Text, empty for a null.
abbrev pub text : Option String → String
text none = ""
text (some t) = t

-- What an address prints as (netip.Addr's String, for the zero address).
abbrev pub address : Option String → String
address none = "invalid IP"
address (some a) = a
