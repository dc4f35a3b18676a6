-- ===== src/Configuration.antt =====
-- internal/globals/config.go: the configuration, how it is loaded and checked. The reader of YAML, the
-- environment and fmt.Sscanf are arguments. Durations, connection strings and the printing of the
-- example are left out.
pub mod Loaded
pub mod Tests
use Prim.Native.String.{len}
use nmslite.Common.{
  ℤ, pos, String, str_eq, Bool, true, false, not, ◌||◌, Option, none, some, List, [], ◌∷◌, ltb,
  ◌==◌, if◌then◌else◌,
}
use nmslite.Common.Results.{Result, ok, err, ◌>>=◌, or_err}

pub record PoolConfig : Type 0 where
  pub max_conns : ℤ
  pub min_conns : ℤ
  pub max_conn_lifetime_minutes : ℤ
  pub max_conn_idle_time_minutes : ℤ
  pub health_check_period_seconds : ℤ

pub record DatabaseConfig : Type 0 where
  pub host : String
  pub port : ℤ
  pub user : String
  pub password : String
  pub dbname : String
  pub ssl_mode : String
  pub pool : PoolConfig

pub record AuthConfig : Type 0 where
  pub admin_username : String
  pub admin_password : String
  pub jwt_secret : String
  pub jwt_expiry_hours : ℤ
  pub encryption_key : String

pub record DiscoveryConfig : Type 0 where
  pub max_discovery_workers : ℤ
  pub default_port_timeout_ms : ℤ
  pub handshake_timeout_ms : ℤ

pub record EventBusConfig : Type 0 where
  pub poll_jobs_channel_size : ℤ
  pub metric_results_channel_size : ℤ
  pub cache_events_channel_size : ℤ
  pub state_signal_channel_size : ℤ
  pub discovery_events_channel_size : ℤ
  pub device_validated_channel_size : ℤ

pub record LoggingConfig : Type 0 where
  pub level : String
  pub format : String
  pub output : String
  pub file_path : String

-- The sections that are read, overridden or checked here.
pub record Config : Type 0 where
  pub database : DatabaseConfig
  pub auth : AuthConfig
  pub discovery : DiscoveryConfig
  pub channel : EventBusConfig
  pub logging : LoggingConfig

pub data ConfigError : Type 0 where
  not_read not_parsed no_secret short_secret no_key bad_key weak_password no_database : ConfigError

-- Validate: its error, if there is one. The length of a Go string is that of its bytes.
unfoldable pub validate : Config → Option ConfigError
validate c =
    if str_eq c.auth.jwt_secret ""
    then some no_secret
    else if ltb (len c.auth.jwt_secret) 32
    then some short_secret
    else if str_eq c.auth.encryption_key ""
    then some no_key
    else if not (len c.auth.encryption_key == 32)
    then some bad_key
    else if str_eq c.auth.admin_password "" || str_eq c.auth.admin_password "changeme"
    then some weak_password
    else if str_eq c.database.host "" || str_eq c.database.dbname ""
    then some no_database
    else none

-- The configuration, unless it has an error.
abbrev pub checked : Config → Option ConfigError → Result ConfigError Config
checked c none = ok c
checked c (some e) = err e

-- os.Getenv, and fmt.Sscanf with "%d".
pub record Environment : Type 0 where
  pub getenv : String → String
  pub scan : String → Option ℤ

module _ (e : Environment) where
  open e use {getenv, scan}

  -- A variable that is set replaces the value.
  abbrev text_or : String → String → String
  text_or name old = if str_eq (getenv name) "" then old else getenv name

  -- A variable that is set, and starts with a number, replaces the value.
  abbrev number_or : String → ℤ → ℤ
  number_or name old =
      if str_eq (getenv name) "" then old else elim (scan (getenv name)) [ none ↦ old | some n ↦ n ]

  -- applyEnvOverrides
  unfoldable pub apply_env_overrides : Config → Config
  apply_env_overrides c =
      let database = record c.database {
        host = text_or "NMS_DATABASE_HOST" c.database.host;
        port = number_or "NMS_DATABASE_PORT" c.database.port;
        password = text_or "NMS_DATABASE_PASSWORD" c.database.password;
      } in
      let auth = record c.auth {
        admin_password = text_or "NMS_AUTH_ADMIN_PASSWORD" c.auth.admin_password;
        jwt_secret = text_or "NMS_AUTH_JWT_SECRET" c.auth.jwt_secret;
        encryption_key = text_or "NMS_AUTH_ENCRYPTION_KEY" c.auth.encryption_key;
      } in
      let discovery = record c.discovery {
        handshake_timeout_ms =
            number_or "NMS_DISCOVERY_HANDSHAKE_TIMEOUT_MS" c.discovery.handshake_timeout_ms;
      } in
      let channel : EventBusConfig = record {
        poll_jobs_channel_size =
            number_or "NMS_EVENTBUS_POLL_JOBS_CHANNEL_SIZE" c.channel.poll_jobs_channel_size;
        metric_results_channel_size =
            number_or "NMS_EVENTBUS_METRIC_RESULTS_CHANNEL_SIZE"
              c.channel.metric_results_channel_size;
        cache_events_channel_size =
            number_or "NMS_EVENTBUS_CACHE_EVENTS_CHANNEL_SIZE" c.channel.cache_events_channel_size;
        state_signal_channel_size =
            number_or "NMS_EVENTBUS_STATE_SIGNAL_CHANNEL_SIZE" c.channel.state_signal_channel_size;
        discovery_events_channel_size =
            number_or "NMS_EVENTBUS_DISCOVERY_EVENTS_CHANNEL_SIZE"
              c.channel.discovery_events_channel_size;
        device_validated_channel_size =
            number_or "NMS_CHANNEL_DEVICE_VALIDATED_CHANNEL_SIZE"
              c.channel.device_validated_channel_size;
      } in
      record c { database = database; auth = auth; discovery = discovery; channel = channel }

  -- Load, with the text of the file (none, if it cannot be read) and the reader of YAML.
  unfoldable pub load : (String → Option Config) → Option String → Result ConfigError Config
  unfolding apply_env_overrides validate
  load parse file = do
    file_text ← or_err not_read file
    parsed ← or_err not_parsed (parse file_text)
    let cfg = apply_env_overrides parsed
    checked cfg (validate cfg)

abbrev is_zero : ℤ → Bool
is_zero (pos n) = n == 0
is_zero i = false

abbrev default : ℤ → ℤ → ℤ
default d i = if is_zero i then d else i

-- PoolConfig.ApplyDefaults
unfoldable apply_defaults : PoolConfig → PoolConfig
apply_defaults p = record {
  max_conns = default (pos 50) p.max_conns;
  min_conns = default (pos 10) p.min_conns;
  max_conn_lifetime_minutes = default (pos 90) p.max_conn_lifetime_minutes;
  max_conn_idle_time_minutes = default (pos 20) p.max_conn_idle_time_minutes;
  health_check_period_seconds = default (pos 45) p.health_check_period_seconds;
}

pub data Level : Type 0 where
  debug info warn error : Level

abbrev is_known_level : String → Bool
is_known_level l = str_eq l "debug" || str_eq l "info" || str_eq l "warn" || str_eq l "error"

-- IsLogLevelValid, with strings.ToLower.
unfoldable is_log_level_valid : (String → String) → LoggingConfig → Bool
is_log_level_valid to_lower l = is_known_level (to_lower l.level)

-- The level of InitLogger.
unfoldable level_of : LoggingConfig → Level
level_of l =
    if str_eq l.level "debug"
    then debug
    else if str_eq l.level "info"
    then info
    else if str_eq l.level "warn"
    then warn
    else if str_eq l.level "error"
    then error
    else info
