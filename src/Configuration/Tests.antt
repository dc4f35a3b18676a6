-- ===== src/Configuration/Tests.antt =====
-- The theorem on internal/globals/config.go, applied to a small input.
use Prim.Native.String.{len}
use nmslite.Common.{ℤ, pos, String, ◌≡◌, refl, none, some}
use nmslite.Common.Results.{ok, err}
use nmslite.Auth.Security.{Bytes, Service, Jwt, invalid_credentials, login}
use nmslite.Auth.Tests.{zeros, length-zeros}
use nmslite.Configuration.{Config, Environment, load, apply_env_overrides, validate}
use nmslite.Configuration.Loaded.{init_auth_service, load-starts}

-- As the example configuration has it, with a key of the right length and a password.
abbrev config : Config
config = record {
  database = record {
    host = "localhost";
    port = pos 5432;
    user = "nmslite";
    password = "changeme";
    dbname = "nmslite";
    ssl_mode = "disable";
    pool = record {
      max_conns = pos 50;
      min_conns = pos 10;
      max_conn_lifetime_minutes = pos 90;
      max_conn_idle_time_minutes = pos 20;
      health_check_period_seconds = pos 45;
    };
  };
  auth = record {
    admin_username = "admin";
    admin_password = "well chosen";
    jwt_secret = "your-secret-key-minimum-32-chars-required";
    jwt_expiry_hours = pos 24;
    encryption_key = "32-character-encryption-key!....";
  };
  discovery = record {
    max_discovery_workers = pos 100;
    default_port_timeout_ms = pos 1000;
    handshake_timeout_ms = pos 5000;
  };
  channel = record {
    poll_jobs_channel_size = pos 100;
    metric_results_channel_size = pos 100;
    cache_events_channel_size = pos 50;
    state_signal_channel_size = pos 50;
    discovery_events_channel_size = pos 50;
    device_validated_channel_size = pos 100;
  };
  logging = record {
    level = "info";
    format = "json";
    output = "stdout";
    file_path = "/var/log/nms/nms.log";
  };
}

abbrev quiet : Environment
quiet = record { getenv = λ n. ""; scan = λ t. none }

abbrev bytes : String → Bytes
bytes t = zeros (len t)

config-loads : load quiet (λ t. some config) (some "") ≡ ok config
unfolding load validate apply_env_overrides
config-loads = refl

load-starts_example :
    (s : Service) × (init_auth_service bytes (λ h. h) config ≡ ok s)
    × ((j : Jwt) (user : String) (now later : ℤ)
        → (login j s user "" now later ≡ err invalid_credentials)
          × (login j s user "changeme" now later ≡ err invalid_credentials))
load-starts_example =
    load-starts quiet (λ t. some config) (some "") config bytes (λ h. h) (λ t. length-zeros (len t))
      config-loads
