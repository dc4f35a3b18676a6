-- ===== src/Discovery/Tests.antt =====
-- The theorems on internal/discovery, applied to small inputs.
pub mod Handshakes
use nmslite.Common.{
  pos, ◌++◌, ◌+◌, ◌<◌, ◌-◌, ◌≡◌, refl, false, true, none, some, Option, List, [], ◌∷◌, map, length,
  ltb, ◌==◌, if◌then◌else◌, arith,
}
use nmslite.Auth.Credentials.{Credentials}
use nmslite.Discovery.Worker.{
  probe, validate_target, is_known_protocol, send_validated, execute_discovery, status_of,
  handle_discovery_started_event,
}
use nmslite.Discovery.World.{
  Profile, DeviceValidatedEvent, DiscoveryRequestEvent, found, World, Worker,
}
use nmslite.Discovery.Worker.Runs.{is_running, Arrives, Executed, execute_discovery-Executed}
use nmslite.Discovery.Worker.Runs.Announced.{ArrivesAll, Announces, execute_discovery-success}
use nmslite.Discovery.Addresses.{Text, Prefix, Addr}
use nmslite.Discovery.Targets.{
  Result, Netip, ok, err, too_large, invalid_cidr, start_after_end, limit, cidr, expand_prefix,
  expand_ends, count_ends, count_prefix, detect_target_type, expand_cidr, expand_target,
}
use nmslite.Discovery.Strings.{trim, trim_left, trim_right, is_space, has_char}
use nmslite.Discovery.Targets.Blocks.{
  usable, IsPrefix, consecutive, first_of, expand_prefix-consecutive,
}
use nmslite.Discovery.Targets.Ranges.{counted_as, addr_of, expand_ends_lem, count_ends_lem}

-- 10.0.0.0/29
abbrev small : Prefix
small = record { addr = record { width = 32; value = 167772160; zone = [] }; bits = 29 }

small-IsPrefix : IsPrefix small
small-IsPrefix = record { bits = omega arith; value = omega arith }

-- Reads "a/b" as 10.0.0.0/29, and nothing else.
abbrev block_text : Text
block_text = b'a' ∷ b'/' ∷ b'b' ∷ []

abbrev parse_block : Text → Option Prefix
parse_block (a ∷ b ∷ c ∷ []) = if b == b'/' then some small else none
parse_block t = none

abbrev ip : Netip
ip = record { parse_addr = λ t. none; parse_prefix = parse_block; show = λ a. a.value ∷ [] }

expand_prefix-consecutive_example :
    (expand_prefix 65538 small ≡ some (ok (consecutive (first_of small) (usable small))))
    × (count_prefix small ≡ pos (usable small))
expand_prefix-consecutive_example =
    expand_prefix-consecutive 65538 small (omega arith) small-IsPrefix (omega arith)

expand_ends_lem_example :
    expand_ends 65538 (addr_of 32 [] 5) (addr_of 32 [] 7)
    ≡ some (
        if ltb 7 5
        then err start_after_end
        else if ltb limit (7 - 5 + 1)
        then err too_large
        else ok (consecutive (addr_of 32 [] 5) (7 - 5 + 1)))
expand_ends_lem_example = expand_ends_lem 32 5 7 65538 [] (omega arith) (omega arith)

count_ends_lem_example :
    (r : Result (List Addr)) × (expand_ends 65538 (addr_of 32 [] 5) (addr_of 32 [] 7) ≡ some r)
    × (count_ends 10 (addr_of 32 [] 5) (addr_of 32 [] 7) ≡ some (counted_as 3 r))
count_ends_lem_example = count_ends_lem 5 7 65538 10 [] (omega arith) (omega arith) (omega arith)

-- The kind of a padded block is recognised, but its expansion fails.
abbrev padded : Text
padded = 32 ∷ block_text

padded_kind : detect_target_type ip padded ≡ cidr
unfolding detect_target_type trim trim_left trim_right is_space has_char
padded_kind = refl

padded_fails : expand_cidr ip 65538 padded ≡ some (err invalid_cidr)
unfolding expand_cidr
padded_fails = refl

abbrev profile : Profile
profile = record {
  id = 3;
  target_value = block_text;
  port = pos 5985;
  credential_profile_id = 1;
  port_scan_timeout_ms = none;
  auto_provision = none;
}

abbrev credentials : Credentials
credentials = record {
  username = "admin";
  password = "secret";
  domain = "";
  private_key = "";
  passphrase = "";
  community = "";
  security_name = "";
  security_level = "";
  auth_protocol = "";
  auth_password = "";
  priv_protocol = "";
  priv_password = "";
}

-- One address, which every plugin reaches.
abbrev world : World
world = record {
  netip = record {
    parse_addr = λ t. some (addr_of 32 [] 5);
    parse_prefix = λ t. none;
    show = λ a. [];
  };
  fuel = 65538;
  get_profile = λ id. found profile;
  decrypt = λ t. some (b'a' ∷ []);
  get_credential_profile = λ id. some (record { id = 1; protocol = "windows-winrm" });
  get_plugin = λ protocol. none;
  get_decrypted = λ id. some credentials;
  validate = λ protocol ip port creds timeout. some (record { success = true; hostname = "host" });
  stopped = λ ip. false;
  arrive = λ results. results;
  done = λ i. false;
  pick = λ i. false;
  done_at_end = false;
  pick_at_end = false;
  now = pos 9;
}

world-Arrives : Arrives world
world-Arrives results = refl

world-ArrivesAll : ArrivesAll world
world-ArrivesAll v results = refl

abbrev worker : Worker
worker = record {
  running_profiles = [];
  status_ch = [];
  status_cap = 1;
  validated_ch = [];
  validated_cap = 1;
  updates = [];
}

execute_discovery-Executed_example : Executed worker (execute_discovery world profile worker)
execute_discovery-Executed_example = execute_discovery-Executed world profile worker world-Arrives

world_success :
    status_of
      (execute_discovery world profile worker).1
      (execute_discovery world profile worker).2
      (execute_discovery world profile worker).3
    ≡ "success"
unfolding status_of execute_discovery expand_target detect_target_type trim trim_left trim_right
    is_space has_char send_validated probe validate_target is_known_protocol
world_success = refl

execute_discovery-success_example :
    (events : List DeviceValidatedEvent) × ((execute_discovery world profile worker).0.validated_ch
      ≡ [] ++ events)
    × Announces world profile events
    × (length events ≡ (execute_discovery world profile worker).2)
    × (0 < (execute_discovery world profile worker).2)
    × ((execute_discovery world profile worker).3 ≡ none)
execute_discovery-success_example =
    execute_discovery-success world profile worker world-ArrivesAll world_success
