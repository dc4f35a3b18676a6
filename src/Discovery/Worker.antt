-- ===== src/Discovery/Worker.antt =====
-- internal/discovery/worker.go: a run of a discovery profile. The worker takes its requests one at a
-- time, so a run is a function of the state; what the database, the decryption, the plugins and the
-- network answer is the record `World`. The targets are probed in parallel: their results come in
-- the order that `arrive` gives them. A full channel drops an event.
pub mod Runs
use nmslite.Common.{
  ℕ, zero, suc, ◌+◌, ◌*◌, ℤ, pos, ltb_ℤ, pos_part, String, str_eq, Bool, true, false, not, ◌&&◌,
  ◌||◌, Option, none, some, List, [], ◌∷◌, ◌++◌, map, length, ltb, ◌==◌, if◌then◌else◌, Assoc, find,
  insert, erase,
}
use nmslite.Auth.Credentials.{Credentials}
use nmslite.Discovery.Addresses.{Text}
use nmslite.Discovery.Targets.{Netip, Result, ok, err, expand_target}
use nmslite.Discovery.World.{
  Profile, CredentialProfile, PluginInfo, Handshake, DeviceValidatedEvent, DiscoveryRequestEvent,
  DiscoveryStatusEvent, ProfileLookup, found, not_found, database_error, ValidationResult, World,
  Worker, JobError, bad_target, no_credential_profile, no_credentials, cancelled, out_of_fuel,
}

unfoldable pub publish_completed_event :
    World → Worker → DiscoveryRequestEvent → String → ℕ → Worker
publish_completed_event w s event status count =
    if ltb (length s.status_ch) s.status_cap && (not w.done_at_end || w.pick_at_end)
    then record s {
      status_ch =
          s.status_ch
          ++ record {
            profile_id = event.profile_id;
            status = status;
            devices_found = count;
            started_at = event.started_at;
            completed_at = w.now;
          }
            ∷ [];
    }
    else s

unfoldable pub is_known_protocol : String → Bool
is_known_protocol protocol =
    str_eq protocol "ssh"
    || str_eq protocol "windows-winrm"
    || str_eq protocol "snmp-v2c"
    || str_eq protocol "snmp-v3"

-- validateTarget: the first plugin whose handshake succeeds.
unfoldable pub validate_target :
    World → Text → ℤ → Credentials → ℤ → List PluginInfo → ValidationResult
unfolding is_known_protocol
validate_target w ip port creds timeout [] = record { ip = ip; plugin = none; hostname = "" }
validate_target w ip port creds timeout (plugin ∷ plugins) =
    let rest = validate_target w ip port creds timeout plugins in
    if not (is_known_protocol plugin.protocol)
    then rest
    else elim (w.validate plugin.protocol ip port creds timeout) [
      | none ↦ rest
      | some result ↦
          if result.success
          then record { ip = ip; plugin = some plugin; hostname = result.hostname }
          else rest
    ]

unfoldable pub probe : World → Text → ℤ → Credentials → ℤ → PluginInfo → ValidationResult
unfolding validate_target
probe w ip port creds timeout plugin =
    if w.stopped ip
    then record { ip = ip; plugin = none; hostname = "" }
    else validate_target w ip port creds timeout (plugin ∷ [])

abbrev pub validated_event :
    Profile → CredentialProfile → PluginInfo → ValidationResult → DeviceValidatedEvent
validated_event profile cred plugin result = record {
  discovery_profile = profile;
  credential_profile = cred;
  plugin = plugin;
  ip = result.ip;
  port = profile.port;
  hostname = result.hostname;
}

-- The loop over the results: from the i-th on, with the count so far.
unfoldable pub send_validated :
    World
    → Profile
    → CredentialProfile
    → ℕ
    → List ValidationResult
    → ℕ
    → Worker
    → Worker × ℕ × Option JobError
send_validated w profile cred i [] count s = (s, count, none)
send_validated w profile cred i (result ∷ results) count s = elim result.plugin [
  | none ↦ send_validated w profile cred (suc i) results count s
  | some plugin ↦
      let sent : Worker = record s {
        validated_ch = s.validated_ch ++ validated_event profile cred plugin result ∷ [];
      } in
      let after_send = send_validated w profile cred (suc i) results (count + 1) sent in
      let after_drop = send_validated w profile cred (suc i) results count s in
      if ltb (length s.validated_ch) s.validated_cap && (not (w.done i) || w.pick i)
      then after_send
      else if w.done i
      then (s, count, some cancelled)
      else after_drop
]

abbrev pub timeout_of : Profile → ℤ
timeout_of profile = elim profile.port_scan_timeout_ms [
  | none ↦ pos 5000
  | some t ↦ if ltb_ℤ (pos 0) t then t else pos 5000
]

abbrev pub plugin_of : World → String → PluginInfo
plugin_of w protocol = elim (w.get_plugin protocol) [
  | none ↦ record { name = protocol; protocol = protocol }
  | some plugin ↦ plugin
]

abbrev pub target_of : World → Profile → Text
target_of w profile = elim (w.decrypt profile.target_value) [
  | none ↦ profile.target_value
  | some t ↦ t
]

-- executeDiscovery: the devices validated, the addresses of the target, and the error.
unfoldable pub execute_discovery : World → Profile → Worker → Worker × ℕ × ℕ × Option JobError
unfolding send_validated probe
execute_discovery w profile s = elim (expand_target w.netip w.fuel (target_of w profile)) [
  | none ↦ (s, 0, 0, some out_of_fuel)
  | some (err e) ↦ (s, 0, 0, some bad_target)
  | some (ok ips) ↦ elim (w.get_credential_profile profile.credential_profile_id) [
    | none ↦ (s, 0, 0, some no_credential_profile)
    | some cred ↦ elim (w.get_decrypted profile.credential_profile_id) [
      | none ↦ (s, 0, 0, some no_credentials)
      | some creds ↦
          let results = w.arrive (
            map
              (λ ip. probe w ip profile.port creds (timeout_of profile) (plugin_of w cred.protocol))
              ips) in
          let (s', count, error) = send_validated w profile cred 0 results 0 s in
          (s', count, length ips, error)
    ]
  ]
]

-- The status of a run.
unfoldable pub status_of : ℕ → ℕ → Option JobError → String
status_of count total (some e) = "failed"
status_of count total none =
    if count == 0 then "failed" else if ltb count total then "partial" else "success"

-- The part of handleDiscoveryStartedEvent behind the test for a run in progress; an update of the
-- status that fails is logged and passed over. The deferred delete comes last.
unfoldable pub start_run : World → DiscoveryRequestEvent → Worker → Worker
unfolding publish_completed_event execute_discovery status_of
start_run w event s = elim (w.get_profile event.profile_id) [
  | not_found ↦ publish_completed_event w s event "failed" 0
  | database_error ↦ publish_completed_event w s event "failed" 0
  | found profile ↦
      let started : Worker = record s {
        running_profiles = insert event.profile_id true s.running_profiles;
        updates = s.updates ++ (profile.id, "running", 0) ∷ [];
      } in
      let (s', count, total, error) = execute_discovery w profile started in
      let status = status_of count total error in
      let updated : Worker = record s' {
        updates = s'.updates ++ (profile.id, status, count) ∷ [];
      } in
      let published = publish_completed_event w updated event status count in
      record published { running_profiles = erase event.profile_id published.running_profiles }
]

-- handleDiscoveryStartedEvent
unfoldable pub handle_discovery_started_event : World → DiscoveryRequestEvent → Worker → Worker
unfolding start_run
handle_discovery_started_event w event s = elim (find event.profile_id s.running_profiles) [
  | some true ↦ publish_completed_event w s event "failed" 0
  | some false ↦ start_run w event s
  | none ↦ start_run w event s
]
