-- ===== src/Discovery/Worker/Runs.antt =====
-- internal/discovery/worker.go: what a run sends, counts and reports.
pub mod Running
pub mod Announced
use mathlib.Core.List.{append-nil, append_assoc}
use nmslite.Common.{
  ℕ, suc, ◌+◌, ◌≤◌, ◌<◌, ◌≡◌, ◌⊎◌, ◌∙◌, refl, ap, sym, subst, inl, inr, String, str_eq_iff, Bool,
  true, false, not, ◌&&◌, ◌||◌, Option, none, some, List, [], ◌∷◌, ◌++◌, map, length, ltb, ◌==◌,
  if◌then◌else◌, Assoc, find, insert, erase, find-insert, find-erase, arith, Bool-cases,
  Option-cases,
}
use nmslite.Discovery.Targets.{ok, err, expand_target}
use nmslite.Discovery.Worker.{
  publish_completed_event, probe, validated_event, send_validated, timeout_of, plugin_of, target_of,
  execute_discovery, status_of, start_run, handle_discovery_started_event,
}
use nmslite.Discovery.World.{
  Profile, CredentialProfile, PluginInfo, DeviceValidatedEvent, DiscoveryRequestEvent,
  ProfileLookup, found, not_found, database_error, ValidationResult, World, Worker, JobError,
  cancelled, bad_target, no_credential_profile, no_credentials, out_of_fuel,
}

-- A run has sent these events, one for each device that it counts; nothing else has changed.
pub record Sent (s : Worker) (count bound : ℕ) (r : Worker × ℕ × Option JobError) : Type 0 where
  pub events : List DeviceValidatedEvent
  pub channel : r.0.validated_ch ≡ s.validated_ch ++ events
  pub counted : r.1 ≡ count + length events
  pub bounded : r.1 ≤ count + bound
  pub running : r.0.running_profiles ≡ s.running_profiles
  pub updates : r.0.updates ≡ s.updates
  pub statuses : r.0.status_ch ≡ s.status_ch

Sent-none : (s : Worker) (count bound : ℕ) (e : Option JobError) → Sent s count bound (s, count, e)
Sent-none s count bound e = record {
  events = [];
  channel = sym (append-nil s.validated_ch);
  counted = omega arith;
  bounded = omega arith;
  running = refl;
  updates = refl;
  statuses = refl;
}

module _ (w : World) (profile : Profile) (cred : CredentialProfile) where
  abbrev queued : Worker → PluginInfo → ValidationResult → Worker
  queued s plugin result = record s {
    validated_ch = s.validated_ch ++ validated_event profile cred plugin result ∷ [];
  }

  Sent-weaken :
      (s : Worker) (count bound : ℕ) (r : Worker × ℕ × Option JobError)
      → Sent s count bound r
      → Sent s count (suc bound) r
  Sent-weaken s count bound r k = record {
    events = k.events;
    channel = k.channel;
    counted = k.counted;
    bounded = omega (arith, k.bounded);
    running = k.running;
    updates = k.updates;
    statuses = k.statuses;
  }

  Sent-one :
      (s : Worker) (count bound : ℕ) (plugin : PluginInfo) (result : ValidationResult)
      (r : Worker × ℕ × Option JobError)
      → Sent (queued s plugin result) (count + 1) bound r
      → Sent s count (suc bound) r
  Sent-one s count bound plugin result r k = record {
    events = validated_event profile cred plugin result ∷ k.events;
    channel = k.channel ∙ append_assoc s.validated_ch _ _;
    counted = omega (arith, k.counted);
    bounded = omega (arith, k.bounded);
    running = k.running;
    updates = k.updates;
    statuses = k.statuses;
  }

  pub send_validated-Sent :
      (i : ℕ) (results : List ValidationResult) (count : ℕ) (s : Worker)
      → Sent s count (length results) (send_validated w profile cred i results count s)
  unfolding send_validated
  send_validated-Sent i [] count s = Sent-none s count 0 none
  send_validated-Sent i (result ∷ results) count s = elim (Option-cases result.plugin) [
    | inl e ↦
        rw (e, send_validated)
          (Sent-weaken s count (length results) _ (send_validated-Sent (suc i) results count s))
    | inr (plugin, e) ↦
        elim (Bool-cases
          (ltb (length s.validated_ch) s.validated_cap && (not (w.done i) || w.pick i))) [
            | inl f ↦
                rw (e, f, send_validated)
                  (Sent-one s count (length results) plugin result _
                    (send_validated-Sent (suc i) results (count + 1) (queued s plugin result)))
            | inr f ↦ elim (Bool-cases (w.done i)) [
              | inl g ↦
                  rw (e, f, g, send_validated)
                    (Sent-none s count (suc (length results)) (some cancelled))
              | inr g ↦
                  rw (e, f, g, send_validated)
                    (Sent-weaken s count (length results) _
                      (send_validated-Sent (suc i) results count s))
            ]
          ]
  ]

pub length-map : {A B : Type 0} (f : A → B) (xs : List A) → length (map f xs) ≡ length xs
length-map f [] = refl
length-map f (x ∷ xs) = omega (arith, length-map f xs)

abbrev pub is_running : Worker → ℕ → Bool
is_running s id = elim (find id s.running_profiles) [ none ↦ false | some b ↦ b ]

abbrev pub Executed : Worker → Worker × ℕ × ℕ × Option JobError → Type 0
Executed s (s', count, total, error) = Sent s 0 total (s', count, error)

-- The results of the probes arrive in some order, all of them.
abbrev pub Arrives : World → Type 0
Arrives w = (results : List ValidationResult) → length (w.arrive results) ≡ length results

-- When the results of all probes arrive, executeDiscovery counts exactly the devices whose events it
-- has sent, which are no more than the target has addresses, and changes nothing but the channel of
-- devices; so it does when it fails on the way.
pub execute_discovery-Executed :
    (w : World) (profile : Profile) (s : Worker)
    → Arrives w
    → Executed s (execute_discovery w profile s)
unfolding execute_discovery
execute_discovery-Executed w profile s h =
    elim (Option-cases (expand_target w.netip w.fuel (target_of w profile))) [
      | inl e ↦ rw (e, execute_discovery) (Sent-none s 0 0 (some out_of_fuel))
      | inr (err x, e) ↦ rw (e, execute_discovery) (Sent-none s 0 0 (some bad_target))
      | inr (ok ips, e) ↦
          elim (Option-cases (w.get_credential_profile profile.credential_profile_id)) [
            | inl f ↦ rw (e, f, execute_discovery) (Sent-none s 0 0 (some no_credential_profile))
            | inr (cred, f) ↦ elim (Option-cases (w.get_decrypted profile.credential_profile_id)) [
              | inl g ↦ rw (e, f, g, execute_discovery) (Sent-none s 0 0 (some no_credentials))
              | inr (creds, g) ↦
                  let probed =
                    map
                      (λ ip.
                        probe w ip profile.port creds (timeout_of profile)
                          (plugin_of w cred.protocol))
                      ips in
                  let size : length (w.arrive probed) ≡ length ips = h probed ∙ length-map _ ips in
                  rw (e, f, g, execute_discovery)
                    (subst (λ n. Sent s 0 n (send_validated w profile cred 0 (w.arrive probed) 0 s))
                      size (send_validated-Sent w profile cred 0 (w.arrive probed) 0 s))
            ]
          ]
    ]
