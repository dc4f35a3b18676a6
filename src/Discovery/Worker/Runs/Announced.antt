-- ===== src/Discovery/Worker/Runs/Announced.antt =====
-- internal/discovery/worker.go: what a run that is reported as a success has sent.
use mathlib.Core.List.{append-nil, append_assoc}
use nmslite.Common.{
  ℕ, suc, ◌+◌, ◌≤◌, ◌<◌, ◌≡◌, ◌∙◌, refl, ap, sym, subst, inl, inr, str_eq_iff, not, ◌&&◌, ◌||◌,
  Option, none, some, List, [], ◌∷◌, ◌++◌, map, length, total, ltb, ◌==◌, ℤ, arith, Bool-cases,
  Option-cases,
}
use nmslite.Auth.Credentials.{Credentials}
use nmslite.Discovery.Addresses.{Text}
use nmslite.Discovery.Targets.{ok, err, expand_target}
use nmslite.Discovery.Worker.{
  probe, validate_target, validated_event, send_validated, timeout_of, plugin_of, target_of,
  execute_discovery, status_of,
}
use nmslite.Discovery.World.{
  Profile, CredentialProfile, PluginInfo, DeviceValidatedEvent, ValidationResult, World, Worker,
  JobError,
}
use nmslite.Discovery.Worker.Runs.{
  Arrives, send_validated-Sent, length-map, execute_discovery-Executed,
}

-- The results of the probes arrive in some order: each as often as it was found.
abbrev pub ArrivesAll : World → Type 0
ArrivesAll w =
    (v : ValidationResult → ℕ) (results : List ValidationResult)
    → total v (w.arrive results) ≡ total v results

-- Every event is of this profile, its port and these credentials.
abbrev pub AllOf : Profile → CredentialProfile → List DeviceValidatedEvent → Type 0
AllOf profile cred [] = Unit
AllOf profile cred (e ∷ es) =
    (e.discovery_profile ≡ profile)
    × (e.port ≡ profile.port)
    × (e.credential_profile ≡ cred)
    × AllOf profile cred es

success_only :
    (count total : ℕ) (error : Option JobError)
    → count ≤ total
    → status_of count total error ≡ "success"
    → (error ≡ none) × (0 < count) × (count ≡ total)
unfolding status_of
success_only count total (some e) h p = absurd (ground (arith, (str_eq_iff "failed" "success").1 p))
success_only count total none h p = elim (Bool-cases (count == 0)) [
  | inl e ↦ absurd (ground (arith, (str_eq_iff "failed" "success").1 (rw e at p)))
  | inr e ↦ elim (Bool-cases (ltb count total)) [
    | inl f ↦ absurd (ground (arith, (str_eq_iff "partial" "success").1 (rw (e, f) at p)))
    | inr f ↦ (refl, ground (arith, e), ground (arith, f, h))
  ]
]

total-one : {A : Type 0} (xs : List A) → total (λ x. 1) xs ≡ length xs
total-one [] = refl
total-one (x ∷ xs) = omega (arith, total-one xs)

total-map :
    {A B : Type 0} (v : B → ℕ) (f : A → B) (xs : List A)
    → total v (map f xs) ≡ total (λ x. v (f x)) xs
total-map v f [] = refl
total-map v f (x ∷ xs) = omega (arith, total-map v f xs)

total-same :
    {A : Type 0} (v u : A → ℕ) (xs : List A) → ((x : A) → v x ≡ u x) → total v xs ≡ total u xs
total-same v u [] h = refl
total-same v u (x ∷ xs) h = omega (arith, total-same v u xs h, h x)

pub ArrivesAll-Arrives : (w : World) → ArrivesAll w → Arrives w
ArrivesAll-Arrives w h results =
    sym (total-one (w.arrive results)) ∙ h (λ r. 1) results ∙ total-one results

validate_target-ip :
    (w : World) (ip : Text) (port : ℤ) (creds : Credentials) (timeout : ℤ)
    (plugins : List PluginInfo)
    → (validate_target w ip port creds timeout plugins).ip ≡ ip
unfolding validate_target
validate_target-ip w ip port creds timeout [] = refl
validate_target-ip w ip port creds timeout (plugin ∷ plugins) =
    ground (arith, validate_target-ip w ip port creds timeout plugins)

probe-ip :
    (w : World) (ip : Text) (port : ℤ) (creds : Credentials) (timeout : ℤ) (plugin : PluginInfo)
    → (probe w ip port creds timeout plugin).ip ≡ ip
unfolding probe
probe-ip w ip port creds timeout plugin =
    ground (arith, validate_target-ip w ip port creds timeout (plugin ∷ []))

module _ (w : World) (profile : Profile) (cred : CredentialProfile) where
  -- The events that these results call for, in their order.
  data Announced : List ValidationResult → List DeviceValidatedEvent → Type 0 where
    done : Announced [] []
    next :
        (plugin : PluginInfo) (result : ValidationResult) (results : List ValidationResult)
        (events : List DeviceValidatedEvent)
        → Announced results events
        → Announced (result ∷ results) (validated_event profile cred plugin result ∷ events)

  total-Announced :
      (v : Text → ℕ) (results : List ValidationResult) (events : List DeviceValidatedEvent)
      → Announced results events
      → total (λ (e : DeviceValidatedEvent). v e.ip) events
        ≡ total (λ (r : ValidationResult). v r.ip) results
  total-Announced v _ _ done = refl
  total-Announced v _ _ (next plugin result results events h) =
      omega (arith, total-Announced v results events h)

  Announced-AllOf :
      (results : List ValidationResult) (events : List DeviceValidatedEvent)
      → Announced results events
      → AllOf profile cred events
  Announced-AllOf _ _ done = tt
  Announced-AllOf _ _ (next plugin result results events h) =
      (refl, refl, refl, Announced-AllOf results events h)

  abbrev SentAll : Worker → List ValidationResult → Worker → Type 0
  SentAll s results s' =
      (events : List DeviceValidatedEvent) × (s'.validated_ch ≡ s.validated_ch ++ events)
      × Announced results events

  SentAll-one :
      (s : Worker) (plugin : PluginInfo) (result : ValidationResult)
      (results : List ValidationResult) (s' : Worker)
      → SentAll
          (record s {
            validated_ch = s.validated_ch ++ validated_event profile cred plugin result ∷ [];
          })
          results
          s'
      → SentAll s (result ∷ results) s'
  SentAll-one s plugin result results s' (events, channel, rest) = (
    validated_event profile cred plugin result ∷ events,
    channel ∙ append_assoc s.validated_ch _ _,
    next plugin result results events rest,
  )

  short :
      (i : ℕ) (results : List ValidationResult) (count : ℕ) (s : Worker)
      → (send_validated w profile cred i results count s).1 ≤ count + length results
  short i results count s = (send_validated-Sent w profile cred i results count s).bounded

  -- Where the loop counts every result, it has sent the event of every one.
  send_validated-SentAll :
      (i : ℕ) (results : List ValidationResult) (count : ℕ) (s : Worker)
      → (send_validated w profile cred i results count s).1 ≡ count + length results
      → SentAll s results (send_validated w profile cred i results count s).0
  unfolding send_validated
  send_validated-SentAll i [] count s h = ([], sym (append-nil s.validated_ch), done)
  send_validated-SentAll i (result ∷ results) count s h = elim (Option-cases result.plugin) [
    | inl e ↦ absurd (omega (arith, rw (e, send_validated) at (h), short (suc i) results count s))
    | inr (plugin, e) ↦
        elim (Bool-cases
          (ltb (length s.validated_ch) s.validated_cap && (not (w.done i) || w.pick i))) [
            | inl f ↦
                let queued : Worker = record s {
                  validated_ch = s.validated_ch ++ validated_event profile cred plugin result ∷ [];
                } in
                let step : send_validated w profile cred i (result ∷ results) count s
                    ≡ send_validated w profile cred (suc i) results (count + 1) queued =
                  rw (e, f, send_validated) refl in
                subst (λ (r : Worker × ℕ × Option JobError). SentAll s (result ∷ results) r.0)
                  (sym step)
                  (SentAll-one s plugin result results
                    (send_validated w profile cred (suc i) results (count + 1) queued).0
                    (send_validated-SentAll (suc i) results (count + 1) queued
                      (omega (arith, rw (e, f, send_validated) at (h)))))
            | inr f ↦ elim (Bool-cases (w.done i)) [
              | inl g ↦ absurd (omega (arith, rw (e, f, g, send_validated) at (h)))
              | inr g ↦ absurd (
                  omega (arith, rw (e, f, g, send_validated) at (h), short (suc i) results count s))
            ]
          ]
  ]

-- What a run has announced: an event for each address of its target, for the profile, its port and the
-- credential profile that it names.
pub record Announces (w : World) (profile : Profile) (events : List DeviceValidatedEvent)
    : Type 0 where
  pub addresses : List Text
  pub credential_profile : CredentialProfile
  pub expanded : expand_target w.netip w.fuel (target_of w profile) ≡ some (ok addresses)
  pub named : w.get_credential_profile profile.credential_profile_id ≡ some credential_profile
  pub each :
      (v : Text → ℕ) → total (λ (e : DeviceValidatedEvent). v e.ip) events ≡ total v addresses
  pub all : AllOf profile credential_profile events

execute_discovery-Announces :
    (w : World) (profile : Profile) (s : Worker)
    → ArrivesAll w
    → let (s', count, total, error) = execute_discovery w profile s in
      error ≡ none
      → count ≡ total
      → (events : List DeviceValidatedEvent) × (s'.validated_ch ≡ s.validated_ch ++ events)
        × Announces w profile events
        × (length events ≡ total)
unfolding execute_discovery
execute_discovery-Announces w profile s h clean counted =
    elim (Option-cases (expand_target w.netip w.fuel (target_of w profile))) [
      | inl e ↦ absurd (ground (arith, rw (e, execute_discovery) at (clean)))
      | inr (err x, e) ↦ absurd (ground (arith, rw (e, execute_discovery) at (clean)))
      | inr (ok ips, e) ↦
          elim (Option-cases (w.get_credential_profile profile.credential_profile_id)) [
            | inl f ↦ absurd (ground (arith, rw (e, f, execute_discovery) at (clean)))
            | inr (cred, f) ↦ elim (Option-cases (w.get_decrypted profile.credential_profile_id)) [
              | inl g ↦ absurd (ground (arith, rw (e, f, g, execute_discovery) at (clean)))
              | inr (creds, g) ↦
                  let plugin = plugin_of w cred.protocol in
                  let timeout = timeout_of profile in
                  let tried : Text → ValidationResult =
                    λ ip. probe w ip profile.port creds timeout plugin in
                  let size : length (w.arrive (map tried ips)) ≡ length ips =
                    ArrivesAll-Arrives w h (map tried ips) ∙ length-map tried ips in
                  let (events, channel, rest) =
                    send_validated-SentAll w profile cred 0 (w.arrive (map tried ips)) 0 s
                      (omega (arith, rw (e, f, g, execute_discovery) at (counted), size)) in
                  let announced : Announces w profile events = record {
                    addresses = ips;
                    credential_profile = cred;
                    expanded = e;
                    named = f;
                    each = λ v.
                        total-Announced w profile cred v (w.arrive (map tried ips)) events rest
                        ∙ h (λ (r : ValidationResult). v r.ip) (map tried ips)
                        ∙ total-map (λ (r : ValidationResult). v r.ip) tried ips
                        ∙ total-same (λ ip. v (tried ip).ip) v ips
                            (λ ip. ap v (probe-ip w ip profile.port creds timeout plugin));
                    all = Announced-AllOf w profile cred (w.arrive (map tried ips)) events rest;
                  } in
                  (
                    events,
                    rw (e, f, g, execute_discovery) channel,
                    announced,
                    rw (e, f, g, execute_discovery)
                        (omega (arith, total-one events, announced.each (λ v. 1), total-one ips)),
                  )
            ]
          ]
    ]

-- Where the results of all probes arrive, a run that is reported as a success has no error, and has sent the
-- event of a device for each address of its target, which has at least one: as many events for an
-- address as the target has it, and each for the profile, its port and the credential profile that it
-- names.
pub execute_discovery-success :
    (w : World) (profile : Profile) (s : Worker)
    → ArrivesAll w
    → let (s', count, total, error) = execute_discovery w profile s in
      status_of count total error ≡ "success"
      → (events : List DeviceValidatedEvent) × (s'.validated_ch ≡ s.validated_ch ++ events)
        × Announces w profile events
        × (length events ≡ total)
        × (0 < total)
        × (error ≡ none)
execute_discovery-success w profile s h p =
    let r = execute_discovery w profile s in
    let k = execute_discovery-Executed w profile s (ArrivesAll-Arrives w h) in
    let (clean, positive, all) = success_only r.1 r.2 r.3 (omega (arith, k.bounded)) p in
    let (events, channel, announced, size) = execute_discovery-Announces w profile s h clean all in
    (events, channel, announced, size, omega (arith, positive, all), clean)
