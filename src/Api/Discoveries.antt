-- ===== src/Api/Discoveries.antt =====
-- internal/api/handlers/discovery.go: DiscoveryHandler, with the channel of discovery requests.
use nmslite.Common.{
  ℕ, ℤ, String, str_eq, Bool, true, false, ◌||◌, ◌&&◌, not, Option, none, some, List, [], ◌∷◌, ◌++◌,
  length, ltb, if◌then◌else◌,
}
use nmslite.Database.{DiscoveryProfile}
use nmslite.Database.Tables.Discoveries.{
  get_discovery_profile, create_discovery_profile, update_discovery_profile,
  delete_discovery_profile,
}
use nmslite.Discovery.World.{DiscoveryRequestEvent}
use nmslite.Api.Requests.{Action, ◌>>=◌, pure, fail, query, parse_id_param, decode_json}
use nmslite.Api.Profiles.{Vault}

-- deps.Events.DiscoveryRequest as a request meets it: the events that wait in it, how many it can
-- hold, whether the request or the bus has ended, which of the ready cases a select then takes, and
-- the time.
pub record Requests : Type 0 where
  pub waiting : List DiscoveryRequestEvent
  pub capacity : ℕ
  pub has_ended : Bool
  pub takes_send : Bool
  pub now : ℤ

-- triggerDiscovery; without a bus, or where nothing is ready, there is nothing to do.
unfoldable pub trigger_discovery : Option Requests → ℕ → Option Requests
trigger_discovery none id = none
trigger_discovery (some c) id =
    if ltb (length c.waiting) c.capacity && (not c.has_ended || c.takes_send)
    then some
        (record c { waiting = c.waiting ++ record { profile_id = id; started_at = c.now } ∷ [] })
    else some c

-- What the handlers answer: a status, a profile if they send one, and the channel that they leave. An
-- error leaves the channel as it was.
abbrev pub Answer : Type 0
Answer = ℕ × Option DiscoveryProfile × Option Requests

abbrev is_set : Option Bool → Bool
is_set none = false
is_set (some b) = b

module _ (v : Vault) where
  open v use {encrypt, decrypt}

  abbrev pub encrypt_target : List ℕ → Action (List ℕ)
  encrypt_target target = elim (encrypt target) [
    | none ↦ fail 500 "ENCRYPTION_ERROR" "Failed to encrypt target value"
    | some text ↦ pure text
  ]

  -- The profile as List and Get show it: decrypted where that succeeds.
  unfoldable pub with_target : DiscoveryProfile → DiscoveryProfile
  with_target profile = elim (decrypt profile.target_value) [
    | none ↦ profile
    | some target ↦ record profile { target_value = target }
  ]

  abbrev pub has_target : DiscoveryProfile → Bool
  has_target input = elim input.target_value [ [] ↦ false | _ ↦ true ]

  abbrev pub require_target : DiscoveryProfile → Action Unit
  require_target input =
      if str_eq input.name "" || not (has_target input)
      then fail 400 "VALIDATION_ERROR" "Name and TargetValue are required"
      else pure tt

  -- Create
  unfoldable pub create : Option DiscoveryProfile → Option Requests → Action Answer
  unfolding decode_json query create_discovery_profile trigger_discovery
  create body channel = do
    input ← decode_json body
    _ ← require_target input
    target ← encrypt_target input.target_value
    profile ←
        query "Discovery Profile"
          (create_discovery_profile (record input { target_value = target }))
    pure (
      201,
      some profile,
      if is_set input.auto_run then trigger_discovery channel profile.id else channel,
    )

  module _ (parse_int : String → Option ℕ) where
    -- Get
    unfoldable pub get : String → Option Requests → Action Answer
    unfolding parse_id_param query get_discovery_profile with_target
    get param channel = do
      id ← parse_id_param parse_int param
      profile ← query "Discovery Profile" (get_discovery_profile id)
      pure (200, some (with_target profile), channel)

    -- Update
    unfoldable pub update : String → Option DiscoveryProfile → Option Requests → Action Answer
    unfolding parse_id_param decode_json query update_discovery_profile
    update param body channel = do
      id ← parse_id_param parse_int param
      input ← decode_json body
      target ← encrypt_target input.target_value
      profile ←
          query "Discovery Profile"
            (update_discovery_profile (record input { id = id; target_value = target }))
      pure (200, some profile, channel)

-- Delete
unfoldable pub delete : (String → Option ℕ) → String → Option Requests → Action Answer
unfolding parse_id_param query delete_discovery_profile
delete parse_int param channel = do
  id ← parse_id_param parse_int param
  _ ← query "Discovery Profile" (delete_discovery_profile id)
  pure (204, none, channel)

-- Run
unfoldable pub run : (String → Option ℕ) → String → Option Requests → Action Answer
unfolding parse_id_param query get_discovery_profile trigger_discovery
run parse_int param channel = do
  id ← parse_id_param parse_int param
  _ ← query "Discovery profile" (get_discovery_profile id)
  pure (202, none, trigger_discovery channel id)
