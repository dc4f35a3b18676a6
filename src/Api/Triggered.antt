-- ===== src/Api/Triggered.antt =====
-- internal/api/handlers/discovery.go: Run and triggerDiscovery, the requests for discoveries.
use nmslite.Common.{
  ℕ, suc, ◌≤◌, ◌<◌, String, str_eq, ◌≡◌, refl, ◌∙◌, ap, false, not, ◌&&◌, ◌||◌, Option, none, some,
  List, [], ◌∷◌, ◌++◌, length, ltb, inl, inr, arith, Bool-cases,
}
use nmslite.Common.Results.{ok}
use nmslite.Database.{DiscoveryProfile}
use nmslite.Database.Tables.Discoveries.{get_discovery_profile}
use nmslite.Discovery.World.{DiscoveryRequestEvent}
use nmslite.Api.Requests.{Api, query, parse_id_param}
use nmslite.Api.Discoveries.{Requests, trigger_discovery, run}

-- The channel has room, and neither the request nor the bus has ended.
pub record IsOpen (c : Requests) : Type 0 where
  pub room : length c.waiting < c.capacity
  pub live : c.has_ended ≡ false

length-snoc : {A : Type 0} (xs : List A) (x : A) → length (xs ++ x ∷ []) ≡ suc (length xs)
length-snoc [] x = refl
length-snoc (y ∷ xs) x = ap suc (length-snoc xs x)

-- What Run and triggerDiscovery do to the channel, for a request that is answered.
abbrev pub Triggers : Requests → Requests → ℕ → Type 0
Triggers c left id =
    (IsOpen c → left.waiting ≡ c.waiting ++ record { profile_id = id; started_at = c.now } ∷ [])
    × (c.capacity ≤ length c.waiting → left.waiting ≡ c.waiting)
    × (length c.waiting ≤ c.capacity → length left.waiting ≤ c.capacity)

trigger_lem :
    (c : Requests) (id : ℕ)
    → (left : Requests) × (trigger_discovery (some c) id ≡ some left) × Triggers c left id
unfolding trigger_discovery
trigger_lem c id =
    let event : DiscoveryRequestEvent = record { profile_id = id; started_at = c.now } in
    let grown = length-snoc c.waiting event in
    elim (Bool-cases (ltb (length c.waiting) c.capacity && (not c.has_ended || c.takes_send))) [
      | inl e ↦ (
        record c { waiting = c.waiting ++ event ∷ [] },
        rw e refl,
        (λ o. refl, λ full. absurd (ground (arith, e, full)), λ within. ground (arith, e, grown)),
      )
      | inr e ↦ (
        c,
        rw e refl,
        (λ o. absurd (ground (arith, e, o.room, o.live)), λ full. refl, λ within. within),
      )
    ]

run_lem :
    (parse_int : String → Option ℕ) (param : String) (id : ℕ) (found : DiscoveryProfile)
    (channel : Option Requests) (a : Api)
    → str_eq param "" ≡ false
    → parse_int param ≡ some id
    → (get_discovery_profile id a.db).0 ≡ ok found
    → (run parse_int param channel a).0 ≡ ok (202, none, trigger_discovery channel id)
unfolding run parse_id_param query
run_lem parse_int param id found channel a e f g = rw (e, f) (ground (arith, g))

-- Run, for an identifier that is read and a profile that the database finds, answers 202. An open
-- channel then holds one more event, for this profile, behind those that wait. A full channel is left
-- as it was: the discovery that was asked for never runs, and the answer is the same. The channel never
-- holds more than its capacity.
pub run-Triggers :
    (parse_int : String → Option ℕ) (param : String) (id : ℕ) (found : DiscoveryProfile)
    (c : Requests) (a : Api)
    → str_eq param "" ≡ false
    → parse_int param ≡ some id
    → (get_discovery_profile id a.db).0 ≡ ok found
    → (left : Requests) × ((run parse_int param (some c) a).0 ≡ ok (202, none, some left))
      × Triggers c left id
run-Triggers parse_int param id found c a e f g =
    let (left, h, t) = trigger_lem c id in
    (left, run_lem parse_int param id found (some c) a e f g ∙ ap (λ ch. ok (202, none, ch)) h, t)
