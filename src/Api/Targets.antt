-- ===== src/Api/Targets.antt =====
-- internal/api/handlers/discovery.go with internal/api/auth/security.go: the target of a discovery
-- profile, from the request that stores it to the request that reads it.
pub mod Rows
use nmslite.Common.{
  ℕ, String, str_eq, ◌≡◌, refl, ◌∙◌, sym, ap, subst, false, Option, some, List, find, find-insert,
  Assoc, insert, Option-cases, Bool-cases, ==_iff, inl, inr, arith,
}
use nmslite.Common.Results.{Result, ok}
use nmslite.Database.{DiscoveryProfile}
use nmslite.Database.Tables.{ask, is_some}
use nmslite.Database.Tables.Discoveries.{
  create_discovery_profile, update_discovery_profile, update_discovery, get_discovery_profile,
}
use nmslite.Auth.Security.{decrypt}
use nmslite.Auth.Roundtrip.{decrypt-encrypt}
use nmslite.Api.Requests.{Api, Failure, bind_lem, query, parse_id_param, decode_json}
use nmslite.Api.Profiles.{Vault}
use nmslite.Api.Secrets.{Parts, IsParts, vault_of, value_of}
use nmslite.Api.Discoveries.{
  Requests, create, update, get, encrypt_target, require_target, with_target,
}
use nmslite.Api.Targets.Rows.{Shows, Stored, encrypt_target_lem, create_row_lem, update_row_lem}

vault_lem :
    (p : Parts) (target text : List ℕ)
    → IsParts p
    → (vault_of p).encrypt target ≡ some text
    → (vault_of p).decrypt text ≡ some target
unfolding vault_of
vault_lem p target text law e =
    let (b, encrypted, decrypted) =
      decrypt-encrypt p.crypto law.cipher law.secret law.key law.user law.password law.expiry
        p.service law.made p.random law.readable target in
    let same : text ≡ p.crypto.encode b = ground (arith, ap value_of (sym encrypted) ∙ e) in
    ap (λ t. value_of (decrypt p.crypto p.service t)) same ∙ ap value_of decrypted

with_target_lem :
    (v : Vault) (profile : DiscoveryProfile) (target : List ℕ)
    → v.decrypt profile.target_value ≡ some target
    → with_target v profile ≡ record profile { target_value = target }
unfolding with_target
with_target_lem v profile target e = rw (e, with_target) refl

get_lem :
    (v : Vault) (parse_int : String → Option ℕ) (param : String) (channel : Option Requests)
    (profile : DiscoveryProfile) (target : List ℕ) (a : Api)
    → str_eq param "" ≡ false
    → parse_int param ≡ some profile.id
    → a.db.fault a.db.asked ≡ false
    → Stored profile a
    → v.decrypt profile.target_value ≡ some target
    → (get v parse_int param channel a).0
      ≡ ok (200, some (record profile { target_value = target }), channel)
unfolding get parse_id_param query get_discovery_profile ask
get_lem v parse_int param channel profile target a e f calm stored open_ =
    rw (e, f, calm, stored)
      (ap (λ c. ok (200, some c, channel)) (with_target_lem v profile target open_))

create_lem :
    (v : Vault) (input profile : DiscoveryProfile) (channel left : Option Requests) (a a' : Api)
    → create v (some input) channel a ≡ (ok (201, some profile, left), a')
    → (text : List ℕ) × (v.encrypt input.target_value ≡ some text)
      × Shows (record input { target_value = text }) profile
      × Stored profile a'
unfolding create decode_json
create_lem v input profile channel left a a' e0 =
    let (w0, a0, named, e1) = bind_lem (require_target v input) _ a a' _ e0 in
    let (text, a1, sealed, e2) = bind_lem (encrypt_target v input.target_value) _ a0 a' _ e1 in
    let (row, a2, kept, e3) =
      bind_lem
        (query "Discovery Profile"
          (create_discovery_profile (record input { target_value = text })))
        _ a1 a' _ e2 in
    let same : row ≡ profile = ground (arith, ap (λ r. r.0) e3) in
    let (shows, stored) = create_row_lem (record input { target_value = text }) row a1 a2 kept in
    (
      text,
      encrypt_target_lem v input.target_value text a0 a1 sealed,
      subst (λ (c : DiscoveryProfile). Shows (record input { target_value = text }) c) same shows,
      subst (λ (q : DiscoveryProfile × Api). Stored q.0 q.1) (λ i. (same i, (e3 i).1)) stored,
    )

update_lem :
    (v : Vault) (parse_int : String → Option ℕ) (param : String) (input profile : DiscoveryProfile)
    (channel left : Option Requests) (a a' : Api)
    → update v parse_int param (some input) channel a ≡ (ok (200, some profile, left), a')
    → (text : List ℕ) × (v.encrypt input.target_value ≡ some text)
      × Shows (record input { target_value = text }) profile
      × Stored profile a'
unfolding update decode_json
update_lem v parse_int param input profile channel left a a' e0 =
    let (id, a0, read, e1) = bind_lem (parse_id_param parse_int param) _ a a' _ e0 in
    let (text, a1, sealed, e2) = bind_lem (encrypt_target v input.target_value) _ a0 a' _ e1 in
    let asked : DiscoveryProfile = record input { id = id; target_value = text } in
    let (row, a2, kept, e3) =
      bind_lem (query "Discovery Profile" (update_discovery_profile asked)) _ a1 a' _ e2 in
    let same : row ≡ profile = ground (arith, ap (λ r. r.0) e3) in
    let (shows, stored) = update_row_lem asked row a1 a2 kept in
    let told = subst (λ (c : DiscoveryProfile). Shows asked c) same shows in
    (
      text,
      encrypt_target_lem v input.target_value text a0 a1 sealed,
      record {
        name = told.name;
        target = told.target;
        port = told.port;
        timeout = told.timeout;
        credentials = told.credentials;
        provisions = told.provisions;
        runs = told.runs;
      },
      subst (λ (q : DiscoveryProfile × Api). Stored q.0 q.1) (λ i. (same i, (e3 i).1)) stored,
    )

-- What Get shows of a profile that is stored with an encrypted target.
shown_lem :
    (p : Parts) (parse_int : String → Option ℕ) (param : String) (channel : Option Requests)
    (input profile : DiscoveryProfile) (text : List ℕ) (a : Api)
    → IsParts p
    → str_eq param "" ≡ false
    → parse_int param ≡ some profile.id
    → a.db.fault a.db.asked ≡ false
    → (vault_of p).encrypt input.target_value ≡ some text
    → Shows (record input { target_value = text }) profile
    → Stored profile a
    → (shown : DiscoveryProfile) × ((get (vault_of p) parse_int param channel a).0
        ≡ ok (200, some shown, channel))
      × Shows input shown
shown_lem p parse_int param channel input profile text a law e f calm sealed shows stored = (
  record profile { target_value = input.target_value },
  get_lem (vault_of p) parse_int param channel profile input.target_value a e f calm stored
      (ap (vault_of p).decrypt shows.target ∙ vault_lem p input.target_value text law sealed),
  record {
    name = shows.name;
    target = refl;
    port = shows.port;
    timeout = shows.timeout;
    credentials = shows.credentials;
    provisions = shows.provisions;
    runs = shows.runs;
  },
)

module _ (p : Parts) (parse_int : String → Option ℕ) (param other : String)
    (channel left : Option Requests) (input profile : DiscoveryProfile) (a a' : Api) where
  -- For the parts with their documented behaviour: when Create answers with a profile, then Get of the
  -- profile's identifier, as the next request and where the database answers it, shows a profile with
  -- the input's name, target value in the clear, port, timeout, credential profile and flags.
  pub get-create :
      IsParts p
      → create (vault_of p) (some input) channel a ≡ (ok (201, some profile, left), a')
      → str_eq param "" ≡ false
      → parse_int param ≡ some profile.id
      → a'.db.fault a'.db.asked ≡ false
      → (shown : DiscoveryProfile) × ((get (vault_of p) parse_int param left a').0
          ≡ ok (200, some shown, left))
        × Shows input shown
  get-create law created e f calm =
      let (text, sealed, shows, stored) =
        create_lem (vault_of p) input profile channel left a a' created in
      shown_lem p parse_int param left input profile text a' law e f calm sealed shows stored

  -- For the parts with their documented behaviour: when Update answers with a profile, then Get of the
  -- profile's identifier, as the next request and where the database answers it, shows a profile with
  -- the input's name, target value in the clear, port, timeout, credential profile and flags. This
  -- holds of the fields that the input leaves empty, too.
  get-update :
      IsParts p
      → update (vault_of p) parse_int other (some input) channel a
        ≡ (ok (200, some profile, left), a')
      → str_eq param "" ≡ false
      → parse_int param ≡ some profile.id
      → a'.db.fault a'.db.asked ≡ false
      → (shown : DiscoveryProfile) × ((get (vault_of p) parse_int param left a').0
          ≡ ok (200, some shown, left))
        × Shows input shown
  get-update law changed e f calm =
      let (text, sealed, shows, stored) =
        update_lem (vault_of p) parse_int other input profile channel left a a' changed in
      shown_lem p parse_int param left input profile text a' law e f calm sealed shows stored
