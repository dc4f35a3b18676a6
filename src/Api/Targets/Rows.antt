-- ===== src/Api/Targets/Rows.antt =====
-- internal/api/handlers/discovery.go and internal/database/dbgen/discoveryProfiles.sql.go: the rows of
-- discovery profiles that the handlers store.
use nmslite.Common.{
  ℕ, ◌≡◌, refl, ap, subst, some, List, find, find-insert, Assoc, insert, Option-cases, Bool-cases,
  ==_iff, inl, inr, arith,
}
use nmslite.Common.Results.{Result, ok}
use nmslite.Database.{DiscoveryProfile}
use nmslite.Database.Tables.{ask, is_some}
use nmslite.Database.Tables.Discoveries.{
  create_discovery_profile, update_discovery_profile, update_discovery,
}
use nmslite.Api.Requests.{Api, Failure, query}
use nmslite.Api.Profiles.{Vault}
use nmslite.Api.Discoveries.{encrypt_target}

-- A profile has what the input asks for.
pub record Shows (input profile : DiscoveryProfile) : Type 0 where
  pub name : profile.name ≡ input.name
  pub target : profile.target_value ≡ input.target_value
  pub port : profile.port ≡ input.port
  pub timeout : profile.port_scan_timeout_ms ≡ input.port_scan_timeout_ms
  pub credentials : profile.credential_profile_id ≡ input.credential_profile_id
  pub provisions : profile.auto_provision ≡ input.auto_provision
  pub runs : profile.auto_run ≡ input.auto_run

-- A state in which the profile is stored.
abbrev pub Stored : DiscoveryProfile → Api → Type 0
Stored profile a = find profile.id a.db.discoveries ≡ some profile

pub encrypt_target_lem :
    (v : Vault) (target text : List ℕ) (a b : Api)
    → encrypt_target v target a ≡ (ok text, b)
    → v.encrypt target ≡ some text
encrypt_target_lem v target text a b e = elim (Option-cases (v.encrypt target)) [
  | inl f ↦ absurd (ground (arith, rw (f, encrypt_target) at (e)))
  | inr (sealed, f) ↦ ground (arith, f, rw (f, encrypt_target) at (e))
]

find_row_lem :
    (id : ℕ) (row : DiscoveryProfile) (rows : Assoc DiscoveryProfile)
    → find id (insert id row rows) ≡ some row
find_row_lem id row rows = ground (arith, find-insert id id row rows, (==_iff id id).1 refl)

-- What holds of an answer holds of whatever it is equal to.
carry :
    (P : DiscoveryProfile → Api → Type 0) (x y : DiscoveryProfile) (a b : Api)
    → Path (Result Failure DiscoveryProfile × Api) (ok x, a) (ok y, b)
    → P x a
    → P y b
carry P x y a b e p =
    let same : x ≡ y = ground (arith, ap (λ r. r.0) e) in
    subst (λ (q : DiscoveryProfile × Api). P q.0 q.1) (λ i. (same i, (e i).1)) p

pub create_row_lem :
    (c profile : DiscoveryProfile) (a b : Api)
    → query "Discovery Profile" (create_discovery_profile c) a ≡ (ok profile, b)
    → Shows c profile × Stored profile b
unfolding query create_discovery_profile ask
create_row_lem c profile a b e = elim (Bool-cases (a.db.fault a.db.asked)) [
  | inl f ↦ absurd (ground (arith, rw (f, query) at (e)))
  | inr f ↦ elim (Bool-cases (is_some (find c.credential_profile_id a.db.profiles))) [
    | inl g ↦
        carry (λ row s. Shows c row × Stored row s) _ profile _ b (rw (f, g, query) at (e))
          (
            record {
              name = refl;
              target = refl;
              port = refl;
              timeout = refl;
              credentials = refl;
              provisions = refl;
              runs = refl;
            },
            find_row_lem a.db.next_discovery _ a.db.discoveries,
          )
    | inr g ↦ absurd (ground (arith, rw (f, g, query) at (e)))
  ]
]

pub update_row_lem :
    (c profile : DiscoveryProfile) (a b : Api)
    → query "Discovery Profile" (update_discovery_profile c) a ≡ (ok profile, b)
    → Shows c profile × Stored profile b
unfolding query update_discovery_profile ask
update_row_lem c profile a b e = elim (Bool-cases (a.db.fault a.db.asked)) [
  | inl f ↦ absurd (ground (arith, rw (f, query) at (e)))
  | inr f ↦ elim (Option-cases (find c.id a.db.discoveries)) [
    | inl h ↦ absurd (ground (arith, rw (f, h, update_discovery, query) at (e)))
    | inr (old, h) ↦ elim (Bool-cases (is_some (find c.credential_profile_id a.db.profiles))) [
      | inl g ↦
          carry (λ row s. Shows c row × Stored row s) _ profile _ b
            (rw (f, h, g, update_discovery, query) at (e))
            (
              record {
                name = refl;
                target = refl;
                port = refl;
                timeout = refl;
                credentials = refl;
                provisions = refl;
                runs = refl;
              },
              find_row_lem c.id _ a.db.discoveries,
            )
      | inr g ↦ absurd (ground (arith, rw (f, h, g, update_discovery, query) at (e)))
    ]
  ]
]
