-- ===== src/Api/Coherence/Unaffected.antt =====
-- internal/api/handlers/discovery.go and devices.go: the requests that change only discovery profiles
-- and devices send nothing, and the scheduler's cache agrees with the tables that they leave.
use nmslite.Common.{
  ℕ, suc, String, ◌≡◌, refl, ◌∙◌, ap, subst, Option, none, some, Assoc, inl, inr, arith, Bool-cases,
  Option-cases, find, erase,
}
use nmslite.Common.Results.{Result, ok, or_err, Result-cases}
use nmslite.Database.{DiscoveryProfile, DiscoveredDevice}
use nmslite.Database.Tables.{Db, DbError, Query, ask, is_some, keep_db, find_row, join_row, no_rows}
use nmslite.Database.Tables.Discoveries.{
  found_by, other_devices, create_discovery_profile, update_discovery_profile,
  delete_discovery_profile, get_discovery_profile, get_discovered_device, delete_discovered_device,
  create_discovery, update_discovery, delete_discovery,
}
use nmslite.Database.Joined.{active}
use nmslite.Poller.Scheduler.{Scheduler}
use nmslite.Api.Requests.{
  Action, and_then, answered, ◌>>=◌, pure, fail, query, parse_id_param, decode_json,
}
use nmslite.Api.Coherence.{Synced, start}
use nmslite.Api.Coherence.Served.{parse-cases}

module _ (s : Scheduler) where
  -- An action that sends nothing and leaves tables which the scheduler agrees with.
  unfoldable pub Still : {A : Type 0} → Action A → Type 0
  Still m = (db : Db) → Synced db s → (db' : Db) × ((m (start db)).1 ≡ start db') × Synced db' s

  -- Tables that differ in their discovery profiles and devices.
  Synced-others :
      (db : Db) (n k l : ℕ) (discoveries : Assoc DiscoveryProfile)
      (devices : Assoc DiscoveredDevice)
      → Synced db s
      → Synced
          (record db {
            asked = n;
            discoveries = discoveries;
            devices = devices;
            next_device = k;
            next_discovery = l;
          })
          s
  unfolding active find_row join_row
  Synced-others db n k l discoveries devices v = record {
    valid = v.valid;
    sound = record {
      keyed = v.sound.keyed;
      calm = v.sound.calm;
      known = v.sound.known;
      fresh = v.sound.fresh;
    };
    agrees = v.agrees;
  }

  pub bind-Still :
      {A B : Type 0} (m : Action A) (k : A → Action B)
      → Still m
      → ((x : A) → Still (k x))
      → Still (m >>= k)
  unfolding Still
  bind-Still m k still next db v =
      let (db', e, v') = still db v in
      elim (Result-cases (m (start db)).0) [
        | inl (x, f) ↦
            let (db'', g, v'') = next x db' v' in
            (db'', ap (λ r. r.1) (λ i. and_then (f i, e i) k) ∙ g, v'')
        | inr (x, f) ↦ (db', ap (λ r. r.1) (λ i. and_then (f i, e i) k), v')
      ]

  pub pure-Still : {A : Type 0} (x : A) → Still (pure x)
  unfolding Still
  pure-Still x db v = (db, refl, v)

  pub fail-Still :
      (A : Type 0) (status : ℕ) (code message : String) → Still (fail {A = A} status code message)
  unfolding Still
  fail-Still A status code message db v = (db, refl, v)

  pub query-Still :
      {A : Type 0} (entity : String) (q : Query A)
      → ((db : Db) → Synced db s → Synced (q db).1 s)
      → Still (query entity q)
  unfolding Still query
  query-Still entity q keeps db v = elim (Result-cases (q db).0) [
    | inl (x, e) ↦ ((q db).1, (λ i. (answered entity (start db) (e i, (q db).1)).1), keeps db v)
    | inr (x, e) ↦ ((q db).1, (λ i. (answered entity (start db) (e i, (q db).1)).1), keeps db v)
  ]

  pub decode-Still : {A : Type 0} (body : Option A) → Still (decode_json body)
  unfolding decode_json
  decode-Still {A = A} none = fail-Still A 400 "INVALID_BODY" "Invalid JSON body"
  decode-Still (some x) = pure-Still x

  pub parse-Still :
      (parse_int : String → Option ℕ) (param : String) → Still (parse_id_param parse_int param)
  unfolding Still
  parse-Still parse_int param db v = elim (parse-cases parse_int param) [
    | inl (x, e) ↦ (db, ap (λ r. r.1) (e (start db)), v)
    | inr (x, e) ↦ (db, ap (λ r. r.1) (e (start db)), v)
  ]

  -- A statement whose answer leaves tables which the scheduler agrees with.
  ask-Synced :
      {A : Type 0} (statement : Db → Result DbError (A × Db))
      → ((db : Db) (x : A) (db' : Db) → Synced db s → statement db ≡ ok (x, db') → Synced db' s)
      → (db : Db) → Synced db s
      → Synced (ask statement db).1 s
  unfolding ask
  ask-Synced statement keeps db v =
      let asked : Db = record db { asked = suc db.asked } in
      let same =
        Synced-others db (suc db.asked) db.next_device db.next_discovery db.discoveries db.devices
          v in
      elim (Result-cases (statement asked)) [
        | inl (x, e) ↦ rw (v.sound.calm db.asked, e) (keeps asked x.0 x.1 same e)
        | inr (x, e) ↦ rw (v.sound.calm db.asked, e) same
      ]

  kept :
      {A : Type 0} (x y : A) (db db' : Db)
      → Path (Result DbError (A × Db)) (ok (x, db)) (ok (y, db'))
      → Synced db s
      → Synced db' s
  kept x y db db' e v = subst (λ d. Synced d s) (ground (arith, e)) v

  pub read-Synced :
      {A : Type 0} (answer : Db → Result DbError A) (db : Db)
      → Synced db s
      → Synced (ask (λ d. keep_db d (answer d)) db).1 s
  read-Synced answer =
      ask-Synced (λ d. keep_db d (answer d))
        (λ db x db' v e. elim (Result-cases (answer db)) [
          | inl (y, f) ↦ kept y x db db' (rw f at (e)) v
          | inr (y, f) ↦ absurd (ground (arith, rw f at (e)))
        ])

  pub get_discovery-Synced :
      (id : ℕ) (db : Db) → Synced db s → Synced (get_discovery_profile id db).1 s
  unfolding get_discovery_profile
  get_discovery-Synced id = read-Synced (λ d. or_err no_rows (find id d.discoveries))

  pub get_device-Synced :
      (id : ℕ) (db : Db) → Synced db s → Synced (get_discovered_device id db).1 s
  unfolding get_discovered_device
  get_device-Synced id = read-Synced (λ d. or_err no_rows (find id d.devices))

  pub delete_device-Synced :
      (id : ℕ) (db : Db) → Synced db s → Synced (delete_discovered_device id db).1 s
  unfolding delete_discovered_device
  delete_device-Synced id = ask-Synced _ (λ db x db' v e. kept tt x _ db' e (
      Synced-others db db.asked db.next_device db.next_discovery db.discoveries
        (erase id db.devices) v))

  pub delete_discovery-Synced :
      (id : ℕ) (db : Db) → Synced db s → Synced (delete_discovery_profile id db).1 s
  unfolding delete_discovery_profile
  delete_discovery-Synced id = ask-Synced (delete_discovery id) (λ db x db' v e.
      elim (Bool-cases (found_by id db.monitors)) [
        | inl f ↦ absurd (ground (arith, rw f at (e)))
        | inr f ↦ kept tt x _ db' (rw f at (e)) (
            Synced-others db db.asked db.next_device db.next_discovery (erase id db.discoveries)
              (other_devices id db.devices) v)
      ])

  pub create_discovery-Synced :
      (p : DiscoveryProfile) (db : Db) → Synced db s → Synced (create_discovery_profile p db).1 s
  unfolding create_discovery_profile
  create_discovery-Synced p = ask-Synced (create_discovery p) (λ db x db' v e.
      elim (Bool-cases (is_some (find p.credential_profile_id db.profiles))) [
        | inl f ↦
            kept _ x _ db' (rw f at (e))
              (Synced-others db db.asked db.next_device (suc db.next_discovery) _ db.devices v)
        | inr f ↦ absurd (ground (arith, rw f at (e)))
      ])

  pub update_discovery-Synced :
      (p : DiscoveryProfile) (db : Db) → Synced db s → Synced (update_discovery_profile p db).1 s
  unfolding update_discovery_profile
  update_discovery-Synced p = ask-Synced (update_discovery p) (λ db x db' v e.
      elim (Option-cases (find p.id db.discoveries)) [
        | inl h ↦ absurd (ground (arith, rw (h, update_discovery) at (e)))
        | inr (old, h) ↦ elim (Bool-cases (is_some (find p.credential_profile_id db.profiles))) [
          | inl f ↦
              kept _ x _ db' (rw (h, f, update_discovery) at (e))
                (Synced-others db db.asked db.next_device db.next_discovery _ db.devices v)
          | inr f ↦ absurd (ground (arith, rw (h, f, update_discovery) at (e)))
        ]
      ])
