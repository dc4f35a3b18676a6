-- ===== src/Api/Coherence/Provisioned.antt =====
-- internal/discovery/provisioning.go and worker.go: provisioning keeps the scheduler's cache in
-- agreement with the tables, as far as its events are sent.
use nmslite.Common.{
  ℕ, suc, ℤ, ◌≡◌, refl, sym, subst, true, Option, none, some, [], ◌∷◌, find, insert, inl, inr,
  Bool-cases, Option-cases, Assoc,
}
use nmslite.Common.Results.{Result, ok, err, or_err, Result-cases}
use nmslite.Database.{Monitor, MonitorRow, CredentialProfile, DiscoveredDevice}
use nmslite.Database.Tables.{
  Db, DbError, no_rows, Query, ask, find_row, join_row, joined, create_monitor, keep_db,
}
use nmslite.Database.Tables.Discoveries.{
  get_discovered_device, get_discovery_profile, names_profile, update_discovered_device_status,
  create_discovered_device,
}
use nmslite.Database.Tables.Profiles.{get_credential_profile}
use nmslite.Database.Joined.{active}
use nmslite.Poller.Scheduler.{Scheduler}
use nmslite.Discovery.World.{DeviceValidatedEvent}
use nmslite.Api.Requests.{Api, send}
use nmslite.Api.Coherence.{
  Synced, IsCalm, Coherent, start, update_event, Coherent-asked, Coherent-stored, refused, stored,
  create_monitor-Stored,
}
use nmslite.Api.Coherence.Served.{get_row_lem, find_row-stored}
use nmslite.Discovery.Provisioning.{
  Surroundings, ProvisionError, panicked, no_device, no_profile_of_device, no_profile,
  no_credentials, device_of_event, plugin_of, params, not_created, Step, continued, ◌>>=◌, give,
  must, answer_or, query_or, send_row, push_to_poller, provision_from_event, provision_from_id,
  handle_validated, params_of_event, mark, wants_monitor,
}

-- An action that sends nothing and leaves tables which the scheduler agrees with.
data Calmly {A : Type 0} (m : Step A) (db : Db) (s : Scheduler) : Type 0 where
  goes_on :
      (x : A) (db' : Db) → m (start db) ≡ (Result.ok x, start db') → Synced db' s → Calmly m db s
  ends :
      (e : ProvisionError) (db' : Db)
      → m (start db) ≡ (err e, start db')
      → Synced db' s
      → Calmly m db s

must-Calmly :
    {A : Type 0} (e : ProvisionError) (o : Option A) (db : Db) (s : Scheduler)
    → Synced db s
    → Calmly (must e o) db s
must-Calmly e none db s v = ends e db refl v
must-Calmly e (some x) db s v = goes_on x db refl v

query_or-Calmly :
    {A : Type 0} (e : ProvisionError) (q : Query A) (db : Db) (s : Scheduler)
    → Synced (q db).1 s
    → Calmly (query_or e q) db s
unfolding query_or
query_or-Calmly e q db s v = elim (Result-cases (q db).0) [
  | inl (x, f) ↦ goes_on x (q db).1 (λ i. answer_or e (start db) (f i, (q db).1)) v
  | inr (x, f) ↦ ends e (q db).1 (λ i. answer_or e (start db) (f i, (q db).1)) v
]

module _ (clock : ℕ → ℤ) (s : Scheduler) where
  -- Tables that differ in their devices.
  Synced-devices :
      (db : Db) (n k : ℕ) (devices : Assoc DiscoveredDevice)
      → Synced db s
      → Synced (record db { asked = n; devices = devices; next_device = k }) s
  unfolding active find_row join_row
  Synced-devices db n k devices v = record {
    valid = v.valid;
    sound = record {
      keyed = v.sound.keyed;
      calm = v.sound.calm;
      known = v.sound.known;
      fresh = v.sound.fresh;
    };
    agrees = v.agrees;
  }

  bind-Coherent :
      {A B : Type 0} (m : Step A) (k : A → Step B) (db : Db)
      → Calmly m db s
      → ((x : A) (db' : Db) → Synced db' s → Coherent clock s (k x (start db')).1)
      → Coherent clock s ((m >>= k) (start db)).1
  bind-Coherent m k db (goes_on x db' e v) h =
      subst (λ p. Coherent clock s (continued p k).1) (sym e) (h x db' v)
  bind-Coherent m k db (ends x db' e v) h =
      subst (λ p. Coherent clock s (continued p k).1) (sym e) v

  module _ (w : Surroundings) (sending : w.sends ≡ true) where
    push_lem :
        (db : Db) (id : ℕ) (row : MonitorRow)
        → IsCalm db
        → find_row db id ≡ some row
        → push_to_poller w id (start db) ≡ (
          Result.ok tt,
          record {
            db = record db { asked = suc db.asked };
            sent = some (update_event (row ∷ []) ∷ []);
          },
        )
    unfolding push_to_poller query_or send_row send
    push_lem db id row calm e = rw (get_row_lem db id row calm e, sending) refl

    push-Coherent :
        (db : Db) (n next : ℕ) (m : Monitor) (c : CredentialProfile)
        → Synced db s
        → find m.credential_profile_id db.profiles ≡ some c
        → Coherent clock s
            (push_to_poller w m.id (
              start (record db {
                asked = n;
                monitors = insert m.id m db.monitors;
                next_monitor = next;
              }))).1
    push-Coherent db n next m c v g =
        let db' : Db = record db {
          asked = n;
          monitors = insert m.id m db.monitors;
          next_monitor = next;
        } in
        subst (λ (p : Result ProvisionError Unit × Api). Coherent clock s p.1)
          (sym (push_lem db' m.id (joined m c) v.sound.calm (find_row-stored db n next m c g)))
          (Coherent-stored clock db s v (suc n) next m c g)

    -- A monitor is created and sent.
    created-Coherent :
        (db : Db) (m : Monitor)
        → Synced db s
        → Coherent clock s
            ((query_or not_created (create_monitor m) >>= (λ r. push_to_poller w r.id))
              (start db)).1
    unfolding query_or
    created-Coherent db m v = elim (create_monitor-Stored db m v.sound.calm) [
      | refused x f ↦ rw f (Coherent-asked clock db s v (suc db.asked))
      | stored r c next g f ↦ rw f (push-Coherent db (suc db.asked) next r c v g)
    ]

    provision_from_event-Coherent :
        (event : DeviceValidatedEvent) (db : Db)
        → Synced db s
        → Coherent clock s (provision_from_event w event (start db)).1
    unfolding provision_from_event
    provision_from_event-Coherent event db v =
        bind-Coherent _ _ db (must-Calmly panicked (w.parse_addr event.ip) db s v)
          (λ ip db' v'. created-Coherent db' (params_of_event w event ip) v')

    create_device-Synced :
        (d : DiscoveredDevice) (db : Db) → Synced db s → Synced (create_discovered_device d db).1 s
    unfolding create_discovered_device ask
    create_device-Synced d db v = elim (Bool-cases (names_profile db d.discovery_profile_id)) [
      | inl e ↦
          rw (v.sound.calm db.asked, e, create_discovered_device, names_profile)
            (Synced-devices db (suc db.asked) (suc db.next_device) _ v)
      | inr e ↦
          rw (v.sound.calm db.asked, e, create_discovered_device, names_profile)
            (Synced-devices db (suc db.asked) db.next_device db.devices v)
    ]

    pub handle_validated-Coherent :
        (event : DeviceValidatedEvent) (db : Db)
        → Synced db s
        → Coherent clock s (handle_validated w event (start db)).1
    unfolding handle_validated
    handle_validated-Coherent event db v =
        bind-Coherent _ _ db (must-Calmly panicked (w.parse_addr event.ip) db s v) (λ ip db' v'.
          bind-Coherent _ _ db'
            (query_or-Calmly not_created (create_discovered_device (device_of_event w event ip)) db'
              s (create_device-Synced (device_of_event w event ip) db' v'))
            (λ d db'' v''. elim (Bool-cases (wants_monitor w event)) [
              | inl e ↦ rw e (provision_from_event-Coherent event db'' v'')
              | inr e ↦ rw e v''
            ]))

    -- A read of the database.
    read-Synced :
        {A : Type 0} (answer : Db → Result DbError A) (db : Db)
        → Synced db s
        → Synced (ask (λ d. keep_db d (answer d)) db).1 s
    unfolding ask
    read-Synced answer db v =
        let asked : Db = record db { asked = suc db.asked } in
        let same = Synced-devices db (suc db.asked) db.next_device db.devices v in
        elim (Result-cases (answer asked)) [
          | inl (x, e) ↦ rw (v.sound.calm db.asked, e) same
          | inr (x, e) ↦ rw (v.sound.calm db.asked, e) same
        ]

    continued-give :
        {A B : Type 0} (p : Result ProvisionError A × Api) (b : B)
        → (continued p (λ u. give b)).1 ≡ p.1
    continued-give (ok x, a) b = refl
    continued-give (err x, a) b = refl

    mark_lem :
        (id : ℕ) (db : Db)
        → IsCalm db
        → (devices : Assoc DiscoveredDevice) × ((update_discovered_device_status id
              (some "provisioned")
              db).1
            ≡ record db { asked = suc db.asked; devices = devices })
    unfolding update_discovered_device_status ask
    mark_lem id db calm = elim (Option-cases (find id db.devices)) [
      | inl e ↦ (db.devices, rw (calm db.asked, e) refl)
      | inr (d, e) ↦ (
        insert id (record d { status = some "provisioned"; updated_at = some db.now }) db.devices,
        rw (calm db.asked, e) refl,
      )
    ]

    -- A monitor is created, its device is marked, and it is sent.
    marked-Coherent :
        (id : ℕ) (db : Db) (m : Monitor)
        → Synced db s
        → Coherent clock s
            ((query_or not_created (create_monitor m)
                >>= (λ r. mark w id >>= (λ u. push_to_poller w r.id >>= (λ u'. give r))))
              (start db)).1
    unfolding query_or
    marked-Coherent id db m v = elim (create_monitor-Stored db m v.sound.calm) [
      | refused x f ↦ rw f (Coherent-asked clock db s v (suc db.asked))
      | stored r c next g f ↦
          let db' : Db = record db {
            asked = suc db.asked;
            monitors = insert r.id r db.monitors;
            next_monitor = next;
          } in
          let (devices, e) = mark_lem id db' v.sound.calm in
          let base : Db = record db { devices = devices } in
          let base-Synced = Synced-devices db db.asked db.next_device devices v in
          rw f (
            subst
              (λ (d : Db).
                Coherent clock s
                  ((push_to_poller w r.id >>= (λ u'. give {A = Monitor} r)) (start d)).1)
              (sym e)
              (subst (λ a. Coherent clock s a) (sym (continued-give (push_to_poller w r.id _) r))
                (push-Coherent base (suc (suc db.asked)) next r c base-Synced g)))
    ]

    pub provision_from_id-Coherent :
        (id : ℕ) (db : Db) → Synced db s → Coherent clock s (provision_from_id w id (start db)).1
    unfolding provision_from_id get_discovered_device get_discovery_profile get_credential_profile
    provision_from_id-Coherent id db v =
        bind-Coherent _ _ db
          (query_or-Calmly no_device (get_discovered_device id) db s
            (read-Synced (λ d. or_err no_rows (find id d.devices)) db v))
          (λ device db1 v1.
            bind-Coherent _ _ db1
              (must-Calmly no_profile_of_device device.discovery_profile_id db1 s v1)
              (λ profile_id db2 v2.
                bind-Coherent _ _ db2
                  (query_or-Calmly no_profile (get_discovery_profile profile_id) db2 s
                    (read-Synced (λ d. or_err no_rows (find profile_id d.discoveries)) db2 v2))
                  (λ found db3 v3.
                    bind-Coherent _ _ db3
                      (query_or-Calmly no_credentials
                        (get_credential_profile found.credential_profile_id) db3 s
                        (read-Synced
                          (λ d. or_err no_rows (find found.credential_profile_id d.profiles)) db3
                          v3))
                      (λ profile db4 v4.
                        marked-Coherent id db4
                          (params device.ip_address none device.port (plugin_of w profile.protocol)
                            found.credential_profile_id found.id)
                          v4))))
