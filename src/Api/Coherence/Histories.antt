-- ===== src/Api/Coherence/Histories.antt =====
-- internal/api/handlers with internal/poller/scheduler.go: histories of requests. Each request is
-- served to its end, and the scheduler handles its events before the next.
use nmslite.Common.{ℕ, ℤ, String, true, Option, List, ◌≡◌, ◌∙◌, find, [], ◌∷◌}
use nmslite.Database.{Monitor, CredentialProfile, DiscoveryProfile}
use nmslite.Database.Tables.{Db}
use nmslite.Database.Tables.{active_rows}
use nmslite.Database.Joined.{active, entry_after-active_rows, all_active-active_rows}
use nmslite.Poller.Scheduler.{Scheduler, SchedulerConfig, new_scheduler}
use nmslite.Poller.Scheduler.Cache.{load_active_monitors, timed}
use nmslite.Poller.Scheduler.Cached.{cached, cached-load_active_monitors}
use nmslite.Poller.Scheduler.Invariant.{IsValid, load_active_monitors-IsValid}
use nmslite.Poller.Scheduler.Reachable.{new_scheduler-IsValid}
use nmslite.Api.Requests.{Api}
use nmslite.Api.Monitors
use nmslite.Api.Profiles
use nmslite.Api.Profiles.{Vault}
use nmslite.Api.Discoveries
use nmslite.Api.Discoveries.{Requests}
use nmslite.Api.Devices
use nmslite.Api.Coherence.Idle
use nmslite.Api.Coherence.{Synced, IsSound, Coherent, handled, start}
use nmslite.Api.Coherence.Served
use nmslite.Api.Coherence.Provisioned
use nmslite.Discovery.World.{DeviceValidatedEvent}
use nmslite.Discovery.Provisioning.{Surroundings, handle_validated}
use nmslite.Api.Coherence.Refreshed

pub data Request : Type 0 where
  get_monitor delete_monitor get_profile delete_profile : String → Request
  create_monitor : Option Monitor → Request
  update_monitor : String → Option Monitor → Request
  create_profile : Option CredentialProfile → Request
  update_profile : String → Option CredentialProfile → Request
  -- a device that a discovery validated, and the provisioning of one that was found before
  device_validated : DeviceValidatedEvent → Request
  provision_device : String → Request
  -- on discovery profiles, with the channel of discovery requests as the request meets it
  create_discovery : Option DiscoveryProfile → Option Requests → Request
  update_discovery : String → Option DiscoveryProfile → Option Requests → Request
  get_discovery delete_discovery run_discovery : String → Option Requests → Request
  get_device delete_device : String → Request

module _ (vault : Vault) (parse_int : String → Option ℕ) (w : Surroundings) (clock : ℕ → ℤ) where
  -- The state after the request's handler has run.
  abbrev serve : Request → Api → Api
  serve (get_monitor param) a = (Monitors.get parse_int param a).1
  serve (create_monitor body) a = (Monitors.create body a).1
  serve (update_monitor param body) a = (Monitors.update parse_int param body a).1
  serve (delete_monitor param) a = (Monitors.delete parse_int param a).1
  serve (get_profile param) a = (Profiles.get vault parse_int param a).1
  serve (create_profile body) a = (Profiles.create vault body a).1
  serve (update_profile param body) a = (Profiles.update vault parse_int param body a).1
  serve (delete_profile param) a = (Profiles.delete vault parse_int param a).1
  serve (device_validated event) a = (handle_validated w event a).1
  serve (provision_device param) a = (Devices.provision parse_int w param a).1
  serve (create_discovery body channel) a = (Discoveries.create vault body channel a).1
  serve (update_discovery param body channel) a =
      (Discoveries.update vault parse_int param body channel a).1
  serve (get_discovery param channel) a = (Discoveries.get vault parse_int param channel a).1
  serve (delete_discovery param channel) a = (Discoveries.delete parse_int param channel a).1
  serve (run_discovery param channel) a = (Discoveries.run parse_int param channel a).1
  serve (get_device param) a = (Devices.get parse_int param a).1
  serve (delete_device param) a = (Devices.delete parse_int param a).1

  abbrev pub serve_all : List Request → Db → Scheduler → Db × Scheduler
  serve_all [] db s = (db, s)
  serve_all (r ∷ rs) db s = let a = serve r (start db) in serve_all rs a.db (handled clock s a.sent)

  serve-Coherent :
      w.sends ≡ true
      → (r : Request) (db : Db) (s : Scheduler) → Synced db s
      → Coherent clock s (serve r (start db))
  serve-Coherent h (get_monitor param) db s v = Served.get-Coherent clock db s v parse_int param
  serve-Coherent h (create_monitor body) db s v = Served.create-Coherent clock db s v body
  serve-Coherent h (update_monitor param body) db s v =
      Served.update-Coherent clock db s v parse_int param body
  serve-Coherent h (delete_monitor param) db s v =
      Served.delete-Coherent clock db s v parse_int param
  serve-Coherent h (get_profile param) db s v =
      Refreshed.get-Coherent clock db s v vault parse_int param
  serve-Coherent h (create_profile body) db s v = Refreshed.create-Coherent clock db s v vault body
  serve-Coherent h (update_profile param body) db s v =
      Refreshed.update-Coherent clock db s v vault parse_int param body
  serve-Coherent h (delete_profile param) db s v =
      Refreshed.delete-Coherent clock db s v vault parse_int param
  serve-Coherent h (device_validated event) db s v =
      Provisioned.handle_validated-Coherent clock s w h event db v
  serve-Coherent h (provision_device param) db s v =
      Idle.provision-Coherent clock s parse_int w param db h v
  serve-Coherent h (create_discovery body channel) db s v =
      Idle.Still-Coherent s _ clock db (Idle.create-Still s vault parse_int channel body) v
  serve-Coherent h (update_discovery param body channel) db s v =
      Idle.Still-Coherent s _ clock db (Idle.update-Still s vault parse_int channel param body) v
  serve-Coherent h (get_discovery param channel) db s v =
      Idle.Still-Coherent s _ clock db (Idle.get-Still s vault parse_int channel param) v
  serve-Coherent h (delete_discovery param channel) db s v =
      Idle.Still-Coherent s _ clock db (Idle.delete-Still s vault parse_int channel param) v
  serve-Coherent h (run_discovery param channel) db s v =
      Idle.Still-Coherent s _ clock db (Idle.run-Still s vault parse_int channel param) v
  serve-Coherent h (get_device param) db s v =
      Idle.Still-Coherent s _ clock db (Idle.get_device-Still s parse_int param) v
  serve-Coherent h (delete_device param) db s v =
      Idle.Still-Coherent s _ clock db (Idle.delete_device-Still s parse_int param) v

  serve_all-Synced :
      w.sends ≡ true
      → (rs : List Request) (db : Db) (s : Scheduler) → Synced db s
      → Synced (serve_all rs db s).0 (serve_all rs db s).1
  serve_all-Synced h [] db s v = v
  serve_all-Synced h (r ∷ rs) db s v =
      serve_all-Synced h rs _ (handled clock s (serve r (start db)).sent)
        (serve-Coherent h r db s v)

-- A scheduler that has loaded the active monitors of the database.
abbrev pub started : SchedulerConfig → ℕ → (ℕ → ℤ) → Db → Scheduler
started config state_cap clock db =
    load_active_monitors (new_scheduler config state_cap)
      (timed clock 0 (active_rows db db.monitors))

started-Synced :
    (config : SchedulerConfig) (state_cap : ℕ) (clock : ℕ → ℤ) (db : Db)
    → IsSound db
    → Synced db (started config state_cap clock db)
unfolding cached new_scheduler find
started-Synced config state_cap clock db sound =
    let empty = new_scheduler-IsValid config state_cap in
    let rows = active_rows db db.monitors in
    record {
      valid = load_active_monitors-IsValid _ (timed clock 0 rows) empty;
      sound = sound;
      agrees = λ id.
          cached-load_active_monitors clock 0 (new_scheduler config state_cap) rows id
            (all_active-active_rows db db.monitors) empty
          ∙ entry_after-active_rows db id sound.keyed;
    }

-- The scheduler's cache refines the database. From tables that are sound and a database that answers
-- every question: load the active monitors into a new scheduler, and serve any sequence of requests
-- that get, create, update and delete monitors, credential profiles and discovery profiles, run
-- discoveries, get, delete and provision devices, and of devices that are validated, whether they succeed or not, where events can be sent and the
-- scheduler handles those of each request before the next. Then the scheduler is valid, and
-- under every identifier it holds the monitor and the encrypted credentials that the tables join for
-- it, or nothing where they have no active monitor.
pub serve_all-Refines :
    (vault : Vault) (parse_int : String → Option ℕ) (w : Surroundings) (clock : ℕ → ℤ)
    (config : SchedulerConfig) (state_cap : ℕ) (db : Db) (rs : List Request)
    → w.sends ≡ true
    → IsSound db
    → let (db', s) = serve_all vault parse_int w clock rs db (started config state_cap clock db) in
      IsValid s × ((id : ℕ) → cached s id ≡ active db' id)
serve_all-Refines vault parse_int w clock config state_cap db rs h sound =
    let v =
      serve_all-Synced vault parse_int w clock h rs db (started config state_cap clock db)
        (started-Synced config state_cap clock db sound) in
    (v.valid, v.agrees)
