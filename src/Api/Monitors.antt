-- ===== src/Api/Monitors.antt =====
-- internal/api/handlers/monitors.go: MonitorHandler. An address of a monitor is none where it is
-- not valid.
use nmslite.Common.{
  ℕ, String, str_eq, Bool, true, false, Option, none, some, [], ◌∷◌, ◌==◌, if◌then◌else◌,
}
use nmslite.Common.Results.{Result, ok, err}
use nmslite.Database.{Monitor, MonitorRow, text, address}
use nmslite.Database.Tables.{
  Db, DbError, get_monitor, create_monitor, update_monitor, delete_monitor,
  get_monitor_with_credentials,
}
use nmslite.Api.Requests.{Api, Action, ◌>>=◌, pure, fail, query, parse_id_param, decode_json, send}

abbrev is_none {ℓ} : {A : Type ℓ} → Option A → Bool
is_none none = true
is_none (some a) = false

-- validateMonitorInput: its error, if there is one.
unfoldable pub validate_monitor_input : Monitor → Option String
validate_monitor_input input =
    if is_none input.ip_address
    then some "ip_address is required and must be valid"
    else if str_eq input.plugin_id ""
    then some "plugin_id is required"
    else if input.credential_profile_id == 0
    then some "credential_profile_id is required"
    else if input.discovery_profile_id == 0
    then some "discovery_profile_id is required"
    else none

-- A name that is missing or empty is the address.
unfoldable name_or_address : Option String → Monitor → Option String
name_or_address name input = if str_eq (text name) "" then some (address input.ip_address) else name

-- The parameters of Create.
unfoldable pub create_params : Monitor → Monitor
unfolding name_or_address
create_params input = record input {
  display_name = name_or_address input.display_name input;
  hostname = name_or_address input.hostname input;
}

abbrev valid_or {ℓ} : {A : Type ℓ} → Option A → Option A → Option A
valid_or none old = old
valid_or (some a) old = some a

-- The parameters of Update: what the input has replaces what the monitor had.
unfoldable pub merge : ℕ → Monitor → Monitor → Monitor
merge id existing input = record existing {
  id = id;
  display_name = valid_or input.display_name existing.display_name;
  hostname = valid_or input.hostname existing.hostname;
  ip_address = valid_or input.ip_address existing.ip_address;
  plugin_id = if str_eq input.plugin_id "" then existing.plugin_id else input.plugin_id;
  credential_profile_id =
      if input.credential_profile_id == 0
      then existing.credential_profile_id
      else input.credential_profile_id;
  polling_interval_seconds =
      valid_or input.polling_interval_seconds existing.polling_interval_seconds;
  port = valid_or input.port existing.port;
  status = valid_or input.status existing.status;
}

-- pushUpdate, with the answer to its query. An error is only logged.
unfoldable pub push_row : Api → Result DbError MonitorRow × Db → Api
unfolding send
push_row s (err e, db) = record s { db = db }
push_row s (ok row, db) =
    send (record { update_type = "update"; monitors = row ∷ []; monitor_ids = [] })
      (record s { db = db })

-- pushUpdate
unfoldable pub push_update : ℕ → Action Unit
unfolding get_monitor_with_credentials push_row
push_update id s = elim s.sent [
  | none ↦ (ok tt, s)
  | some events ↦ (ok tt, push_row s (get_monitor_with_credentials id s.db))
]

-- pushDelete
unfoldable pub push_delete : ℕ → Action Unit
unfolding send
push_delete id s =
    (ok tt, send (record { update_type = "delete"; monitors = []; monitor_ids = id ∷ [] }) s)

-- What the handlers answer: a status, and a monitor if they send one.
abbrev pub Answer : Type 0
Answer = ℕ × Option Monitor

abbrev check : Option String → Action Unit
check none = pure tt
check (some message) = fail 400 "VALIDATION_ERROR" message

-- Create
unfoldable pub create : Option Monitor → Action Answer
unfolding decode_json validate_monitor_input create_params query create_monitor push_update
create body = do
  input ← decode_json body
  _ ← check (validate_monitor_input input)
  monitor ← query "Monitor" (create_monitor (create_params input))
  _ ← push_update monitor.id
  pure (201, some monitor)

module _ (parse_int : String → Option ℕ) where
  -- Get
  unfoldable pub get : String → Action Answer
  unfolding parse_id_param query get_monitor
  get param = do
    id ← parse_id_param parse_int param
    monitor ← query "Monitor" (get_monitor id)
    pure (200, some monitor)

  -- Update
  unfoldable pub update : String → Option Monitor → Action Answer
  unfolding parse_id_param decode_json query get_monitor merge update_monitor push_update
  update param body = do
    id ← parse_id_param parse_int param
    input ← decode_json body
    existing ← query "Monitor" (get_monitor id)
    monitor ← query "Monitor" (update_monitor (merge id existing input))
    _ ← push_update monitor.id
    pure (200, some monitor)

  -- Delete
  unfoldable pub delete : String → Action Answer
  unfolding parse_id_param query delete_monitor push_delete
  delete param = do
    id ← parse_id_param parse_int param
    _ ← query "Monitor" (delete_monitor id)
    _ ← push_delete id
    pure (204, none)
