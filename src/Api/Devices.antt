-- ===== src/Api/Devices.antt =====
-- internal/api/handlers/devices.go: DeviceHandler.
use nmslite.Common.{ℕ, String, Option}
use nmslite.Common.Results.{Result, ok, err}
use nmslite.Database.{Monitor, DiscoveredDevice}
use nmslite.Database.Tables.Discoveries.{get_discovered_device, delete_discovered_device}
use nmslite.Api.Requests.{Api, Action, Failure, ◌>>=◌, pure, query, parse_id_param}
use nmslite.Discovery.Provisioning.{Surroundings, ProvisionError, provision_from_id}

module _ (parse_int : String → Option ℕ) where
  -- Get
  unfoldable pub get : String → Action (ℕ × DiscoveredDevice)
  unfolding parse_id_param query get_discovered_device
  get param = do
    id ← parse_id_param parse_int param
    device ← query "Device" (get_discovered_device id)
    pure (200, device)

  -- Delete
  unfoldable pub delete : String → Action ℕ
  unfolding parse_id_param query delete_discovered_device
  delete param = do
    id ← parse_id_param parse_int param
    _ ← query "Device" (delete_discovered_device id)
    pure 204

  -- Any error of the provisioner.
  abbrev pub provisioned : Result ProvisionError Monitor × Api → Result Failure Monitor × Api
  provisioned (ok monitor, s) = (ok monitor, s)
  provisioned (err e, s) = (
    err (record { status = 500; code = "PROVISION_ERROR"; message = "Failed to provision device" }),
    s,
  )

  -- Provision
  unfoldable pub provision : Surroundings → String → Action (ℕ × Monitor)
  unfolding parse_id_param provision_from_id
  provision w param = do
    id ← parse_id_param parse_int param
    monitor ← (λ s. provisioned (provision_from_id w id s))
    pure (201, monitor)
