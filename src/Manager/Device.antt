-- ===== src/Manager/Device.antt =====
-- The methods of `LogDeviceInfo` (device_info.cpp) that forward to its manager.
use khawasu_pc.Base.{ℕ, ◌≡◌, refl, Bool, Option, some, List, Bytes}
use khawasu_pc.Base.Outcome.{Outcome}
use khawasu_pc.Protocol.{Status, Proto}
use khawasu_pc.DeviceInfo.{LogDeviceInfo, ActionResponse}
use khawasu_pc.Manager.State.{Manager, lookup_log}
use khawasu_pc.Manager.Execute
use khawasu_pc.Manager.Execute.{Round}
use khawasu_pc.Manager.Fetch
use khawasu_pc.Manager.Valid.{IsValid}
use khawasu_pc.Manager.Valid.Reach.{lookup_log-addr}

module _ (P : Proto) where
  unfoldable pub execute_action :
      LogDeviceInfo
      → Manager
      → ℕ
      → Bytes
      → Bool
      → (now start_time : ℕ) → List Round
      → Outcome (Option Status × Manager)
  execute_action dev m action_id buffer require_status now start_time rounds =
      Execute.execute_action P m dev.phy dev.log action_id buffer require_status now start_time
        rounds

  unfoldable pub execute_action_by_name :
      LogDeviceInfo
      → Manager
      → Bytes
      → Bytes
      → Bool
      → (now start_time : ℕ) → List Round
      → Outcome (Option Status × Manager)
  execute_action_by_name dev m name buffer require_status now start_time rounds =
      Execute.execute_action_by_name P m dev.phy dev.log name buffer require_status now start_time
        rounds

  unfoldable pub fetch_action :
      LogDeviceInfo
      → Manager
      → ℕ
      → Bytes
      → (now start_time : ℕ) → List Round
      → Outcome (Option ActionResponse × Manager)
  fetch_action dev m action_id buffer now start_time rounds =
      Fetch.fetch_action P m dev.phy dev.log action_id buffer now start_time rounds

  unfoldable pub fetch_action_by_name :
      LogDeviceInfo
      → Manager
      → Bytes
      → Bytes
      → (now start_time : ℕ) → List Round
      → Outcome (Option ActionResponse × Manager)
  fetch_action_by_name dev m name buffer now start_time rounds =
      Fetch.fetch_action_by_name P m dev.phy dev.log name buffer now start_time rounds

  -- At a valid manager, the four methods of a device that is found at an address and a port are the
  -- manager's at this address and port: what they execute and fetch goes to the device found.
  pub execute_action-lookup_log :
      (m : Manager) (addr port : ℕ) (dev : LogDeviceInfo) (action_id : ℕ) (name buffer : Bytes)
      (require_status : Bool) (now start_time : ℕ) (rounds : List Round)
      → IsValid m
      → lookup_log m addr port ≡ some dev
      → (execute_action dev m action_id buffer require_status now start_time rounds
          ≡ Execute.execute_action P m addr port action_id buffer require_status now start_time
              rounds)
        × (execute_action_by_name dev m name buffer require_status now start_time rounds
            ≡ Execute.execute_action_by_name P m addr port name buffer require_status now start_time
                rounds)
        × (fetch_action dev m action_id buffer now start_time rounds
            ≡ Fetch.fetch_action P m addr port action_id buffer now start_time rounds)
        × (fetch_action_by_name dev m name buffer now start_time rounds
            ≡ Fetch.fetch_action_by_name P m addr port name buffer now start_time rounds)
  unfolding execute_action execute_action_by_name fetch_action fetch_action_by_name
  execute_action-lookup_log m addr port dev action_id name buffer require_status now start_time
        rounds valid found =
      let (phy, log) = lookup_log-addr m addr port dev valid found in
      rw (phy, log) (refl, refl, refl, refl)
