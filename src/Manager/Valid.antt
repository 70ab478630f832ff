-- ===== src/Manager/Valid.antt =====
-- What is true of a manager between calls, and that the handler of packets keeps it.
pub mod Receive
pub mod Calls
pub mod Reach
use khawasu_pc.Base.{ℕ, ◌^◌, ◌<◌, ◌≡◌, ◌≢◌, refl, false, nat_eq, Option, none, some, arith}
use khawasu_pc.Base.Dict.{Dict, All, find}
use khawasu_pc.DeviceInfo.{LogDeviceInfo, PhyDeviceInfo, ActionResponse}
use khawasu_pc.Manager.State.{Subscription, Manager, phy_device_manager}

-- A device stands at the address that it announced.
abbrev pub DeviceIsValid : ℕ → ℕ → LogDeviceInfo → Type 0
DeviceIsValid addr port d = (d.phy ≡ addr) × (d.log ≡ port)

abbrev pub PhyIsValid : ℕ → PhyDeviceInfo → Type 0
PhyIsValid addr phy = All (DeviceIsValid addr) phy.log_devices

-- A request stands at its number, and has a status once it is answered.
abbrev pub ResponseIsValid : ℕ → ActionResponse → Type 0
ResponseIsValid k r = (r.req_id ≡ k) × (k < 256) × (r.is_waiting ≡ false → r.status ≢ none)

-- `lookup_log` on the table alone.
abbrev pub stored : Dict ℕ PhyDeviceInfo → ℕ → ℕ → Option LogDeviceInfo
stored known a p = elim (find a known) [ none ↦ none | some phy ↦ find p phy.log_devices ]

-- A subscription stands at its number, its device is known, and it has no `done_callback`.
abbrev pub SubscriptionIsValid : Dict ℕ PhyDeviceInfo → ℕ → Subscription → Type 0
SubscriptionIsValid known k s =
    (s.id ≡ k)
    × (k < 2 ^ 32)
    × (s.done_callback ≡ none)
    × ((a : ℕ) × (p : ℕ) × (s.device ≡ some (a, p)) × (stored known a p ≢ none))

pub record IsValid (m : Manager) : Type 0 where
  pub devices : All PhyIsValid m.known_devices
  pub responses : All ResponseIsValid m.action_responses
  pub subscribed : All (SubscriptionIsValid m.known_devices) m.subscriptions
  pub request_fits : m.action_responses_counter < 256
  pub subscription_fits : m.subscription_counter < 2 ^ 32

-- A new manager is valid.
pub phy_device_manager-IsValid : (port : ℕ) → IsValid (phy_device_manager port)
unfolding phy_device_manager
phy_device_manager-IsValid port = record {
  devices = tt;
  responses = tt;
  subscribed = tt;
  request_fits = omega arith;
  subscription_fits = omega arith;
}
