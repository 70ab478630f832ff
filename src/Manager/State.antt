-- ===== src/Manager/State.antt =====
-- The manager's fields, the effects of its methods, and the three lookups.
use khawasu_pc.Base.{
  ℕ, ◌+◌, ◌%◌, Bool, false, Option, none, some, List, [], ◌∷◌, Bytes, ◌==◌, nat_eq, bytes_eq,
  if◌then◌else◌,
}
use khawasu_pc.Base.Dict.{Dict, find}
use khawasu_pc.Protocol.{ApiAction, Outgoing, Fields}
use khawasu_pc.DeviceInfo.{LogDeviceInfo, PhyDeviceInfo, ActionResponse, c_str}

-- A pointer to a known device is its place in the table: entries never move or go.
abbrev pub DevicePtr : Type 0
DevicePtr = ℕ × ℕ

-- `ActionSubscriptionData`. A callback is a number that stands for the function, if one is set.
pub record Subscription : Type 0 where
  pub device : Option DevicePtr
  pub id : ℕ
  pub action_id : ℕ
  pub duration : ℕ
  pub period : ℕ
  pub is_renew : Bool
  pub callback : Option ℕ
  pub done_callback : Option ℕ

-- What a method does to the world: packets sent, and callbacks called.
pub data Event : Type 0 where
  sent : Outgoing Fields → Event
  hello_sent : (port : ℕ) → Event
  device_added : (port : ℕ) → Event
  new_device_called : LogDeviceInfo → Event
  action_called : Option ActionResponse → Event
  callback_called : ℕ → Subscription → Bytes → Event
  done_called : ℕ → Subscription → Event

-- `events` records the effects, the latest first. The two callbacks are set or not.
pub record Manager : Type 0 where
  pub known_devices : Dict ℕ PhyDeviceInfo
  pub subscriptions : Dict ℕ Subscription
  pub action_responses : Dict ℕ ActionResponse
  pub action_responses_counter : ℕ
  pub subscription_counter : ℕ
  pub self_port : ℕ
  pub new_device_callback : Bool
  pub action_callback : Bool
  pub events : List Event

-- The constructor. The port is what `gen_uniq_port` draws.
unfoldable pub phy_device_manager : ℕ → Manager
phy_device_manager port = record {
  known_devices = [];
  subscriptions = [];
  action_responses = [];
  action_responses_counter = 0;
  subscription_counter = 0;
  self_port = port;
  new_device_callback = false;
  action_callback = false;
  events = [];
}

abbrev pub emit : Event → Manager → Manager
emit e m = record m { events = e ∷ m.events }

-- `if (action_callback) action_callback(response)`
unfoldable pub call_action : Option ActionResponse → Manager → Manager
call_action response m = if m.action_callback then emit (action_called response) m else m

unfoldable pub start : Manager → Manager
start m = emit (device_added m.self_port) m

unfoldable pub send_hello : Manager → Manager
send_hello m = emit (hello_sent m.self_port) m

unfoldable pub lookup : Manager → ℕ → Option PhyDeviceInfo
lookup m addr = find addr m.known_devices

unfoldable pub lookup_log : Manager → ℕ → ℕ → Option LogDeviceInfo
unfolding lookup
lookup_log m addr port = elim (lookup m addr) [ none ↦ none | some phy ↦ find port phy.log_devices ]

-- The loop of `lookup_action`, in the map's iteration order.
unfoldable pub find_action : Bytes → Dict ℕ ApiAction → Option (ℕ × ApiAction)
find_action name [] = none
find_action name ((id, action) ∷ actions) =
    if c_str action.name == c_str name then some (id, action) else find_action name actions

unfoldable pub lookup_action : Manager → ℕ → ℕ → Bytes → Option (ℕ × ApiAction)
lookup_action m addr port name = elim (lookup_log m addr port) [
  | none ↦ none
  | some dev ↦ find_action name dev.actions_map
]

-- `action_responses_counter++` on a `ubyte`, and `subscription_counter++` on a `uint`.
unfoldable pub next_request : Manager → ℕ × Manager
next_request m = (
  m.action_responses_counter,
  record m { action_responses_counter = (m.action_responses_counter + 1) % 256 },
)
