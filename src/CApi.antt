-- ===== src/CApi.antt =====
-- c_api.h and c_api.cpp but for the conversions of enumerators: the context, the callbacks that
-- `init_ctx` gives to the manager, and the functions for C. A client's function is called in the
-- order of the manager's calls.
pub mod Functions
pub mod Answers
pub mod Packets
pub mod Announcements
pub mod Requests
pub mod Devices
pub mod Lifetime
pub mod Ready
pub mod Calls
pub mod Program
pub mod Conversation
pub mod Listed
use Prim.Native.String.{String}
use khawasu_pc.Base.{
  ℕ, Bool, true, false, Option, none, some, List, [], ◌∷◌, Bytes, length, take, map, if◌then◌else◌,
}
use khawasu_pc.Base.Outcome.{Outcome, ok, fault, null_pointer, ◌>>=◌}
use khawasu_pc.Protocol.{Status, ApiAction, LogicalPacket, Proto}
use khawasu_pc.Protocol
use khawasu_pc.DeviceInfo.{ActionResponse, ActionResponseType, LogDeviceInfo, fetch, execute, c_str}
use khawasu_pc.Manager.State.{
  Manager, Event, sent, hello_sent, device_added, new_device_called, action_called, callback_called,
  done_called, phy_device_manager, start,
}
use khawasu_pc.Manager.State
use khawasu_pc.Manager.Receive.{handle_packet}
use khawasu_pc.Manager.Execute.{Round, execute_action_async_by_name, execute_action_by_name}
use khawasu_pc.Manager.Fetch.{fetch_action_async_by_name, fetch_action_by_name}
use khawasu_pc.CallbackDevice.{Callbacks, CallbackDevice, callback_device, add_action}
use khawasu_pc.Socket.{Platform}
use khawasu_pc.MeshSocket.{MeshSocketInterface}
use khawasu_pc.MeshSocket.Interface.{mesh_socket_interface}
use khawasu_pc.Overlay.{OverlayFormat, overlay_log}

-- `ACTION`: a name and a type.
abbrev pub Action : Type 0
Action = Bytes × ℕ

-- What reaches the client and the libraries: the manager's packets, calls of the client's
-- functions, and calls of khawasu_core's `LogicalDeviceManager`.
pub data Effect : Type 0 where
  transmitted : Event → Effect
  new_device : (phy log : ℕ) (name : Bytes) (dev_class : ℕ) → List Action → Effect
  execute_result : (req_id : ℕ) → Option Status → Effect
  fetch_result : (req_id : ℕ) → Bytes → Effect
  dispatched : LogicalPacket → (size src_phy : ℕ) → Effect
  device_created : (port : ℕ) (name : Bytes) (dev_class : ℕ) → List Action → Effect
  device_removed : (port : ℕ) → Effect

-- `ACTION_EXECUTE_CALLBACK` and `ACTION_FETCH_CALLBACK`: the sender's address, the device's port,
-- the action's name and type, and the data. A fetch gives memory and how much of it is the answer.
abbrev pub ExecuteFunction : Type 0
ExecuteFunction = ℕ × ℕ → ℕ → Bytes → ℕ → Bytes → ℕ

abbrev pub FetchFunction : Type 0
FetchFunction = ℕ × ℕ → ℕ → Bytes → ℕ → Bytes → Bytes × ℕ

-- `CONTEXT`. A function that returns nothing is set or not. `effects` is the latest first.
pub record Context : Type 0 where
  pub manager : Manager
  pub new_device_callback : Bool
  pub action_execute_callback : Option ExecuteFunction
  pub action_fetch_callback : Option FetchFunction
  pub action_execute_result_callback : Bool
  pub action_fetch_result_callback : Bool
  pub effects : List Effect

abbrev pub add_effect : Effect → Context → Context
add_effect e c = record c { effects = e ∷ c.effects }

-- The loop over `actions_map` that copies each action's name; `length` is taken to be the name's.
abbrev pub action_of : ℕ × ApiAction → Action
action_of (id, a) = (c_str a.name, a.action_type)

-- The function that `init_ctx` sets as `new_device_callback`.
unfoldable pub on_new_device : Context → LogDeviceInfo → Context
on_new_device c dev =
    if c.new_device_callback
    then add_effect
        (new_device dev.phy dev.log (c_str dev.name) dev.dev_class (map action_of dev.actions_map))
        c
    else c

-- The function that `init_ctx` sets as `action_callback`: it reads `ar` without a test.
unfoldable pub on_action : Context → Option ActionResponse → Outcome Context
on_action c none = fault null_pointer
on_action c (some ar) = elim ar.response_type [
  | execute ↦ ok (
      if c.action_execute_result_callback
      then add_effect (execute_result ar.req_id ar.status) c
      else c)
  | fetch ↦ ok (
      if c.action_fetch_result_callback
      then add_effect (fetch_result ar.req_id ar.payload) c
      else c)
  | ActionResponseType.unknown ↦ ok c
  | ActionResponseType.subscription_callback ↦ ok c
]

-- One effect of the manager. The C library has no subscriptions.
unfoldable pub deliver : Context → Event → Outcome Context
unfolding on_new_device on_action
deliver c (new_device_called dev) = ok (on_new_device c dev)
deliver c (action_called ar) = on_action c ar
deliver c (sent packet) = ok (add_effect (transmitted (sent packet)) c)
deliver c (hello_sent port) = ok (add_effect (transmitted (hello_sent port)) c)
deliver c (device_added port) = ok (add_effect (transmitted (device_added port)) c)
deliver c (callback_called f d bytes) = ok c
deliver c (done_called f d) = ok c

-- The latest effect stands first, and is delivered last.
unfoldable pub deliver_all : Context → List Event → Outcome Context
unfolding deliver
deliver_all c [] = ok c
deliver_all c (e ∷ es) = do c' ← deliver_all c es; deliver c' e

-- A method of the manager, with what it calls.
unfoldable pub with_manager {ℓ} :
    {A : Type ℓ} → Context → Outcome (A × Manager) → Outcome (A × Context)
unfolding deliver_all
with_manager c result = do
  (a, m) ← result
  c' ← deliver_all (record c { manager = record m { events = [] } }) m.events
  ok (a, c')
