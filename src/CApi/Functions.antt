-- ===== src/CApi/Functions.antt =====
-- The functions that c_api.cpp exports. The parameter `src_log` of the calls is never used there
-- and left out here.
use Prim.Native.String.{String}
use khawasu_pc.Base.{ℕ, Bool, true, false, Option, none, some, List, [], ◌∷◌, Bytes, length}
use khawasu_pc.Base.Outcome.{Outcome, ok, fault, null_pointer, ◌>>=◌}
use khawasu_pc.Protocol.{Status, ApiAction, Proto}
use khawasu_pc.Protocol
use khawasu_pc.DeviceInfo.{bytes_at}
use khawasu_pc.Manager.State.{Manager, phy_device_manager}
use khawasu_pc.Manager.State
use khawasu_pc.Manager.Receive.{handle_packet}
use khawasu_pc.Manager.Execute.{Round, execute_action_async_by_name, execute_action_by_name}
use khawasu_pc.Manager.Fetch.{fetch_action_async_by_name, fetch_action_by_name}
use khawasu_pc.CallbackDevice.{Callbacks, CallbackDevice, callback_device, add_action}
use khawasu_pc.Socket.{Platform}
use khawasu_pc.MeshSocket.{MeshSocketInterface}
use khawasu_pc.MeshSocket.Interface.{mesh_socket_interface}
use khawasu_pc.Overlay.{OverlayFormat, overlay_log}
use khawasu_pc.CApi.{
  Action, ExecuteFunction, FetchFunction, Context, add_effect, dispatched, device_created,
  device_removed, with_manager,
}

-- `new CONTEXT()`, with the manager whose port is `port` and whose two callbacks are set.
abbrev pub new_context : ℕ → Context
new_context port = record {
  manager = record (phy_device_manager port) { new_device_callback = true; action_callback = true };
  new_device_callback = false;
  action_execute_callback = none;
  action_fetch_callback = none;
  action_execute_result_callback = false;
  action_fetch_result_callback = false;
  effects = [];
}

abbrev pub void : Manager → Unit {0} × Manager
void m = (tt, m)

-- A method of the manager that returns nothing.
abbrev pub with_manager_void : Context → Outcome Manager → Outcome Context
with_manager_void c result = do (_, c') ← with_manager c (result >>= λ m. ok (void m)); ok c'

-- `init_ctx`: the interface to the peer is the controller's afterwards.
unfoldable pub init_ctx : Platform → ℕ → String → ℕ → Outcome (Context × MeshSocketInterface)
init_ctx O port peer_ip_addr peer_port = do
  socket_interface ← mesh_socket_interface O peer_ip_addr peer_port false
  let c = new_context port
  c' ← with_manager_void c (ok (State.start c.manager))
  ok (c', socket_interface)

-- The function that `init_ctx` sets as `new_peer_callback`.
unfoldable pub on_new_peer : Context → Outcome Context
on_new_peer c = with_manager_void c (ok (State.send_hello c.manager))

unfoldable pub register_callback_new_device : Bool → Context → Context
register_callback_new_device set c = record c { new_device_callback = set }

unfoldable pub register_callback_action_execute : Option ExecuteFunction → Context → Context
register_callback_action_execute f c = record c { action_execute_callback = f }

unfoldable pub register_callback_action_fetch : Option FetchFunction → Context → Context
register_callback_action_fetch f c = record c { action_fetch_callback = f }

unfoldable pub register_callback_action_execute_result : Bool → Context → Context
register_callback_action_execute_result set c = record c { action_execute_result_callback = set }

unfoldable pub register_callback_action_fetch_result : Bool → Context → Context
register_callback_action_fetch_result set c = record c { action_fetch_result_callback = set }

-- `action_handler_get` and `action_handler_set` for a device's port. The client's functions are
-- those of the context at the time of the call. The answer is copied from the memory that a fetch
-- gives, which has to hold all of it. `cast` is the conversion to `ActionExecuteStatus`.
unfoldable pub action_handler_get : Context → ℕ → Bytes → ℕ → Bytes → ℕ × ℕ → ℕ → Outcome Bytes
action_handler_get c self_port name type buffer addr req_id = elim c.action_fetch_callback [
  | none ↦ ok []
  | some f ↦
      let (memory, out_size) = f addr self_port name type buffer in bytes_at 0 out_size memory
]

unfoldable pub action_handler_set : (ℕ → Status) → Context → ℕ → Bytes → ℕ → Bytes → ℕ × ℕ → Status
action_handler_set cast c self_port name type buffer addr = elim c.action_execute_callback [
  | none ↦ Protocol.Status.unknown
  | some f ↦ cast (f addr self_port name type buffer)
]

-- The device of `create_device`, as it acts under a context.
abbrev pub handlers : (ℕ → Status) → Context → ℕ → Callbacks
handlers cast c self_port = record {
  handler_get = action_handler_get c self_port;
  handler_set = action_handler_set cast c self_port;
}

-- The loop of `create_device`.
unfoldable pub add_actions : Callbacks → List Action → CallbackDevice → CallbackDevice
add_actions callbacks [] d = d
add_actions callbacks ((name, type) ∷ actions) d =
    add_actions callbacks actions
      (add_action (record { name = name; action_type = type }) callbacks d)

unfoldable pub created : (ℕ → Status) → Context → ℕ → List Action → CallbackDevice
created cast c log_addr actions = add_actions (handlers cast c log_addr) actions callback_device

unfoldable pub create_device : Context → ℕ → Bytes → ℕ → List Action → Context
create_device c log_addr name dev_class actions =
    add_effect (device_created log_addr name dev_class actions) c

unfoldable pub remove_device : Context → ℕ → Context
remove_device c dev_port = add_effect (device_removed dev_port) c

unfoldable pub execute_action_async :
    Context → ℕ → ℕ → Bytes → Bytes → Bool → (now : ℕ) → Outcome (ℕ × Context)
execute_action_async c dest_phy dest_log name buffer require_result now =
    with_manager c
      (ok (execute_action_async_by_name c.manager dest_phy dest_log name buffer require_result now))

unfoldable pub fetch_action_async :
    Context → ℕ → ℕ → Bytes → Bytes → (now : ℕ) → Outcome (ℕ × Context)
fetch_action_async c dest_phy dest_log name buffer now =
    with_manager c (ok (fetch_action_async_by_name c.manager dest_phy dest_log name buffer now))

module _ (P : Proto) where
  unfoldable pub execute_action :
      Context
      → ℕ
      → ℕ
      → Bytes
      → Bytes
      → Bool
      → (now start_time : ℕ) → List Round
      → Outcome (Option Status × Context)
  execute_action c dest_phy dest_log name buffer require_result now start_time rounds =
      with_manager c (
        execute_action_by_name P c.manager dest_phy dest_log name buffer require_result now
          start_time rounds)

  -- The payload and its size, read from the response without a test.
  unfoldable pub fetch_action :
      Context
      → ℕ
      → ℕ
      → Bytes
      → Bytes
      → (now start_time : ℕ) → List Round
      → Outcome ((Bytes × ℕ) × Context)
  fetch_action c dest_phy dest_log name buffer now start_time rounds = do
    (resp, c') ←
        with_manager c
          (fetch_action_by_name P c.manager dest_phy dest_log name buffer now start_time rounds)
    elim resp [ none ↦ fault null_pointer | some r ↦ ok ((r.payload, length r.payload), c') ]

  unfoldable pub mesh_packet_handler : OverlayFormat → Context → ℕ → Bytes → ℕ → Outcome Context
  mesh_packet_handler V c src_phy memory size = elim (overlay_log V memory size) [
    | none ↦ ok c
    | some log ↦ do
      c' ← with_manager_void c (handle_packet P c.manager src_phy log size)
      ok (add_effect (dispatched log size src_phy) c')
  ]
