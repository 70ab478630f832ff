-- ===== src/Manager/Receive.antt =====
-- `PhyDeviceManager::handle_packet`, a helper for each packet type. `SUBSCRIPTION_DONE` calls
-- `subscribe_action` on the stored data, which stands here for that reason. A callback is taken to
-- return without calling the manager.
pub mod Devices
pub mod Settles
pub mod Payload
use khawasu_pc.Base.{
  ℕ, ◌+◌, ◌-◌, ◌%◌, ◌^◌, false, not, ◌&&◌, none, some, [], Bytes, leb, nat_eq, if◌then◌else◌,
}
use khawasu_pc.Base.Outcome.{
  Outcome, ok, ◌>>=◌, ◌>>◌, guard, or_fault, assertion_failed, null_pointer, bad_function_call,
  out_of_range, length_error,
}
use khawasu_pc.Base.Dict.{find, contains, emplace, assign}
use khawasu_pc.Protocol.{
  Status, Hello, Body, LogicalPacket, Outgoing, Fields, Proto, hello_world, hello_world_response,
  action_execute_result, action_response, subscription_done, subscription_callback, other_type,
  subscription_start,
}
use khawasu_pc.DeviceInfo.{LogDeviceInfo, PhyDeviceInfo, bytes_at, log_device_info}
use khawasu_pc.Manager.State.{
  DevicePtr, Subscription, sent, new_device_called, callback_called, done_called, Manager, emit,
  call_action, lookup_log,
}

-- `*data.device`
unfoldable pub deref : Manager → DevicePtr → Outcome LogDeviceInfo
deref m (addr, port) = or_fault (lookup_log m addr port) null_pointer

-- `subscribe_action(const ActionSubscriptionData&)`
unfoldable pub subscribe_data : Manager → Subscription → Outcome Manager
unfolding deref
subscribe_data m d = do
  ptr ← or_fault d.device assertion_failed
  let m' = record m { subscriptions = emplace d.id d m.subscriptions }
  info ← deref m' ptr
  let packet : Outgoing Fields = record {
    dest_phy = info.phy;
    dest_log = info.log;
    src_port = m.self_port;
    fields = subscription_start d.id d.action_id d.duration d.period;
  }
  ok (emit (sent packet) m')

abbrev pub no_devices : PhyDeviceInfo
no_devices = record { log_devices = [] }

-- The largest `std::vector<ubyte>`.
abbrev pub max_size : ℕ
max_size = 2 ^ 63 - 1

-- `std::vector<ubyte>(payload_size)` and the `memcpy` into it, with
-- `payload_size = size - LOG_PACKET_SIZE(…) + 1` in 64-bit arithmetic. For no bytes at all the code
-- still takes `front()` of the empty vector; that is taken to do nothing, as `memcpy` of no bytes.
unfoldable pub copy_payload : ℕ → ℕ → Bytes → Outcome Bytes
unfolding bytes_at
copy_payload size header memory =
    let payload_size = (size + 2 ^ 64 - header + 1) % 2 ^ 64 in
    do guard (leb payload_size max_size) length_error; bytes_at 0 payload_size memory

module _ (P : Proto) where
  unfoldable pub handle_hello : Manager → ℕ → ℕ → Hello → Outcome Manager
  handle_hello m src_phy src_addr h = do
    let known = emplace src_phy no_devices m.known_devices
    device_info ← log_device_info P src_phy src_addr h
    phy ← or_fault (find src_phy known) out_of_range
    let is_new_device = not (contains src_addr phy.log_devices)
    let phy' : PhyDeviceInfo = record { log_devices = emplace src_addr device_info phy.log_devices }
    let m' = record m { known_devices = assign src_phy phy' known }
    ok (
        if is_new_device && m.new_device_callback
        then emit (new_device_called device_info) m'
        else m')

  unfoldable pub handle_execute_result : Manager → ℕ → Status → Outcome Manager
  handle_execute_result m request_id status = elim (find request_id m.action_responses) [
    | none ↦ ok m
    | some r ↦ do
      guard r.is_waiting assertion_failed
      let r' = record r { status = some status; is_waiting = false }
      ok (
          call_action (some r')
            (record m { action_responses = assign request_id r' m.action_responses }))
  ]

  unfoldable pub handle_response : Manager → ℕ → ℕ → Status → Bytes → Outcome Manager
  handle_response m size request_id status memory = elim (find request_id m.action_responses) [
    | none ↦ ok m
    | some r ↦ do
      guard r.is_waiting assertion_failed
      payload ← copy_payload size P.action_response_size memory
      let r' = record r { status = some status; payload = payload; is_waiting = false }
      ok (
          call_action (some r')
            (record m { action_responses = assign request_id r' m.action_responses }))
  ]

  unfoldable pub handle_done : Manager → ℕ → Outcome Manager
  handle_done m id = elim (find id m.subscriptions) [
    | none ↦ ok m
    | some d ↦
        let m' : Manager = elim d.done_callback [ none ↦ m | some f ↦ emit (done_called f d) m ] in
        if d.is_renew then subscribe_data m' d else ok m'
  ]

  unfoldable pub handle_callback : Manager → ℕ → ℕ → Bytes → Outcome Manager
  handle_callback m size id memory = elim (find id m.subscriptions) [
    | none ↦ ok m
    | some d ↦ do
      result ← copy_payload size P.subscription_callback_size memory
      f ← or_fault d.callback bad_function_call
      ok (emit (callback_called f d result) m)
  ]

  unfoldable pub handle_body : Manager → ℕ → ℕ → ℕ → Body → Outcome Manager
  unfolding handle_hello handle_execute_result handle_response handle_done handle_callback
  handle_body m src_phy size src_addr (hello_world h) = handle_hello m src_phy src_addr h
  handle_body m src_phy size src_addr (hello_world_response h) = handle_hello m src_phy src_addr h
  handle_body m src_phy size src_addr (action_execute_result id s) = handle_execute_result m id s
  handle_body m src_phy size src_addr (action_response id s p) = handle_response m size id s p
  handle_body m src_phy size src_addr (subscription_done id) = handle_done m id
  handle_body m src_phy size src_addr (subscription_callback id p) = handle_callback m size id p
  handle_body m src_phy size src_addr (other_type n) = ok m

  unfoldable pub handle_packet : Manager → ℕ → LogicalPacket → ℕ → Outcome Manager
  unfolding handle_body
  handle_packet m src_phy log size = handle_body m src_phy size log.src_addr log.body
