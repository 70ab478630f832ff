-- ===== src/Manager/Receive/Settles.antt =====
-- The handler of packets has no endless path: it returns or faults on every packet.
use khawasu_pc.Base.{ℕ, zero, suc, ◌+◌, Bytes, [], bytes_eq, nat_eq, leb, length, drop, ◌==◌}
use khawasu_pc.Base.Outcome.{
  out_of_bounds, out_of_range, null_pointer, assertion_failed, length_error, bad_function_call,
  Settles, Settles-bind, Settles-or_fault, Settles-guard, Settles-if, Settles-option, or_fault,
}
use khawasu_pc.Base.Dict.{Dict, find, emplace}
use khawasu_pc.Protocol.{
  Status, ApiAction, Hello, Body, LogicalPacket, Proto, hello_world, hello_world_response,
  action_execute_result, action_response, subscription_done, subscription_callback, other_type,
}
use khawasu_pc.DeviceInfo.{bytes_at, parse_attribs, parse_actions, log_device_info}
use khawasu_pc.Manager.State.{Manager, Subscription, lookup_log}
use khawasu_pc.Manager.Receive.{
  copy_payload, deref, subscribe_data, no_devices, handle_hello, handle_execute_result,
  handle_response, handle_done, handle_callback, handle_body, handle_packet,
}

bytes_at-Settles : (offset n : ℕ) (p : Bytes) → Settles (bytes_at offset n p)
unfolding bytes_at
bytes_at-Settles offset n p = Settles-if (leb (offset + n) (length p)) _ _ tt tt

copy_payload-Settles :
    (size header : ℕ) (memory : Bytes) → Settles (copy_payload size header memory)
unfolding copy_payload
copy_payload-Settles size header memory =
    Settles-guard _ length_error _ (unfold copy_payload in bytes_at-Settles 0 _ memory)

subscribe_data-Settles : (m : Manager) (s : Subscription) → Settles (subscribe_data m s)
unfolding subscribe_data
subscribe_data-Settles m s =
    Settles-bind (or_fault s.device assertion_failed) _ (Settles-or_fault s.device assertion_failed)
      λ ptr.
        Settles-bind (deref _ ptr) _ (Settles-or_fault (lookup_log _ ptr.0 ptr.1) null_pointer)
          λ info. tt

module _ (P : Proto) where
  parse_attribs-Settles :
      (n : ℕ) (p : Bytes) (d : Dict Bytes Bytes) → Settles (parse_attribs P n p d)
  unfolding parse_attribs
  parse_attribs-Settles zero p d = tt
  parse_attribs-Settles (suc n) p d =
      Settles-bind _ _ (Settles-or_fault (P.key_len p) out_of_bounds) λ key_len.
        Settles-bind _ _ (bytes_at-Settles P.key key_len p) λ key.
          Settles-bind _ _ (Settles-or_fault (P.value_len p) out_of_bounds) λ value_len.
            Settles-bind _ _ (bytes_at-Settles (P.key + key_len) value_len p) λ value.
              parse_attribs-Settles n (drop (P.value + key_len + value_len) p) (emplace key value d)

  parse_actions-Settles :
      (n i : ℕ) (p : Bytes) (d : Dict ℕ ApiAction) → Settles (parse_actions P n i p d)
  unfolding parse_actions
  parse_actions-Settles zero i p d = tt
  parse_actions-Settles (suc n) i p d =
      Settles-bind _ _ (Settles-or_fault (P.name_length p) out_of_bounds) λ len.
        Settles-if (len == 0) _ _ (parse_actions-Settles n (suc i) p d) (
          Settles-bind _ _ (bytes_at-Settles P.action_name len p) λ name.
            Settles-bind _ _ (Settles-or_fault (P.action_type p) out_of_bounds)
              λ type. parse_actions-Settles n (suc i) (drop (P.action_name + len) p) _)

  log_device_info-Settles : (phy addr : ℕ) (h : Hello) → Settles (log_device_info P phy addr h)
  unfolding log_device_info
  log_device_info-Settles phy addr h =
      Settles-bind _ _ (bytes_at-Settles 0 h.name_len h.memory) λ name.
        Settles-bind _ _ (parse_attribs-Settles h.special_attrib_count _ [])
          λ r. Settles-bind _ _ (parse_actions-Settles h.action_count 0 r.1 []) λ actions. tt

  handle_hello-Settles :
      (m : Manager) (src_phy src_addr : ℕ) (h : Hello)
      → Settles (handle_hello P m src_phy src_addr h)
  unfolding handle_hello
  handle_hello-Settles m src_phy src_addr h =
      Settles-bind _ _ (log_device_info-Settles src_phy src_addr h) λ info.
        Settles-bind _ _
          (Settles-or_fault (find src_phy (emplace src_phy no_devices m.known_devices))
            out_of_range)
          λ phy. tt

  handle_response-Settles :
      (m : Manager) (size id : ℕ) (s : Status) (p : Bytes)
      → Settles (handle_response P m size id s p)
  unfolding handle_response
  handle_response-Settles m size id s p = Settles-option (find id m.action_responses) _ _ tt λ r.
      Settles-guard r.is_waiting assertion_failed _
        (Settles-bind _ _ (copy_payload-Settles size P.action_response_size p) λ payload. tt)

  handle_execute_result-Settles :
      (m : Manager) (id : ℕ) (s : Status) → Settles (handle_execute_result P m id s)
  unfolding handle_execute_result
  handle_execute_result-Settles m id s =
      Settles-option (find id m.action_responses) _ _ tt
        λ r. Settles-guard r.is_waiting assertion_failed _ tt

  handle_done-Settles : (m : Manager) (id : ℕ) → Settles (handle_done P m id)
  unfolding handle_done
  handle_done-Settles m id =
      Settles-option (find id m.subscriptions) _ _ tt
        λ s. Settles-if s.is_renew _ _ (subscribe_data-Settles _ s) tt

  handle_callback-Settles :
      (m : Manager) (size id : ℕ) (p : Bytes) → Settles (handle_callback P m size id p)
  unfolding handle_callback
  handle_callback-Settles m size id p = Settles-option (find id m.subscriptions) _ _ tt λ s.
      Settles-bind _ _ (copy_payload-Settles size P.subscription_callback_size p)
        λ result. Settles-bind _ _ (Settles-or_fault s.callback bad_function_call) λ f. tt

  handle_body-Settles :
      (m : Manager) (src_phy size src_addr : ℕ) (b : Body)
      → Settles (handle_body P m src_phy size src_addr b)
  unfolding handle_body
  handle_body-Settles m src_phy size addr (hello_world h) = handle_hello-Settles m src_phy addr h
  handle_body-Settles m src_phy size addr (hello_world_response h) =
      handle_hello-Settles m src_phy addr h
  handle_body-Settles m src_phy size addr (action_execute_result id s) =
      handle_execute_result-Settles m id s
  handle_body-Settles m src_phy size addr (action_response id s p) =
      handle_response-Settles m size id s p
  handle_body-Settles m src_phy size addr (subscription_done id) = handle_done-Settles m id
  handle_body-Settles m src_phy size addr (subscription_callback id p) =
      handle_callback-Settles m size id p
  handle_body-Settles m src_phy size addr (other_type n) = tt

  -- Every packet is handled in finitely many steps.
  pub handle_packet-Settles :
      (m : Manager) (src_phy : ℕ) (log : LogicalPacket) (size : ℕ)
      → Settles (handle_packet P m src_phy log size)
  unfolding handle_packet
  handle_packet-Settles m src_phy log size =
      handle_body-Settles m src_phy size log.src_addr log.body
