-- ===== src/Manager/Valid/Receive.antt =====
-- The handler of packets keeps the invariant.
use khawasu_pc.Base.{
  ℕ, ◌≡◌, ◌≢◌, refl, ◌∙◌, Bytes, Option, none, some, inl, inr, arith, nat_eq, Option-cases, List,
  ◌∷◌, if◌then◌else◌,
}
use khawasu_pc.Base.Outcome.{
  ok, Ensures, Ensures-bind, Ensures-guard, Ensures-option, Ensures-if, if-holds, or_fault,
  assertion_failed, bad_function_call,
}
use khawasu_pc.Base.Dict.{
  Dict, All, find, assign, All-find, All-emplace, All-assign, All-map, or_old,
}
use khawasu_pc.Protocol.{
  Status, Hello, Body, LogicalPacket, Proto, hello_world, hello_world_response,
  action_execute_result, action_response, subscription_done, subscription_callback, other_type,
}
use khawasu_pc.DeviceInfo.{LogDeviceInfo, ActionResponse, log_device_info}
use khawasu_pc.Manager.State.{
  Manager, Subscription, Event, new_device_called, action_called, callback_called, done_called,
  emit, call_action, lookup_log,
}
use khawasu_pc.Manager.Receive.{
  handle_hello, handle_execute_result, handle_response, handle_done, handle_callback, handle_body,
  handle_packet, subscribe_data, no_devices, deref, copy_payload,
}
use khawasu_pc.Manager.Receive.Devices.{
  known_after, announced, lookup_log-known_after, handle_hello-read,
}
use khawasu_pc.Manager.Valid.{
  DeviceIsValid, PhyIsValid, ResponseIsValid, SubscriptionIsValid, IsValid, stored,
}

-- The constructor stores the address that it is given.
log_device_info-addr :
    (P : Proto) (phy addr : ℕ) (h : Hello) (info : LogDeviceInfo)
    → log_device_info P phy addr h ≡ ok info
    → DeviceIsValid phy addr info
unfolding log_device_info
log_device_info-addr P phy addr h info e = ground arith

known_after-PhyIsValid :
    (m : Manager) (src_phy src_addr : ℕ) (info : LogDeviceInfo)
    → DeviceIsValid src_phy src_addr info
    → All PhyIsValid m.known_devices
    → All PhyIsValid (known_after m src_phy src_addr info)
unfolding known_after
known_after-PhyIsValid m src_phy src_addr info d v =
    All-assign PhyIsValid src_phy _ _ (All-emplace (DeviceIsValid src_phy) src_addr info _ d old)
      (All-emplace PhyIsValid src_phy no_devices m.known_devices tt v)
  where
    old : PhyIsValid src_phy (or_old (find src_phy m.known_devices) no_devices)
    old = elim (Option-cases (find src_phy m.known_devices)) [
      | inl e ↦ rw e tt
      | inr (phy, e) ↦ rw e (All-find PhyIsValid src_phy phy m.known_devices v e)
    ]

stored-known_after :
    (m : Manager) (src_phy src_addr : ℕ) (info : LogDeviceInfo) (a p : ℕ)
    → stored m.known_devices a p ≢ none
    → stored (known_after m src_phy src_addr info) a p ≢ none
unfolding lookup_log
stored-known_after m src_phy src_addr info a p known gone =
    ground (arith, lookup_log-known_after m src_phy src_addr info a p)

announced-IsValid :
    (m : Manager) (src_phy src_addr : ℕ) (info : LogDeviceInfo)
    → DeviceIsValid src_phy src_addr info
    → IsValid m
    → IsValid (announced m src_phy src_addr info)
unfolding announced
announced-IsValid m src_phy src_addr info d v = by_lookup (lookup_log m src_phy src_addr)
  where
    m' : Manager
    m' = record m { known_devices = known_after m src_phy src_addr info }

    valid : (es : List Event) → IsValid (record m' { events = es })
    valid es = record {
      devices = known_after-PhyIsValid m src_phy src_addr info d v.devices;
      responses = v.responses;
      subscribed =
          All-map
            (λ k s sv. (
              sv.0,
              sv.1,
              sv.2,
              (
                sv.3.0,
                sv.3.1,
                sv.3.2,
                stored-known_after m src_phy src_addr info sv.3.0 sv.3.1 sv.3.3,
              ),
            ))
            m.subscriptions v.subscribed;
      request_fits = v.request_fits;
      subscription_fits = v.subscription_fits;
    }

    by_lookup :
        (o : Option LogDeviceInfo)
        → IsValid (elim o [
          | none ↦ if m.new_device_callback then emit (new_device_called info) m' else m'
          | some old ↦ m'
        ])
    by_lookup none =
        if-holds IsValid m.new_device_callback (emit (new_device_called info) m') m'
          (valid (new_device_called info ∷ m.events)) (valid m.events)
    by_lookup (some old) = valid m.events

-- Effects alone change nothing that matters here.
pub emit-IsValid : (e : Event) (m : Manager) → IsValid m → IsValid (emit e m)
emit-IsValid e m v = record {
  devices = v.devices;
  responses = v.responses;
  subscribed = v.subscribed;
  request_fits = v.request_fits;
  subscription_fits = v.subscription_fits;
}

pub call_action-IsValid :
    (r : Option ActionResponse) (m : Manager) → IsValid m → IsValid (call_action r m)
unfolding call_action
call_action-IsValid r m v =
    if-holds IsValid m.action_callback (emit (action_called r) m) m
      (emit-IsValid (action_called r) m v) v

pub with_responses-IsValid :
    (m : Manager) (rs : Dict ℕ ActionResponse)
    → All ResponseIsValid rs
    → IsValid m
    → IsValid (record m { action_responses = rs })
with_responses-IsValid m rs a v = record {
  devices = v.devices;
  responses = a;
  subscribed = v.subscribed;
  request_fits = v.request_fits;
  subscription_fits = v.subscription_fits;
}

pub subscribe_data-IsValid :
    (m : Manager) (s : Subscription)
    → IsValid m
    → SubscriptionIsValid m.known_devices s.id s
    → Ensures IsValid (subscribe_data m s)
unfolding subscribe_data
subscribe_data-IsValid m s v sv =
    Ensures-bind IsValid (or_fault s.device assertion_failed) _ λ ptr _.
      Ensures-bind IsValid (deref _ ptr) _ λ info _. record {
        devices = v.devices;
        responses = v.responses;
        subscribed =
            All-emplace (SubscriptionIsValid m.known_devices) s.id s m.subscriptions sv
              v.subscribed;
        request_fits = v.request_fits;
        subscription_fits = v.subscription_fits;
      }

module _ (P : Proto) where
  handle_hello-IsValid :
      (m : Manager) (src_phy src_addr : ℕ) (h : Hello)
      → IsValid m
      → Ensures IsValid (handle_hello P m src_phy src_addr h)
  handle_hello-IsValid m src_phy src_addr h v = rw handle_hello-read (
      Ensures-bind IsValid (log_device_info P src_phy src_addr h) _ λ info e.
        announced-IsValid m src_phy src_addr info (log_device_info-addr P src_phy src_addr h info e)
          v)

  -- Storing an answer.
  answered-IsValid :
      (m : Manager) (id : ℕ) (r r' : ActionResponse)
      → find id m.action_responses ≡ some r
      → r'.req_id ≡ r.req_id
      → r'.status ≢ none
      → IsValid m
      → IsValid
          (call_action (some r') (record m { action_responses = assign id r' m.action_responses }))
  answered-IsValid m id r r' e i s v =
      let rv : ResponseIsValid id r =
        All-find ResponseIsValid id r m.action_responses v.responses e in
      call_action-IsValid (some r') _ (
        with_responses-IsValid m _
          (All-assign ResponseIsValid id r' m.action_responses (i ∙ rv.0, rv.1, λ _. s) v.responses)
          v)

  handle_execute_result-IsValid :
      (m : Manager) (id : ℕ) (s : Status)
      → IsValid m
      → Ensures IsValid (handle_execute_result P m id s)
  unfolding handle_execute_result
  handle_execute_result-IsValid m id s v =
      Ensures-option IsValid (find id m.action_responses) _ _ v λ r e.
        Ensures-guard IsValid r.is_waiting assertion_failed _
          (answered-IsValid m id r _ e refl (λ f. cc) v)

  handle_response-IsValid :
      (m : Manager) (size id : ℕ) (s : Status) (p : Bytes)
      → IsValid m
      → Ensures IsValid (handle_response P m size id s p)
  unfolding handle_response
  handle_response-IsValid m size id s p v =
      Ensures-option IsValid (find id m.action_responses) _ _ v λ r e.
        Ensures-guard IsValid r.is_waiting assertion_failed _ (
          Ensures-bind IsValid (copy_payload size P.action_response_size p) _
            λ payload _. answered-IsValid m id r _ e refl (λ f. cc) v)

  renewed-IsValid :
      (m : Manager) (s : Subscription)
      → SubscriptionIsValid m.known_devices s.id s
      → (o : Option ℕ) → IsValid m
      → let m' : Manager = elim o [ none ↦ m | some f ↦ emit (done_called f s) m ] in
        Ensures IsValid (if s.is_renew then subscribe_data m' s else ok m')
  renewed-IsValid m s sv none v =
      Ensures-if IsValid s.is_renew _ _ (subscribe_data-IsValid m s v sv) v
  renewed-IsValid m s sv (some f) v =
      let v' : IsValid (emit (done_called f s) m) = emit-IsValid (done_called f s) m v in
      Ensures-if IsValid s.is_renew _ _ (subscribe_data-IsValid _ s v' sv) v'

  handle_done-IsValid : (m : Manager) (id : ℕ) → IsValid m → Ensures IsValid (handle_done P m id)
  unfolding handle_done
  handle_done-IsValid m id v = Ensures-option IsValid (find id m.subscriptions) _ _ v λ s e.
      let sv : SubscriptionIsValid m.known_devices id s =
        All-find (SubscriptionIsValid m.known_devices) id s m.subscriptions v.subscribed e in
      renewed-IsValid m s (refl, rw sv.0 sv.1, sv.2, sv.3) s.done_callback v

  handle_callback-IsValid :
      (m : Manager) (size id : ℕ) (p : Bytes)
      → IsValid m
      → Ensures IsValid (handle_callback P m size id p)
  unfolding handle_callback
  handle_callback-IsValid m size id p v =
      Ensures-option IsValid (find id m.subscriptions) _ _ v λ s e.
        Ensures-bind IsValid (copy_payload size P.subscription_callback_size p) _ λ result _.
          Ensures-bind IsValid (or_fault s.callback bad_function_call) _
            λ f _. emit-IsValid (callback_called f s result) m v

  -- Whatever packet arrives, a valid manager stays valid.
  pub handle_packet-IsValid :
      (m : Manager) (src_phy : ℕ) (log : LogicalPacket) (size : ℕ)
      → IsValid m
      → Ensures IsValid (handle_packet P m src_phy log size)
  unfolding handle_packet
  handle_packet-IsValid m src_phy log size v = by_body log.body
    where
      by_body : (b : Body) → Ensures IsValid (handle_body P m src_phy size log.src_addr b)
      by_body (hello_world h) = handle_hello-IsValid m src_phy log.src_addr h v
      by_body (hello_world_response h) = handle_hello-IsValid m src_phy log.src_addr h v
      by_body (action_execute_result id s) = handle_execute_result-IsValid m id s v
      by_body (action_response id s p) = handle_response-IsValid m size id s p v
      by_body (subscription_done id) = handle_done-IsValid m id v
      by_body (subscription_callback id p) = handle_callback-IsValid m size id p v
      by_body (other_type n) = v
