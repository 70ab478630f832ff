-- ===== src/Manager/Valid/Reach.antt =====
-- The manager under any sequence of method calls, by any thread, one at a time.
use khawasu_pc.Base.{
  List, ◌⊎◌, inl, inr, Option-cases, ℕ, ◌≡◌, ap, ◌∙◌, Bool, Bytes, Option, none, some, arith,
  nat_eq, if◌then◌else◌,
}
use khawasu_pc.Base.Outcome.{ok, Ensures-eq-ok}
use khawasu_pc.Base.Dict.{find, emplace, All-find}
use khawasu_pc.Protocol.{Status, LogicalPacket, Proto, subscription_start}
use khawasu_pc.DeviceInfo.{ActionResponse, LogDeviceInfo}
use khawasu_pc.Manager.State.{
  Manager, Subscription, Event, sent, emit, phy_device_manager, start, send_hello, lookup_log,
}
use khawasu_pc.Manager.Receive.{handle_packet, handle_done, subscribe_data, deref}
use khawasu_pc.Manager.Execute.{
  Round, execute_action_async, execute_action_async_by_name, execute_action, execute_action_by_name,
}
use khawasu_pc.Manager.Fetch.{
  fetch_action_async, fetch_action_async_by_name, fetch_action, fetch_action_by_name,
}
use khawasu_pc.Manager.Subscribe.{subscribe_action, subscribe_action_by_name}
use khawasu_pc.Manager.Valid.{
  IsValid, DeviceIsValid, PhyIsValid, SubscriptionIsValid, phy_device_manager-IsValid,
}
use khawasu_pc.Manager.Valid.Receive.{emit-IsValid, handle_packet-IsValid}
use khawasu_pc.Manager.Valid.Calls.{
  Returned, Fetched, execute_action_async-IsValid, fetch_action_async-IsValid,
  execute_action_async_by_name-IsValid, fetch_action_async_by_name-IsValid,
  subscribe_action-IsValid, subscribe_action_by_name-IsValid, execute_action-IsValid,
  execute_action_by_name-IsValid, fetch_action-IsValid, fetch_action_by_name-IsValid,
}

-- One call that returns: a public method, or a client's assignment to the two callbacks, which are
-- public fields. The overload of `subscribe_action` that takes an `ActionSubscriptionData` is left
-- to the manager's own calls of it.
pub data Step (P : Proto) (m : Manager) : Manager → Type 0 where
  sets_callbacks :
      (new_device action : Bool)
      → Step P m (record m { new_device_callback = new_device; action_callback = action })
  starts : Step P m (start m)
  sends_hello : Step P m (send_hello m)
  handles :
      {m' : Manager} (src_phy : ℕ) (log : LogicalPacket) (size : ℕ)
      → handle_packet P m src_phy log size ≡ ok m'
      → Step P m m'
  executes_async :
      (addr port action_id : ℕ) (buffer : Bytes) (require_status : Bool) (now : ℕ)
      → Step P m (execute_action_async m addr port action_id buffer require_status now).1
  executes_async_by_name :
      (addr port : ℕ) (name buffer : Bytes) (require_status : Bool) (now : ℕ)
      → Step P m (execute_action_async_by_name m addr port name buffer require_status now).1
  executes :
      {m' : Manager} {status : Option Status} (addr port action_id : ℕ) (buffer : Bytes)
      (require_status : Bool) (now start_time : ℕ) (rounds : List Round)
      → execute_action P m addr port action_id buffer require_status now start_time rounds
        ≡ ok (status, m')
      → Step P m m'
  executes_by_name :
      {m' : Manager} {status : Option Status} (addr port : ℕ) (name buffer : Bytes)
      (require_status : Bool) (now start_time : ℕ) (rounds : List Round)
      → execute_action_by_name P m addr port name buffer require_status now start_time rounds
        ≡ ok (status, m')
      → Step P m m'
  fetches_async :
      (addr port action_id : ℕ) (buffer : Bytes) (now : ℕ)
      → Step P m (fetch_action_async m addr port action_id buffer now).1
  fetches_async_by_name :
      (addr port : ℕ) (name buffer : Bytes) (now : ℕ)
      → Step P m (fetch_action_async_by_name m addr port name buffer now).1
  fetches :
      {m' : Manager} {result : Option ActionResponse} (addr port action_id : ℕ) (buffer : Bytes)
      (now start_time : ℕ) (rounds : List Round)
      → fetch_action P m addr port action_id buffer now start_time rounds ≡ ok (result, m')
      → Step P m m'
  fetches_by_name :
      {m' : Manager} {result : Option ActionResponse} (addr port : ℕ) (name buffer : Bytes)
      (now start_time : ℕ) (rounds : List Round)
      → fetch_action_by_name P m addr port name buffer now start_time rounds ≡ ok (result, m')
      → Step P m m'
  subscribes :
      {m' : Manager} (addr port action_id duration period : ℕ) (buffer : Bytes)
      (callback done_callback : Option ℕ) (is_renew : Bool)
      → subscribe_action m addr port action_id duration period buffer callback done_callback
          is_renew
        ≡ ok m'
      → Step P m m'
  subscribes_by_name :
      {m' : Manager} (addr port : ℕ) (name : Bytes) (duration period : ℕ) (buffer : Bytes)
      (callback done_callback : Option ℕ) (is_renew : Bool)
      → subscribe_action_by_name m addr port name duration period buffer callback done_callback
          is_renew
        ≡ ok m'
      → Step P m m'

pub data Reach (P : Proto) (port : ℕ) : Manager → Type 0 where
  created : Reach P port (phy_device_manager port)
  called : {m m' : Manager} → Reach P port m → Step P m m' → Reach P port m'

module _ (P : Proto) where
  -- Every call that returns leaves a valid manager valid.
  Step-IsValid : {m m' : Manager} → Step P m m' → IsValid m → IsValid m'
  unfolding start send_hello
  Step-IsValid (sets_callbacks n a) v = record {
    devices = v.devices;
    responses = v.responses;
    subscribed = v.subscribed;
    request_fits = v.request_fits;
    subscription_fits = v.subscription_fits;
  }
  Step-IsValid starts v = emit-IsValid _ _ v
  Step-IsValid sends_hello v = emit-IsValid _ _ v
  Step-IsValid (handles src_phy log size e) v =
      Ensures-eq-ok IsValid _ (handle_packet-IsValid P _ src_phy log size v) e
  Step-IsValid (executes_async addr port id buffer require_status now) v =
      execute_action_async-IsValid _ addr port id buffer require_status now v
  Step-IsValid (executes_async_by_name addr port name buffer require_status now) v =
      execute_action_async_by_name-IsValid _ addr port name buffer require_status now v
  Step-IsValid (executes addr port id buffer require_status now t rounds e) v =
      (Ensures-eq-ok Returned _
        (execute_action-IsValid P _ addr port id buffer require_status now t rounds v) e).1
  Step-IsValid (executes_by_name addr port name buffer require_status now t rounds e) v =
      (Ensures-eq-ok Returned _
        (execute_action_by_name-IsValid P _ addr port name buffer require_status now t rounds v)
        e).1
  Step-IsValid (fetches_async addr port id buffer now) v =
      fetch_action_async-IsValid _ addr port id buffer now v
  Step-IsValid (fetches_async_by_name addr port name buffer now) v =
      fetch_action_async_by_name-IsValid _ addr port name buffer now v
  Step-IsValid (fetches addr port id buffer now t rounds e) v =
      (Ensures-eq-ok Fetched _ (fetch_action-IsValid P _ addr port id buffer now t rounds v) e).1
  Step-IsValid (fetches_by_name addr port name buffer now t rounds e) v =
      (Ensures-eq-ok Fetched _
        (fetch_action_by_name-IsValid P _ addr port name buffer now t rounds v) e).1
  Step-IsValid (subscribes addr port id duration period buffer callback done renew e) v =
      Ensures-eq-ok IsValid _
        (subscribe_action-IsValid _ addr port id duration period buffer callback done renew v) e
  Step-IsValid (subscribes_by_name addr port name duration period buffer callback done renew e) v =
      Ensures-eq-ok IsValid _
        (subscribe_action_by_name-IsValid _ addr port name duration period buffer callback done
          renew v)
        e

  -- After any sequence of the calls of `Step`, starting from a new manager, the manager is valid:
  -- devices stand at the addresses that they announced; requests and subscriptions at their
  -- numbers, which fit their types; an answered request has a status; a subscription's device is
  -- known, and its `done_callback` is not set.
  pub Reach-IsValid : {port : ℕ} {m : Manager} → Reach P port m → IsValid m
  Reach-IsValid {port} created = phy_device_manager-IsValid port
  Reach-IsValid (called r s) = Step-IsValid s (Reach-IsValid r)

-- A known device has the address that it stands at.
pub lookup_log-addr :
    (m : Manager) (a p : ℕ) (info : LogDeviceInfo)
    → IsValid m
    → lookup_log m a p ≡ some info
    → (info.phy ≡ a) × (info.log ≡ p)
unfolding lookup_log
lookup_log-addr m a p info v e = elim (Option-cases (find a m.known_devices)) [
  | inl none_there ↦ absurd (ground arith)
  | inr (phy, there) ↦
      All-find (DeviceIsValid a) p info phy.log_devices
        (All-find PhyIsValid a phy m.known_devices v.devices there) (ground arith)
]

-- The start packet that a renewed subscription sends again.
abbrev pub restart : Manager → Subscription → ℕ → ℕ → Event
restart m s a p = sent (record {
  dest_phy = a;
  dest_log = p;
  src_port = m.self_port;
  fields = subscription_start s.id s.action_id s.duration s.period;
})

subscribe_data-again :
    (m : Manager) (s : Subscription) (a p : ℕ) (info : LogDeviceInfo)
    → find s.id m.subscriptions ≡ some s
    → s.device ≡ some (a, p)
    → lookup_log m a p ≡ some info
    → (info.phy ≡ a) × (info.log ≡ p)
    → subscribe_data m s ≡ ok (emit (restart m s a p) m)
unfolding subscribe_data deref lookup_log emplace
subscribe_data-again m s a p info there device known addr = ground arith

module _ (P : Proto) where
  -- At a valid manager the end of a subscription is never a fault and never calls a
  -- `done_callback`: a subscription with `is_renew` sends its start packet once more to the
  -- device's address, and otherwise, or if the number is unknown, nothing changes.
  pub handle_done_lem :
      (m : Manager) (id : ℕ)
      → IsValid m
      → ((find id m.subscriptions ≡ none) × (handle_done P m id ≡ ok m))
        ⊎ ((s : Subscription) × (a : ℕ) × (p : ℕ) × (find id m.subscriptions ≡ some s)
            × (s.device ≡ some (a, p))
            × (handle_done P m id ≡ ok (if s.is_renew then emit (restart m s a p) m else m)))
  unfolding handle_done lookup_log
  handle_done_lem m id v = elim (Option-cases (find id m.subscriptions)) [
    | inl e ↦ inl (e, ground arith)
    | inr (s, e) ↦
        let sv : SubscriptionIsValid m.known_devices id s =
          All-find (SubscriptionIsValid m.known_devices) id s m.subscriptions v.subscribed e in
        let a = sv.3.0 in
        let p = sv.3.1 in
        elim (Option-cases (lookup_log m a p)) [
          | inl gone ↦ absurd (sv.3.3 gone)
          | inr (info, known) ↦ inr (
            s,
            a,
            p,
            e,
            sv.3.2,
            ground (
              arith,
              subscribe_data-again m s a p info (ap (λ k. find k m.subscriptions) sv.0 ∙ e) sv.3.2
                  known (lookup_log-addr m a p info v known),
            ),
          )
        ]
  ]
