-- ===== src/Manager/Subscribe/Delivery.antt =====
-- What a subscription's callback gets, whatever calls come between.
use khawasu_pc.Base.{
  ℕ, ◌+◌, ◌-◌, ◌%◌, ◌^◌, ◌≤◌, ◌<◌, ◌≡◌, refl, ◌∙◌, Bool, Option, none, some, ◌∷◌, Bytes, nat_eq,
  arith, length, take,
}
use khawasu_pc.Base.Outcome.{ok, Ensures-eq-ok, Ensures-option, Ensures-all, Ensures-if}
use khawasu_pc.Base.Dict.{Dict, find, emplace, find-emplace}
use khawasu_pc.Protocol.{
  Proto, Body, hello_world, hello_world_response, action_execute_result, action_response,
  subscription_done, subscription_callback, other_type, subscription_start,
}
use khawasu_pc.DeviceInfo.{LogDeviceInfo}
use khawasu_pc.Manager.State.{
  Manager, Subscription, Event, sent, callback_called, done_called, emit, lookup_log, lookup,
  call_action,
}
use khawasu_pc.Manager.Receive.{
  handle_packet, handle_body, handle_callback, handle_done, subscribe_data, deref,
}
use khawasu_pc.Manager.Receive.Payload.{copy_payload-within}
use khawasu_pc.Manager.Receive.Devices.{announced, handle_hello-eq-ok}
use khawasu_pc.Manager.Subscribe.{subscribe_action}
use khawasu_pc.Manager.Steps.{KeptByAll, Steps, Steps-Kept}

-- The subscription stands under its number.
abbrev pub Subscribed : ℕ → Subscription → Manager → Type 0
Subscribed id s m = find id m.subscriptions ≡ some s

subscriptions-announced :
    (m : Manager) (src_phy src_addr : ℕ) (info : LogDeviceInfo)
    → (announced m src_phy src_addr info).subscriptions ≡ m.subscriptions
unfolding announced
subscriptions-announced m src_phy src_addr info = ground arith

Subscribed-emplace :
    (id j : ℕ) (s t : Subscription) (d : Dict ℕ Subscription)
    → find id d ≡ some s
    → find id (emplace j t d) ≡ some s
Subscribed-emplace id j s t d there = ground (arith, find-emplace id j t d, nat_eq.beq_iff id j)

Subscribed-subscribe_data :
    (id : ℕ) (s t : Subscription) (m m' : Manager)
    → subscribe_data m t ≡ ok m'
    → Subscribed id s m
    → Subscribed id s m'
unfolding subscribe_data
Subscribed-subscribe_data id s t m m' e there =
    ground (arith, Subscribed-emplace id t.id s t m.subscriptions)

Subscribed-subscribe_action :
    (id : ℕ) (s : Subscription) (m m' : Manager) (addr port action_id duration period : ℕ)
    (buffer : Bytes) (callback finished : Option ℕ) (renew : Bool)
    → subscribe_action m addr port action_id duration period buffer callback finished renew ≡ ok m'
    → Subscribed id s m
    → Subscribed id s m'
unfolding subscribe_action
Subscribed-subscribe_action id s m m' addr port action_id duration period buffer callback finished
      renew e there =
    Ensures-eq-ok (Subscribed id s) _
      (Ensures-option (Subscribed id s) (lookup_log m addr port) _ _ there λ dev known.
        Ensures-all (Subscribed id s) _ λ m₁ e₁. Subscribed-subscribe_data id s _ _ m₁ e₁ there)
      e

Subscribed-done_called :
    (id : ℕ) (s d : Subscription) (m : Manager) (o : Option ℕ)
    → Subscribed id s m
    → Subscribed id s (elim o [ none ↦ m | some f ↦ emit (done_called f d) m ])
Subscribed-done_called id s d m none there = there
Subscribed-done_called id s d m (some f) there = there

module _ (P : Proto) where
  Subscribed-handle_done :
      (id r : ℕ) (s : Subscription) (m m' : Manager)
      → handle_done P m r ≡ ok m'
      → Subscribed id s m
      → Subscribed id s m'
  unfolding handle_done
  Subscribed-handle_done id r s m m' e there =
      Ensures-eq-ok (Subscribed id s) _
        (Ensures-option (Subscribed id s) (find r m.subscriptions) _ _ there λ d found.
          let kept = Subscribed-done_called id s d m d.done_callback there in
          Ensures-if (Subscribed id s) d.is_renew _ _
            (Ensures-all (Subscribed id s) _ λ m₁ e₁. Subscribed-subscribe_data id s d _ m₁ e₁ kept)
            kept)
        e

  Subscribed-handle_body :
      (id : ℕ) (s : Subscription) (m m' : Manager) (src_phy size src_addr : ℕ) (b : Body)
      → handle_body P m src_phy size src_addr b ≡ ok m'
      → Subscribed id s m
      → Subscribed id s m'
  unfolding handle_body call_action
  Subscribed-handle_body id s m m' src_phy size src_addr (hello_world h) e there =
      let (info, read, f) = handle_hello-eq-ok P m m' src_phy src_addr h e in
      rw (f, subscriptions-announced m src_phy src_addr info) there
  Subscribed-handle_body id s m m' src_phy size src_addr (hello_world_response h) e there =
      let (info, read, f) = handle_hello-eq-ok P m m' src_phy src_addr h e in
      rw (f, subscriptions-announced m src_phy src_addr info) there
  Subscribed-handle_body id s m m' src_phy size src_addr (action_execute_result r t) e there =
      ground arith
  Subscribed-handle_body id s m m' src_phy size src_addr (action_response r t p) e there =
      ground arith
  Subscribed-handle_body id s m m' src_phy size src_addr (subscription_done r) e there =
      Subscribed-handle_done id r s m m' e there
  Subscribed-handle_body id s m m' src_phy size src_addr (subscription_callback r p) e there =
      ground arith
  Subscribed-handle_body id s m m' src_phy size src_addr (other_type n) e there = ground arith

  Subscribed-Kept : (id : ℕ) (s : Subscription) → KeptByAll P (Subscribed id s)
  unfolding handle_packet
  Subscribed-Kept id s = record {
    kept = record {
      untouched = λ m m' u there. rw (u.1) there;
      handled = λ m m' src_phy log size e there.
          Subscribed-handle_body id s m m' src_phy size log.src_addr log.body e there;
    };
    callbacks_set = λ m n a there. there;
    subscribed = λ m m' addr port action_id duration period buffer callback finished renew e there.
        Subscribed-subscribe_action id s m m' addr port action_id duration period buffer callback
          finished renew e there;
  }

-- What `subscribe_action` stores.
abbrev pub subscription : ℕ → ℕ → ℕ → ℕ → ℕ → ℕ → ℕ → Bool → Subscription
subscription id addr port action_id duration period callback renew = record {
  device = some (addr, port);
  id = id;
  action_id = action_id;
  duration = duration;
  period = period;
  is_renew = renew;
  callback = some callback;
  done_callback = none;
}

abbrev pub subscription_packet : LogDeviceInfo → ℕ → Subscription → Event
subscription_packet dev self_port s = sent (record {
  dest_phy = dev.phy;
  dest_log = dev.log;
  src_port = self_port;
  fields = subscription_start s.id s.action_id s.duration s.period;
})

subscribe_data-known :
    (m : Manager) (s : Subscription) (addr port : ℕ) (dev : LogDeviceInfo)
    → s.device ≡ some (addr, port)
    → lookup_log m addr port ≡ some dev
    → subscribe_data m s
      ≡ ok (record m {
        subscriptions = emplace s.id s m.subscriptions;
        events = subscription_packet dev m.self_port s ∷ m.events;
      })
unfolding subscribe_data deref lookup_log
subscribe_data-known m s addr port dev device known = ground arith

-- The manager after it has subscribed to a device.
abbrev pub after_subscribe : Manager → LogDeviceInfo → Subscription → Manager
after_subscribe m dev s = record m {
  subscriptions = emplace s.id s m.subscriptions;
  subscription_counter = (s.id + 1) % 2 ^ 32;
  events = subscription_packet dev m.self_port s ∷ m.events;
}

subscribe_action-known :
    (m : Manager) (addr port action_id duration period : ℕ) (buffer : Bytes) (callback : ℕ)
    (finished : Option ℕ) (renew : Bool) (dev : LogDeviceInfo)
    → lookup_log m addr port ≡ some dev
    → let id = m.subscription_counter in
      let s = subscription id addr port action_id duration period callback renew in
      subscribe_action m addr port action_id duration period buffer (some callback) finished renew
      ≡ ok (after_subscribe m dev s)
unfolding subscribe_action lookup_log lookup
subscribe_action-known m addr port action_id duration period buffer callback finished renew dev
      known =
    let counted : Manager = record m {
      subscription_counter = (m.subscription_counter + 1) % 2 ^ 32;
    } in
    rw (subscribe_action, known)
      (subscribe_data-known counted
        (subscription m.subscription_counter addr port action_id duration period callback renew)
        addr port dev refl known)

module _ (P : Proto) where
  handle_callback-found :
      (m : Manager) (size id f : ℕ) (s : Subscription) (memory : Bytes)
      → let header = P.subscription_callback_size in
        Subscribed id s m
        → s.callback ≡ some f
        → header ≤ size + 1
        → size < 65536
        → size + 1 - header ≤ length memory
        → handle_callback P m size id memory
          ≡ ok (emit (callback_called f s (take (size + 1 - header) memory)) m)
  unfolding handle_callback
  handle_callback-found m size id f s memory stands set h k l =
      ground (arith, copy_payload-within size P.subscription_callback_size memory h k l)

  -- A client subscribes, with a callback, to an action of a known device, under a number that is
  -- free. The call sends one packet, to the device. After any number of further calls of the
  -- manager's methods, a packet for this subscription that is no shorter than its header and all in
  -- the buffer calls this callback once, with this subscription and exactly the packet's payload,
  -- and changes nothing else.
  pub subscribe_action-delivered :
      (m m₂ : Manager) (addr port action_id duration period : ℕ) (buffer : Bytes) (callback : ℕ)
      (finished : Option ℕ) (renew : Bool) (dev : LogDeviceInfo) (src_phy src_addr size : ℕ)
      (memory : Bytes)
      → let id = m.subscription_counter in
        let s = subscription id addr port action_id duration period callback renew in
        let header = P.subscription_callback_size in
        lookup_log m addr port ≡ some dev
        → find id m.subscriptions ≡ none
        → Steps P (after_subscribe m dev s) m₂
        → header ≤ size + 1
        → size < 65536
        → size + 1 - header ≤ length memory
        → (subscribe_action m addr port action_id duration period buffer
              (some callback)
              finished
              renew
            ≡ ok (after_subscribe m dev s))
          × ((after_subscribe m dev s).events ≡ subscription_packet dev m.self_port s ∷ m.events)
          × (handle_packet P m₂ src_phy
                (record { src_addr = src_addr; body = subscription_callback id memory })
                size
              ≡ ok (emit (callback_called callback s (take (size + 1 - header) memory)) m₂))
  unfolding handle_packet handle_body
  subscribe_action-delivered m m₂ addr port action_id duration period buffer callback finished renew
        dev src_phy src_addr size memory known free steps h k l =
      let id = m.subscription_counter in
      let s = subscription id addr port action_id duration period callback renew in
      let stands : Subscribed id s m₂ =
        Steps-Kept P (Subscribed id s) (Subscribed-Kept P id s) steps
          (find-emplace id id s m.subscriptions ∙ ground (arith, free, nat_eq.beq_iff id id)) in
      (
        subscribe_action-known m addr port action_id duration period buffer callback finished renew
            dev known,
        refl,
        handle_callback-found m₂ size id callback s memory stands refl h k l,
      )
