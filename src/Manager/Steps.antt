-- ===== src/Manager/Steps.antt =====
-- What every call of the manager keeps, if handling a packet and subscribing keep it.
use khawasu_pc.Base.{
  ℕ, ◌≡◌, refl, Bool, ◌&&◌, Option, none, some, List, [], ◌∷◌, nat_eq, arith, Bytes,
}
use khawasu_pc.Base.Outcome.{
  ok, Ensures, Ensures-bind, Ensures-if, Ensures-option, Ensures-eq-ok, Ensures-all, >>=-eq-ok,
}
use khawasu_pc.Protocol.{Status, timeout, LogicalPacket, Proto}
use khawasu_pc.DeviceInfo.{ActionResponse}
use khawasu_pc.Manager.State.{Manager, lookup_action, call_action, next_request, start, send_hello}
use khawasu_pc.Manager.Receive.{handle_packet}
use khawasu_pc.Manager.Execute.{
  Round, Incoming, receive_all, poll, in_time, is_timeout, execute_wait, execute_action,
  execute_action_by_name, execute_action_async, execute_action_async_by_name, to_ushort,
}
use khawasu_pc.Manager.Fetch.{
  fetch_wait, fetch_action, fetch_action_by_name, fetch_action_async, fetch_action_async_by_name,
  is_null,
}
use khawasu_pc.Manager.Subscribe.{subscribe_action, subscribe_action_by_name}
use khawasu_pc.Manager.Valid.Reach.{
  Step, sets_callbacks, starts, sends_hello, handles, executes_async, executes_async_by_name,
  executes, executes_by_name, fetches_async, fetches_async_by_name, fetches, fetches_by_name,
  subscribes, subscribes_by_name,
}

-- Devices, subscriptions and which callbacks are set stay as they are.
abbrev pub Untouched : Manager → Manager → Type 0
Untouched m m' =
    (m'.known_devices ≡ m.known_devices)
    × (m'.subscriptions ≡ m.subscriptions)
    × (m'.new_device_callback ≡ m.new_device_callback)
    × (m'.action_callback ≡ m.action_callback)

Untouched-call_action : (r : Option ActionResponse) (m : Manager) → Untouched m (call_action r m)
unfolding call_action
Untouched-call_action r m = ground arith

Untouched-poll : (m : Manager) (req_id now : ℕ) → Untouched m (poll m req_id now).1
unfolding poll
Untouched-poll m req_id now = ground arith

Untouched-execute_action_async :
    (m : Manager) (addr port id : ℕ) (buffer : Bytes) (require_status : Bool) (now : ℕ)
    → Untouched m (execute_action_async m addr port id buffer require_status now).1
unfolding execute_action_async next_request
Untouched-execute_action_async m addr port id buffer require_status now = ground arith

Untouched-execute_action_async_by_name :
    (m : Manager) (addr port : ℕ) (name buffer : Bytes) (require_status : Bool) (now : ℕ)
    → Untouched m (execute_action_async_by_name m addr port name buffer require_status now).1
unfolding execute_action_async_by_name execute_action_async next_request call_action
Untouched-execute_action_async_by_name m addr port name buffer require_status now = ground arith

Untouched-fetch_action_async :
    (m : Manager) (addr port id : ℕ) (buffer : Bytes) (now : ℕ)
    → Untouched m (fetch_action_async m addr port id buffer now).1
unfolding fetch_action_async next_request
Untouched-fetch_action_async m addr port id buffer now = ground arith

Untouched-fetch_action_async_by_name :
    (m : Manager) (addr port : ℕ) (name buffer : Bytes) (now : ℕ)
    → Untouched m (fetch_action_async_by_name m addr port name buffer now).1
unfolding fetch_action_async_by_name fetch_action_async next_request
Untouched-fetch_action_async_by_name m addr port name buffer now = ground arith

-- A predicate on the manager that depends on these fields only, and that the handler of packets
-- keeps.
pub record Kept {ℓ} (P : Proto) (Q : Manager → Type ℓ) : Type ℓ where
  pub untouched : (m m' : Manager) → Untouched m m' → Q m → Q m'
  pub handled :
      (m m' : Manager) (src_phy : ℕ) (log : LogicalPacket) (size : ℕ)
      → handle_packet P m src_phy log size ≡ ok m'
      → Q m
      → Q m'

-- And that setting the callbacks and `subscribe_action` keep too.
pub record KeptByAll {ℓ} (P : Proto) (Q : Manager → Type ℓ) : Type ℓ where
  pub kept : Kept P Q
  pub callbacks_set :
      (m : Manager) (new_device action : Bool)
      → Q m
      → Q (record m { new_device_callback = new_device; action_callback = action })
  pub subscribed :
      (m m' : Manager) (addr port id duration period : ℕ) (buffer : Bytes)
      (callback finished : Option ℕ) (renew : Bool)
      → subscribe_action m addr port id duration period buffer callback finished renew ≡ ok m'
      → Q m
      → Q m'

module _ {ℓ} (P : Proto) (Q : Manager → Type ℓ) (K : Kept P Q) where
  receive_all-Kept : (m m' : Manager) (ps : List Incoming) → receive_all P m ps ≡ ok m' → Q m → Q m'
  unfolding receive_all
  receive_all-Kept m m' [] e g = K.untouched m m' (ground arith) g
  receive_all-Kept m m' (p ∷ ps) e g =
      let (m₁, e₁, e₂) = >>=-eq-ok (handle_packet P m p.src_phy p.log p.size) _ e in
      receive_all-Kept m₁ m' ps e₂ (K.handled m m₁ p.src_phy p.log p.size e₁ g)

  execute_wait-Kept :
      (req_id start_time : ℕ) (rounds : List Round) (status : Option Status)
      (result : Option ActionResponse) (m : Manager)
      → Q m
      → Ensures
          (λ (r : Option Status × Option ActionResponse × Manager). Q r.2)
          (execute_wait P req_id start_time rounds status result m)
  unfolding execute_wait
  execute_wait-Kept req_id start_time [] status result m g =
      Ensures-if _ (is_timeout status) _ _ tt g
  execute_wait-Kept req_id start_time (r ∷ rs) status result m g =
      Ensures-if _ (is_timeout status && in_time r.clock start_time) _ _
        (Ensures-bind _ (receive_all P (poll m req_id r.taken_at).1 r.during) _ λ m₂ e.
          execute_wait-Kept req_id start_time rs _ _ m₂ (
            receive_all-Kept (poll m req_id r.taken_at).1 m₂ r.during e
              (K.untouched m _ (Untouched-poll m req_id r.taken_at) g)))
        g

  fetch_wait-Kept :
      (req_id start_time : ℕ) (rounds : List Round) (result : Option ActionResponse) (m : Manager)
      → Q m
      → Ensures
          (λ (r : Option ActionResponse × Manager). Q r.1)
          (fetch_wait P req_id start_time rounds result m)
  unfolding fetch_wait
  fetch_wait-Kept req_id start_time [] result m g = Ensures-if _ (is_null result) _ _ tt g
  fetch_wait-Kept req_id start_time (r ∷ rs) result m g =
      Ensures-if _ (is_null result && in_time r.clock start_time) _ _
        (Ensures-bind _ (receive_all P (poll m req_id r.taken_at).1 r.during) _ λ m₂ e.
          fetch_wait-Kept req_id start_time rs _ m₂ (
            receive_all-Kept (poll m req_id r.taken_at).1 m₂ r.during e
              (K.untouched m _ (Untouched-poll m req_id r.taken_at) g)))
        g

  execute_action-Kept :
      (m : Manager) (addr port id : ℕ) (buffer : Bytes) (require_status : Bool) (now start_time : ℕ)
      (rounds : List Round)
      → Q m
      → Ensures
          (λ (r : Option Status × Manager). Q r.1)
          (execute_action P m addr port id buffer require_status now start_time rounds)
  unfolding execute_action
  execute_action-Kept m addr port id buffer require_status now start_time rounds q =
      let m₁ = (execute_action_async m addr port id buffer require_status now).1 in
      let g =
        K.untouched m m₁ (Untouched-execute_action_async m addr port id buffer require_status now)
          q in
      Ensures-if _ require_status _ _
        (Ensures-bind _ (execute_wait P _ start_time rounds (some timeout) none m₁) _
          λ (status, result, m₂) e.
            K.untouched m₂ _ (Untouched-call_action result m₂) (
              Ensures-eq-ok _ _ (execute_wait-Kept _ start_time rounds (some timeout) none m₁ g) e))
        g

  fetch_action-Kept :
      (m : Manager) (addr port id : ℕ) (buffer : Bytes) (now start_time : ℕ) (rounds : List Round)
      → Q m
      → Ensures
          (λ (r : Option ActionResponse × Manager). Q r.1)
          (fetch_action P m addr port id buffer now start_time rounds)
  unfolding fetch_action
  fetch_action-Kept m addr port id buffer now start_time rounds q =
      let m₁ = (fetch_action_async m addr port id buffer now).1 in
      let g = K.untouched m m₁ (Untouched-fetch_action_async m addr port id buffer now) q in
      Ensures-bind _ (fetch_wait P _ start_time rounds none m₁) _ λ (result, m₂) e.
        K.untouched m₂ _ (Untouched-call_action result m₂)
          (Ensures-eq-ok _ _ (fetch_wait-Kept _ start_time rounds none m₁ g) e)

  pub start-Kept : (m : Manager) → Q m → Q (start m)
  unfolding start
  start-Kept m q = K.untouched m _ (refl, refl, refl, refl) q

  pub send_hello-Kept : (m : Manager) → Q m → Q (send_hello m)
  unfolding send_hello
  send_hello-Kept m q = K.untouched m _ (refl, refl, refl, refl) q

  pub execute_action_async_by_name-Kept :
      (m : Manager) (addr port : ℕ) (name buffer : Bytes) (require_status : Bool) (now : ℕ)
      → Q m
      → Q (execute_action_async_by_name m addr port name buffer require_status now).1
  execute_action_async_by_name-Kept m addr port name buffer require_status now q =
      K.untouched m _
        (Untouched-execute_action_async_by_name m addr port name buffer require_status now) q

  pub fetch_action_async_by_name-Kept :
      (m : Manager) (addr port : ℕ) (name buffer : Bytes) (now : ℕ)
      → Q m
      → Q (fetch_action_async_by_name m addr port name buffer now).1
  fetch_action_async_by_name-Kept m addr port name buffer now q =
      K.untouched m _ (Untouched-fetch_action_async_by_name m addr port name buffer now) q

  pub execute_action_by_name-Kept :
      (m : Manager) (addr port : ℕ) (name buffer : Bytes) (require_status : Bool)
      (now start_time : ℕ) (rounds : List Round)
      → Q m
      → Ensures
          (λ (r : Option Status × Manager). Q r.1)
          (execute_action_by_name P m addr port name buffer require_status now start_time rounds)
  unfolding execute_action_by_name
  execute_action_by_name-Kept m addr port name buffer require_status now start_time rounds q =
      Ensures-option _ (lookup_action m addr port name) _ _ q λ ia known.
        execute_action-Kept m addr port (to_ushort ia.0) buffer require_status now start_time rounds
          q

  pub fetch_action_by_name-Kept :
      (m : Manager) (addr port : ℕ) (name buffer : Bytes) (now start_time : ℕ) (rounds : List Round)
      → Q m
      → Ensures
          (λ (r : Option ActionResponse × Manager). Q r.1)
          (fetch_action_by_name P m addr port name buffer now start_time rounds)
  unfolding fetch_action_by_name
  fetch_action_by_name-Kept m addr port name buffer now start_time rounds q =
      Ensures-option _ (lookup_action m addr port name) _ _ q
        λ ia known. fetch_action-Kept m addr port (to_ushort ia.0) buffer now start_time rounds q

module _ {ℓ} (P : Proto) (Q : Manager → Type ℓ) (A : KeptByAll P Q) where
  subscribe_action_by_name-Kept :
      (m m' : Manager) (addr port : ℕ) (name : Bytes) (duration period : ℕ) (buffer : Bytes)
      (callback finished : Option ℕ) (renew : Bool)
      → subscribe_action_by_name m addr port name duration period buffer callback finished renew
        ≡ ok m'
      → Q m
      → Q m'
  unfolding subscribe_action_by_name
  subscribe_action_by_name-Kept m m' addr port name duration period buffer callback finished renew e
        q =
      Ensures-eq-ok Q _
        (Ensures-option Q (lookup_action m addr port name) _ _ q λ ia known.
          Ensures-all Q _ λ m₁ e₁.
            A.subscribed m m₁ addr port (to_ushort ia.0) duration period buffer callback finished
              renew e₁ q)
        e

  -- Every call of `Step` keeps the predicate.
  pub Step-Kept : {m m' : Manager} → Step P m m' → Q m → Q m'
  Step-Kept {m} {m'} (sets_callbacks n a) q = A.callbacks_set m n a q
  Step-Kept {m} {m'} starts q = start-Kept P Q A.kept m q
  Step-Kept {m} {m'} sends_hello q = send_hello-Kept P Q A.kept m q
  Step-Kept {m} {m'} (handles src_phy log size e) q = A.kept.handled m m' src_phy log size e q
  Step-Kept {m} (executes_async addr port id buffer require_status now) q =
      A.kept.untouched m _ (Untouched-execute_action_async m addr port id buffer require_status now)
        q
  Step-Kept {m} (executes_async_by_name addr port name buffer require_status now) q =
      execute_action_async_by_name-Kept P Q A.kept m addr port name buffer require_status now q
  Step-Kept {m} (executes addr port id buffer require_status now t rounds e) q =
      Ensures-eq-ok _ _
        (execute_action-Kept P Q A.kept m addr port id buffer require_status now t rounds q) e
  Step-Kept {m} (executes_by_name addr port name buffer require_status now t rounds e) q =
      Ensures-eq-ok _ _
        (execute_action_by_name-Kept P Q A.kept m addr port name buffer require_status now t rounds
          q)
        e
  Step-Kept {m} (fetches_async addr port id buffer now) q =
      A.kept.untouched m _ (Untouched-fetch_action_async m addr port id buffer now) q
  Step-Kept {m} (fetches_async_by_name addr port name buffer now) q =
      fetch_action_async_by_name-Kept P Q A.kept m addr port name buffer now q
  Step-Kept {m} (fetches addr port id buffer now t rounds e) q =
      Ensures-eq-ok _ _ (fetch_action-Kept P Q A.kept m addr port id buffer now t rounds q) e
  Step-Kept {m} (fetches_by_name addr port name buffer now t rounds e) q =
      Ensures-eq-ok _ _
        (fetch_action_by_name-Kept P Q A.kept m addr port name buffer now t rounds q) e
  Step-Kept {m} {m'} (subscribes addr port id duration period buffer callback finished renew e) q =
      A.subscribed m m' addr port id duration period buffer callback finished renew e q
  Step-Kept {m} {m'}
        (subscribes_by_name addr port name duration period buffer callback finished renew e) q =
      subscribe_action_by_name-Kept m m' addr port name duration period buffer callback finished
        renew e q

-- Any number of calls.
pub data Steps (P : Proto) (m : Manager) : Manager → Type 0 where
  none_yet : Steps P m m
  more : {m₁ m₂ : Manager} → Steps P m m₁ → Step P m₁ m₂ → Steps P m m₂

pub Steps-Kept {ℓ} :
    (P : Proto) (Q : Manager → Type ℓ) (K : KeptByAll P Q) {m m' : Manager}
    → Steps P m m'
    → Q m
    → Q m'
Steps-Kept P Q K none_yet q = q
Steps-Kept P Q K (more before s) q = Step-Kept P Q K s (Steps-Kept P Q K before q)
