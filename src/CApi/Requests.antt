-- ===== src/CApi/Requests.antt =====
-- When the functions for C return, and when they read a null pointer.
use khawasu_pc.Base.{
  ℕ, ◌≡◌, ◌⊎◌, refl, ◌∙◌, ap, Bool, true, false, ◌||◌, ◌&&◌, Option, none, some, List, [], ◌∷◌,
  Bytes, length, nat_eq, arith, Bool-cases, Option-cases, inl, inr,
}
use khawasu_pc.Base.Outcome.{
  ok, fault, null_pointer, Ensures, Ensures-bind, Ensures-if, Ensures-option, Ensures-eq-ok,
  >>=-eq-ok,
}
use khawasu_pc.Protocol.{
  LogicalPacket, Proto, Body, hello_world, hello_world_response, action_execute_result,
  action_response, subscription_done, subscription_callback, other_type, Hello,
}
use khawasu_pc.DeviceInfo.{ActionResponse, ActionResponseType, execute, fetch}
use khawasu_pc.Manager.State.{
  Manager, Event, sent, hello_sent, device_added, new_device_called, callback_called, done_called,
  action_called, call_action, lookup_action, next_request,
}
use khawasu_pc.Manager.Receive.{handle_body, handle_packet, handle_hello, subscribe_data}
use khawasu_pc.Manager.Receive.Devices.{announced, handle_hello-eq-ok}
use khawasu_pc.Manager.Execute.{Round, Incoming, receive_all, poll, in_time}
use khawasu_pc.Manager.Fetch
use khawasu_pc.Manager.Fetch.{fetch_action_async, fetch_wait, fetch_action_by_name, is_null}
use khawasu_pc.CApi.{Context, deliver, deliver_all, on_new_device, on_action, with_manager}
use khawasu_pc.CApi.Functions.{fetch_action}

-- Whether the manager's action callback was called with a null pointer.
abbrev pub is_null_call : Event → Bool
is_null_call (action_called none) = true
is_null_call e = false

abbrev pub has_null_call : List Event → Bool
has_null_call [] = false
has_null_call (e ∷ es) = is_null_call e || has_null_call es

deliver-ok :
    (c : Context) (e : Event)
    → is_null_call e ≡ false
    → (c' : Context) × (deliver c e ≡ ok c') × (c'.manager ≡ c.manager)
unfolding deliver on_action on_new_device
deliver-ok c (sent packet) h = (_, refl, refl)
deliver-ok c (hello_sent port) h = (_, refl, refl)
deliver-ok c (device_added port) h = (_, refl, refl)
deliver-ok c (new_device_called info) h = (_, refl, ground arith)
deliver-ok c (action_called none) h = absurd (cc)
deliver-ok c (action_called (some ar)) h =
    elim ar.response_type
      as (λ t.
        (c' : Context) × (deliver c (action_called (some (record ar { response_type = t })))
          ≡ ok c')
        × (c'.manager ≡ c.manager)) [
          | ActionResponseType.unknown ↦ (_, refl, refl)
          | ActionResponseType.subscription_callback ↦ (_, refl, refl)
          | fetch ↦ (_, refl, ground arith)
          | execute ↦ (_, refl, ground arith)
        ]
deliver-ok c (callback_called f d bytes) h = (_, refl, refl)
deliver-ok c (done_called f d) h = (_, refl, refl)

pub deliver_all-ok :
    (c : Context) (es : List Event)
    → has_null_call es ≡ false
    → (c' : Context) × (deliver_all c es ≡ ok c') × (c'.manager ≡ c.manager)
unfolding deliver_all
deliver_all-ok c [] h = (c, refl, refl)
deliver_all-ok c (e ∷ es) h =
    let (c₁, d₁, s₁) = deliver_all-ok c es (ground arith) in
    let (c₂, d₂, s₂) = deliver-ok c₁ e (ground arith) in (c₂, rw (d₁, deliver_all) d₂, s₂ ∙ s₁)

-- No call of the callbacks fails but one with a null pointer.
pub deliver_all-null :
    (c : Context) (es : List Event)
    → has_null_call es ≡ true
    → deliver_all c es ≡ fault null_pointer
unfolding deliver_all deliver on_action
deliver_all-null c [] h = cc
deliver_all-null c (action_called none ∷ es) h = elim (Bool-cases (has_null_call es)) [
  | inl again ↦ rw (deliver_all-null c es again, deliver_all) refl
  | inr first ↦ let (c', d, _) = deliver_all-ok c es first in rw (d, deliver_all) refl
]
deliver_all-null c (sent packet ∷ es) h = rw (deliver_all-null c es h, deliver_all) refl
deliver_all-null c (hello_sent port ∷ es) h = rw (deliver_all-null c es h, deliver_all) refl
deliver_all-null c (device_added port ∷ es) h = rw (deliver_all-null c es h, deliver_all) refl
deliver_all-null c (new_device_called info ∷ es) h = rw (deliver_all-null c es h, deliver_all) refl
deliver_all-null c (action_called (some ar) ∷ es) h = rw (deliver_all-null c es h, deliver_all) refl
deliver_all-null c (callback_called f d b ∷ es) h = rw (deliver_all-null c es h, deliver_all) refl
deliver_all-null c (done_called f d ∷ es) h = rw (deliver_all-null c es h, deliver_all) refl

-- No new null pointer among the calls.
abbrev pub Keeps : Manager → Manager → Type 0
Keeps m m' = has_null_call m'.events ≡ has_null_call m.events

module _ (P : Proto) where
  has_null_call-hello :
      (m m' : Manager) (src_phy src_addr : ℕ) (h : Hello)
      → handle_hello P m src_phy src_addr h ≡ ok m'
      → Keeps m m'
  unfolding announced
  has_null_call-hello m m' src_phy src_addr h e =
      let (info, _, f) = handle_hello-eq-ok P m m' src_phy src_addr h e in ground arith

  has_null_call-handle_body :
      (m m' : Manager) (src_phy size src_addr : ℕ) (b : Body)
      → handle_body P m src_phy size src_addr b ≡ ok m'
      → Keeps m m'
  unfolding handle_body subscribe_data call_action
  has_null_call-handle_body m m' src_phy size addr (hello_world h) e =
      has_null_call-hello m m' src_phy addr h e
  has_null_call-handle_body m m' src_phy size addr (hello_world_response h) e =
      has_null_call-hello m m' src_phy addr h e
  has_null_call-handle_body m m' src_phy size addr (action_execute_result id s) e = ground arith
  has_null_call-handle_body m m' src_phy size addr (action_response id s p) e = ground arith
  has_null_call-handle_body m m' src_phy size addr (subscription_done id) e = ground arith
  has_null_call-handle_body m m' src_phy size addr (subscription_callback id p) e = ground arith
  has_null_call-handle_body m m' src_phy size addr (other_type n) e = ground arith

  pub has_null_call-handle_packet :
      (m m' : Manager) (src_phy : ℕ) (log : LogicalPacket) (size : ℕ)
      → handle_packet P m src_phy log size ≡ ok m'
      → Keeps m m'
  unfolding handle_packet
  has_null_call-handle_packet m m' src_phy log size e =
      has_null_call-handle_body m m' src_phy size log.src_addr log.body e

  has_null_call-receive_all :
      (m m' : Manager) (ps : List Incoming) → receive_all P m ps ≡ ok m' → Keeps m m'
  unfolding receive_all
  has_null_call-receive_all m m' [] e = ground arith
  has_null_call-receive_all m m' (p ∷ ps) e =
      let (m₁, e₁, e₂) = >>=-eq-ok (handle_packet P m p.src_phy p.log p.size) _ e in
      has_null_call-receive_all m₁ m' ps e₂
      ∙ has_null_call-handle_packet m m₁ p.src_phy p.log p.size e₁

  events-poll : (m : Manager) (req_id now : ℕ) → (poll m req_id now).1.events ≡ m.events
  unfolding poll
  events-poll m req_id now = ground arith

  has_null_call-fetch_wait :
      (b : Bool) (req_id start_time : ℕ) (rounds : List Round) (result : Option ActionResponse)
      (m : Manager)
      → has_null_call m.events ≡ b
      → Ensures
          (λ (r : Option ActionResponse × Manager). has_null_call r.1.events ≡ b)
          (fetch_wait P req_id start_time rounds result m)
  unfolding fetch_wait
  has_null_call-fetch_wait b req_id start_time [] result m h =
      Ensures-if _ (is_null result) _ _ tt h
  has_null_call-fetch_wait b req_id start_time (r ∷ rs) result m h =
      Ensures-if _ (is_null result && in_time r.clock start_time) _ _
        (Ensures-bind _ (receive_all P (poll m req_id r.taken_at).1 r.during) _ λ m₂ e.
          has_null_call-fetch_wait b req_id start_time rs _ m₂ (
            has_null_call-receive_all (poll m req_id r.taken_at).1 m₂ r.during e
            ∙ ap has_null_call (events-poll m req_id r.taken_at)
            ∙ h))
        h

  -- A result that is no null pointer is handed to the callback.
  has_null_call-fetch_action :
      (m : Manager) (addr port : ℕ) (name buffer : Bytes) (now start_time : ℕ) (rounds : List Round)
      → has_null_call m.events ≡ false
      → Ensures
          (λ (r : Option ActionResponse × Manager).
            is_null r.0 ≡ false → has_null_call r.1.events ≡ false)
          (fetch_action_by_name P m addr port name buffer now start_time rounds)
  unfolding fetch_action_by_name Fetch.fetch_action fetch_action_async call_action next_request
  has_null_call-fetch_action m addr port name buffer now start_time rounds h =
      Ensures-option _ (lookup_action m addr port name) _ _ (λ x. h)
        λ ia known. Ensures-bind _ (fetch_wait P _ start_time rounds none _) _ λ (result, m₂) e x.
          let before : has_null_call m₂.events ≡ false =
            Ensures-eq-ok _ _ (has_null_call-fetch_wait false _ start_time rounds none _ h) e in
          ground (arith, Option-cases result)

  -- The C function `fetch_action`, with no null pointer handed to a callback before: where the
  -- manager's `fetch_action` returns a null pointer, it reads that null pointer; where the manager
  -- returns a response, it returns exactly the response's payload and the payload's size, and the
  -- manager is as that call leaves it.
  pub fetch_action-result :
      (c : Context) (addr port : ℕ) (name buffer : Bytes) (now start_time : ℕ) (rounds : List Round)
      (result : Option ActionResponse) (m' : Manager)
      → has_null_call c.manager.events ≡ false
      → fetch_action_by_name P c.manager addr port name buffer now start_time rounds
        ≡ ok (result, m')
      → ((result ≡ none)
          × (fetch_action P c addr port name buffer now start_time rounds ≡ fault null_pointer))
        ⊎ ((r : ActionResponse) × (c' : Context) × (result ≡ some r)
            × (fetch_action P c addr port name buffer now start_time rounds
                ≡ ok ((r.payload, length r.payload), c'))
            × (c'.manager ≡ record m' { events = [] }))
  unfolding fetch_action with_manager
  fetch_action-result c addr port name buffer now start_time rounds none m' h e =
      elim (Bool-cases (has_null_call m'.events)) [
        | inl null ↦ inl (
          refl,
          rw
              (
                e,
                fetch_action,
                with_manager,
                deliver_all-null (record c { manager = record m' { events = [] } }) m'.events null,
              )
              refl,
        )
        | inr fine ↦
            let (c', d, _) =
              deliver_all-ok (record c { manager = record m' { events = [] } }) m'.events fine in
            inl (refl, rw (e, fetch_action, with_manager, d) refl)
      ]
  fetch_action-result c addr port name buffer now start_time rounds (some r) m' h e =
      let fine =
        Ensures-eq-ok _ _
          (has_null_call-fetch_action c.manager addr port name buffer now start_time rounds h) e
          refl in
      let (c', d, same) =
        deliver_all-ok (record c { manager = record m' { events = [] } }) m'.events fine in
      inr (r, c', refl, rw (e, fetch_action, with_manager, d) refl, same)
