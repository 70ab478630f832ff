-- ===== src/Manager/Valid/Calls.antt =====
-- The outgoing operations keep the invariant, the waiting loops with all that they let in.
use khawasu_pc.Base.{
  ℕ, ◌+◌, ◌%◌, ◌^◌, ◌≢◌, refl, Bool, ◌&&◌, Bytes, Option, none, some, List, [], ◌∷◌, inl, inr,
  arith, nat_eq, Bool-cases, Option-cases,
}
use khawasu_pc.Base.Outcome.{
  Ensures, Ensures-bind, Ensures-if, Ensures-eq-ok, Ensures-option, if-holds,
}
use khawasu_pc.Base.Dict.{find, emplace, All-find, All-emplace, All-erase}
use khawasu_pc.Protocol.{Status, Proto, timeout}
use khawasu_pc.DeviceInfo.{ActionResponse, ActionResponseType, action_response, execute, fetch}
use khawasu_pc.Manager.State.{Manager, next_request, lookup_log, lookup_action}
use khawasu_pc.Manager.Receive.{handle_packet}
use khawasu_pc.Manager.Execute.{
  Incoming, Round, poll, in_time, is_timeout, receive_all, execute_wait, execute_action_async,
  execute_action_async_by_name, execute_action, execute_action_by_name, to_ushort,
}
use khawasu_pc.Manager.Fetch.{
  fetch_wait, fetch_action_async, fetch_action_async_by_name, fetch_action, fetch_action_by_name,
  is_null,
}
use khawasu_pc.Manager.Subscribe.{subscribe_action, subscribe_action_by_name}
use khawasu_pc.Manager.Valid.{ResponseIsValid, IsValid}
use khawasu_pc.Manager.Valid.Receive.{
  emit-IsValid, call_action-IsValid, with_responses-IsValid, subscribe_data-IsValid,
  handle_packet-IsValid,
}

next_request-IsValid : (m : Manager) → IsValid m → IsValid (next_request m).1
unfolding next_request
next_request-IsValid m v = record {
  devices = v.devices;
  responses = v.responses;
  subscribed = v.subscribed;
  request_fits = omega arith;
  subscription_fits = v.subscription_fits;
}

-- Recording a request under the number just drawn.
recorded-IsValid :
    (m : Manager) (type : ActionResponseType) (addr port now : ℕ)
    → IsValid m
    → let (req_id, m') = next_request m in
      IsValid (record m' {
        action_responses =
            emplace req_id (action_response req_id type addr port now) m'.action_responses;
      })
unfolding next_request action_response
recorded-IsValid m type addr port now v =
    with_responses-IsValid _ _
      (All-emplace ResponseIsValid m.action_responses_counter _ m.action_responses
        (refl, v.request_fits, λ e. cc) v.responses)
      (unfold next_request in next_request-IsValid m v)

pub execute_action_async-IsValid :
    (m : Manager) (addr port action_id : ℕ) (buffer : Bytes) (require_status : Bool) (now : ℕ)
    → IsValid m
    → IsValid (execute_action_async m addr port action_id buffer require_status now).1
unfolding execute_action_async
execute_action_async-IsValid m addr port action_id buffer require_status now v = emit-IsValid _ _ (
    if-holds IsValid require_status _ _ (recorded-IsValid m execute addr port now v)
      (next_request-IsValid m v))

pub fetch_action_async-IsValid :
    (m : Manager) (addr port action_id : ℕ) (buffer : Bytes) (now : ℕ)
    → IsValid m
    → IsValid (fetch_action_async m addr port action_id buffer now).1
unfolding fetch_action_async
fetch_action_async-IsValid m addr port action_id buffer now v =
    emit-IsValid _ _ (recorded-IsValid m fetch addr port now v)

pub execute_action_async_by_name-IsValid :
    (m : Manager) (addr port : ℕ) (name buffer : Bytes) (require_status : Bool) (now : ℕ)
    → IsValid m
    → IsValid (execute_action_async_by_name m addr port name buffer require_status now).1
unfolding execute_action_async_by_name
execute_action_async_by_name-IsValid m addr port name buffer require_status now v =
    elim (Option-cases (lookup_action m addr port name)) [
      | inl e ↦
          rw (e, execute_action_async_by_name) (call_action-IsValid _ _ (next_request-IsValid m v))
      | inr ((id, action), e) ↦
          rw (e, execute_action_async_by_name)
            (execute_action_async-IsValid m addr port (to_ushort id) buffer require_status now v)
    ]

pub fetch_action_async_by_name-IsValid :
    (m : Manager) (addr port : ℕ) (name buffer : Bytes) (now : ℕ)
    → IsValid m
    → IsValid (fetch_action_async_by_name m addr port name buffer now).1
unfolding fetch_action_async_by_name
fetch_action_async_by_name-IsValid m addr port name buffer now v =
    elim (Option-cases (lookup_action m addr port name)) [
      | inl e ↦ rw (e, fetch_action_async_by_name) v
      | inr ((id, action), e) ↦
          rw (e, fetch_action_async_by_name)
            (fetch_action_async-IsValid m addr port (to_ushort id) buffer now v)
    ]

-- An answer that `poll` takes has a status.
abbrev pub HasStatus : Option ActionResponse → Type 0
HasStatus none = Unit
HasStatus (some r) = r.status ≢ none

poll-IsValid :
    (m : Manager) (req_id now : ℕ)
    → IsValid m
    → HasStatus (poll m req_id now).0 × IsValid (poll m req_id now).1
unfolding poll
poll-IsValid m req_id now v = elim (Option-cases (find req_id m.action_responses)) [
  | inl e ↦ rw (e, poll) (tt, v)
  | inr (r, e) ↦
      let rv : ResponseIsValid req_id r =
        All-find ResponseIsValid req_id r m.action_responses v.responses e in
      rw (e, poll)
        (elim (Bool-cases r.is_waiting) [
          | inl c ↦ rw c (tt, v)
          | inr c ↦ rw c (
            rv.2 c,
            with_responses-IsValid m _ (All-erase ResponseIsValid req_id _ v.responses) v,
          )
        ])
]

pub subscribe_action-IsValid :
    (m : Manager) (addr port action_id duration period : ℕ) (buffer : Bytes)
    (callback done_callback : Option ℕ) (is_renew : Bool)
    → IsValid m
    → Ensures IsValid (
        subscribe_action m addr port action_id duration period buffer callback done_callback
          is_renew)
unfolding subscribe_action lookup_log
subscribe_action-IsValid m addr port action_id duration period buffer callback done_callback
      is_renew v =
    Ensures-option IsValid (lookup_log m addr port) _ _ v' λ info e.
      subscribe_data-IsValid _ _ v' (refl, v.subscription_fits, refl, (addr, port, refl, λ f. cc))
  where
    v' : IsValid (record m { subscription_counter = (m.subscription_counter + 1) % 2 ^ 32 })
    v' = record {
      devices = v.devices;
      responses = v.responses;
      subscribed = v.subscribed;
      request_fits = v.request_fits;
      subscription_fits = omega arith;
    }

-- What the loop of `execute_action`, that method, and `fetch_action` return.
abbrev Executed : Option Status × Option ActionResponse × Manager → Type 0
Executed (status, result, m) = (status ≢ none) × IsValid m

abbrev pub Returned : Option Status × Manager → Type 0
Returned (status, m) = (status ≢ none) × IsValid m

abbrev pub Fetched : Option ActionResponse × Manager → Type 0
Fetched (result, m) = HasStatus result × IsValid m

taken-HasStatus :
    (answer : Option ActionResponse) (status : Option Status)
    → HasStatus answer
    → status ≢ none
    → elim answer [ none ↦ status | some a ↦ a.status ] ≢ none
taken-HasStatus none status h s = s
taken-HasStatus (some a) status h s = h

taken_result-HasStatus :
    (answer result : Option ActionResponse)
    → HasStatus answer
    → HasStatus result
    → HasStatus (elim answer [ none ↦ result | some a ↦ some a ])
taken_result-HasStatus none result h s = s
taken_result-HasStatus (some a) result h s = h

pub subscribe_action_by_name-IsValid :
    (m : Manager) (addr port : ℕ) (name : Bytes) (duration period : ℕ) (buffer : Bytes)
    (callback done_callback : Option ℕ) (is_renew : Bool)
    → IsValid m
    → Ensures IsValid (
        subscribe_action_by_name m addr port name duration period buffer callback done_callback
          is_renew)
unfolding subscribe_action_by_name
subscribe_action_by_name-IsValid m addr port name duration period buffer callback done is_renew v =
    Ensures-option IsValid (lookup_action m addr port name) _ _ v λ ia e.
      subscribe_action-IsValid m addr port (to_ushort ia.0) duration period buffer callback done
        is_renew v

module _ (P : Proto) where
  pub receive_all-IsValid :
      (m : Manager) (ps : List Incoming) → IsValid m → Ensures IsValid (receive_all P m ps)
  unfolding receive_all
  receive_all-IsValid m [] v = v
  receive_all-IsValid m (p ∷ ps) v =
      Ensures-bind IsValid (handle_packet P m p.src_phy p.log p.size) _ λ m' e.
        receive_all-IsValid m' ps
          (Ensures-eq-ok IsValid _ (handle_packet-IsValid P m p.src_phy p.log p.size v) e)

  execute_wait-IsValid :
      (req_id start_time : ℕ) (rounds : List Round) (status : Option Status)
      (result : Option ActionResponse) (m : Manager)
      → status ≢ none
      → IsValid m
      → Ensures Executed (execute_wait P req_id start_time rounds status result m)
  unfolding execute_wait
  execute_wait-IsValid req_id start_time [] status result m s v =
      Ensures-if Executed (is_timeout status) _ _ tt (s, v)
  execute_wait-IsValid req_id start_time (r ∷ rs) status result m s v =
      let pv = poll-IsValid m req_id r.taken_at v in
      Ensures-if Executed (is_timeout status && in_time r.clock start_time) _ _
        (Ensures-bind Executed (receive_all P (poll m req_id r.taken_at).1 r.during) _ λ m₂ e.
          execute_wait-IsValid req_id start_time rs _ _ m₂
            (taken-HasStatus (poll m req_id r.taken_at).0 status pv.0 s)
            (Ensures-eq-ok IsValid _ (receive_all-IsValid _ r.during pv.1) e))
        (s, v)

  -- At a valid manager, if `execute_action` returns, the status that it returns has been written,
  -- on every path and whatever packets arrive meanwhile, and the manager is valid again.
  pub execute_action-IsValid :
      (m : Manager) (addr port action_id : ℕ) (buffer : Bytes) (require_status : Bool)
      (now start_time : ℕ) (rounds : List Round)
      → IsValid m
      → Ensures Returned
          (execute_action P m addr port action_id buffer require_status now start_time rounds)
  unfolding execute_action
  execute_action-IsValid m addr port action_id buffer require_status now start_time rounds v =
      let v' = execute_action_async-IsValid m addr port action_id buffer require_status now v in
      Ensures-if Returned require_status _ _
        (Ensures-bind Returned (execute_wait P _ start_time rounds (some timeout) none _) _ λ t e.
          let x =
            Ensures-eq-ok Executed _
              (execute_wait-IsValid _ start_time rounds (some timeout) none _ (λ f. cc) v') e in
          (x.0, call_action-IsValid t.1 t.2 x.1))
        ((λ f. cc), v')

  pub execute_action_by_name-IsValid :
      (m : Manager) (addr port : ℕ) (name buffer : Bytes) (require_status : Bool)
      (now start_time : ℕ) (rounds : List Round)
      → IsValid m
      → Ensures Returned
          (execute_action_by_name P m addr port name buffer require_status now start_time rounds)
  unfolding execute_action_by_name
  execute_action_by_name-IsValid m addr port name buffer require_status now start_time rounds v =
      Ensures-option Returned (lookup_action m addr port name) _ _ ((λ f. cc), v)
        λ ia e.
          execute_action-IsValid m addr port (to_ushort ia.0) buffer require_status now start_time
            rounds v

  fetch_wait-IsValid :
      (req_id start_time : ℕ) (rounds : List Round) (result : Option ActionResponse) (m : Manager)
      → HasStatus result
      → IsValid m
      → Ensures Fetched (fetch_wait P req_id start_time rounds result m)
  unfolding fetch_wait
  fetch_wait-IsValid req_id start_time [] result m s v =
      Ensures-if Fetched (is_null result) _ _ tt (s, v)
  fetch_wait-IsValid req_id start_time (r ∷ rs) result m s v =
      let pv = poll-IsValid m req_id r.taken_at v in
      Ensures-if Fetched (is_null result && in_time r.clock start_time) _ _
        (Ensures-bind Fetched (receive_all P (poll m req_id r.taken_at).1 r.during) _ λ m₂ e.
          fetch_wait-IsValid req_id start_time rs _ m₂
            (taken_result-HasStatus (poll m req_id r.taken_at).0 result pv.0 s)
            (Ensures-eq-ok IsValid _ (receive_all-IsValid _ r.during pv.1) e))
        (s, v)

  -- At a valid manager, if `fetch_action` returns, the status of the response has been written,
  -- unless it returns a null pointer, and the manager is valid again.
  pub fetch_action-IsValid :
      (m : Manager) (addr port action_id : ℕ) (buffer : Bytes) (now start_time : ℕ)
      (rounds : List Round)
      → IsValid m
      → Ensures Fetched (fetch_action P m addr port action_id buffer now start_time rounds)
  unfolding fetch_action
  fetch_action-IsValid m addr port action_id buffer now start_time rounds v =
      let v' = fetch_action_async-IsValid m addr port action_id buffer now v in
      Ensures-bind Fetched (fetch_wait P _ start_time rounds none _) _ λ t e.
        let x = Ensures-eq-ok Fetched _ (fetch_wait-IsValid _ start_time rounds none _ tt v') e in
        (x.0, call_action-IsValid t.0 t.1 x.1)

  pub fetch_action_by_name-IsValid :
      (m : Manager) (addr port : ℕ) (name buffer : Bytes) (now start_time : ℕ) (rounds : List Round)
      → IsValid m
      → Ensures Fetched (fetch_action_by_name P m addr port name buffer now start_time rounds)
  unfolding fetch_action_by_name
  fetch_action_by_name-IsValid m addr port name buffer now start_time rounds v =
      Ensures-option Fetched (lookup_action m addr port name) _ _ (tt, v)
        λ ia e. fetch_action-IsValid m addr port (to_ushort ia.0) buffer now start_time rounds v
